-- ===== src/Ingest/Normalizer/Records.antt =====
-- What the normaliser makes of the messages: how many records, in which order, and of which shape.
use infralens.Prelude.{
  sym, ℕ, ◌-◌, ◌≡◌, refl, ◌∙◌, ap, Option, none, some, List, [], ◌∷◌, ◌++◌, append_assoc, Bytes,
  length, map, arith, ◌==◌, if◌then◌else◌, ◌&&◌, Bool,
}
use infralens.Common.Model.{AnyMap, InstrumentationScope, LogRecord, MetricPoint, SpanRecord}
use infralens.Ingest.Normalizer.{
  bytes_to_array16, bytes_to_array8, convert_scope, resource_attrs, items_of, scopes_of,
  resources_of, normalise_log, normalise_logs, span_of, normalise_span, normalise_spans,
}
use infralens.Ingest.Normalizer.Metrics.{
  points_of, normalise_metric, normalise_metrics, number_point, histogram_point,
}
use infralens.Ingest.Proto.{
  ProtoLog, Scoped, Resourced, NumberDataPoint, HistogramDataPoint, MetricData, ProtoMetric,
  ProtoSpan,
}

-- All the items of all scopes of all resources, in order.
abbrev scope_items : {A : Type 0} → List (Scoped A) → List A
scope_items [] = []
scope_items (s ∷ ss) = s.items ++ scope_items ss

abbrev pub all_items : {A : Type 0} → List (Resourced A) → List A
all_items [] = []
all_items (r ∷ rs) = scope_items r.scopes ++ all_items rs

module _ {A C : Type 0} (expected : A → List C) where
  abbrev pub gather : List A → List C
  gather [] = []
  gather (x ∷ xs) = expected x ++ gather xs

  gather_append : (xs ys : List A) → gather (xs ++ ys) ≡ gather xs ++ gather ys
  gather_append [] ys = refl
  gather_append (x ∷ xs) ys =
      rw (gather_append xs ys) (sym (append_assoc (expected x) (gather xs) (gather ys)))

-- The loops visit the items in order: a property of what one item gives holds of the whole.
module _ {A B C : Type 0} (convert : AnyMap → InstrumentationScope → Bytes → A → List B)
    (view : B → C) (expected : A → List C)
    (each : (attrs : AnyMap) (scope : InstrumentationScope) (url : Bytes) (x : A)
      → map view (convert attrs scope url x) ≡ expected x) where
  map_append : (xs ys : List B) → map view (xs ++ ys) ≡ map view xs ++ map view ys
  map_append [] ys = refl
  map_append (x ∷ xs) ys = ap (λ l. view x ∷ l) (map_append xs ys)

  items_lem :
      (attrs : AnyMap) (scope : InstrumentationScope) (url : Bytes) (xs : List A)
      → map view (items_of convert attrs scope url xs) ≡ gather expected xs
  unfolding items_of
  items_lem attrs scope url [] = refl
  items_lem attrs scope url (x ∷ xs) =
      map_append (convert attrs scope url x) (items_of convert attrs scope url xs)
      ∙ rw (each attrs scope url x, items_lem attrs scope url xs) refl

  scopes_lem :
      (attrs : AnyMap) (ss : List (Scoped A))
      → map view (scopes_of convert attrs ss) ≡ gather expected (scope_items ss)
  unfolding scopes_of
  scopes_lem attrs [] = refl
  scopes_lem attrs (s ∷ ss) =
      map_append _ (scopes_of convert attrs ss)
      ∙ rw (items_lem attrs (convert_scope s.scope) s.schema_url s.items, scopes_lem attrs ss)
          (sym (gather_append expected s.items (scope_items ss)))

  pub resources_lem :
      (rs : List (Resourced A))
      → map view (resources_of convert rs) ≡ gather expected (all_items rs)
  unfolding resources_of
  resources_lem [] = refl
  resources_lem (r ∷ rs) =
      map_append _ (resources_of convert rs)
      ∙ rw (scopes_lem (resource_attrs r.resource) r.scopes, resources_lem rs)
          (sym (gather_append expected (scope_items r.scopes) (all_items rs)))

-- The times of the data points that the normaliser reads.
abbrev pub point_times : Option MetricData → List ℕ
point_times none = []
point_times (some (MetricData.gauge_data dps)) = map NumberDataPoint.time_unix_nano dps
point_times (some (MetricData.sum_data dps temporality is_monotonic)) =
    map NumberDataPoint.time_unix_nano dps
point_times (some (MetricData.histogram_data dps temporality)) =
    map HistogramDataPoint.time_unix_nano dps
point_times (some MetricData.exponential_histogram_data) = []
point_times (some MetricData.summary_data) = []

abbrev has_ids : ProtoSpan → Bool
has_ids s = (length s.trace_id == 16) && (length s.span_id == 8)

-- The ids, the start and the duration of a span whose ids have their length.
abbrev pub span_view : SpanRecord → Bytes × Bytes × ℕ × ℕ
span_view r = (r.trace_id, r.span_id, r.start_time_ns, r.duration_ns)

abbrev pub valid_span : ProtoSpan → List (Bytes × Bytes × ℕ × ℕ)
valid_span s =
    if has_ids s
    then (
      s.trace_id,
      s.span_id,
      s.start_time_unix_nano,
      s.end_time_unix_nano - s.start_time_unix_nano,
    )
      ∷ []
    else []

map-map {ℓ} :
    {A B C : Type ℓ} (g : B → C) (f : A → B) (xs : List A)
    → map g (map f xs) ≡ map (λ x. g (f x)) xs
map-map g f [] = refl
map-map g f (x ∷ xs) = ap (λ l. g (f x) ∷ l) (map-map g f xs)

metric_times :
    (m : ProtoMetric) (attrs : AnyMap) (scope : InstrumentationScope) (url : Bytes)
    (d : Option MetricData)
    → map MetricPoint.timestamp_ns (points_of m attrs scope url d) ≡ point_times d
unfolding points_of number_point histogram_point
metric_times m attrs scope url none = refl
metric_times m attrs scope url (some (MetricData.gauge_data dps)) =
    map-map MetricPoint.timestamp_ns _ dps
metric_times m attrs scope url (some (MetricData.sum_data dps temporality is_monotonic)) =
    map-map MetricPoint.timestamp_ns _ dps
metric_times m attrs scope url (some (MetricData.histogram_data dps temporality)) =
    map-map MetricPoint.timestamp_ns _ dps
metric_times m attrs scope url (some MetricData.exponential_histogram_data) = refl
metric_times m attrs scope url (some MetricData.summary_data) = refl

span_ids :
    (attrs : AnyMap) (scope : InstrumentationScope) (url : Bytes) (s : ProtoSpan)
    → map span_view (normalise_span attrs scope url s) ≡ valid_span s
unfolding normalise_span bytes_to_array16 bytes_to_array8 span_of
span_ids attrs scope url s = ground arith

log_time :
    (attrs : AnyMap) (scope : InstrumentationScope) (url : Bytes) (r : ProtoLog)
    → map LogRecord.timestamp_ns (normalise_log attrs scope url r) ≡ r.time_unix_nano ∷ []
unfolding normalise_log
log_time attrs scope url r = refl

-- The normaliser visits every item of every scope of every resource in order: the times of the log
-- records are those of all log messages, the times of the metric points those of the data points
-- of all gauges, sums and histograms, and the ids, starts and saturating durations of the spans
-- those of all spans whose ids have 16 and 8 bytes; other metrics and spans give nothing.
pub normalised_lem :
    (logs : List (Resourced ProtoLog)) (metrics : List (Resourced ProtoMetric))
    (spans : List (Resourced ProtoSpan))
    → (map LogRecord.timestamp_ns (normalise_logs logs)
        ≡ gather (λ r. ProtoLog.time_unix_nano r ∷ []) (all_items logs))
      × (map MetricPoint.timestamp_ns (normalise_metrics metrics)
          ≡ gather (λ m. point_times (ProtoMetric.data_points m)) (all_items metrics))
      × (map span_view (normalise_spans spans) ≡ gather valid_span (all_items spans))
unfolding normalise_logs normalise_metrics normalise_spans normalise_metric
normalised_lem logs metrics spans = (
  resources_lem normalise_log LogRecord.timestamp_ns (λ r. r.time_unix_nano ∷ []) log_time logs,
  resources_lem normalise_metric MetricPoint.timestamp_ns (λ m. point_times m.data_points)
      (λ attrs scope url m. metric_times m attrs scope url m.data_points) metrics,
  resources_lem normalise_span span_view valid_span span_ids spans,
)
