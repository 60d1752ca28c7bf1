-- ===== src/Ingest/Json/Records.antt =====
-- crates/infralens-ingest/src/json_decoder.rs: `decode_logs`, `decode_metrics` and `decode_spans`. The
-- loops that push to a vector are lists built in the same order; `none` is a panic in a text id.
use infralens.Prelude.{
  ◌-◌, ◌%◌, ◌^◌, false, Option, none, some, List, [], ◌∷◌, ◌++◌, map, Bytes, codes, ℤ, pos, negsuc,
  get_or_else, ltb, if◌then◌else◌, ◌>>=◌,
}
use infralens.Common.Model.{
  AnyMap, InstrumentationScope, LogRecord, MetricType, MetricPoint, SpanEvent, SpanLink, SpanRecord,
}
use infralens.Ingest.Json.{
  Value, Readers, get, as_str, as_bool, field, text_of, items_at, as_i64, as_f64, nanos,
  decode_any_value, attrs_at, attrs_of, decode_scope, hex_to_16, hex_to_8, id_at,
}

-- `as i32`
unfoldable pub as_i32 : ℤ → ℤ
as_i32 (pos n) =
    let low = n % 2 ^ 32 in if ltb low (2 ^ 31) then pos low else negsuc (2 ^ 32 - 1 - low)
as_i32 (negsuc n) =
    let low = n % 2 ^ 32 in if ltb low (2 ^ 31) then negsuc low else pos (2 ^ 32 - 1 - low)

-- A loop whose body gives some records, or panics.
unfoldable pub push_all : {A B : Type 0} → (A → Option (List B)) → List A → Option (List B)
push_all f [] = some []
push_all f (x ∷ xs) = do here ← f x; later ← push_all f xs; some (here ++ later)

module _ (readers : Readers) where
  abbrev pub small_int : Bytes → Value → ℤ
  small_int key v = as_i32 (get_or_else (field (as_i64 readers) key v) (pos 0))

  -- The three loops that the signals share: the keys of the resources, of the scopes and of the items,
  -- and the body of the innermost one.
  module _ {B : Type 0} (outer middle inner : Bytes)
      (decode : AnyMap → InstrumentationScope → Bytes → Value → Option (List B)) where
    unfoldable pub decode_scoped : AnyMap → Value → Option (List B)
    decode_scoped resource_attrs s =
        push_all
          (decode resource_attrs (decode_scope readers (get (codes "scope") s))
            (text_of (codes "schemaUrl") s))
          (items_at (get inner s))

    unfoldable pub decode_resource : Value → Option (List B)
    decode_resource r =
        push_all
          (decode_scoped (attrs_at readers (get (codes "resource") r >>= get (codes "attributes"))))
          (items_at (get middle r))

    unfoldable pub decode_resources : Value → Option (List B)
    decode_resources json = push_all decode_resource (items_at (get outer json))

  unfoldable pub decode_log :
      AnyMap → InstrumentationScope → Bytes → Value → Option (List LogRecord)
  decode_log resource_attrs scope schema r = do
    trace_id ← id_at readers (hex_to_16 readers) (codes "traceId") r
    span_id ← id_at readers (hex_to_8 readers) (codes "spanId") r
    let ts = nanos readers (codes "timeUnixNano") 0 r
    some (
        record {
          timestamp_ns = ts;
          observed_timestamp_ns = nanos readers (codes "observedTimeUnixNano") ts r;
          trace_id = trace_id;
          span_id = span_id;
          severity_number = small_int (codes "severityNumber") r;
          severity_text = text_of (codes "severityText") r;
          body = (do v ← get (codes "body") r; some (decode_any_value readers v));
          attributes = attrs_of readers r;
          resource_attributes = resource_attrs;
          scope = scope;
          schema_url = schema;
        }
        ∷ [])

  unfoldable pub decode_logs : Value → Option (List LogRecord)
  decode_logs json =
      decode_resources (codes "resourceLogs") (codes "scopeLogs") (codes "logRecords") decode_log
        json

  unfoldable pub decode_point :
      Value → MetricType → AnyMap → InstrumentationScope → Bytes → Value → MetricPoint
  decode_point m metric_type resource_attrs scope schema dp = record {
    timestamp_ns = nanos readers (codes "timeUnixNano") 0 dp;
    start_timestamp_ns = nanos readers (codes "startTimeUnixNano") 0 dp;
    name = text_of (codes "name") m;
    description = text_of (codes "description") m;
    unit = text_of (codes "unit") m;
    metric_type = metric_type;
    value_double = field (as_f64 readers) (codes "asDouble") dp;
    value_int = field (as_i64 readers) (codes "asInt") dp;
    histogram = none;
    attributes = attrs_of readers dp;
    resource_attributes = resource_attrs;
    scope = scope;
    schema_url = schema;
  }

  -- The data points of one kind of data, if the metric has it.
  abbrev pub points_at : (Value → Value → MetricPoint) → Option Value → List MetricPoint
  points_at point none = []
  points_at point (some d) = map (point d) (items_at (get (codes "dataPoints") d))

  abbrev pub sum_type_of : Value → MetricType
  sum_type_of sum =
      MetricType.sum_type (get_or_else (field as_bool (codes "isMonotonic") sum) false)
        (small_int (codes "aggregationTemporality") sum)

  unfoldable pub decode_metric :
      AnyMap → InstrumentationScope → Bytes → Value → Option (List MetricPoint)
  decode_metric resource_attrs scope schema m = some (
      points_at (λ d. decode_point m MetricType.gauge resource_attrs scope schema)
        (get (codes "gauge") m)
      ++ points_at (λ d. decode_point m (sum_type_of d) resource_attrs scope schema)
          (get (codes "sum") m))

  unfoldable pub decode_metrics : Value → Option (List MetricPoint)
  decode_metrics json =
      decode_resources (codes "resourceMetrics") (codes "scopeMetrics") (codes "metrics")
        decode_metric json

  unfoldable pub decode_event : Value → SpanEvent
  decode_event e = record {
    timestamp_ns = nanos readers (codes "timeUnixNano") 0 e;
    name = text_of (codes "name") e;
    attributes = attrs_of readers e;
  }

  abbrev pub link_with : Option Bytes → Option Bytes → Value → List SpanLink
  link_with (some trace_id) (some span_id) l =
      record {
        trace_id = trace_id;
        span_id = span_id;
        trace_state = text_of (codes "traceState") l;
        attributes = attrs_of readers l;
      }
      ∷ []
  link_with _ _ l = []

  -- The span id is read only if the trace id is one.
  abbrev pub link_from : Option Bytes → Value → Option (List SpanLink)
  link_from none l = some []
  link_from (some trace_id) l = do
    span_id ← id_at readers (hex_to_8 readers) (codes "spanId") l
    some (link_with (some trace_id) span_id l)

  unfoldable pub decode_link : Value → Option (List SpanLink)
  decode_link l = do
    trace_id ← id_at readers (hex_to_16 readers) (codes "traceId") l
    link_from trace_id l

  unfoldable pub decode_span_with :
      AnyMap → InstrumentationScope → Bytes → Value → Bytes → Bytes → Option (List SpanRecord)
  decode_span_with resource_attrs scope schema s trace_id span_id = do
    parent ← id_at readers (hex_to_8 readers) (codes "parentSpanId") s
    links ← push_all decode_link (items_at (get (codes "links") s))
    let start_ns = nanos readers (codes "startTimeUnixNano") 0 s
    let end_ns = nanos readers (codes "endTimeUnixNano") 0 s
    some (
        record {
          trace_id = trace_id;
          span_id = span_id;
          parent_span_id = parent;
          name = text_of (codes "name") s;
          kind = small_int (codes "kind") s;
          start_time_ns = start_ns;
          end_time_ns = end_ns;
          duration_ns = end_ns - start_ns;
          status_code = as_i32 (
              get_or_else (get (codes "status") s >>= field (as_i64 readers) (codes "code"))
                (pos 0));
          status_message =
              get_or_else (get (codes "status") s >>= field as_str (codes "message")) [];
          attributes = attrs_of readers s;
          resource_attributes = resource_attrs;
          scope = scope;
          events = map decode_event (items_at (get (codes "events") s));
          links = links;
          schema_url = schema;
        }
        ∷ [])

  abbrev pub decode_span_at :
      AnyMap
      → InstrumentationScope
      → Bytes
      → Value
      → Bytes
      → Option Bytes
      → Option (List SpanRecord)
  decode_span_at resource_attrs scope schema s trace_id none = some []
  decode_span_at resource_attrs scope schema s trace_id (some span_id) =
      decode_span_with resource_attrs scope schema s trace_id span_id

  -- A span without a valid id is left out, and what is behind the first such id is not read.
  unfoldable pub decode_span_from :
      AnyMap → InstrumentationScope → Bytes → Value → Option Bytes → Option (List SpanRecord)
  decode_span_from resource_attrs scope schema s none = some []
  decode_span_from resource_attrs scope schema s (some trace_id) =
      id_at readers (hex_to_8 readers) (codes "spanId") s
      >>= (decode_span_at resource_attrs scope schema s trace_id)

  unfoldable pub decode_span :
      AnyMap → InstrumentationScope → Bytes → Value → Option (List SpanRecord)
  decode_span resource_attrs scope schema s = do
    trace_id ← id_at readers (hex_to_16 readers) (codes "traceId") s
    decode_span_from resource_attrs scope schema s trace_id

  unfoldable pub decode_spans : Value → Option (List SpanRecord)
  decode_spans json =
      decode_resources (codes "resourceSpans") (codes "scopeSpans") (codes "spans") decode_span json
