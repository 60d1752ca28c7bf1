-- ===== src/Storage/SsTable/Rows.antt =====
-- crates/infralens-storage/src/sstable.rs: the three record batch builders, as one row per record with
-- its columns in the order of the schema. A text column holds no empty text, but a null.
use infralens.Prelude.{ℕ, Option, none, some, List, [], ◌∷◌, Bytes, ℤ, if◌then◌else◌}
use infralens.Common.Model.{
  AnyValue, AnyMap, is_empty_map, LogRecord, MetricType, HistogramData, MetricPoint, SpanEvent,
  SpanLink, SpanRecord,
}

-- The serialisers that the builders call: serde_json on values, maps, events and links, where
-- `none` is an error, and bincode on the two vectors of a histogram, where an error gives no bytes.
pub record RowCodec : Type 0 where
  pub value_json : AnyValue → Option Bytes
  pub map_json : AnyMap → Option Bytes
  pub events_json : List SpanEvent → Option Bytes
  pub links_json : List SpanLink → Option Bytes
  pub bounds_bytes : List ℕ → Bytes
  pub counts_bytes : List ℕ → Bytes

pub record LogRow : Type 0 where
  pub timestamp_ns : ℕ
  pub observed_timestamp_ns : ℕ
  pub trace_id : Option Bytes
  pub span_id : Option Bytes
  pub severity_number : ℤ
  pub severity_text : Option Bytes
  pub body : Option Bytes
  pub attributes : Option Bytes
  pub resource_attributes : Option Bytes
  pub scope_name : Option Bytes
  pub scope_version : Option Bytes
  pub schema_url : Option Bytes

pub record MetricRow : Type 0 where
  pub timestamp_ns : ℕ
  pub start_timestamp_ns : ℕ
  pub name : Bytes
  pub description : Option Bytes
  pub unit : Option Bytes
  pub metric_type : ℕ
  pub value_double : Option ℕ
  pub value_int : Option ℤ
  pub hist_count : Option ℕ
  pub hist_sum : Option ℕ
  pub hist_bounds : Option Bytes
  pub hist_counts : Option Bytes
  pub attributes : Option Bytes
  pub resource_attributes : Option Bytes
  pub scope_name : Option Bytes
  pub scope_version : Option Bytes
  pub schema_url : Option Bytes

pub record SpanRow : Type 0 where
  pub trace_id : Bytes
  pub span_id : Bytes
  pub parent_span_id : Option Bytes
  pub name : Bytes
  pub kind : ℤ
  pub start_time_ns : ℕ
  pub end_time_ns : ℕ
  pub duration_ns : ℕ
  pub status_code : ℤ
  pub status_message : Option Bytes
  pub attributes : Option Bytes
  pub resource_attributes : Option Bytes
  pub scope_name : Option Bytes
  pub scope_version : Option Bytes
  pub events : Option Bytes
  pub links : Option Bytes
  pub schema_url : Option Bytes

-- `if s.is_empty() { None } else { Some(&s) }`
unfoldable pub non_empty_text : Bytes → Option Bytes
non_empty_text [] = none
non_empty_text (b ∷ bs) = some (b ∷ bs)

unfoldable pub metric_type_id : MetricType → ℕ
metric_type_id MetricType.gauge = 0
metric_type_id (MetricType.sum_type is_monotonic temporality) = 1
metric_type_id (MetricType.histogram_type temporality) = 2
metric_type_id (MetricType.exponential_histogram temporality) = 3
metric_type_id MetricType.summary = 4

module _ (codec : RowCodec) where
  unfoldable pub json_opt : Option AnyValue → Option Bytes
  json_opt none = none
  json_opt (some v) = codec.value_json v

  unfoldable pub json_map : AnyMap → Option Bytes
  json_map m = if is_empty_map m then none else codec.map_json m

  unfoldable pub log_row : LogRecord → LogRow
  log_row r = record {
    timestamp_ns = r.timestamp_ns;
    observed_timestamp_ns = r.observed_timestamp_ns;
    trace_id = r.trace_id;
    span_id = r.span_id;
    severity_number = r.severity_number;
    severity_text = non_empty_text r.severity_text;
    body = json_opt r.body;
    attributes = json_map r.attributes;
    resource_attributes = json_map r.resource_attributes;
    scope_name = non_empty_text r.scope.name;
    scope_version = non_empty_text r.scope.version;
    schema_url = non_empty_text r.schema_url;
  }

  -- The four histogram columns: count, sum, bounds and bucket counts.
  unfoldable pub histogram_columns :
      Option HistogramData → Option ℕ × Option ℕ × Option Bytes × Option Bytes
  histogram_columns none = (none, none, none, none)
  histogram_columns (some h) = (
    some h.count,
    h.sum,
    some (codec.bounds_bytes h.explicit_bounds),
    some (codec.counts_bytes h.bucket_counts),
  )

  unfoldable pub metric_row : MetricPoint → MetricRow
  metric_row r =
      let (hist_count, hist_sum, hist_bounds, hist_counts) = histogram_columns r.histogram in
      record {
        timestamp_ns = r.timestamp_ns;
        start_timestamp_ns = r.start_timestamp_ns;
        name = r.name;
        description = non_empty_text r.description;
        unit = non_empty_text r.unit;
        metric_type = metric_type_id r.metric_type;
        value_double = r.value_double;
        value_int = r.value_int;
        hist_count = hist_count;
        hist_sum = hist_sum;
        hist_bounds = hist_bounds;
        hist_counts = hist_counts;
        attributes = json_map r.attributes;
        resource_attributes = json_map r.resource_attributes;
        scope_name = non_empty_text r.scope.name;
        scope_version = non_empty_text r.scope.version;
        schema_url = non_empty_text r.schema_url;
      }

  unfoldable pub span_row : SpanRecord → SpanRow
  span_row r = record {
    trace_id = r.trace_id;
    span_id = r.span_id;
    parent_span_id = r.parent_span_id;
    name = r.name;
    kind = r.kind;
    start_time_ns = r.start_time_ns;
    end_time_ns = r.end_time_ns;
    duration_ns = r.duration_ns;
    status_code = r.status_code;
    status_message = non_empty_text r.status_message;
    attributes = json_map r.attributes;
    resource_attributes = json_map r.resource_attributes;
    scope_name = non_empty_text r.scope.name;
    scope_version = non_empty_text r.scope.version;
    events = codec.events_json r.events;
    links = codec.links_json r.links;
    schema_url = non_empty_text r.schema_url;
  }
