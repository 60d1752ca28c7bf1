-- ===== src/Common/Model.antt =====
-- crates/infralens-common/src/model.rs: the records of the three signals. A text is its UTF-8 bytes,
-- a floating-point number its 64 bits, and a trace or span id its bytes. A hash map is a list of
-- entries with distinct keys, in the order in which the keys were first inserted: the source never
-- relies on the order in which it iterates.
use infralens.Prelude.{
  ℕ, Bool, true, false, Option, none, some, List, Bytes, Result, ok, err, ℤ, length, list_eq, ◌==◌,
  if◌then◌else◌,
}

pub data SignalType : Type 0 where
  log : SignalType
  metric : SignalType
  span : SignalType

pub data CommonError : Type 0 where
  invalid_signal_type : ℕ → CommonError
  serialisation : Bytes → CommonError
  io : Bytes → CommonError

-- `as u8`
unfoldable pub as_u8 : SignalType → ℕ
as_u8 log = 0
as_u8 metric = 1
as_u8 span = 2

unfoldable pub try_from : ℕ → Result SignalType CommonError
try_from v =
    if v == 0
    then ok log
    else if v == 1
    then ok metric
    else if v == 2
    then ok span
    else err (invalid_signal_type v)

mutual
  pub data AnyValue : Type 0 where
    string : Bytes → AnyValue
    bool : Bool → AnyValue
    int : ℤ → AnyValue
    double : ℕ → AnyValue
    binary : Bytes → AnyValue
    array : AnyValues → AnyValue
    table : AnyMap → AnyValue

  pub data AnyValues : Type 0 where
    no_values : AnyValues
    more_values : AnyValue → AnyValues → AnyValues

  pub data AnyMap : Type 0 where
    no_entries : AnyMap
    entry : Bytes → AnyValue → AnyMap → AnyMap

-- `HashMap::insert`: a new value replaces the old one of the same key.
unfoldable pub map_insert : Bytes → AnyValue → AnyMap → AnyMap
map_insert k v no_entries = entry k v no_entries
map_insert k v (entry j w m) =
    let rest = map_insert k v m in if list_eq k j then entry j v m else entry j w rest

unfoldable pub map_get : Bytes → AnyMap → Option AnyValue
map_get k no_entries = none
map_get k (entry j w m) = let rest = map_get k m in if list_eq k j then some w else rest

unfoldable pub is_empty_map : AnyMap → Bool
is_empty_map no_entries = true
is_empty_map (entry k v m) = false

pub record InstrumentationScope : Type 0 where
  pub name : Bytes
  pub version : Bytes
  pub attributes : AnyMap

pub record LogRecord : Type 0 where
  pub timestamp_ns : ℕ
  pub observed_timestamp_ns : ℕ
  pub trace_id : Option Bytes
  pub span_id : Option Bytes
  pub severity_number : ℤ
  pub severity_text : Bytes
  pub body : Option AnyValue
  pub attributes : AnyMap
  pub resource_attributes : AnyMap
  pub scope : InstrumentationScope
  pub schema_url : Bytes

-- `Sum { is_monotonic, temporality }`, and the temporality of the histograms.
pub data MetricType : Type 0 where
  gauge : MetricType
  sum_type : Bool → ℤ → MetricType
  histogram_type : ℤ → MetricType
  exponential_histogram : ℤ → MetricType
  summary : MetricType

pub record HistogramData : Type 0 where
  pub count : ℕ
  pub sum : Option ℕ
  pub min : Option ℕ
  pub max : Option ℕ
  pub explicit_bounds : List ℕ
  pub bucket_counts : List ℕ

pub record MetricPoint : Type 0 where
  pub timestamp_ns : ℕ
  pub start_timestamp_ns : ℕ
  pub name : Bytes
  pub description : Bytes
  pub unit : Bytes
  pub metric_type : MetricType
  pub value_double : Option ℕ
  pub value_int : Option ℤ
  pub histogram : Option HistogramData
  pub attributes : AnyMap
  pub resource_attributes : AnyMap
  pub scope : InstrumentationScope
  pub schema_url : Bytes

pub record SpanEvent : Type 0 where
  pub timestamp_ns : ℕ
  pub name : Bytes
  pub attributes : AnyMap

pub record SpanLink : Type 0 where
  pub trace_id : Bytes
  pub span_id : Bytes
  pub trace_state : Bytes
  pub attributes : AnyMap

pub record SpanRecord : Type 0 where
  pub trace_id : Bytes
  pub span_id : Bytes
  pub parent_span_id : Option Bytes
  pub name : Bytes
  pub kind : ℤ
  pub start_time_ns : ℕ
  pub end_time_ns : ℕ
  pub duration_ns : ℕ
  pub status_code : ℤ
  pub status_message : Bytes
  pub attributes : AnyMap
  pub resource_attributes : AnyMap
  pub scope : InstrumentationScope
  pub events : List SpanEvent
  pub links : List SpanLink
  pub schema_url : Bytes

pub data IngestBatch : Type 0 where
  logs : List LogRecord → IngestBatch
  metrics : List MetricPoint → IngestBatch
  spans : List SpanRecord → IngestBatch

unfoldable pub signal_type : IngestBatch → SignalType
signal_type (logs v) = log
signal_type (metrics v) = metric
signal_type (spans v) = span

unfoldable pub batch_len : IngestBatch → ℕ
batch_len (logs v) = length v
batch_len (metrics v) = length v
batch_len (spans v) = length v

unfoldable pub batch_is_empty : IngestBatch → Bool
batch_is_empty b = batch_len b == 0
