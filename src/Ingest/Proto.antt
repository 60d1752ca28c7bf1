-- ===== src/Ingest/Proto.antt =====
-- The OTLP messages that the normaliser reads (proto/opentelemetry/proto), as far as it reads them. A
-- floating-point number is its 64 bits, an id the bytes that the client sent.
use infralens.Prelude.{ℕ, Bool, Option, List, Bytes, ℤ}

-- `AnyValue` with its `value`, and `KeyValue`, whose value may be absent.
mutual
  pub data ProtoAnyValue : Type 0 where
    no_value : ProtoAnyValue
    string_value : Bytes → ProtoAnyValue
    bool_value : Bool → ProtoAnyValue
    int_value : ℤ → ProtoAnyValue
    double_value : ℕ → ProtoAnyValue
    bytes_value : Bytes → ProtoAnyValue
    array_value : ProtoAnyValues → ProtoAnyValue
    kvlist_value : KeyValues → ProtoAnyValue

  pub data ProtoAnyValues : Type 0 where
    no_elements : ProtoAnyValues
    element : ProtoAnyValue → ProtoAnyValues → ProtoAnyValues

  pub data KeyValues : Type 0 where
    no_pairs : KeyValues
    pair : Bytes → ProtoAnyValue → KeyValues → KeyValues
    bare_key : Bytes → KeyValues → KeyValues

pub record ProtoScope : Type 0 where
  pub name : Bytes
  pub version : Bytes
  pub attributes : KeyValues

pub record ProtoLog : Type 0 where
  pub time_unix_nano : ℕ
  pub observed_time_unix_nano : ℕ
  pub severity_number : ℤ
  pub severity_text : Bytes
  pub body : Option ProtoAnyValue
  pub attributes : KeyValues
  pub trace_id : Bytes
  pub span_id : Bytes

-- The items of one scope: `ScopeLogs`, `ScopeMetrics` and `ScopeSpans`.
pub record Scoped (A : Type 0) : Type 0 where
  pub scope : Option ProtoScope
  pub items : List A
  pub schema_url : Bytes

-- The scopes of one resource: `ResourceLogs`, `ResourceMetrics` and `ResourceSpans`.
pub record Resourced (A : Type 0) : Type 0 where
  pub resource : Option KeyValues
  pub scopes : List (Scoped A)

pub data NumberValue : Type 0 where
  as_double : ℕ → NumberValue
  as_int : ℤ → NumberValue

pub record NumberDataPoint : Type 0 where
  pub attributes : KeyValues
  pub start_time_unix_nano : ℕ
  pub time_unix_nano : ℕ
  pub value : Option NumberValue

pub record HistogramDataPoint : Type 0 where
  pub attributes : KeyValues
  pub start_time_unix_nano : ℕ
  pub time_unix_nano : ℕ
  pub count : ℕ
  pub sum : Option ℕ
  pub min : Option ℕ
  pub max : Option ℕ
  pub bucket_counts : List ℕ
  pub explicit_bounds : List ℕ

-- The two kinds that the normaliser skips carry nothing here.
pub data MetricData : Type 0 where
  gauge_data : List NumberDataPoint → MetricData
  sum_data : List NumberDataPoint → ℤ → Bool → MetricData
  histogram_data : List HistogramDataPoint → ℤ → MetricData
  exponential_histogram_data : MetricData
  summary_data : MetricData

pub record ProtoMetric : Type 0 where
  pub name : Bytes
  pub description : Bytes
  pub unit : Bytes
  pub data_points : Option MetricData

pub record ProtoEvent : Type 0 where
  pub time_unix_nano : ℕ
  pub name : Bytes
  pub attributes : KeyValues

pub record ProtoLink : Type 0 where
  pub trace_id : Bytes
  pub span_id : Bytes
  pub trace_state : Bytes
  pub attributes : KeyValues

pub record ProtoStatus : Type 0 where
  pub message : Bytes
  pub code : ℤ

pub record ProtoSpan : Type 0 where
  pub trace_id : Bytes
  pub span_id : Bytes
  pub parent_span_id : Bytes
  pub name : Bytes
  pub kind : ℤ
  pub start_time_unix_nano : ℕ
  pub end_time_unix_nano : ℕ
  pub attributes : KeyValues
  pub events : List ProtoEvent
  pub links : List ProtoLink
  pub status : Option ProtoStatus
