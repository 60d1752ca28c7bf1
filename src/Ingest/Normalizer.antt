-- ===== src/Ingest/Normalizer.antt =====
-- crates/infralens-ingest/src/normalizer.rs: OTLP messages to records; metrics are in
-- Normalizer.Metrics. The loops that push to a vector are lists built in the same order.
pub mod Metrics
pub mod Attributes
pub mod Records
pub mod Spans
use infralens.Prelude.{
  ℕ, ◌-◌, Bool, Option, none, some, List, [], ◌∷◌, ◌++◌, Bytes, ℤ, pos, length, map, ◌==◌,
  if◌then◌else◌, get_or_else, ◌>>=◌,
}
use infralens.Common.Model
use infralens.Common.Model.{
  AnyValue, AnyValues, AnyMap, map_insert, InstrumentationScope, LogRecord, SpanEvent, SpanLink,
  SpanRecord,
}
use infralens.Ingest.Proto.{
  ProtoAnyValue, ProtoAnyValues, KeyValues, ProtoScope, ProtoLog, Scoped, Resourced, ProtoEvent,
  ProtoLink, ProtoStatus, ProtoSpan,
}

-- `convert_entries` collects the pairs of a list into a map; a key without a value gets the empty text.
unfoldable mutual
  pub convert_any_value : ProtoAnyValue → AnyValue
  convert_any_value ProtoAnyValue.no_value = AnyValue.string []
  convert_any_value (ProtoAnyValue.string_value s) = AnyValue.string s
  convert_any_value (ProtoAnyValue.bool_value b) = AnyValue.bool b
  convert_any_value (ProtoAnyValue.int_value i) = AnyValue.int i
  convert_any_value (ProtoAnyValue.double_value d) = AnyValue.double d
  convert_any_value (ProtoAnyValue.bytes_value b) = AnyValue.binary b
  convert_any_value (ProtoAnyValue.array_value a) = AnyValue.array (convert_elements a)
  convert_any_value (ProtoAnyValue.kvlist_value kvs) =
      AnyValue.table (convert_entries kvs AnyMap.no_entries)

  pub convert_elements : ProtoAnyValues → AnyValues
  convert_elements ProtoAnyValues.no_elements = AnyValues.no_values
  convert_elements (ProtoAnyValues.element v vs) =
      AnyValues.more_values (convert_any_value v) (convert_elements vs)

  pub convert_entries : KeyValues → AnyMap → AnyMap
  convert_entries KeyValues.no_pairs m = m
  convert_entries (KeyValues.pair k v kvs) m =
      convert_entries kvs (map_insert k (convert_any_value v) m)
  convert_entries (KeyValues.bare_key k kvs) m =
      convert_entries kvs (map_insert k (AnyValue.string []) m)

-- A key without a value is skipped.
unfoldable pub convert_attrs_into : KeyValues → AnyMap → AnyMap
convert_attrs_into KeyValues.no_pairs m = m
convert_attrs_into (KeyValues.pair k v kvs) m =
    convert_attrs_into kvs (map_insert k (convert_any_value v) m)
convert_attrs_into (KeyValues.bare_key k kvs) m = convert_attrs_into kvs m

unfoldable pub convert_attrs : KeyValues → AnyMap
convert_attrs kvs = convert_attrs_into kvs AnyMap.no_entries

unfoldable pub convert_scope : Option ProtoScope → InstrumentationScope
convert_scope none = record { name = []; version = []; attributes = AnyMap.no_entries }
convert_scope (some s) = record {
  name = s.name;
  version = s.version;
  attributes = convert_attrs s.attributes;
}

unfoldable pub bytes_to_array16 : Bytes → Option Bytes
bytes_to_array16 b = if length b == 16 then some b else none

unfoldable pub bytes_to_array8 : Bytes → Option Bytes
bytes_to_array8 b = if length b == 8 then some b else none

unfoldable pub resource_attrs : Option KeyValues → AnyMap
resource_attrs none = AnyMap.no_entries
resource_attrs (some kvs) = convert_attrs kvs

-- The two outer loops, which the three signals share: `convert` is the body of the innermost one.
module _ {A B : Type 0} (convert : AnyMap → InstrumentationScope → Bytes → A → List B) where
  unfoldable pub items_of : AnyMap → InstrumentationScope → Bytes → List A → List B
  items_of attrs scope schema_url [] = []
  items_of attrs scope schema_url (x ∷ xs) =
      convert attrs scope schema_url x ++ items_of attrs scope schema_url xs

  unfoldable pub scopes_of : AnyMap → List (Scoped A) → List B
  scopes_of attrs [] = []
  scopes_of attrs (s ∷ ss) =
      items_of attrs (convert_scope s.scope) s.schema_url s.items ++ scopes_of attrs ss

  unfoldable pub resources_of : List (Resourced A) → List B
  resources_of [] = []
  resources_of (r ∷ rs) = scopes_of (resource_attrs r.resource) r.scopes ++ resources_of rs

unfoldable pub normalise_log : AnyMap → InstrumentationScope → Bytes → ProtoLog → List LogRecord
normalise_log attrs scope schema_url r =
    record {
      timestamp_ns = r.time_unix_nano;
      observed_timestamp_ns = r.observed_time_unix_nano;
      trace_id = bytes_to_array16 r.trace_id;
      span_id = bytes_to_array8 r.span_id;
      severity_number = r.severity_number;
      severity_text = r.severity_text;
      body = (do v ← r.body; some (convert_any_value v));
      attributes = convert_attrs r.attributes;
      resource_attributes = attrs;
      scope = scope;
      schema_url = schema_url;
    }
    ∷ []

unfoldable pub normalise_logs : List (Resourced ProtoLog) → List LogRecord
normalise_logs resource_logs = resources_of normalise_log resource_logs

unfoldable pub event_of : ProtoEvent → SpanEvent
event_of e = record {
  timestamp_ns = e.time_unix_nano;
  name = e.name;
  attributes = convert_attrs e.attributes;
}

-- A link is kept if both of its ids have their length.
unfoldable pub link_of : ProtoLink → Option SpanLink
link_of l = do
  trace_id ← bytes_to_array16 l.trace_id
  span_id ← bytes_to_array8 l.span_id
  some (record {
    trace_id = trace_id;
    span_id = span_id;
    trace_state = l.trace_state;
    attributes = convert_attrs l.attributes;
  })

abbrev pub add_link : Option SpanLink → List SpanLink → List SpanLink
add_link none rest = rest
add_link (some l) rest = l ∷ rest

unfoldable pub links_of : List ProtoLink → List SpanLink
links_of [] = []
links_of (l ∷ ls) = add_link (link_of l) (links_of ls)

unfoldable pub status_code_of : Option ProtoStatus → ℤ
status_code_of none = pos 0
status_code_of (some s) = s.code

unfoldable pub status_message_of : Option ProtoStatus → Bytes
status_message_of none = []
status_message_of (some s) = s.message

-- The subtraction saturates.
unfoldable pub span_of :
    AnyMap → InstrumentationScope → Bytes → ProtoSpan → Bytes → Bytes → SpanRecord
span_of attrs scope schema_url s trace_id span_id = record {
  trace_id = trace_id;
  span_id = span_id;
  parent_span_id = bytes_to_array8 s.parent_span_id;
  name = s.name;
  kind = s.kind;
  start_time_ns = s.start_time_unix_nano;
  end_time_ns = s.end_time_unix_nano;
  duration_ns = s.end_time_unix_nano - s.start_time_unix_nano;
  status_code = status_code_of s.status;
  status_message = status_message_of s.status;
  attributes = convert_attrs s.attributes;
  resource_attributes = attrs;
  scope = scope;
  events = map event_of s.events;
  links = links_of s.links;
  schema_url = schema_url;
}

-- A span whose ids have a wrong length is left out.
unfoldable pub normalise_span : AnyMap → InstrumentationScope → Bytes → ProtoSpan → List SpanRecord
normalise_span attrs scope schema_url s = elim (bytes_to_array16 s.trace_id) [
  | none ↦ []
  | some trace_id ↦ elim (bytes_to_array8 s.span_id) [
    | none ↦ []
    | some span_id ↦ span_of attrs scope schema_url s trace_id span_id ∷ []
  ]
]

unfoldable pub normalise_spans : List (Resourced ProtoSpan) → List SpanRecord
normalise_spans resource_spans = resources_of normalise_span resource_spans
