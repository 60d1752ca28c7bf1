-- ===== src/Ingest/Json/Messages.antt =====
-- Messages of logs written in OTLP's JSON, as the decoder reads them.
use infralens.Prelude.{Option, none, some, List, [], ◌∷◌, Bytes, codes}
use infralens.Ingest.Json.{
  Value, Values, Members, number, text, list, object, no_items, item, no_members, member,
}
use infralens.Ingest.Json.Agreement.{Printers, json_any, json_pairs}
use infralens.Ingest.Json.Ids.{hex_text}
use infralens.Ingest.Proto.{KeyValues, ProtoScope, ProtoLog, Scoped, Resourced}

abbrev pub json_list : {A : Type 0} → (A → Value) → List A → Values
json_list f [] = no_items
json_list f (x ∷ xs) = item (f x) (json_list f xs)

-- A last member, which may be absent.
abbrev pub with_member : {A : Type 0} → Bytes → (A → Value) → Option A → Members
with_member key f none = no_members
with_member key f (some a) = member key (f a) no_members

module _ (printers : Printers) where
  abbrev pub json_attributes : KeyValues → Value
  json_attributes kvs =
      object (member (codes "attributes") (list (json_pairs printers kvs)) no_members)

  abbrev pub json_scope : ProtoScope → Value
  json_scope s = object (
      member (codes "name") (text s.name) (
        member (codes "version") (text s.version)
          (member (codes "attributes") (list (json_pairs printers s.attributes)) no_members)))

  -- One scope, one resource and the whole message of a signal.
  module _ {A : Type 0} (json : A → Value) where
    abbrev pub json_scoped : Bytes → Scoped A → Value
    json_scoped inner s = object (
        member (codes "schemaUrl") (text s.schema_url) (
          member inner (list (json_list json s.items))
            (with_member (codes "scope") json_scope s.scope)))

    abbrev pub json_resource : Bytes → Bytes → Resourced A → Value
    json_resource middle inner r = object (
        member middle (list (json_list (json_scoped inner) r.scopes))
          (with_member (codes "resource") json_attributes r.resource))

    abbrev pub json_message : Bytes → Bytes → Bytes → List (Resourced A) → Value
    json_message outer middle inner rs =
        object (member outer (list (json_list (json_resource middle inner) rs)) no_members)

  unfoldable pub json_log : ProtoLog → Value
  json_log r = object (
      member (codes "timeUnixNano") (text (printers.print_u64 r.time_unix_nano)) (
        member (codes "observedTimeUnixNano") (text (printers.print_u64 r.observed_time_unix_nano))
          (member (codes "traceId") (text (hex_text r.trace_id)) (
            member (codes "spanId") (text (hex_text r.span_id)) (
              member (codes "severityNumber") (number (printers.print_i64 r.severity_number)) (
                member (codes "severityText") (text r.severity_text) (
                  member (codes "attributes") (list (json_pairs printers r.attributes))
                    (with_member (codes "body") (json_any printers) r.body))))))))
