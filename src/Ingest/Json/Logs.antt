-- ===== src/Ingest/Json/Logs.antt =====
-- The two wire formats agree: log messages written as JSON are decoded to the records that the
-- normaliser makes of the messages.
use infralens.Prelude.{ℕ, ◌/◌, ◌%◌, ◌<◌, ◌≡◌, Option, none, some, List, [], ◌∷◌, Bytes, codes, All}
use infralens.Common.Model.{AnyMap, LogRecord}
use infralens.Ingest.Json.{Value, Readers}
use infralens.Ingest.Json.Agreement.{Printers, IsPlain, HasPlain}
use infralens.Ingest.Json.Ids.{hex_digit, hex_text}
use infralens.Ingest.Json.Records.{as_i32, decode_scoped, decode_resource, decode_log}
use infralens.Ingest.Proto.{ProtoAnyValue, KeyValues, ProtoScope, ProtoLog, Scoped, Resourced}

module _ (printers : Printers) (readers : Readers)
    (reads : (b : ℕ)
      → b < 256
      → readers.from_hex (hex_digit (b / 16) ∷ hex_digit (b % 16) ∷ []) ≡ some b) where
  -- An id of bytes whose text is not trimmed.
  abbrev pub IsId : Bytes → Type 0
  IsId id = All (λ b. b < 256) id × (readers.trim (hex_text id) ≡ hex_text id)

  abbrev pub PlainBody : Option ProtoAnyValue → Type 0
  PlainBody none = Unit
  PlainBody (some v) = IsPlain printers readers v

  abbrev pub PlainAttrs : Option KeyValues → Type 0
  PlainAttrs none = Unit
  PlainAttrs (some kvs) = HasPlain printers readers kvs

  abbrev pub PlainScope : Option ProtoScope → Type 0
  PlainScope none = Unit
  PlainScope (some s) = HasPlain printers readers s.attributes

  -- A log whose numbers are read back from their texts, and whose values have forms of both formats.
  pub record IsReadable (r : ProtoLog) : Type 0 where
    pub time : readers.parse_u64 (printers.print_u64 r.time_unix_nano) ≡ some r.time_unix_nano
    pub observed :
        readers.parse_u64 (printers.print_u64 r.observed_time_unix_nano)
        ≡ some r.observed_time_unix_nano
    pub severity :
        readers.number_i64 (printers.print_i64 r.severity_number) ≡ some r.severity_number
    pub severity_range : as_i32 r.severity_number ≡ r.severity_number
    pub trace : IsId r.trace_id
    pub span : IsId r.span_id
    pub body : PlainBody r.body
    pub attributes : HasPlain printers readers r.attributes

  abbrev pub ReadableScope : Scoped ProtoLog → Type 0
  ReadableScope s = PlainScope s.scope × All IsReadable s.items

  abbrev pub ReadableResource : Resourced ProtoLog → Type 0
  ReadableResource r = PlainAttrs r.resource × All ReadableScope r.scopes

  abbrev decode_scope_logs : AnyMap → Value → Option (List LogRecord)
  decode_scope_logs =
      decode_scoped readers (codes "resourceLogs") (codes "scopeLogs") (codes "logRecords")
        (decode_log readers)

  abbrev decode_resource_logs : Value → Option (List LogRecord)
  decode_resource_logs =
      decode_resource readers (codes "resourceLogs") (codes "scopeLogs") (codes "logRecords")
        (decode_log readers)
