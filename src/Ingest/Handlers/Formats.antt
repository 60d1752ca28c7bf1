-- ===== src/Ingest/Handlers/Formats.antt =====
-- The same logs by the three ways into the pipeline: JSON and protobuf over HTTP, and gRPC.
use infralens.Prelude.{ℕ, ◌/◌, ◌%◌, ◌<◌, ◌≡◌, some, List, [], ◌∷◌, Bytes, codes}
use infralens.Common.Model.{IngestBatch, SignalType}
use infralens.Ingest.Handlers.{HandlerParams, Response, submit_records}
use infralens.Ingest.Json.{Value}
use infralens.Ingest.Json.Agreement.{Printers}
use infralens.Ingest.Json.Ids.{hex_digit}
use infralens.Ingest.Json.Messages.{json_message, json_log}
use infralens.Ingest.Json.Records.{decode_logs}
use infralens.Ingest.Normalizer.{normalise_logs}
use infralens.Ingest.Pipeline.{IngestPipeline}
use infralens.Ingest.Proto.{ProtoLog, Resourced}

module _ (params : HandlerParams) (printers : Printers)
    (reads : (b : ℕ)
      → b < 256
      → params.readers.from_hex (hex_digit (b / 16) ∷ hex_digit (b % 16) ∷ []) ≡ some b) where
  abbrev pub json_logs : List (Resourced ProtoLog) → Value
  json_logs rs =
      json_message printers (json_log printers) (codes "resourceLogs") (codes "scopeLogs")
        (codes "logRecords") rs

  abbrev submitted_logs :
      Bytes → IngestPipeline → List (Resourced ProtoLog) → Response × IngestPipeline
  submitted_logs ct p rs =
      submit_records params SignalType.log IngestBatch.logs (decode_logs params.readers)
        params.logs_request normalise_logs ct p (normalise_logs rs)
