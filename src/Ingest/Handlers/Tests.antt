-- ===== src/Ingest/Handlers/Tests.antt =====
-- The handlers at concrete inputs: every body is the two messages of Json.Tests.
use infralens.Prelude.{◌≡◌, refl, Option, some, [], Bytes, codes, ok, err}
use infralens.Common.Model.{IngestBatch, SignalType}
use infralens.Ingest.Handlers
use infralens.Ingest.Handlers.{
  HandlerParams, StatusCode, content_type, starts_with, handle, handle_logs,
}
use infralens.Ingest.Handlers.Answers.{Answered, handle_lem}
use infralens.Ingest.Json.Records.{decode_logs}
use infralens.Ingest.Json.Tests.{readers, printers, messages}
use infralens.Ingest.Normalizer.{normalise_logs}
use infralens.Ingest.Pipeline.{IngestPipeline}
use infralens.Storage.Engine.Tests.{engine}

abbrev params : HandlerParams
params = record {
  readers = readers;
  header_text = some;
  from_slice = λ body. ok (
      infralens.Ingest.Json.Messages.json_message printers
        (infralens.Ingest.Json.Messages.json_log printers) (codes "resourceLogs")
        (codes "scopeLogs") (codes "logRecords") messages);
  logs_request = λ body. ok messages;
  metrics_request = λ body. ok [];
  trace_request = λ body. err (codes "eof");
  default_response = λ signal. [];
  error_text = λ e. codes "full";
}

abbrev pipeline : IngestPipeline
pipeline = record { buffer_depth = 1; buffer = []; engine = engine }

abbrev json_header : Option Bytes
json_header = some (codes "application/json; charset=utf-8")

abbrev proto_header : Option Bytes
proto_header = some (codes "application/x-protobuf")

handle_lem_example :
    Answered params SignalType.log IngestBatch.logs
      (decode_logs readers)
      params.logs_request
      normalise_logs
      (content_type params json_header)
      []
      pipeline
      (handle_logs params json_header [] pipeline)
handle_lem_example =
    handle_lem params SignalType.log IngestBatch.logs (decode_logs readers) params.logs_request
      normalise_logs json_header [] pipeline

-- A body of another type is not read, and the pipeline stays as it is.
text_refused :
    handle_logs params (some (codes "text/plain")) [] pipeline
    ≡ some (
      Handlers.plain StatusCode.unsupported_media_type
          (codes "Content-Type must be application/json or application/x-protobuf"),
      pipeline,
    )
unfolding handle Handlers.read_records Handlers.content_type Handlers.starts_with
text_refused = refl

-- The type is compared as it is written: capital letters, which the standard allows, are refused.
capitals_refused :
    handle_logs params (some (codes "Application/JSON")) [] pipeline
    ≡ handle_logs params (some (codes "text/plain")) [] pipeline
unfolding handle Handlers.read_records Handlers.content_type Handlers.starts_with
capitals_refused = refl
