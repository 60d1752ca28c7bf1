-- ===== src/Ingest/Handlers.antt =====
-- crates/infralens-ingest/src/http.rs and grpc.rs: the handlers of the three signals. A body is read by
-- serde_json or prost, whose errors are texts here; `none` is a panic.
pub mod Answers
pub mod Formats
mod Tests
use infralens.Prelude.{
  ℕ, ◌&&◌, ◌==◌, Bool, true, false, Option, none, some, List, [], ◌∷◌, Bytes, codes, ℤ, pos, Result,
  ok, err, if◌then◌else◌, ◌>>=◌, get_or_else,
}
use infralens.Common.Model.{IngestBatch, SignalType, LogRecord, MetricPoint, SpanRecord}
use infralens.Ingest.Errors.{IngestError, is_retriable}
use infralens.Ingest.Json.{Value, Readers}
use infralens.Ingest.Json.Records.{decode_logs, decode_metrics, decode_spans}
use infralens.Ingest.Normalizer.{normalise_logs, normalise_spans}
use infralens.Ingest.Normalizer.Metrics.{normalise_metrics}
use infralens.Ingest.Pipeline.{IngestPipeline, SubmitResult, submit}
use infralens.Ingest.Proto.{ProtoLog, ProtoMetric, ProtoSpan, Resourced}

pub data StatusCode : Type 0 where
  success : StatusCode
  bad_request : StatusCode
  unsupported_media_type : StatusCode
  too_many_requests : StatusCode
  internal_server_error : StatusCode

-- The content type is that which the handler sets itself.
pub record Response : Type 0 where
  pub status : StatusCode
  pub content_type : Option Bytes
  pub body : Bytes

-- `header_text` is `to_str` of a header's value, `default_response` the encoding of a signal's default
-- response, `error_text` the `Display` of an error.
pub record HandlerParams : Type 0 where
  pub readers : Readers
  pub header_text : Bytes → Option Bytes
  pub from_slice : Bytes → Result {0, 0} Value Bytes
  pub logs_request : Bytes → Result {0, 0} (List (Resourced ProtoLog)) Bytes
  pub metrics_request : Bytes → Result {0, 0} (List (Resourced ProtoMetric)) Bytes
  pub trace_request : Bytes → Result {0, 0} (List (Resourced ProtoSpan)) Bytes
  pub default_response : SignalType → Bytes
  pub error_text : IngestError → Bytes

abbrev pub content_type_proto : Bytes
content_type_proto = codes "application/x-protobuf"

abbrev pub content_type_json : Bytes
content_type_json = codes "application/json"

-- `s.starts_with(prefix)`
unfoldable pub starts_with : Bytes → Bytes → Bool
starts_with [] s = true
starts_with (c ∷ cs) [] = false
starts_with (c ∷ cs) (d ∷ ds) = (c == d) && starts_with cs ds

-- A response whose content type the handler does not set.
abbrev pub plain : StatusCode → Bytes → Response
plain status body = record { status = status; content_type = none; body = body }

abbrev pub Outcome : Type 0
Outcome = Option (Response × IngestPipeline)

-- gRPC's code and message. The default of the fields of a partial success is that of the message.
pub data Status : Type 0 where
  resource_exhausted : Bytes → Status
  internal : Bytes → Status

pub record PartialSuccess : Type 0 where
  pub rejected : ℤ
  pub error_message : Bytes

abbrev pub Exported : Type 0
Exported = Result {0, 0} PartialSuccess Status × IngestPipeline

module _ (params : HandlerParams) where
  -- The header's value, if there is one.
  unfoldable pub content_type : Option Bytes → Bytes
  content_type header = get_or_else (header >>= params.header_text) []

  abbrev pub accepted : SignalType → Bytes → Response
  accepted signal ct =
      if starts_with content_type_json ct
      then record {
        status = StatusCode.success;
        content_type = some content_type_json;
        body = codes "{\"partialSuccess\":{}}";
      }
      else record {
        status = StatusCode.success;
        content_type = some content_type_proto;
        body = params.default_response signal;
      }

  abbrev pub refused : IngestError → Response
  refused e =
      if is_retriable e
      then plain StatusCode.too_many_requests (params.error_text e)
      else plain StatusCode.internal_server_error (params.error_text e)

  abbrev pub answer : SignalType → Bytes → SubmitResult → Response
  answer signal ct (ok _) = accepted signal ct
  answer signal ct (err e) = refused e

  -- The handlers differ in their signal, their decoder, their request and their normaliser only.
  module _ {A B : Type 0} (signal : SignalType) (batch : List B → IngestBatch)
      (decode : Value → Option (List B)) (request : Bytes → Result {0, 0} (List A) Bytes)
      (normalise : List A → List B) where
    abbrev pub from_json : Result {0, 0} Value Bytes → Option (Result {0, 0} (List B) Response)
    from_json (err e) = some (err (plain StatusCode.bad_request e))
    from_json (ok v) = do records ← decode v; some (ok records)

    abbrev pub from_proto : Result {0, 0} (List A) Bytes → Result {0, 0} (List B) Response
    from_proto (err e) = err (plain StatusCode.bad_request e)
    from_proto (ok r) = ok (normalise r)

    unfoldable pub read_records : Bytes → Bytes → Option (Result {0, 0} (List B) Response)
    read_records ct body =
        if starts_with content_type_json ct
        then from_json (params.from_slice body)
        else if starts_with content_type_proto ct
        then some (from_proto (request body))
        else some (
            err (
              plain StatusCode.unsupported_media_type
                (codes "Content-Type must be application/json or application/x-protobuf")))

    abbrev pub submit_records : Bytes → IngestPipeline → List B → Response × IngestPipeline
    submit_records ct p records =
        let (result, p') = submit (batch records) p in (answer signal ct result, p')

    abbrev pub finish :
        Bytes → IngestPipeline → Result {0, 0} (List B) Response → Response × IngestPipeline
    finish ct p (err response) = (response, p)
    finish ct p (ok records) = submit_records ct p records

    unfoldable pub handle : Option Bytes → Bytes → IngestPipeline → Outcome
    handle header body p = do
      records ← read_records (content_type header) body
      some (finish (content_type header) p records)

    abbrev pub export_answer : SubmitResult → Result {0, 0} PartialSuccess Status
    export_answer (ok _) = ok (record { rejected = pos 0; error_message = [] })
    export_answer (err e) =
        if is_retriable e
        then err (Status.resource_exhausted (params.error_text e))
        else err (Status.internal (params.error_text e))

    -- gRPC's handler, on the resources of the request.
    unfoldable pub export_records : List A → IngestPipeline → Exported
    export_records resources p =
        let (result, p') = submit (batch (normalise resources)) p in (export_answer result, p')

  abbrev pub handle_logs : Option Bytes → Bytes → IngestPipeline → Outcome
  handle_logs =
      handle SignalType.log IngestBatch.logs (decode_logs params.readers) params.logs_request
        normalise_logs

  abbrev pub handle_metrics : Option Bytes → Bytes → IngestPipeline → Outcome
  handle_metrics =
      handle SignalType.metric IngestBatch.metrics (decode_metrics params.readers)
        params.metrics_request normalise_metrics

  abbrev pub handle_traces : Option Bytes → Bytes → IngestPipeline → Outcome
  handle_traces =
      handle SignalType.span IngestBatch.spans (decode_spans params.readers) params.trace_request
        normalise_spans

  abbrev pub export_logs : List (Resourced ProtoLog) → IngestPipeline → Exported
  export_logs =
      export_records SignalType.log IngestBatch.logs (decode_logs params.readers)
        params.logs_request normalise_logs

  abbrev pub export_metrics : List (Resourced ProtoMetric) → IngestPipeline → Exported
  export_metrics =
      export_records SignalType.metric IngestBatch.metrics (decode_metrics params.readers)
        params.metrics_request normalise_metrics

  abbrev pub export_traces : List (Resourced ProtoSpan) → IngestPipeline → Exported
  export_traces =
      export_records SignalType.span IngestBatch.spans (decode_spans params.readers)
        params.trace_request normalise_spans
