-- ===== src/Ingest/Handlers/Answers.antt =====
-- The answers of an HTTP handler: what a client knows of the channel from the status.
use infralens.Prelude.{
  ◌≤◌, ◌<◌, ◌≡◌, refl, true, false, Option, none, some, List, [], ◌∷◌, ◌++◌, Bytes, Result, ok, err,
  ltb, length, ◌>>=◌, Bool-cases, inl, inr, arith,
}
use infralens.Common.Model.{IngestBatch, SignalType}
use infralens.Ingest.Errors.{is_retriable}
use infralens.Ingest.Handlers.{
  HandlerParams, StatusCode, Response, Outcome, content_type, content_type_json, content_type_proto,
  starts_with, from_json, from_proto, read_records, accepted, finish, handle,
}
use infralens.Ingest.Json.{Value}
use infralens.Ingest.Pipeline.{IngestPipeline, submit}

pub accepted_lem :
    (params : HandlerParams) (signal : SignalType) (ct : Bytes)
    → (accepted params signal ct).status ≡ StatusCode.success
accepted_lem params signal ct = elim (Bool-cases (starts_with content_type_json ct)) [
  | inl yes' ↦ rw yes' refl
  | inr no' ↦ rw no' refl
]

module _ (params : HandlerParams) {A B : Type 0} (signal : SignalType)
    (batch : List B → IngestBatch) (decode : Value → Option (List B))
    (request : Bytes → Result {0, 0} (List A) Bytes) (normalise : List A → List B) where
  -- The records of a body, in the format that its content type names.
  pub data IsRead (ct body : Bytes) (records : List B) : Type 0 where
    json :
        (v : Value)
        → starts_with content_type_json ct ≡ true
        → params.from_slice body ≡ ok v
        → decode v ≡ some records
        → IsRead ct body records
    proto :
        (resources : List A)
        → starts_with content_type_proto ct ≡ true
        → request body ≡ ok resources
        → records ≡ normalise resources
        → IsRead ct body records

  abbrev pub enqueued : IngestPipeline → List B → IngestPipeline
  enqueued p records = record p { buffer = p.buffer ++ batch records ∷ [] }

  -- The status and what it means for the pipeline.
  pub data Answered (ct body : Bytes) (p : IngestPipeline) : Outcome → Type 0 where
    waits :
        (r : Response) (records : List B)
        → r.status ≡ StatusCode.success
        → IsRead ct body records
        → length p.buffer < p.buffer_depth
        → Answered ct body p (some (r, enqueued p records))
    full :
        (r : Response) (records : List B)
        → r.status ≡ StatusCode.too_many_requests
        → IsRead ct body records
        → p.buffer_depth ≤ length p.buffer
        → Answered ct body p (some (r, p))
    malformed :
        (r : Response) → r.status ≡ StatusCode.bad_request → Answered ct body p (some (r, p))
    unknown :
        (r : Response)
        → r.status ≡ StatusCode.unsupported_media_type
        → starts_with content_type_json ct ≡ false
        → starts_with content_type_proto ct ≡ false
        → Answered ct body p (some (r, p))
    panicked :
        (v : Value)
        → starts_with content_type_json ct ≡ true
        → params.from_slice body ≡ ok v
        → decode v ≡ none
        → Answered ct body p none

  abbrev finished : Bytes → IngestPipeline → Option (Result {0, 0} (List B) Response) → Outcome
  finished ct p o =
      o >>= (λ read. some (finish params signal batch decode request normalise ct p read))

  submitted :
      (ct body : Bytes) (p : IngestPipeline) (records : List B)
      → IsRead ct body records
      → Answered ct body p (finished ct p (some (ok records)))
  unfolding submit is_retriable
  submitted ct body p records h = elim (Bool-cases (ltb (length p.buffer) p.buffer_depth)) [
    | inl room ↦ rw room (
        Answered.waits (accepted params signal ct) records (accepted_lem params signal ct) h
          (ground (arith, room)))
    | inr no_room ↦ rw no_room (Answered.full _ records refl h (ground (arith, no_room)))
  ]

  json_lem :
      (ct body : Bytes) (p : IngestPipeline) (o : Result {0, 0} Value Bytes)
      → starts_with content_type_json ct ≡ true
      → params.from_slice body ≡ o
      → Answered ct body p
          (finished ct p (from_json params signal batch decode request normalise o))
  json_lem ct body p (err e) is_json h = Answered.malformed _ refl
  json_lem ct body p (ok v) is_json h = decoded (decode v) refl
    where
      decoded :
          (o : Option (List B))
          → decode v ≡ o
          → Answered ct body p (finished ct p (o >>= (λ records. some (ok records))))
      decoded none d = Answered.panicked v is_json h d
      decoded (some records) d = submitted ct body p records (IsRead.json v is_json h d)

  proto_lem :
      (ct body : Bytes) (p : IngestPipeline) (o : Result {0, 0} (List A) Bytes)
      → starts_with content_type_proto ct ≡ true
      → request body ≡ o
      → Answered ct body p
          (finished ct p (some (from_proto params signal batch decode request normalise o)))
  proto_lem ct body p (err e) is_proto h = Answered.malformed _ refl
  proto_lem ct body p (ok resources) is_proto h =
      submitted ct body p (normalise resources) (IsRead.proto resources is_proto h refl)

  -- Whatever the header, the body and the decoders, an HTTP handler of any signal either answers
  -- 200, and the records that its format makes of the body wait at the end of the channel, which
  -- had room; or answers 429 for such records, with the channel full; or 400; or 415, for a
  -- content type that begins with neither format; or panics in the decoder of a JSON body that was
  -- parsed. In all cases but the first the pipeline is as before.
  pub handle_lem :
      (header : Option Bytes) (body : Bytes) (p : IngestPipeline)
      → Answered
          (content_type params header)
          body
          p
          (handle params signal batch decode request normalise header body p)
  unfolding handle read_records
  handle_lem header body p =
      let ct = content_type params header in
      elim (Bool-cases (starts_with content_type_json ct)) [
        | inl is_json ↦ rw is_json (json_lem ct body p (params.from_slice body) is_json refl)
        | inr no_json ↦ elim (Bool-cases (starts_with content_type_proto ct)) [
          | inl is_proto ↦ rw (no_json, is_proto) (proto_lem ct body p (request body) is_proto refl)
          | inr no_proto ↦ rw (no_json, no_proto) (Answered.unknown _ refl no_json no_proto)
        ]
      ]
