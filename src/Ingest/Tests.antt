-- ===== src/Ingest/Tests.antt =====
-- The normaliser and the pipeline at concrete inputs.
use infralens.Prelude.{
  ◌≡◌, refl, none, some, List, [], ◌∷◌, Bytes, codes, map, All, replicate, arith, pos,
}
use infralens.Common.Model.{AnyValue, map_get, map_insert, LogRecord, MetricPoint, IngestBatch}
use infralens.Ingest.Normalizer.{
  convert_attrs, convert_attrs_into, convert_any_value, normalise_logs, normalise_spans,
}
use infralens.Ingest.Normalizer.Metrics.{normalise_metrics}
use infralens.Ingest.Normalizer.Attributes.{last_value, map_get-convert_attrs}
use infralens.Ingest.Normalizer.Records.{
  gather, all_items, point_times, span_view, valid_span, normalised_lem,
}
use infralens.Ingest.Normalizer.Spans.{IsSpan, normalise_spans-IsSpan}
use infralens.Ingest.Pipeline.{IngestPipeline}
use infralens.Ingest.Pipeline.Delivered.{PipelineEvent, Delivered, react_all, react_all_lem}
use infralens.Ingest.Proto.{
  ProtoAnyValue, KeyValues, ProtoLog, Resourced, NumberValue, MetricData, ProtoMetric, ProtoSpan,
}
use infralens.Storage.Engine.Tests.{
  params, no_files, logs_serialize, others_serialize, one_each, two_logs, engine, engine-IsValid,
}

abbrev env_twice : KeyValues
env_twice = KeyValues.pair (codes "env") (ProtoAnyValue.string_value (codes "dev")) (
    KeyValues.bare_key (codes "host")
      (KeyValues.pair (codes "env") (ProtoAnyValue.string_value (codes "prod")) KeyValues.no_pairs))

map_get-convert_attrs_example :
    map_get (codes "env") (convert_attrs env_twice) ≡ last_value (codes "env") env_twice
map_get-convert_attrs_example = map_get-convert_attrs (codes "env") env_twice

-- The second value of a key replaces the first, and a key without a value is left out.
env_replaced :
    (map_get (codes "env") (convert_attrs env_twice) ≡ some (AnyValue.string (codes "prod")))
    × (map_get (codes "host") (convert_attrs env_twice) ≡ none)
unfolding convert_attrs convert_attrs_into convert_any_value map_get map_insert
env_replaced = (refl, refl)

abbrev one_of {ℓ} : {A : Type ℓ} → A → List A
one_of a = a ∷ []

abbrev in_scope : {A : Type 0} → List A → List (Resourced A)
in_scope items = one_of (record {
  resource = some env_twice;
  scopes = one_of (record { scope = none; items = items; schema_url = codes "s" });
})

abbrev proto_logs : List (Resourced ProtoLog)
proto_logs = in_scope (
    one_of (record {
      time_unix_nano = 1000000;
      observed_time_unix_nano = 1000000;
      severity_number = pos 9;
      severity_text = codes "INFO";
      body = some (ProtoAnyValue.string_value (codes "test message"));
      attributes = env_twice;
      trace_id = [];
      span_id = [];
    }))

abbrev proto_metrics : List (Resourced ProtoMetric)
proto_metrics = in_scope (
    one_of (record {
      name = codes "cpu";
      description = [];
      unit = [];
      data_points = some (
          MetricData.gauge_data (
            one_of (record {
              attributes = KeyValues.no_pairs;
              start_time_unix_nano = 1;
              time_unix_nano = 2;
              value = some (NumberValue.as_int (pos 3));
            })));
    }))

abbrev proto_span : Bytes → ProtoSpan
proto_span span_id = record {
  trace_id = replicate 16 1;
  span_id = span_id;
  parent_span_id = [];
  name = codes "my-span";
  kind = pos 0;
  start_time_unix_nano = 1000000000;
  end_time_unix_nano = 1500000000;
  attributes = KeyValues.no_pairs;
  events = [];
  links = [];
  status = none;
}

abbrev proto_spans : List (Resourced ProtoSpan)
proto_spans = in_scope (proto_span (replicate 8 2) ∷ proto_span [] ∷ [])

normalised_lem_example :
    (map LogRecord.timestamp_ns (normalise_logs proto_logs)
      ≡ gather (λ r. ProtoLog.time_unix_nano r ∷ []) (all_items proto_logs))
    × (map MetricPoint.timestamp_ns (normalise_metrics proto_metrics)
        ≡ gather (λ m. point_times (ProtoMetric.data_points m)) (all_items proto_metrics))
    × (map span_view (normalise_spans proto_spans) ≡ gather valid_span (all_items proto_spans))
normalised_lem_example = normalised_lem proto_logs proto_metrics proto_spans

normalise_spans-IsSpan_example : All IsSpan (normalise_spans proto_spans)
normalise_spans-IsSpan_example = normalise_spans-IsSpan proto_spans

abbrev pipeline : IngestPipeline
pipeline = record { buffer_depth = 1; buffer = []; engine = engine }

abbrev pipeline_events : List PipelineEvent
pipeline_events =
    PipelineEvent.submitted two_logs
    ∷ PipelineEvent.submitted two_logs
    ∷ PipelineEvent.writer
    ∷ PipelineEvent.flusher
    ∷ PipelineEvent.submitted two_logs
    ∷ []

react_all_lem_example :
    (batches : List IngestBatch) × (p' : IngestPipeline) × (react_all params pipeline_events
        pipeline
      ≡ some (batches, p'))
    × Delivered params one_each pipeline p' batches
react_all_lem_example =
    react_all_lem params one_each no_files logs_serialize others_serialize others_serialize
      pipeline_events pipeline
      (record {
        bounded = omega arith;
        engine = engine-IsValid;
        open_engine = (unfold infralens.Storage.Engine.open_engine in refl);
      })
