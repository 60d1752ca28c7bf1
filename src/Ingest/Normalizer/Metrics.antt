-- ===== src/Ingest/Normalizer/Metrics.antt =====
-- crates/infralens-ingest/src/normalizer.rs: `normalise_metrics`, a record for each point of a metric.
use infralens.Prelude.{ℕ, Option, none, some, List, [], Bytes, ℤ, map}
use infralens.Common.Model.{AnyMap, InstrumentationScope, MetricType, MetricPoint}
use infralens.Ingest.Proto.{
  Resourced, NumberValue, NumberDataPoint, HistogramDataPoint, MetricData, ProtoMetric,
}
use infralens.Ingest.Normalizer.{convert_attrs, resources_of}

unfoldable pub double_of : Option NumberValue → Option ℕ
double_of (some (NumberValue.as_double d)) = some d
double_of _ = none

unfoldable pub int_of : Option NumberValue → Option ℤ
int_of (some (NumberValue.as_int i)) = some i
int_of _ = none

unfoldable pub number_point :
    ProtoMetric → MetricType → AnyMap → InstrumentationScope → Bytes → NumberDataPoint → MetricPoint
number_point m metric_type attrs scope schema_url dp = record {
  timestamp_ns = dp.time_unix_nano;
  start_timestamp_ns = dp.start_time_unix_nano;
  name = m.name;
  description = m.description;
  unit = m.unit;
  metric_type = metric_type;
  value_double = double_of dp.value;
  value_int = int_of dp.value;
  histogram = none;
  attributes = convert_attrs dp.attributes;
  resource_attributes = attrs;
  scope = scope;
  schema_url = schema_url;
}

unfoldable pub histogram_point :
    ProtoMetric → ℤ → AnyMap → InstrumentationScope → Bytes → HistogramDataPoint → MetricPoint
histogram_point m temporality attrs scope schema_url dp = record {
  timestamp_ns = dp.time_unix_nano;
  start_timestamp_ns = dp.start_time_unix_nano;
  name = m.name;
  description = m.description;
  unit = m.unit;
  metric_type = MetricType.histogram_type temporality;
  value_double = none;
  value_int = none;
  histogram = some (record {
    count = dp.count;
    sum = dp.sum;
    min = dp.min;
    max = dp.max;
    explicit_bounds = dp.explicit_bounds;
    bucket_counts = dp.bucket_counts;
  });
  attributes = convert_attrs dp.attributes;
  resource_attributes = attrs;
  scope = scope;
  schema_url = schema_url;
}

-- The match on the kind of data; exponential histograms and summaries give nothing.
unfoldable pub points_of :
    ProtoMetric → AnyMap → InstrumentationScope → Bytes → Option MetricData → List MetricPoint
points_of m attrs scope schema_url none = []
points_of m attrs scope schema_url (some (MetricData.gauge_data dps)) =
    map (number_point m MetricType.gauge attrs scope schema_url) dps
points_of m attrs scope schema_url (some (MetricData.sum_data dps temporality is_monotonic)) =
    map (number_point m (MetricType.sum_type is_monotonic temporality) attrs scope schema_url) dps
points_of m attrs scope schema_url (some (MetricData.histogram_data dps temporality)) =
    map (histogram_point m temporality attrs scope schema_url) dps
points_of m attrs scope schema_url (some MetricData.exponential_histogram_data) = []
points_of m attrs scope schema_url (some MetricData.summary_data) = []

unfoldable pub normalise_metric :
    AnyMap → InstrumentationScope → Bytes → ProtoMetric → List MetricPoint
normalise_metric attrs scope schema_url m = points_of m attrs scope schema_url m.data_points

unfoldable pub normalise_metrics : List (Resourced ProtoMetric) → List MetricPoint
normalise_metrics resource_metrics = resources_of normalise_metric resource_metrics
