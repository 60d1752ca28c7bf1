-- ===== src/Common/Schema.antt =====
-- crates/infralens-common/src/schema.rs: the arrow schemas of the three signals, as their fields.
use infralens.Prelude.{Bool, true, false, List, [], ◌∷◌, Bytes, codes}

-- The types that the schemas name.
pub data DataType : Type 0 where
  uint64_type : DataType
  int64_type : DataType
  int32_type : DataType
  int8_type : DataType
  float64_type : DataType
  utf8_type : DataType
  binary_type : DataType

pub record Field : Type 0 where
  pub name : Bytes
  pub data_type : DataType
  pub nullable : Bool

-- `Field::new`
abbrev new_field : Bytes → DataType → Bool → Field
new_field name data_type nullable = record {
  name = name;
  data_type = data_type;
  nullable = nullable;
}

abbrev pub log_schema : List Field
log_schema =
    new_field (codes "timestamp_ns") uint64_type false
    ∷ new_field (codes "observed_timestamp_ns") uint64_type false
    ∷ new_field (codes "trace_id") binary_type true
    ∷ new_field (codes "span_id") binary_type true
    ∷ new_field (codes "severity_number") int32_type false
    ∷ new_field (codes "severity_text") utf8_type true
    ∷ new_field (codes "body") utf8_type true
    ∷ new_field (codes "attributes") utf8_type true
    ∷ new_field (codes "resource_attributes") utf8_type true
    ∷ new_field (codes "scope_name") utf8_type true
    ∷ new_field (codes "scope_version") utf8_type true
    ∷ new_field (codes "schema_url") utf8_type true
    ∷ []

abbrev pub metric_schema : List Field
metric_schema =
    new_field (codes "timestamp_ns") uint64_type false
    ∷ new_field (codes "start_timestamp_ns") uint64_type true
    ∷ new_field (codes "name") utf8_type false
    ∷ new_field (codes "description") utf8_type true
    ∷ new_field (codes "unit") utf8_type true
    ∷ new_field (codes "metric_type") int8_type false
    ∷ new_field (codes "value_double") float64_type true
    ∷ new_field (codes "value_int") int64_type true
    ∷ new_field (codes "histogram_count") uint64_type true
    ∷ new_field (codes "histogram_sum") float64_type true
    ∷ new_field (codes "histogram_bounds") binary_type true
    ∷ new_field (codes "histogram_counts") binary_type true
    ∷ new_field (codes "attributes") utf8_type true
    ∷ new_field (codes "resource_attributes") utf8_type true
    ∷ new_field (codes "scope_name") utf8_type true
    ∷ new_field (codes "scope_version") utf8_type true
    ∷ new_field (codes "schema_url") utf8_type true
    ∷ []

abbrev pub span_schema : List Field
span_schema =
    new_field (codes "trace_id") binary_type false
    ∷ new_field (codes "span_id") binary_type false
    ∷ new_field (codes "parent_span_id") binary_type true
    ∷ new_field (codes "name") utf8_type false
    ∷ new_field (codes "kind") int32_type false
    ∷ new_field (codes "start_time_ns") uint64_type false
    ∷ new_field (codes "end_time_ns") uint64_type false
    ∷ new_field (codes "duration_ns") uint64_type false
    ∷ new_field (codes "status_code") int32_type false
    ∷ new_field (codes "status_message") utf8_type true
    ∷ new_field (codes "attributes") utf8_type true
    ∷ new_field (codes "resource_attributes") utf8_type true
    ∷ new_field (codes "scope_name") utf8_type true
    ∷ new_field (codes "scope_version") utf8_type true
    ∷ new_field (codes "events") utf8_type true
    ∷ new_field (codes "links") utf8_type true
    ∷ new_field (codes "schema_url") utf8_type true
    ∷ []
