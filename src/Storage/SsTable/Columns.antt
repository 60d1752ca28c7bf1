-- ===== src/Storage/SsTable/Columns.antt =====
-- crates/infralens-storage/src/sstable.rs: the columns that the three record batch builders finish, and
-- whether arrow takes them for the schema of the signal.
use mathlib.Core.Path.{subst}
use infralens.Prelude.{
  ℕ, ◌≡◌, Bool, true, false, Option, none, some, List, [], ◌∷◌, Bytes, ℤ, length, map, length-map,
}
use infralens.Common.Model.{LogRecord, MetricPoint, SpanRecord}
use infralens.Common.Schema.{
  DataType, Field, uint64_type, int64_type, int32_type, int8_type, float64_type, utf8_type,
  binary_type, log_schema, metric_schema, span_schema,
}
use infralens.Storage.SsTable.Rows.{
  RowCodec, LogRow, MetricRow, SpanRow, log_row, metric_row, span_row,
}

-- A finished builder: its values, or nulls. A float is its bits.
pub data Column : Type 0 where
  uint64 : List (Option ℕ) → Column
  int64 : List (Option ℤ) → Column
  int32 : List (Option ℤ) → Column
  int8 : List (Option ℕ) → Column
  float64 : List (Option ℕ) → Column
  utf8 : List (Option Bytes) → Column
  binary : List (Option Bytes) → Column

-- A builder to which the loop appends a value of each row, or a value or a null.
unfoldable pub appended : {R A : Type 0} → (R → A) → List R → List (Option A)
appended value rows = map (λ r. some (value r)) rows

unfoldable pub appended_option : {R A : Type 0} → (R → Option A) → List R → List (Option A)
appended_option value rows = map value rows

abbrev pub log_columns : List LogRow → List Column
log_columns rows =
    Column.uint64 (appended LogRow.timestamp_ns rows)
    ∷ Column.uint64 (appended LogRow.observed_timestamp_ns rows)
    ∷ Column.binary (appended_option LogRow.trace_id rows)
    ∷ Column.binary (appended_option LogRow.span_id rows)
    ∷ Column.int32 (appended LogRow.severity_number rows)
    ∷ Column.utf8 (appended_option LogRow.severity_text rows)
    ∷ Column.utf8 (appended_option LogRow.body rows)
    ∷ Column.utf8 (appended_option LogRow.attributes rows)
    ∷ Column.utf8 (appended_option LogRow.resource_attributes rows)
    ∷ Column.utf8 (appended_option LogRow.scope_name rows)
    ∷ Column.utf8 (appended_option LogRow.scope_version rows)
    ∷ Column.utf8 (appended_option LogRow.schema_url rows)
    ∷ []

abbrev pub metric_columns : List MetricRow → List Column
metric_columns rows =
    Column.uint64 (appended MetricRow.timestamp_ns rows)
    ∷ Column.uint64 (appended MetricRow.start_timestamp_ns rows)
    ∷ Column.utf8 (appended MetricRow.name rows)
    ∷ Column.utf8 (appended_option MetricRow.description rows)
    ∷ Column.utf8 (appended_option MetricRow.unit rows)
    ∷ Column.int8 (appended MetricRow.metric_type rows)
    ∷ Column.float64 (appended_option MetricRow.value_double rows)
    ∷ Column.int64 (appended_option MetricRow.value_int rows)
    ∷ Column.uint64 (appended_option MetricRow.hist_count rows)
    ∷ Column.float64 (appended_option MetricRow.hist_sum rows)
    ∷ Column.binary (appended_option MetricRow.hist_bounds rows)
    ∷ Column.binary (appended_option MetricRow.hist_counts rows)
    ∷ Column.utf8 (appended_option MetricRow.attributes rows)
    ∷ Column.utf8 (appended_option MetricRow.resource_attributes rows)
    ∷ Column.utf8 (appended_option MetricRow.scope_name rows)
    ∷ Column.utf8 (appended_option MetricRow.scope_version rows)
    ∷ Column.utf8 (appended_option MetricRow.schema_url rows)
    ∷ []

abbrev pub span_columns : List SpanRow → List Column
span_columns rows =
    Column.binary (appended SpanRow.trace_id rows)
    ∷ Column.binary (appended SpanRow.span_id rows)
    ∷ Column.binary (appended_option SpanRow.parent_span_id rows)
    ∷ Column.utf8 (appended SpanRow.name rows)
    ∷ Column.int32 (appended SpanRow.kind rows)
    ∷ Column.uint64 (appended SpanRow.start_time_ns rows)
    ∷ Column.uint64 (appended SpanRow.end_time_ns rows)
    ∷ Column.uint64 (appended SpanRow.duration_ns rows)
    ∷ Column.int32 (appended SpanRow.status_code rows)
    ∷ Column.utf8 (appended_option SpanRow.status_message rows)
    ∷ Column.utf8 (appended_option SpanRow.attributes rows)
    ∷ Column.utf8 (appended_option SpanRow.resource_attributes rows)
    ∷ Column.utf8 (appended_option SpanRow.scope_name rows)
    ∷ Column.utf8 (appended_option SpanRow.scope_version rows)
    ∷ Column.utf8 (appended_option SpanRow.events rows)
    ∷ Column.utf8 (appended_option SpanRow.links rows)
    ∷ Column.utf8 (appended_option SpanRow.schema_url rows)
    ∷ []

abbrev pub HasValues {ℓ} : {A : Type ℓ} → List (Option A) → Type 0
HasValues [] = Unit
HasValues (none ∷ xs) = ⊥
HasValues (some x ∷ xs) = HasValues xs

-- What arrow asks of a column: as many values as rows, and no null unless the field allows them.
abbrev pub Sized {ℓ} : {A : Type ℓ} → ℕ → Bool → List (Option A) → Type 0
Sized n true xs = length xs ≡ n
Sized n false xs = (length xs ≡ n) × HasValues xs

abbrev pub Fits : ℕ → Bool → DataType → Column → Type 0
Fits n nullable uint64_type (Column.uint64 xs) = Sized n nullable xs
Fits n nullable int64_type (Column.int64 xs) = Sized n nullable xs
Fits n nullable int32_type (Column.int32 xs) = Sized n nullable xs
Fits n nullable int8_type (Column.int8 xs) = Sized n nullable xs
Fits n nullable float64_type (Column.float64 xs) = Sized n nullable xs
Fits n nullable utf8_type (Column.utf8 xs) = Sized n nullable xs
Fits n nullable binary_type (Column.binary xs) = Sized n nullable xs
Fits n nullable _ _ = ⊥

-- One column for each field, in order.
abbrev pub AllFit : ℕ → List Field → List Column → Type 0
AllFit n [] [] = Unit
AllFit n (f ∷ fs) (c ∷ cs) = Fits n f.nullable f.data_type c × AllFit n fs cs
AllFit n _ _ = ⊥

length-appended :
    {R A : Type 0} (value : R → A) (rows : List R) → length (appended value rows) ≡ length rows
unfolding appended
length-appended value rows = length-map (λ r. some (value r)) rows

HasValues-appended :
    {R A : Type 0} (value : R → A) (rows : List R) → HasValues (appended value rows)
unfolding appended
HasValues-appended value [] = tt
HasValues-appended value (r ∷ rs) = HasValues-appended value rs

length-appended_option :
    {R A : Type 0} (value : R → Option A) (rows : List R)
    → length (appended_option value rows) ≡ length rows
unfolding appended_option
length-appended_option value rows = length-map value rows

ruleset fitting = (length-appended, HasValues-appended, length-appended_option)

log_columns-AllFit : (rows : List LogRow) → AllFit (length rows) log_schema (log_columns rows)
log_columns-AllFit rows = search fitting

metric_columns-AllFit :
    (rows : List MetricRow) → AllFit (length rows) metric_schema (metric_columns rows)
metric_columns-AllFit rows = search fitting

span_columns-AllFit : (rows : List SpanRow) → AllFit (length rows) span_schema (span_columns rows)
span_columns-AllFit rows = search fitting

-- The columns of a row builder, for as many rows as there are records.
of_records :
    {A R : Type 0} (fields : List Field) (columns : List R → List Column) (row : A → R)
    (records : List A)
    → ((rows : List R) → AllFit (length rows) fields (columns rows))
    → AllFit (length records) fields (columns (map row records))
of_records fields columns row records h =
    subst (λ n. AllFit n fields (columns (map row records))) (length-map row records)
      (h (map row records))

-- Whatever the records and the serialisers, the columns that the builders of logs, metrics and
-- spans finish are those of the schema of their signal, in number, order and type, with a value
-- for each record, and a null only where the field allows one.
pub columns-AllFit :
    (codec : RowCodec) (logs : List LogRecord) (metrics : List MetricPoint)
    (spans : List SpanRecord)
    → AllFit (length logs) log_schema (log_columns (map (log_row codec) logs))
      × AllFit (length metrics) metric_schema (metric_columns (map (metric_row codec) metrics))
      × AllFit (length spans) span_schema (span_columns (map (span_row codec) spans))
columns-AllFit codec logs metrics spans = (
  of_records log_schema log_columns (log_row codec) logs log_columns-AllFit,
  of_records metric_schema metric_columns (metric_row codec) metrics metric_columns-AllFit,
  of_records span_schema span_columns (span_row codec) spans span_columns-AllFit,
)
