-- ===== src/Storage/Engine/Tests.antt =====
-- The theorems of the engine at concrete inputs: a codec that keeps a log's timestamp and severity.
use infralens.Prelude.{
  map, ℕ, ◌+◌, ◌≤◌, ◌≡◌, refl, false, Option, none, some, List, [], ◌∷◌, Bytes, length, arith, ok,
  err, ◌⊎◌, codes, pos,
}
use infralens.Common.Model.{SignalType, no_entries, LogRecord, MetricPoint, SpanRecord, IngestBatch}
use infralens.Storage.Codec.{Codec}
use infralens.Storage.Errors.{StorageError}
use infralens.Storage.Engine.{
  EngineParams, StorageEngine, flush_queue_capacity, open_engine, write_records, close,
}
use infralens.Storage.Engine.Accept.{record_weight, Accepted, Rejected, write_records_lem}
use infralens.Storage.Engine.Conserved.{open_engine-IsValid, run-open_engine, work_rounds-close}
use infralens.Storage.Engine.Flush.{NoFiles}
use infralens.Storage.Engine.Runs.{Serializes, Event, run, work_rounds, accepted_weight}
use infralens.Storage.Engine.Weight.{
  RowWeights, IsValid, stored_weight, pending_weight, dropped_weight,
}
use infralens.Storage.Engine.Write.{insert-IsValid}
use infralens.Storage.MemTable
use infralens.Storage.MemTable.{MemTable}
use infralens.Storage.MemTable.Rows
use infralens.Storage.MemTable.Write.{write_record}
use infralens.Storage.Partition.Stores.{PartitionDir}
use infralens.Storage.SsTable.{TableParams, SsTable, write_logs, write_metrics, write_spans}
use infralens.Common.Schema.{log_schema, metric_schema, span_schema}
use infralens.Storage.SsTable.Columns.{
  AllFit, log_columns, metric_columns, span_columns, columns-AllFit,
}
use infralens.Storage.SsTable.Rows.{LogRow, MetricRow, SpanRow, log_row, metric_row, span_row}
use infralens.Storage.SsTable.Written.{IsWritten, written_lem}

abbrev pub some_log : ℕ → Bytes → LogRecord
some_log t severity = record {
  timestamp_ns = t;
  observed_timestamp_ns = t;
  trace_id = none;
  span_id = none;
  severity_number = pos 9;
  severity_text = severity;
  body = none;
  attributes = no_entries;
  resource_attributes = no_entries;
  scope = record { name = []; version = []; attributes = no_entries };
  schema_url = [];
}

abbrev read_log : Bytes → Option LogRecord
read_log [] = none
read_log (t ∷ severity) = some (some_log t severity)

abbrev pub log_codec : Codec LogRecord
log_codec = record {
  serialize = λ r. ok (r.timestamp_ns ∷ r.severity_text);
  deserialize = read_log;
}

abbrev pub other_codec : {A : Type 0} → Codec A
other_codec = record { serialize = λ r. ok []; deserialize = λ bytes. none }

abbrev pub table_params : TableParams
table_params = record {
  sip_hash = λ key seed. length key + seed;
  optimal_bits = λ n. n + 7;
  optimal_hashes = λ n. 2;
  codec = record {
    value_json = λ v. none;
    map_json = λ m. none;
    events_json = λ es. none;
    links_json = λ ls. none;
    bounds_bytes = λ bs. [];
    counts_bytes = λ cs. cs;
  };
}

abbrev no_dir : PartitionDir
no_dir = record {
  logs = record { zone_files = []; files = [] };
  metrics = record { zone_files = []; files = [] };
  spans = record { zone_files = []; files = [] };
  wal = none;
}

abbrev pub params : EngineParams
params = record {
  crc32 = λ bytes. length bytes;
  tables = table_params;
  log_codec = log_codec;
  metric_codec = other_codec;
  span_codec = other_codec;
  dirs = λ key. no_dir;
}

pub no_files : (key : ℕ) → NoFiles (params.dirs key)
no_files key = record { logs = refl; metrics = refl; spans = refl }

-- Counts log rows.
abbrev pub one_each : RowWeights
one_each = record { log = λ r. 1; metric = λ r. 0; span = λ r. 0 }

pub logs_serialize : Serializes log_codec
logs_serialize r = (_, refl)

pub others_serialize : {A : Type 0} → Serializes (other_codec {A = A})
others_serialize r = (_, refl)

abbrev pub two_logs : IngestBatch
two_logs = IngestBatch.logs (some_log 5 (codes "INFO") ∷ some_log 3 [] ∷ [])

abbrev events : List Event
events =
    Event.write two_logs
    ∷ Event.work
    ∷ Event.flush
    ∷ Event.write two_logs
    ∷ Event.shut
    ∷ Event.work
    ∷ []

abbrev pub engine : StorageEngine
engine = open_engine 1 100

-- Partition hours for which the length of a bucket wraps to 0.
wrapped_bucket : (open_engine 2251799813685248 100).bucket_ns ≡ 0
unfolding open_engine
wrapped_bucket = refl

run-open_engine_example :
    (e : StorageEngine) × (run params events (open_engine 1 40) ≡ some e)
    × (pending_weight params one_each e
          + (stored_weight params one_each e + dropped_weight params one_each e)
        ≡ accepted_weight params one_each false events)
    × (length e.queue ≤ flush_queue_capacity)
run-open_engine_example =
    run-open_engine params one_each no_files logs_serialize others_serialize others_serialize 1 40
      events (omega arith) (omega arith)

pub engine-IsValid : IsValid engine
engine-IsValid =
    (open_engine-IsValid params one_each no_files logs_serialize others_serialize others_serialize 1
      100 (omega arith) (omega arith)).0

abbrev filled_table : MemTable
filled_table = MemTable.insert 5 0 (5 ∷ codes "INFO") (MemTable.new 100)

-- One row waits in a memtable.
abbrev filled : StorageEngine
filled = record engine { memtables = (0, filled_table) ∷ [] }

filled-IsValid : IsValid filled
filled-IsValid = record {
  positive = engine-IsValid.positive;
  memtables = (
    insert-IsValid 5 0 (5 ∷ codes "INFO") (MemTable.new 100) (MemTable.Rows.new-IsValid 100),
    tt,
  );
  partitions = engine-IsValid.partitions;
}

work_rounds-close_example :
    (e1 : StorageEngine) × (e2 : StorageEngine) × (close params filled ≡ some e1)
    × (work_rounds params flush_queue_capacity e1 ≡ some e2)
    × (e2.memtables ≡ [])
    × (e2.queue ≡ [])
    × (stored_weight params one_each e2
        ≡ stored_weight params one_each filled + pending_weight params one_each filled)
work_rounds-close_example =
    work_rounds-close params one_each no_files logs_serialize others_serialize others_serialize
      filled filled-IsValid (unfold open_engine in omega arith)

-- A codec that refuses a log without a severity.
abbrev strict_codec : Codec LogRecord
strict_codec = record {
  serialize = λ r. elim r.severity_text [
    | [] ↦ err (StorageError.serialisation (codes "no severity"))
    | c ∷ cs ↦ ok (r.timestamp_ns ∷ c ∷ cs)
  ];
  deserialize = read_log;
}

abbrev strict_logs : List LogRecord
strict_logs = some_log 5 (codes "INFO") ∷ some_log 3 [] ∷ []

write_records_lem_example :
    Accepted params one_each
      (record_weight params one_each SignalType.log strict_codec)
      strict_logs
      engine
      (write_records params LogRecord.timestamp_ns 1 strict_codec
        (λ r. write_record strict_codec SignalType.log r.timestamp_ns r)
        strict_logs
        engine)
    ⊎ Rejected params one_each strict_codec
        (record_weight params one_each SignalType.log strict_codec)
        strict_logs
        engine
        (write_records params LogRecord.timestamp_ns 1 strict_codec
          (λ r. write_record strict_codec SignalType.log r.timestamp_ns r)
          strict_logs
          engine)
write_records_lem_example =
    write_records_lem params one_each no_files 1 SignalType.log LogRecord.timestamp_ns strict_codec
      strict_logs engine engine-IsValid

abbrev pub some_span : SpanRecord
some_span = record {
  trace_id = 1 ∷ 2 ∷ [];
  span_id = 3 ∷ [];
  parent_span_id = none;
  name = codes "GET";
  kind = pos 2;
  start_time_ns = 7;
  end_time_ns = 9;
  duration_ns = 2;
  status_code = pos 0;
  status_message = [];
  attributes = no_entries;
  resource_attributes = no_entries;
  scope = record { name = []; version = []; attributes = no_entries };
  events = [];
  links = [];
  schema_url = [];
}

written_lem_example :
    ((t : SsTable LogRow) × (write_logs table_params strict_logs ≡ some t)
      × IsWritten table_params LogRecord.timestamp_ns LogRecord.severity_text
          (log_row table_params.codec)
          strict_logs
          t)
    × ((t : SsTable MetricRow) × (write_metrics table_params [] ≡ some t)
        × IsWritten table_params MetricPoint.timestamp_ns MetricPoint.name
            (metric_row table_params.codec)
            []
            t)
    × ((t : SsTable SpanRow) × (write_spans table_params (some_span ∷ []) ≡ some t)
        × IsWritten table_params SpanRecord.start_time_ns SpanRecord.trace_id
            (span_row table_params.codec)
            (some_span ∷ [])
            t)
written_lem_example = written_lem table_params strict_logs [] (some_span ∷ [])

columns-AllFit_example :
    AllFit 2 log_schema (log_columns (map (log_row table_params.codec) strict_logs))
    × AllFit 0 metric_schema (metric_columns (map (metric_row table_params.codec) []))
    × AllFit 1 span_schema (span_columns (map (span_row table_params.codec) (some_span ∷ [])))
columns-AllFit_example = columns-AllFit table_params.codec strict_logs [] (some_span ∷ [])
