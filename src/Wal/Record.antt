-- ===== src/Wal/Record.antt =====
-- core/src/wal/record.rs: the bodies of the records.
pub mod Encode
pub mod Decode
pub mod Measure
pub mod Payload
pub mod Body
pub mod RoundTrip
pub mod Frame
pub mod Torn
use litesdb.Base.{ℕ}
use litesdb.Base.Int.{ℤ}
use litesdb.Types.Value.{TableId, SeriesId, FieldId}
use litesdb.Types.Schema.{VersionSpec}
use litesdb.Types.Observation.{Observation}

pub data RecordBody : Type 0 where
  append_observation : TableId → Observation → RecordBody
  create_table : TableId → VersionSpec → RecordBody
  new_table_version : TableId → VersionSpec → RecordBody
  drop_table : TableId → RecordBody
  retire_series : TableId → SeriesId → ℤ → RecordBody
  retire_field : TableId → FieldId → ℤ → RecordBody

unfoldable pub record_type : RecordBody → ℕ
record_type (append_observation table observation) = 1
record_type (create_table table spec) = 2
record_type (new_table_version table spec) = 3
record_type (drop_table table) = 4
record_type (retire_series table series retire_ts) = 5
record_type (retire_field table field retire_ts) = 6
