-- ===== src/Wal/Tail/Validate.antt =====
-- core/src/wal/tail_validate.rs: whether a record can be applied. The sizes in memory of a
-- `TailRow` and of an `ObservationEntry` are the compiler's, so they are parameters.
use litesdb.Base.{ℕ, String, ◌-◌, ◌^◌, ◌==◌, not, Bool, ◌||◌, Option, last?, length, is_some, is_ok}
use litesdb.Base.{
  ltb, Result, ok, ◌>>=◌, ◌>>◌, fail_if, ok_or, map_err, corruption, resource_exhausted, Error,
}
use litesdb.Base.Int.{checked_add, checked_mul}
use litesdb.Base.Map.{get, nat_ord}
use litesdb.Limits.{max_tail_index_bytes}
use litesdb.Types.Schema.{VersionSpec, successor, find_field}
use litesdb.Types.Observation.{Observation, entries, validate_after, validate_schema}
use litesdb.Types.Value.{TableId, FieldId}
use litesdb.Wal.Record.{RecordBody, append_observation, create_table, new_table_version, drop_table}
use litesdb.Wal.Record.{retire_series, retire_field}
use litesdb.Wal.Tail.State.{TailIndex}

abbrev pub replay : String → Error
replay reason = corruption "WAL replay" reason

abbrev pub tail_memory_overflow : Error
tail_memory_overflow = resource_exhausted "tail_index_bytes" (2 ^ 64 - 1) max_tail_index_bytes

unfoldable pub is_none {ℓ} : {A : Type ℓ} → Option A → Bool
is_none o = not (is_some o)

unfoldable pub is_err {ℓ} : {A : Type ℓ} → Result A → Bool
is_err r = not (is_ok r)

-- The next identifier of a table.
unfoldable pub next_table : TailIndex → Result ℕ
next_table tail = ok_or (checked_add 32 tail.table_high_water 1) (replay "table id overflow")

unfoldable pub validate_create : TailIndex → TableId → Result (Unit {0})
validate_create tail table = do
  expected ← next_table tail
  fail_if (not (table == expected) || is_some (get table tail.tables))
      (replay "table id is reused or not continuous")

unfoldable pub validate_version : TailIndex → TableId → VersionSpec → Result (Unit {0})
validate_version tail table spec = do
  state ← ok_or (get table tail.tables) (replay "version table is absent")
  previous ← ok_or (last? state.versions) (replay "table has no version")
  fail_if (is_none previous.effective_from || is_err (successor previous spec))
      (replay "version predecessor or successor is invalid")

unfoldable pub validate_present : TailIndex → TableId → Result (Unit {0})
validate_present tail table =
    fail_if (is_none (get table tail.tables)) (replay "mutation table is absent")

unfoldable pub validate_retired_field : TailIndex → TableId → FieldId → Result (Unit {0})
validate_retired_field tail table field = do
  state ← ok_or (get table tail.tables) (replay "retired field table is absent")
  version ← ok_or (last? state.versions) (replay "table has no version")
  fail_if (is_none (find_field field version.fields)) (replay "retired field is absent")

module _ (row_size entry_size : ℕ) where
  unfoldable pub estimate_row_bytes : ℕ → Result ℕ
  estimate_row_bytes entry_count = do
    entry_width ← ok_or (checked_add 64 entry_size 4) tail_memory_overflow
    entries ← ok_or (checked_mul 64 entry_count entry_width) tail_memory_overflow
    ok_or (checked_add 64 row_size entries) tail_memory_overflow

  -- The estimate with a further row, in its limit.
  unfoldable pub estimate_with : TailIndex → Observation → Result ℕ
  estimate_with tail observation = do
    increment ← estimate_row_bytes (length (entries observation))
    estimated ← ok_or (checked_add 64 tail.estimated_bytes increment) tail_memory_overflow
    fail_if (ltb max_tail_index_bytes estimated)
        (resource_exhausted "tail_index_bytes" estimated max_tail_index_bytes)
    ok estimated

  unfoldable pub validate_observation : TailIndex → TableId → Observation → Result (Unit {0})
  validate_observation tail table observation = do
    state ← ok_or (get table tail.tables) (replay "observation table is absent")
    map_err (replay "table clock is not increasing") (validate_after observation state.last_ts)
    version ← ok_or (last? state.versions) (replay "table has no version")
    map_err (replay "observation violates schema") (validate_schema observation version)
    estimated ← estimate_with tail observation
    ok tt

  unfoldable pub validate_body : TailIndex → RecordBody → Result (Unit {0})
  validate_body tail (append_observation table observation) =
      validate_observation tail table observation
  validate_body tail (create_table table spec) = validate_create tail table
  validate_body tail (new_table_version table spec) = validate_version tail table spec
  validate_body tail (drop_table table) = validate_present tail table
  validate_body tail (retire_series table series retire_ts) = validate_present tail table
  validate_body tail (retire_field table field retire_ts) = validate_retired_field tail table field

  unfoldable pub validate : TailIndex → ℕ → RecordBody → Result (Unit {0})
  validate tail seq body = do
    fail_if (not (seq == tail.next_seq)) (replay "target sequence mismatch")
    validate_body tail body
