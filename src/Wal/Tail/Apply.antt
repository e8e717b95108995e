-- ===== src/Wal/Tail/Apply.antt =====
-- `apply` of core/src/wal/tail.rs.
use litesdb.Base.{
  ℕ, ◌==◌, not, List, [], ◌∷◌, ◌++◌, ◌||◌, Option, none, some, last?, length, is_some,
}
use litesdb.Base.{
  if◌then◌else◌, Result, ok, err, ◌>>=◌, ◌>>◌, fail_if, ok_or, map_err, resource_exhausted,
}
use litesdb.Base.{◌^◌, ◌-◌, String}
use litesdb.Base.Int.{ℤ, ltb_ℤ, checked_add, try_from}
use litesdb.Base.Map.{Map, get, insert, remove, nat_ord, pair_ord}
use litesdb.Types.Schema.{TableVersion, VersionSpec, successor, initial, activate}
use litesdb.Types.Observation.{Observation, ObservationEntry, entries}
use litesdb.Types.Value.{TableId, SeriesId, FieldId}
use litesdb.Wal.Record.{RecordBody, append_observation, create_table, new_table_version, drop_table}
use litesdb.Wal.Record.{retire_series, retire_field}
use litesdb.Wal.Tail.State.{TailTable, TailIndex, lookup_field}
use litesdb.Wal.Tail.Validate.{replay, next_table, estimate_with, validate, is_none}

-- A retirement ends with an observation after its time.
unfoldable pub unretire : ℕ → ℤ → Map ℕ ℤ → Map ℕ ℤ
unretire id timestamp m = elim (get id m) [
  | none ↦ m
  | some retire_ts ↦ if ltb_ℤ retire_ts timestamp then remove id m else m
]

abbrev pub or_default {ℓ} : {A : Type ℓ} → Option (List A) → List A
or_default none = []
or_default (some xs) = xs

-- `entry(key).or_default().push(row)`
unfoldable pub push_row :
    SeriesId × FieldId → ℕ → Map (SeriesId × FieldId) (List ℕ) → Map (SeriesId × FieldId) (List ℕ)
push_row stream row m = insert stream (or_default (get stream m) ++ (row ∷ [])) m

-- One round of the loop over the entries.
unfoldable pub apply_entry : ℤ → ℕ → ObservationEntry → TailTable → TailTable
apply_entry timestamp row_index entry state = record state {
  per_stream = push_row (entry.series, entry.field) row_index state.per_stream;
  retired_series = unretire entry.series timestamp state.retired_series;
  retired_fields = unretire entry.field timestamp state.retired_fields;
}

unfoldable pub apply_entries : ℤ → ℕ → List ObservationEntry → TailTable → TailTable
apply_entries timestamp row_index [] state = state
apply_entries timestamp row_index (entry ∷ rest) state =
    apply_entries timestamp row_index rest (apply_entry timestamp row_index entry state)

-- `versions.last_mut()`, activated when it is not: the version and the list that holds it.
abbrev pub activated : TableVersion → ℤ → Result TableVersion
activated version timestamp =
    if is_some version.effective_from
    then ok version
    else map_err (replay "version activation failed") (activate version timestamp)

unfoldable pub activate_last : List TableVersion → ℤ → Result (TableVersion × List TableVersion)
activate_last [] timestamp = err (replay "table version disappeared")
activate_last (version ∷ []) timestamp = activated version timestamp >>= λ now. ok (now, now ∷ [])
activate_last (version ∷ (next ∷ rest)) timestamp =
    activate_last (next ∷ rest) timestamp >>= λ (now, all). ok (now, version ∷ all)

-- `u32::try_from` of a length, with the error of the limit.
abbrev pub row_number : String → ℕ → Result ℕ
row_number limit n = ok_or (try_from 32 n) (resource_exhausted limit (2 ^ 64 - 1) (2 ^ 32 - 1))

-- The table with one more row.
unfoldable pub push_observation : TailTable → Observation → Result TailTable
push_observation state observation = do
  row_index ← row_number "tail_rows" (length state.rows)
  entry_start ← row_number "tail_entries" (length state.entries)
  entry_len ← row_number "tail_entries" (length (entries observation))
  (version, versions) ← activate_last state.versions observation.timestamp
  let pushed = apply_entries observation.timestamp row_index (entries observation) state
  ok (record pushed {
    versions = versions;
    entries = state.entries ++ entries observation;
    last_ts = some observation.timestamp;
    rows =
        state.rows
        ++ (record {
          timestamp = observation.timestamp;
          version_no = version.version_no;
          entry_start = entry_start;
          entry_len = entry_len;
        }
            ∷ []);
  })

unfoldable pub created : VersionSpec → TailTable
created spec = record {
  versions = initial spec ∷ [];
  rows = [];
  entries = [];
  per_stream = [];
  retired_series = [];
  retired_fields = [];
  last_ts = none;
}

abbrev pub set_table : TailIndex → TableId → TailTable → TailIndex
set_table tail table state = record tail { tables = insert table state tail.tables }

unfoldable pub apply_create : TailIndex → TableId → VersionSpec → Result TailIndex
apply_create tail table spec = do
  expected ← next_table tail
  fail_if (not (table == expected) || is_some (get table tail.tables))
      (replay "table id is reused or not continuous")
  ok (record tail { tables = insert table (created spec) tail.tables; table_high_water = expected })

unfoldable pub apply_version : TailIndex → TableId → VersionSpec → Result TailIndex
apply_version tail table spec = do
  state ← ok_or (get table tail.tables) (replay "version table is absent")
  previous ← ok_or (last? state.versions) (replay "table has no version")
  fail_if (is_none previous.effective_from) (replay "cannot supersede an inactive version")
  version ← map_err (replay "invalid version successor") (successor previous spec)
  ok (set_table tail table (record state { versions = state.versions ++ (version ∷ []) }))

unfoldable pub apply_drop : TailIndex → TableId → Result TailIndex
apply_drop tail table = do
  fail_if (is_none (get table tail.tables)) (replay "dropped table is absent")
  ok (record tail { tables = remove table tail.tables })

unfoldable pub apply_retire_series : TailIndex → TableId → SeriesId → ℤ → Result TailIndex
apply_retire_series tail table series retire_ts = do
  state ← ok_or (get table tail.tables) (replay "retired series table is absent")
  ok (
      set_table tail table
        (record state { retired_series = insert series retire_ts state.retired_series }))

unfoldable pub apply_retire_field : TailIndex → TableId → FieldId → ℤ → Result TailIndex
apply_retire_field tail table field retire_ts = do
  state ← ok_or (get table tail.tables) (replay "retired field table is absent")
  fail_if (is_none (lookup_field state field)) (replay "retired field is absent")
  ok (
      set_table tail table
        (record state { retired_fields = insert field retire_ts state.retired_fields }))

module _ (row_size entry_size : ℕ) where
  unfoldable pub apply_observation : TailIndex → TableId → Observation → Result TailIndex
  apply_observation tail table observation = do
    estimated ← estimate_with row_size entry_size tail observation
    state ← ok_or (get table tail.tables) (replay "observation table disappeared")
    pushed ← push_observation state observation
    ok (record (set_table tail table pushed) { estimated_bytes = estimated })

  unfoldable pub apply_body : TailIndex → RecordBody → Result TailIndex
  apply_body tail (append_observation table observation) = apply_observation tail table observation
  apply_body tail (create_table table spec) = apply_create tail table spec
  apply_body tail (new_table_version table spec) = apply_version tail table spec
  apply_body tail (drop_table table) = apply_drop tail table
  apply_body tail (retire_series table series retire_ts) =
      apply_retire_series tail table series retire_ts
  apply_body tail (retire_field table field retire_ts) =
      apply_retire_field tail table field retire_ts

  -- `apply_inner`
  unfoldable pub apply : TailIndex → ℕ → RecordBody → Result TailIndex
  apply tail seq body = do
    validate row_size entry_size tail seq body
    following_seq ← ok_or (checked_add 64 seq 1) (replay "sequence overflow")
    applied ← apply_body tail body
    ok (record applied { next_seq = following_seq })
