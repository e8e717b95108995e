-- ===== src/Wal/Tail/State.antt =====
-- The state of core/src/wal/tail.rs, how a checkpoint restores it, and what reads it.
use litesdb.Base.{
  ℕ, ◌+◌, List, [], ◌∷◌, Bool, false, ◌||◌, Option, none, some, last?, ltb, leb, length, take, drop,
}
use litesdb.Base.{if◌then◌else◌, Result, ok, ◌>>=◌, ◌>>◌, fail_if, corruption}
use litesdb.Base.Int.{ℤ}
use litesdb.Base.Map.{Map, get, insert, nat_ord, pair_ord}
use litesdb.Types.Value.{TableId, SeriesId, FieldId, ValueType}
use litesdb.Types.Schema.{TableVersion, find_field}
use litesdb.Types.Observation.{ObservationEntry, is_empty}

pub record TailRow : Type 0 where
  pub timestamp : ℤ
  pub version_no : ℕ
  pub entry_start : ℕ
  pub entry_len : ℕ

pub record TailTable : Type 0 where
  pub versions : List TableVersion
  pub rows : List TailRow
  pub entries : List ObservationEntry
  pub per_stream : Map (SeriesId × FieldId) (List ℕ)
  pub retired_series : Map SeriesId ℤ
  pub retired_fields : Map FieldId ℤ
  pub last_ts : Option ℤ

pub record RecoveredTable : Type 0 where
  pub table : TableId
  pub last_ts : Option ℤ
  pub versions : List TableVersion
  pub retired_series : List (SeriesId × ℤ)
  pub retired_fields : List (FieldId × ℤ)

pub record TailIndex : Type 0 where
  pub tables : Map TableId TailTable
  pub table_high_water : ℕ
  pub next_seq : ℕ
  pub estimated_bytes : ℕ

unfoldable pub new_tail : ℕ → ℕ → TailIndex
new_tail table_high_water next_seq = record {
  tables = [];
  table_high_water = table_high_water;
  next_seq = next_seq;
  estimated_bytes = 0;
}

-- `collect` into a `BTreeMap`
unfoldable pub collect {ℓ} : {V : Type ℓ} → List (ℕ × V) → Map ℕ V → Map ℕ V
collect [] m = m
collect ((k, v) ∷ rest) m = collect rest (insert k v m)

unfoldable pub restored_table : RecoveredTable → TailTable
restored_table table = record {
  versions = table.versions;
  rows = [];
  entries = [];
  per_stream = [];
  retired_series = collect table.retired_series [];
  retired_fields = collect table.retired_fields [];
  last_ts = table.last_ts;
}

abbrev pub not_above : Option TableId → TableId → Bool
not_above none id = false
not_above (some prior) id = leb id prior

unfoldable pub restore_tables :
    ℕ
    → Option TableId
    → List RecoveredTable
    → Map TableId TailTable
    → Result (Map TableId TailTable)
restore_tables table_high_water previous [] restored = ok restored
restore_tables table_high_water previous (table ∷ rest) restored = do
  fail_if
      (ltb table_high_water table.table
        || not_above previous table.table
        || is_empty table.versions)
      (corruption "WAL replay" "checkpoint tables contradict ordering or high water")
  restore_tables table_high_water (some table.table) rest
      (insert table.table (restored_table table) restored)

-- `TailIndex::restore`
unfoldable pub restore_tail : ℕ → ℕ → List RecoveredTable → Result TailIndex
restore_tail table_high_water next_seq tables = do
  restored ← restore_tables table_high_water none tables []
  ok (record {
    tables = restored;
    table_high_water = table_high_water;
    next_seq = next_seq;
    estimated_bytes = 0;
  })

-- `TailTable::row_entries`: on the 64-bit `usize` the sum of two `u32` does not overflow.
unfoldable pub row_entries : TailTable → TailRow → Option (List ObservationEntry)
row_entries state row =
    if leb (row.entry_start + row.entry_len) (length state.entries)
    then some (take row.entry_len (drop row.entry_start state.entries))
    else none

abbrev pub type_in : FieldId → Option TableVersion → Option ValueType
type_in field none = none
type_in field (some version) = elim (find_field field version.fields) [
  | none ↦ none
  | some schema ↦ some schema.value_type
]

unfoldable pub lookup_field : TailTable → FieldId → Option ValueType
lookup_field state field = type_in field (last? state.versions)

-- `field_type` of `ReplayTarget`
unfoldable pub field_type : TailIndex → TableId → FieldId → Option ValueType
field_type tail table field = elim (get table tail.tables) [
  | none ↦ none
  | some state ↦ lookup_field state field
]

-- `TailTable::stream_rows`
unfoldable pub stream_rows : TailTable → SeriesId → FieldId → Option (List ℕ)
stream_rows state series field = get (series, field) state.per_stream

-- `TailTable::retired_series_at` and `retired_field_at`
unfoldable pub retired_series_at : TailTable → SeriesId → Option ℤ
retired_series_at state series = get series state.retired_series

unfoldable pub retired_field_at : TailTable → FieldId → Option ℤ
retired_field_at state field = get field state.retired_fields
