-- ===== src/Manifest/Catalog.antt =====
-- core/src/manifest/catalog.rs and catalog_validate.rs: the parts of a manifest, and what is
-- checked when they are put together.
use litesdb.Base.{
  ℕ, ◌==◌, not, ltb, leb, ◌||◌, ◌&&◌, List, [], ◌∷◌, Bool, true, false, Option, none, some,
}
use litesdb.Base.{length, map, any, any_adjacent, is_some, last?, if◌then◌else◌}
use litesdb.Base.{Result, ok, ◌>>=◌, ◌>>◌, ok_or, fail_if, corruption, resource_exhausted}
use litesdb.Base.Int.{ℤ, ltb_ℤ, eqb_ℤ}
use litesdb.Limits.{max_tables, max_live_units, max_unit_file_bytes, max_unit_sections}
use litesdb.Types.Value.{TableId, SeriesId, FieldId}
use litesdb.Types.Schema.{TableVersion, FieldSchema, find_field}
use litesdb.Wal.Checkpoint.{Checkpoint}
use litesdb.Wal.Tail.State.{TailIndex, RecoveredTable, restore_tail}
use litesdb.Manifest.Versions.{validate_versions, validate_count, in_table, in_manifest}

pub record ManifestIdentity : Type 0 where
  pub generation : ℕ
  pub unit_high_water : ℕ
  pub table_high_water : ℕ
  pub shard_id : ℕ
  pub writer_epoch : ℕ

pub record RetentionState : Type 0 where
  pub floor : Option ℤ
  pub heads_generation : Option ℕ

pub record SeriesRetirement : Type 0 where
  pub series : SeriesId
  pub retire_ts : ℤ

pub record FieldRetirement : Type 0 where
  pub field : FieldId
  pub retire_ts : ℤ

pub record TableCatalog : Type 0 where
  pub table : TableId
  pub last_ts : Option ℤ
  pub versions : List TableVersion
  pub retired_series : List SeriesRetirement
  pub retired_fields : List FieldRetirement

pub record UnitMeta : Type 0 where
  pub unit_id : ℕ
  pub level : ℕ
  pub min_ts : ℤ
  pub max_ts : ℤ
  pub section_count : ℕ
  pub total_rows : ℕ
  pub file_len : ℕ
  pub body_crc32 : ℕ

pub record Manifest : Type 0 where
  pub identity : ManifestIdentity
  pub checkpoint : Checkpoint
  pub retention : RetentionState
  pub tables : List TableCatalog
  pub units : List UnitMeta

-- The loop over the retired fields.
unfoldable pub retired_present : List FieldSchema → List FieldRetirement → Result (Unit {0})
retired_present fields [] = ok tt
retired_present fields (retirement ∷ rest) = do
  fail_if (not (is_some (find_field retirement.field fields)))
      (in_table "retired field is absent from latest version")
  retired_present fields rest

abbrev pub series_unordered : SeriesRetirement → SeriesRetirement → Bool
series_unordered a b = leb b.series a.series

abbrev pub retired_unordered : FieldRetirement → FieldRetirement → Bool
retired_unordered a b = leb b.field a.field

-- `TableCatalog::restore`
unfoldable pub restore_table :
    TableId
    → Option ℤ
    → List TableVersion
    → List SeriesRetirement
    → List FieldRetirement
    → Result TableCatalog
restore_table table last_ts versions retired_series retired_fields = do
  validate_versions last_ts versions
  fail_if (any_adjacent series_unordered retired_series)
      (in_table "series retirements are not strictly ordered")
  fail_if (any_adjacent retired_unordered retired_fields)
      (in_table "field retirements are not strictly ordered")
  latest ← ok_or (last? versions) (in_table "version history is empty")
  retired_present latest.fields retired_fields
  ok (record {
    table = table;
    last_ts = last_ts;
    versions = versions;
    retired_series = retired_series;
    retired_fields = retired_fields;
  })

-- `UnitMeta::new`
unfoldable pub new_unit_meta : ℕ → ℕ → ℤ → ℤ → ℕ → ℕ → ℕ → ℕ → Result UnitMeta
new_unit_meta unit_id level min_ts max_ts section_count total_rows file_len body_crc32 = do
  fail_if
      (ltb 2 level
        || ltb_ℤ max_ts min_ts
        || section_count == 0
        || ltb max_unit_sections section_count
        || total_rows == 0)
      (corruption "MANIFEST unit" "level, time range, section count, or row count is invalid")
  fail_if (ltb max_unit_file_bytes file_len)
      (resource_exhausted "unit_file_bytes" file_len max_unit_file_bytes)
  ok (record {
    unit_id = unit_id;
    level = level;
    min_ts = min_ts;
    max_ts = max_ts;
    section_count = section_count;
    total_rows = total_rows;
    file_len = file_len;
    body_crc32 = body_crc32;
  })

abbrev pub tables_unordered : TableCatalog → TableCatalog → Bool
tables_unordered a b = leb b.table a.table

-- The order of `order_key`, a pair of the minimum time and the identifier.
unfoldable pub order_key_lt : UnitMeta → UnitMeta → Bool
order_key_lt a b = ltb_ℤ a.min_ts b.min_ts || (eqb_ℤ a.min_ts b.min_ts && ltb a.unit_id b.unit_id)

abbrev pub units_unordered : UnitMeta → UnitMeta → Bool
units_unordered a b = not (order_key_lt a b)

-- `units.iter().any(|unit| !unit_ids.insert(unit.unit_id()))`, with the set of the identifiers.
unfoldable pub repeats_id : List ℕ → List UnitMeta → Bool
repeats_id ids [] = false
repeats_id ids (unit ∷ rest) =
    let later = repeats_id (unit.unit_id ∷ ids) rest in
    if any (λ id. id == unit.unit_id) ids then true else later

-- `tables.last().is_some_and(...)`
unfoldable pub last_above : ℕ → Option TableCatalog → Bool
last_above high none = false
last_above high (some table) = ltb high table.table

-- `Manifest::restore`
unfoldable pub restore_manifest :
    ManifestIdentity
    → Checkpoint
    → RetentionState
    → List TableCatalog
    → List UnitMeta
    → Result Manifest
restore_manifest identity checkpoint retention tables units = do
  validate_count "tables" (length tables) max_tables
  validate_count "live_units" (length units) max_live_units
  fail_if (any_adjacent tables_unordered tables) (in_manifest "tables are not strictly ordered")
  fail_if (any_adjacent units_unordered units)
      (in_manifest "units are not ordered by minimum time and identifier")
  fail_if (repeats_id [] units) (in_manifest "unit identifier is duplicated")
  fail_if
      (last_above identity.table_high_water (last? tables)
        || any (λ unit. ltb identity.unit_high_water unit.unit_id) units)
      (in_manifest "allocation high water is below a live identifier")
  ok (record {
    identity = identity;
    checkpoint = checkpoint;
    retention = retention;
    tables = tables;
    units = units;
  })

abbrev pub series_pair : SeriesRetirement → SeriesId × ℤ
series_pair retirement = (retirement.series, retirement.retire_ts)

abbrev pub field_pair : FieldRetirement → FieldId × ℤ
field_pair retirement = (retirement.field, retirement.retire_ts)

unfoldable pub recovered : TableCatalog → RecoveredTable
recovered table = record {
  table = table.table;
  last_ts = table.last_ts;
  versions = table.versions;
  retired_series = map series_pair table.retired_series;
  retired_fields = map field_pair table.retired_fields;
}

-- `Manifest::replay_target`
unfoldable pub replay_target : Manifest → Result TailIndex
replay_target m =
    restore_tail m.identity.table_high_water m.checkpoint.next_seq (map recovered m.tables)
