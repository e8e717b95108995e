-- ===== src/Manifest/Transition.antt =====
-- core/src/manifest/transition.rs: the manifests that follow one another.
use litesdb.Base.{ℕ, ◌-◌, ◌^◌, ltb, ◌||◌, List, [], none, map, traverse}
use litesdb.Base.{Result, ok, ◌>>=◌, ◌>>◌, Error, ok_or, fail_if, resource_exhausted, String}
use litesdb.Base.Int.{ℤ, checked_add}
use litesdb.Types.Value.{TableId, SeriesId, FieldId}
use litesdb.Wal.Checkpoint.{Checkpoint}
use litesdb.Wal.Tail.State.{TailIndex, TailTable}
use litesdb.Manifest.Catalog.{Manifest, ManifestIdentity, RetentionState, SeriesRetirement}
use litesdb.Manifest.Catalog.{
  FieldRetirement, TableCatalog, UnitMeta, restore_table, restore_manifest,
}
use litesdb.Manifest.Versions.{in_manifest}

abbrev pub no_identity : ManifestIdentity
no_identity = record {
  generation = 0;
  unit_high_water = 0;
  table_high_water = 0;
  shard_id = 0;
  writer_epoch = 0;
}

-- `RetentionState::default`
abbrev pub no_retention : RetentionState
no_retention = record { floor = none; heads_generation = none }

-- `Manifest::initial`
unfoldable pub initial_manifest : Checkpoint → Result Manifest
initial_manifest checkpoint = restore_manifest no_identity checkpoint no_retention [] []

-- A number of the manifest that is at its end.
abbrev pub spent : String → Error
spent name = resource_exhausted name (2 ^ 64 - 1) (2 ^ 64 - 1)

unfoldable pub next_identity : Manifest → ℕ → ℕ → Result ManifestIdentity
next_identity m unit_high_water table_high_water = do
  generation ← ok_or (checked_add 64 m.identity.generation 1) (spent "manifest_generation")
  fail_if
      (ltb unit_high_water m.identity.unit_high_water
        || ltb table_high_water m.identity.table_high_water)
      (in_manifest "allocation high water regressed")
  ok (record {
    generation = generation;
    unit_high_water = unit_high_water;
    table_high_water = table_high_water;
    shard_id = m.identity.shard_id;
    writer_epoch = m.identity.writer_epoch;
  })

abbrev pub series_retirement : SeriesId × ℤ → SeriesRetirement
series_retirement (series, retire_ts) = record { series = series; retire_ts = retire_ts }

abbrev pub field_retirement : FieldId × ℤ → FieldRetirement
field_retirement (field, retire_ts) = record { field = field; retire_ts = retire_ts }

unfoldable pub catalog_of : TableId × TailTable → Result TableCatalog
catalog_of (table, state) =
    restore_table table state.last_ts state.versions (map series_retirement state.retired_series)
      (map field_retirement state.retired_fields)

unfoldable pub successor_from_tail :
    Manifest → Checkpoint → TailIndex → List UnitMeta → ℕ → Result Manifest
successor_from_tail m checkpoint tail units unit_high_water = do
  tables ← traverse catalog_of tail.tables
  identity ← next_identity m unit_high_water tail.table_high_water
  restore_manifest identity checkpoint m.retention tables units

unfoldable pub successor_catalog : Manifest → RetentionState → List UnitMeta → ℕ → Result Manifest
successor_catalog m retention units unit_high_water = do
  identity ← next_identity m unit_high_water m.identity.table_high_water
  restore_manifest identity m.checkpoint retention m.tables units

unfoldable pub successor_writer_epoch : Manifest → Result Manifest
successor_writer_epoch m = do
  generation ← ok_or (checked_add 64 m.identity.generation 1) (spent "manifest_generation")
  writer_epoch ← ok_or (checked_add 64 m.identity.writer_epoch 1) (spent "writer_epoch")
  let identity : ManifestIdentity = record {
    generation = generation;
    unit_high_water = m.identity.unit_high_water;
    table_high_water = m.identity.table_high_water;
    shard_id = m.identity.shard_id;
    writer_epoch = writer_epoch;
  }
  restore_manifest identity m.checkpoint m.retention m.tables m.units
