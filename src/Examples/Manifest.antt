-- ===== src/Examples/Manifest.antt =====
-- Concrete manifests.
use litesdb.Base.{ℕ, ◌^◌, ◌≡◌, ◌↔◌, refl, arith, List, [], ◌∷◌, ok, some, none, any_adjacent, false}
use litesdb.Base.Int.{pos, checked_add, try_from}
use litesdb.Types.Value.{u_int}
use litesdb.Types.Schema.{TableVersion, forever}
use litesdb.Wal.Checkpoint.{Checkpoint}
use litesdb.Wal.Tail.State.{TailIndex}
use litesdb.Wal.Tail.Invariant.{IsTail}
use litesdb.Manifest.Catalog.{
  Manifest, TableCatalog, UnitMeta, SeriesRetirement, restore_manifest, restore_table,
  series_unordered, replay_target, retired_present, repeats_id, last_above,
}
use litesdb.Manifest.Transition.{successor_writer_epoch, successor_catalog, successor_from_tail}
use litesdb.Manifest.Valid.{IsManifest}
use litesdb.Manifest.Restore.{restore_manifest_iff}
use litesdb.Manifest.Steps.{Follows, Successor, NotRegressed, Follows-IsManifest}
use litesdb.Base.{◌<◌, ◌≤◌}
use litesdb.Manifest.Next.{
  with_catalog, with_next_epoch, successor_catalog_iff, successor_writer_epoch_iff,
}
use litesdb.Manifest.Tables.{IsCatalog}
use litesdb.Manifest.Recovery.{replay_target-IsTail, successor_from_tail-replay_target}
use litesdb.Manifest.Format.Encode.{}
use litesdb.Manifest.Versions.{
  validate_versions, validate_from, validate_field_compatibility, next_effective, clock_contradicts,
  validate_count,
}

abbrev pub version : TableVersion
version = record {
  version_no = 1;
  validity = forever;
  fields = record { field = 3; value_type = u_int } ∷ [];
  effective_from = some (pos 50);
}

abbrev pub table_with : List SeriesRetirement → TableCatalog
table_with retired = record {
  table = 1;
  last_ts = some (pos 60);
  versions = version ∷ [];
  retired_series = retired;
  retired_fields = [];
}

abbrev pub sealed : UnitMeta
sealed = record {
  unit_id = 4;
  level = 0;
  min_ts = pos 50;
  max_ts = pos 55;
  section_count = 1;
  total_rows = 2;
  file_len = 100;
  body_crc32 = 9;
}

abbrev pub checkpoint : Checkpoint
checkpoint = record { segment_first_seq = 1; offset = 32; next_seq = 7 }

abbrev pub catalog : TableCatalog
catalog = table_with (record { series = 8; retire_ts = pos 58 } ∷ [])

abbrev manifest_at : ℕ → ℕ → Manifest
manifest_at generation writer_epoch = record {
  identity = record {
    generation = generation;
    unit_high_water = 4;
    table_high_water = 1;
    shard_id = 2;
    writer_epoch = writer_epoch;
  };
  checkpoint = checkpoint;
  retention = record { floor = none; heads_generation = some 3 };
  tables = catalog ∷ [];
  units = sealed ∷ [];
}

abbrev pub stored : Manifest
stored = manifest_at 5 6

pub stored-IsManifest : IsManifest stored
stored-IsManifest = record {
  few_tables = omega arith;
  few_units = omega arith;
  tables_ordered = tt;
  units_ordered = tt;
  distinct = (tt, tt);
  tables_low = (omega arith, tt);
  units_low = (omega arith, tt);
}

pub table_with-IsCatalog :
    (retired : List SeriesRetirement)
    → any_adjacent series_unordered retired ≡ false
    → IsCatalog (table_with retired)
unfolding restore_table validate_versions validate_from validate_field_compatibility next_effective
    clock_contradicts retired_present try_from checked_add
table_with-IsCatalog retired h = rw h refl

restore_manifest_iff_example :
    (restore_manifest stored.identity stored.checkpoint stored.retention stored.tables stored.units
      ≡ ok stored)
    ↔ IsManifest stored
restore_manifest_iff_example = restore_manifest_iff stored

next_epoch : successor_writer_epoch stored ≡ ok (manifest_at 6 7)
unfolding successor_writer_epoch checked_add restore_manifest validate_count repeats_id last_above
next_epoch = refl

followed : Follows stored 1 (manifest_at 6 7)
followed = Follows.next Follows.start (Successor.from_epoch next_epoch)

Follows-IsManifest_example :
    IsManifest (manifest_at 6 7)
    × (◌≡◌ {A = ℕ} 6 6)
    × NotRegressed stored.identity (manifest_at 6 7).identity
Follows-IsManifest_example =
    Follows-IsManifest stored (manifest_at 6 7) 1 stored-IsManifest followed

abbrev empty_tail : TailIndex
empty_tail = record { tables = []; table_high_water = 1; next_seq = 7; estimated_bytes = 0 }

successor_catalog_iff_example :
    (successor_catalog stored stored.retention [] 9
      ≡ ok (with_catalog stored stored.retention [] 9))
    ↔ ((6 < 2 ^ 64)
        × (4 ≤ 9)
        × IsManifest (with_catalog stored stored.retention [] 9)
        × (with_catalog stored stored.retention [] 9 ≡ with_catalog stored stored.retention [] 9))
successor_catalog_iff_example =
    successor_catalog_iff stored (with_catalog stored stored.retention [] 9) stored.retention [] 9

successor_writer_epoch_iff_example :
    (successor_writer_epoch stored ≡ ok (manifest_at 6 7))
    ↔ ((6 < 2 ^ 64) × (7 < 2 ^ 64) × (manifest_at 6 7 ≡ with_next_epoch stored))
successor_writer_epoch_iff_example =
    successor_writer_epoch_iff stored (manifest_at 6 7) stored-IsManifest

replay_target-IsTail_example :
    (tail : TailIndex) × (replay_target stored ≡ ok tail)
    × IsTail tail
    × (tail.next_seq ≡ 7)
    × (tail.table_high_water ≡ 1)
    × (tail.estimated_bytes ≡ 0)
replay_target-IsTail_example =
    replay_target-IsTail stored stored-IsManifest
      (table_with-IsCatalog catalog.retired_series refl, tt)

successor_from_tail-replay_target_example :
    (tail : TailIndex) × (replay_target stored ≡ ok tail)
    × (successor_from_tail stored checkpoint tail stored.units 4 ≡ ok (manifest_at 6 6))
successor_from_tail-replay_target_example =
    successor_from_tail-replay_target stored checkpoint stored-IsManifest
      (table_with-IsCatalog catalog.retired_series refl, tt) (omega arith)
