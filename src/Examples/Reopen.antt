-- ===== src/Examples/Reopen.antt =====
-- A database that is opened again from a manifest.
use litesdb.Base.{◌≡◌, refl, arith, true, [], ◌∷◌, ok, ◌>>=◌}
use litesdb.Base.Map.{insert, nat_ord}
use litesdb.Wal.Tail.State.{TailIndex, restore_tail, restore_tables, restored_table}
use litesdb.Wal.Recover.{Replayed, replay_segment, replay_from, scan_record, repair_or_corrupt}
use litesdb.Wal.Recover.Scan.{IsReplayed}
use litesdb.Manifest.Catalog.{replay_target, recovered}
use litesdb.Manifest.Reopen.{replay_segment-replay_target}
use litesdb.Examples.Record.{checksum}
use litesdb.Examples.Manifest.{stored, stored-IsManifest, catalog, table_with-IsCatalog}

abbrev reopened : TailIndex
reopened = record {
  tables = (1, restored_table (recovered catalog)) ∷ [];
  table_high_water = 1;
  next_seq = 7;
  estimated_bytes = 0;
}

abbrev cut : Replayed
cut = record { end = 32; removed = 3; expected_seq = 7; target = reopened }

scanned :
    (replay_target stored >>= λ target.
    replay_segment 24 24 checksum 35 32 true 7 target (1 ∷ 2 ∷ 3 ∷ []))
    ≡ ok cut
unfolding replay_target recovered restore_tail restore_tables insert replay_segment replay_from
    scan_record repair_or_corrupt
scanned = refl

replay_segment-replay_target_example : IsReplayed true 35 32 cut
replay_segment-replay_target_example =
    replay_segment-replay_target 24 24 checksum stored 35 (1 ∷ 2 ∷ 3 ∷ []) cut (omega arith)
      stored-IsManifest (table_with-IsCatalog catalog.retired_series refl, tt) refl scanned
