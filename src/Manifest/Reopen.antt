-- ===== src/Manifest/Reopen.antt =====
-- core/src/manifest/catalog.rs with core/src/wal/recover_scan.rs: a manifest and the segment of its
-- checkpoint, from which a database is opened again.
use litesdb.Base.{
  ℕ, ◌+◌, ◌≤◌, ◌≡◌, true, All, List, length, ok, ◌>>=◌, >>=-eq-ok, subst, ok-injective, sym, ◌∙◌,
}
use litesdb.Manifest.Catalog.{Manifest, replay_target}
use litesdb.Manifest.Valid.{IsManifest}
use litesdb.Manifest.Tables.{IsCatalog}
use litesdb.Manifest.Recovery.{replay_target-IsTail}
use litesdb.Wal.Recover.{Replayed, replay_segment}
use litesdb.Wal.Recover.Rounds.{IsScanning}
use litesdb.Wal.Recover.Scan.{IsReplayed, replay_segment-IsReplayed}

-- A database is opened on a well-formed index: when a row has a positive size, the manifest is well
-- formed with tables that their constructor made, and scanning the last segment from the
-- checkpoint to the end of the file into the replay target succeeds, then the index that it leaves
-- is well formed and waits for the record that the scan expects next, the scan ends at or behind
-- the checkpoint, and what it cuts off ends the file.
pub replay_segment-replay_target :
    (row_size entry_size : ℕ) (crc : List ℕ → ℕ) (m : Manifest) (file_len : ℕ) (rest : List ℕ)
    (found : Replayed)
    → 1 ≤ row_size
    → IsManifest m
    → All IsCatalog m.tables
    → file_len ≡ m.checkpoint.offset + length rest
    → (replay_target m >>= λ target.
        replay_segment row_size entry_size crc file_len m.checkpoint.offset true
          m.checkpoint.next_seq target rest)
      ≡ ok found
    → IsReplayed true file_len m.checkpoint.offset found
replay_segment-replay_target row_size entry_size crc m file_len rest found sized is tables whole h =
    let (target, made, scanned) = >>=-eq-ok (replay_target m) _ h in
    let (tail, made', is_tail, next, _, _) = replay_target-IsTail m is tables in
    let same = ok-injective (sym made' ∙ made) in
    replay_segment-IsReplayed row_size entry_size sized crc true file_len m.checkpoint.offset
      m.checkpoint.next_seq target rest found
      (subst (λ t. IsScanning file_len m.checkpoint.offset m.checkpoint.next_seq t rest) same
        (record { whole = whole; target_is = is_tail; seq_is = next }))
      scanned
