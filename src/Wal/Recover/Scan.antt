-- ===== src/Wal/Recover/Scan.antt =====
-- core/src/wal/recover_scan.rs: the scan of any bytes ends, and leaves a well-formed index.
use litesdb.Base.{
  ℕ, zero, suc, ◌+◌, ◌≤◌, ◌<◌, ltb, ◌≡◌, ◌⊎◌, inl, inr, refl, subst, arith, true, Bool, Bool-cases,
  List, length,
}
use litesdb.Base.{ok, ok-injective}
use litesdb.Wal.Tail.State.{TailIndex}
use litesdb.Wal.Tail.Invariant.{IsTail}
use litesdb.Wal.Recover.{stopped, advanced, Replayed, scan_record, replay_from, replay_segment}
use litesdb.Wal.Recover.Rounds.{IsScanning, scan_record_inv}
use litesdb.Wal.Recover.Scans.{Scans, Scans-replay_from}
use litesdb.Base.{Result-cases}

-- What the end of a scan says: the index is well formed and waits for the expected record, and the
-- file ends where the records and what is cut off end; only the last segment is cut.
pub record IsReplayed (is_last : Bool) (file_len position : ℕ) (found : Replayed) : Type 0 where
  pub target_is : IsTail found.target
  pub seq_is : found.target.next_seq ≡ found.expected_seq
  pub whole : found.end + found.removed ≡ file_len
  pub behind : position ≤ found.end
  pub cut : (found.removed ≡ 0) ⊎ (is_last ≡ true)

module _ (row_size entry_size : ℕ) (sized : 1 ≤ row_size) (crc : List ℕ → ℕ) where
  replay_from-IsReplayed :
      (fuel : ℕ) (is_last : Bool) (file_len position seq : ℕ) (target : TailIndex) (rest : List ℕ)
      (found : Replayed)
      → IsScanning file_len position seq target rest
      → replay_from row_size entry_size crc fuel is_last file_len position seq target rest
        ≡ ok found
      → IsReplayed is_last file_len position found
  unfolding replay_from
  replay_from-IsReplayed zero is_last file_len position seq target rest found is h = cc
  replay_from-IsReplayed (suc fuel) is_last file_len position seq target rest found is h =
      elim (Bool-cases (ltb position file_len)) [
        | inr done ↦
            let ended : ◌≡◌ {A = ℕ} position file_len = ground (arith, is.whole) in
            subst (λ r. IsReplayed is_last file_len position r)
              (ok-injective (rw (done, replay_from) at h))
              (record {
                target_is = is.target_is;
                seq_is = is.seq_is;
                whole = omega arith;
                behind = omega arith;
                cut = inl refl;
              })
        | inl more ↦
            elim (Result-cases
              (scan_record row_size entry_size crc is_last file_len position seq target rest)) [
                | inl (e, failed) ↦ let refused = rw (more, replay_from, failed) at h in cc
                | inr (stopped (end, removed), scanned) ↦
                    let (at_position, left, last) =
                      scan_record_inv row_size entry_size sized crc is_last file_len position seq
                        target rest (stopped (end, removed)) is scanned in
                    subst (λ r. IsReplayed is_last file_len position r)
                      (ok-injective (rw (more, replay_from, scanned) at h))
                      (record {
                        target_is = is.target_is;
                        seq_is = is.seq_is;
                        whole = omega (arith, is.whole);
                        behind = omega arith;
                        cut = inr last;
                      })
                | inr (advanced frame_end next target' later, scanned) ↦
                    let (is', less) =
                      scan_record_inv row_size entry_size sized crc is_last file_len position seq
                        target rest (advanced frame_end next target' later) is scanned in
                    let inner =
                      replay_from-IsReplayed fuel is_last file_len frame_end next target' later
                        found is' (rw (more, replay_from, scanned) at h) in
                    record {
                      target_is = inner.target_is;
                      seq_is = inner.seq_is;
                      whole = inner.whole;
                      behind = omega (arith, inner.behind, is.whole, is'.whole);
                      cut = inner.cut;
                    }
              ]
      ]

  -- Whatever a file holds, recovery leaves a well-formed index: when a row has a positive size, the
  -- bytes end the file behind the position, the index is well formed and waits for the expected
  -- record, and the scan succeeds, then the index that it leaves is well formed and waits for the
  -- record that the scan expects next, the scan ends at or behind the position, what it cuts off
  -- ends the file, and nothing is cut off but in the last segment.
  pub replay_segment-IsReplayed :
      (is_last : Bool) (file_len position seq : ℕ) (target : TailIndex) (rest : List ℕ)
      (found : Replayed)
      → IsScanning file_len position seq target rest
      → replay_segment row_size entry_size crc file_len position is_last seq target rest ≡ ok found
      → IsReplayed is_last file_len position found
  unfolding replay_segment
  replay_segment-IsReplayed is_last file_len position seq target rest found is h =
      replay_from-IsReplayed (suc (length rest)) is_last file_len position seq target rest found is
        h

  fuel_irrelevant :
      (n m : ℕ) (is_last : Bool) (file_len position seq : ℕ) (target : TailIndex) (rest : List ℕ)
      → IsScanning file_len position seq target rest
      → length rest < n
      → length rest < m
      → replay_from row_size entry_size crc n is_last file_len position seq target rest
        ≡ replay_from row_size entry_size crc m is_last file_len position seq target rest
  unfolding replay_from
  fuel_irrelevant zero m is_last file_len position seq target rest is h g = absurd (omega arith)
  fuel_irrelevant (suc n) zero is_last file_len position seq target rest is h g =
      absurd (omega arith)
  fuel_irrelevant (suc n) (suc m) is_last file_len position seq target rest is h g =
      elim (Bool-cases (ltb position file_len)) [
        | inr done ↦ rw (done, replay_from) refl
        | inl more ↦
            elim (Result-cases
              (scan_record row_size entry_size crc is_last file_len position seq target rest)) [
                | inl (e, failed) ↦ rw (more, replay_from, failed) refl
                | inr (stopped (end, removed), scanned) ↦ rw (more, replay_from, scanned) refl
                | inr (advanced frame_end next target' later, scanned) ↦
                    let (is', less) =
                      scan_record_inv row_size entry_size sized crc is_last file_len position seq
                        target rest (advanced frame_end next target' later) is scanned in
                    rw (more, replay_from, scanned)
                      (fuel_irrelevant n m is_last file_len frame_end next target' later is'
                        (omega arith) (omega arith))
              ]
      ]

  -- The scan ends on any bytes: when a row has a positive size, the bytes end the file behind the
  -- position, and the index is well formed and waits for the expected record, then finitely many
  -- rounds lead to what the scan returns, the last of which uses up the bytes, fails or stops, and
  -- the loop with any number of rounds above the number of the bytes returns the same.
  pub replay_from-replay_segment :
      (rounds : ℕ) (is_last : Bool) (file_len position seq : ℕ) (target : TailIndex) (rest : List ℕ)
      → IsScanning file_len position seq target rest
      → length rest < rounds
      → Scans row_size entry_size crc is_last file_len position seq target rest
          (replay_segment row_size entry_size crc file_len position is_last seq target rest)
        × (replay_from row_size entry_size crc rounds is_last file_len position seq target rest
            ≡ replay_segment row_size entry_size crc file_len position is_last seq target rest)
  unfolding replay_segment
  replay_from-replay_segment rounds is_last file_len position seq target rest is enough = (
    Scans-replay_from row_size entry_size sized crc (suc (length rest)) is_last file_len position
        seq target rest is (omega arith),
    fuel_irrelevant rounds (suc (length rest)) is_last file_len position seq target rest is enough
        (omega arith),
  )
