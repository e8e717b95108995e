-- ===== src/Wal/Recover/Scans.antt =====
-- core/src/wal/recover_scan.rs: the rounds of the scan, without a bound on their number.
use litesdb.Base.{
  ℕ, zero, suc, ◌≤◌, ◌<◌, ltb, ◌≡◌, inl, inr, Result-cases, arith, Bool, Bool-cases, List, length,
}
use litesdb.Base.{Result, ok, err, Error}
use litesdb.Wal.Tail.State.{TailIndex}
use litesdb.Wal.Recover.{stopped, advanced, Replayed, scan_record, replay_from}
use litesdb.Wal.Recover.Rounds.{IsScanning, scan_record_inv}

module _ (row_size entry_size : ℕ) (crc : List ℕ → ℕ) where
  -- What the loop returns, without a bound on its rounds: the bytes are used up, a round fails or
  -- stops, or a round goes on and the rest of the loop returns. A result that stands here has been
  -- reached by finitely many rounds.
  pub data Scans (is_last : Bool) (file_len : ℕ)
      : ℕ → ℕ → TailIndex → List ℕ → Result Replayed → Type 0 where
    used_up :
        (position seq : ℕ) (target : TailIndex) (rest : List ℕ)
        → file_len ≤ position
        → Scans is_last file_len position seq target rest
            (ok (record { end = position; removed = 0; expected_seq = seq; target = target }))
    fails :
        (position seq : ℕ) (target : TailIndex) (rest : List ℕ) (e : Error)
        → position < file_len
        → scan_record row_size entry_size crc is_last file_len position seq target rest ≡ err e
        → Scans is_last file_len position seq target rest (err e)
    stops :
        (position seq : ℕ) (target : TailIndex) (rest : List ℕ) (end removed : ℕ)
        → position < file_len
        → scan_record row_size entry_size crc is_last file_len position seq target rest
          ≡ ok (stopped (end, removed))
        → Scans is_last file_len position seq target rest
            (ok (record { end = end; removed = removed; expected_seq = seq; target = target }))
    goes_on :
        (position seq : ℕ) (target : TailIndex) (rest : List ℕ) (frame_end next : ℕ)
        (target' : TailIndex) (later : List ℕ) (result : Result Replayed)
        → position < file_len
        → scan_record row_size entry_size crc is_last file_len position seq target rest
          ≡ ok (advanced frame_end next target' later)
        → Scans is_last file_len frame_end next target' later result
        → Scans is_last file_len position seq target rest result

module _ (row_size entry_size : ℕ) (sized : 1 ≤ row_size) (crc : List ℕ → ℕ) where
  pub Scans-replay_from :
      (fuel : ℕ) (is_last : Bool) (file_len position seq : ℕ) (target : TailIndex) (rest : List ℕ)
      → IsScanning file_len position seq target rest
      → length rest < fuel
      → Scans row_size entry_size crc is_last file_len position seq target rest
          (replay_from row_size entry_size crc fuel is_last file_len position seq target rest)
  unfolding replay_from
  Scans-replay_from zero is_last file_len position seq target rest is h = absurd (omega arith)
  Scans-replay_from (suc fuel) is_last file_len position seq target rest is h =
      elim (Bool-cases (ltb position file_len)) [
        | inr done ↦ rw (done, replay_from) (used_up position seq target rest (ground arith))
        | inl more ↦
            let inside : position < file_len = ground arith in
            elim (Result-cases
              (scan_record row_size entry_size crc is_last file_len position seq target rest)) [
                | inl (e, failed) ↦
                    rw (more, replay_from, failed) (fails position seq target rest e inside failed)
                | inr (stopped (end, removed), scanned) ↦
                    rw (more, replay_from, scanned)
                      (stops position seq target rest end removed inside scanned)
                | inr (advanced frame_end next target' later, scanned) ↦
                    let (is', less) =
                      scan_record_inv row_size entry_size sized crc is_last file_len position seq
                        target rest (advanced frame_end next target' later) is scanned in
                    rw (more, replay_from, scanned)
                      (goes_on position seq target rest frame_end next target' later _ inside
                        scanned
                        (Scans-replay_from fuel is_last file_len frame_end next target' later is'
                          (omega arith)))
              ]
      ]
