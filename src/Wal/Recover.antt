-- ===== src/Wal/Recover.antt =====
-- core/src/wal/recover_scan.rs: replaying the records of a segment into the tail index. The reader is
-- the list of the bytes from the position to the end of the file.
use litesdb.Base.{
  ℕ, zero, suc, ◌+◌, ◌-◌, ◌==◌, not, ltb, ◌&&◌, List, length, take, drop, Bool, true, false,
  if◌then◌else◌, String,
}
use litesdb.Base.{Result, ok, err, Error, ◌>>=◌, ◌>>◌, ok_or, fail_if, corruption}
use litesdb.Base.Int.{checked_add}
use litesdb.Wal.Record.Encode.{record_header_bytes}
use litesdb.Wal.Record.Decode.{framed_len, inspect, decode_inspected}
use litesdb.Wal.Tail.State.{TailIndex, field_type}
use litesdb.Wal.Tail.Apply.{apply}
pub mod Logged
pub mod Replay
pub mod Rounds
pub mod Scans
pub mod Scan

abbrev pub in_recovery : String → Error
in_recovery reason = corruption "WAL recovery" reason

-- The end of the scan at a position, with the number of bytes that are cut off behind it.
unfoldable pub repair_or_corrupt : ℕ → ℕ → Bool → String → Result (ℕ × ℕ)
repair_or_corrupt file_len position is_last reason = do
  fail_if (not is_last) (in_recovery reason)
  ok (position, file_len - position)

-- One round of the loop stops the scan or goes on: the next position, the next sequence number, the
-- index and the bytes that are left.
pub data Scanned : Type 0 where
  stopped : ℕ × ℕ → Scanned
  advanced : ℕ → ℕ → TailIndex → List ℕ → Scanned

abbrev pub stop_scan : Result (ℕ × ℕ) → Result Scanned
stop_scan found = found >>= λ at. ok (stopped at)

-- What the scan returns, with what it leaves in the expected sequence number and in the target.
pub record Replayed : Type 0 where
  pub end : ℕ
  pub removed : ℕ
  pub expected_seq : ℕ
  pub target : TailIndex

module _ (row_size entry_size : ℕ) (crc : List ℕ → ℕ) where
  -- The part of a round behind the inspection.
  unfoldable pub replay_frame : ℕ → ℕ → TailIndex → List ℕ → ℕ → List ℕ → Result Scanned
  replay_frame frame_end expected_seq target frame actual_seq later = do
    fail_if (not (actual_seq == expected_seq)) (in_recovery "record sequence gap")
    decoded ← decode_inspected (field_type target) frame actual_seq
    target' ← apply row_size entry_size target decoded.seq decoded.body
    following_seq ← ok_or (checked_add 64 expected_seq 1) (in_recovery "sequence overflow")
    ok (advanced frame_end following_seq target' later)

  unfoldable pub scan_frame :
      Bool → ℕ → ℕ → ℕ → ℕ → TailIndex → List ℕ → List ℕ → Result ℕ → Result Scanned
  scan_frame is_last file_len position frame_end expected_seq target frame later (err e) =
      if is_last && (frame_end == file_len)
      then stop_scan (repair_or_corrupt file_len position true "invalid final record CRC")
      else err (in_recovery "invalid non-tail record")
  scan_frame is_last file_len position frame_end expected_seq target frame later (ok actual_seq) =
      replay_frame frame_end expected_seq target frame actual_seq later

  unfoldable pub scan_framed : Bool → ℕ → ℕ → ℕ → TailIndex → List ℕ → Result ℕ → Result Scanned
  scan_framed is_last file_len position expected_seq target rest (err e) =
      stop_scan (repair_or_corrupt file_len position is_last "invalid payload length")
  scan_framed is_last file_len position expected_seq target rest (ok frame_len) = do
    frame_end ← ok_or (checked_add 64 position frame_len) (in_recovery "frame end overflow")
    if ltb file_len frame_end
        then stop_scan (repair_or_corrupt file_len position is_last "incomplete record payload")
        else scan_frame is_last file_len position frame_end expected_seq target
            (take frame_len rest) (drop frame_len rest) (inspect crc (take frame_len rest))

  -- One round of the loop.
  unfoldable pub scan_record : Bool → ℕ → ℕ → ℕ → TailIndex → List ℕ → Result Scanned
  scan_record is_last file_len position expected_seq target rest =
      if ltb (file_len - position) record_header_bytes
      then stop_scan (repair_or_corrupt file_len position is_last "incomplete record header")
      else scan_framed is_last file_len position expected_seq target rest
          (framed_len (take record_header_bytes rest))

  -- The loop. Every round that goes on takes a byte, so that the fuel is not spent before the bytes.
  unfoldable pub replay_from : ℕ → Bool → ℕ → ℕ → ℕ → TailIndex → List ℕ → Result Replayed
  replay_from zero is_last file_len position expected_seq target rest = err (in_recovery "no fuel")
  replay_from (suc fuel) is_last file_len position expected_seq target rest =
      elim (ltb position file_len) [
        | false ↦
            ok
              (record { end = position; removed = 0; expected_seq = expected_seq; target = target })
        | true ↦ scan_record is_last file_len position expected_seq target rest >>= λ scanned.
            elim scanned [
              | stopped (end, removed) ↦ ok (record {
                end = end;
                removed = removed;
                expected_seq = expected_seq;
                target = target;
              })
              | advanced frame_end following_seq target' later ↦
                  replay_from fuel is_last file_len frame_end following_seq target' later
            ]
      ]

  unfoldable pub replay_segment : ℕ → ℕ → Bool → ℕ → TailIndex → List ℕ → Result Replayed
  replay_segment file_len position is_last expected_seq target rest =
      replay_from (suc (length rest)) is_last file_len position expected_seq target rest
