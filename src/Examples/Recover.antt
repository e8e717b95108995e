-- ===== src/Examples/Recover.antt =====
-- Concrete segments of the log.
use litesdb.Base.{
  ℕ, ◌+◌, ◌≤◌, ◌≡◌, ◌↔◌, refl, arith, true, List, [], ◌∷◌, ◌++◌, length, length-append, ok,
}
use litesdb.Base.Map.{get, nat_ord}
use litesdb.Limits.{maximum, wal_segment_bytes}
use litesdb.Types.Value.{u_int}
use litesdb.Types.Schema.{find_field, initial}
use litesdb.Types.Observation.{entries_of, new_observation, store_entries}
use litesdb.Wal.Checkpoint.{segment_header_bytes}
use litesdb.Wal.Segment.{
  SegmentHeader, encode_header, decode_header, Fits, decode_header-encode_header,
}
use litesdb.Wal.Record.{create_table}
use litesdb.Wal.Record.Encode.{frame_of, encode_payload}
use litesdb.Wal.Record.Measure.{measure_payload_inv}
use litesdb.Wal.Record.RoundTrip.{IsBody}
use litesdb.Wal.Record.Frame.{length-frame_of}
use litesdb.Wal.Tail.State.{field_type, lookup_field}
use litesdb.Wal.Tail.Apply.{created}
use litesdb.Wal.Tail.Invariant.{IsTail}
use litesdb.Wal.Tail.Step.{apply-IsTail}
use litesdb.Wal.Recover.{Replayed, repair_or_corrupt, scan_record, replay_from, replay_segment}
use litesdb.Wal.Recover.Logged.{Logged, written, record_then}
use litesdb.Wal.Recover.Replay.{IsTorn, replay_segment-Logged}
use litesdb.Wal.Recover.Rounds.{IsScanning}
use litesdb.Wal.Recover.Scans.{Scans}
use litesdb.Wal.Recover.Scan.{IsReplayed, replay_segment-IsReplayed, replay_from-replay_segment}
use litesdb.Examples.Record.{checksum, checksum_small, body, measured, torn, torn_split}
use litesdb.Examples.Tail.{
  empty_tail, empty_tail-IsTail, spec, apply-create, tail_with_table, observed_tail,
  apply-observation,
}

abbrev header : SegmentHeader
header = record { first_seq = 7; shard_id = 2; writer_epoch = 6 }

decode_header-encode_header_example :
    (length (encode_header header) ≡ segment_header_bytes)
    × ((decode_header (encode_header header) 7 2 6 ≡ ok header) ↔ Fits header 7 2 6)
decode_header-encode_header_example =
    decode_header-encode_header header 7 2 6
      (record { first_small = omega arith; shard_small = omega arith; epoch_small = omega arith })

torn-IsTorn : IsTorn checksum torn
torn-IsTorn = record {
  payload_len = 1;
  seq = 7;
  payload = 9 ∷ [];
  lost = 9 ∷ [];
  len_is = refl;
  positive = omega arith;
  few = omega arith;
  split = torn_split;
  some_lost = omega arith;
}

fitting : IsBody (field_type tail_with_table) body
unfolding entries_of new_observation store_entries field_type lookup_field get created initial
    find_field
fitting = (
  omega arith,
  ((omega arith, omega arith), ((omega arith, omega arith, (u_int, refl, omega arith)), tt), refl),
)

abbrev frame : List ℕ
frame = frame_of checksum 36 8 (encode_payload body)

log : Logged 24 24 checksum tail_with_table 8 (frame ++ []) observed_tail 9
log =
    record_then tail_with_table 8 body 36 observed_tail fitting measured apply-observation
      (written observed_tail 9)

log_is_short : 32 + length ((frame ++ []) ++ torn) ≤ maximum wal_segment_bytes
unfolding maximum
log_is_short = omega (
  arith,
  length-append (frame ++ []) torn,
  length-append frame [],
  length-frame_of checksum checksum_small 36 8 (encode_payload body),
  (measure_payload_inv body 36 measured).0,
)

replay_segment-Logged_example :
    replay_segment 24 24 checksum
      (32 + length ((frame ++ []) ++ torn))
      32
      true
      8
      tail_with_table
      ((frame ++ []) ++ torn)
    ≡ ok (record {
      end = 32 + length (frame ++ []);
      removed = 16;
      expected_seq = 9;
      target = observed_tail;
    })
replay_segment-Logged_example =
    replay_segment-Logged 24 24 checksum checksum_small (32 + length ((frame ++ []) ++ torn)) 32 8 9
      tail_with_table observed_tail (frame ++ []) torn log torn-IsTorn refl log_is_short

tail_with_table-IsTail : IsTail tail_with_table
tail_with_table-IsTail =
    (apply-IsTail 24 24 empty_tail 7 (create_table 1 spec) tail_with_table (omega arith)
      empty_tail-IsTail apply-create).1

-- A file that ends in three bytes of a record.
scanning : IsScanning 35 32 8 tail_with_table (1 ∷ 2 ∷ 3 ∷ [])
scanning = record { whole = refl; target_is = tail_with_table-IsTail; seq_is = refl }

abbrev cut : Replayed
cut = record { end = 32; removed = 3; expected_seq = 8; target = tail_with_table }

scanned : replay_segment 24 24 checksum 35 32 true 8 tail_with_table (1 ∷ 2 ∷ 3 ∷ []) ≡ ok cut
unfolding replay_segment replay_from scan_record repair_or_corrupt
scanned = refl

replay_segment-IsReplayed_example : IsReplayed true 35 32 cut
replay_segment-IsReplayed_example =
    replay_segment-IsReplayed 24 24 (omega arith) checksum true 35 32 8 tail_with_table
      (1 ∷ 2 ∷ 3 ∷ []) cut scanning scanned

replay_from-replay_segment_example :
    Scans 24 24 checksum true 35 32 8 tail_with_table
      (1 ∷ 2 ∷ 3 ∷ [])
      (replay_segment 24 24 checksum 35 32 true 8 tail_with_table (1 ∷ 2 ∷ 3 ∷ []))
    × (replay_from 24 24 checksum 9 true 35 32 8 tail_with_table (1 ∷ 2 ∷ 3 ∷ [])
        ≡ replay_segment 24 24 checksum 35 32 true 8 tail_with_table (1 ∷ 2 ∷ 3 ∷ []))
replay_from-replay_segment_example =
    replay_from-replay_segment 24 24 (omega arith) checksum 9 true 35 32 8 tail_with_table
      (1 ∷ 2 ∷ 3 ∷ []) scanning (omega arith)
