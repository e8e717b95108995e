-- ===== src/Wal/Recover/Replay.antt =====
-- core/src/wal/recover_scan.rs: the scan of a log that was written record by record, and that may end
-- in a record that was not written to its end.
use litesdb.Base.{
  ℕ, zero, suc, ◌+◌, ◌-◌, ◌≤◌, ◌<◌, ◌^◌, ltb, ◌≡◌, refl, sym, ap, ◌∙◌, arith, true, false,
  Bool-cases, inl, inr, List, [], ◌∷◌, ◌++◌, length, length-append, append_assoc, take, some,
}
use litesdb.Base.{ok}
use litesdb.Base.Int.{checked_add}
use litesdb.Limits.{maximum, wal_segment_bytes, max_wal_record_payload}
use litesdb.Wal.Record.Encode.{record_header_bytes, frame_of, encode_payload}
use litesdb.Wal.Record.Measure.{measure_payload_inv}
use litesdb.Wal.Record.Decode.{framed_len}
use litesdb.Wal.Record.Frame.{length-frame_of}
use litesdb.Wal.Record.Torn.{starts_with}
use litesdb.Wal.Tail.State.{TailIndex}
use litesdb.Wal.Recover.{
  stopped, scan_record, scan_framed, repair_or_corrupt, replay_from, replay_segment,
}
use litesdb.Wal.Recover.Logged.{
  Logged, written, record_then, header_of, frame_header, length-header_of, framed_len-header_of,
  take-append, scan_record-frame_of,
}

-- The front of the frame of some payload, without its end.
pub record IsTorn (crc : List ℕ → ℕ) (torn : List ℕ) : Type 0 where
  pub payload_len : ℕ
  pub seq : ℕ
  pub payload : List ℕ
  pub lost : List ℕ
  pub len_is : length payload ≡ payload_len
  pub positive : 0 < payload_len
  pub few : payload_len ≤ max_wal_record_payload
  pub split : frame_of crc payload_len seq payload ≡ torn ++ lost
  pub some_lost : 0 < length lost

module _ (row_size entry_size : ℕ) (crc : List ℕ → ℕ)
    (crc_small : (bytes : List ℕ) → crc bytes < 2 ^ 32) where
  -- The length that a torn record names, when it has its header.
  framed_len-torn :
      (torn : List ℕ) (is : IsTorn crc torn)
      → record_header_bytes ≤ length torn
      → framed_len (take record_header_bytes torn) ≡ ok (is.payload_len + record_header_bytes)
  framed_len-torn torn is long =
      let header = header_of crc is.payload_len is.seq is.payload in
      let header_len = length-header_of crc is.payload_len is.seq is.payload in
      let (ws, same) =
        starts_with header torn is.payload is.lost
          (sym (frame_header crc is.payload_len is.seq is.payload) ∙ is.split) (omega arith) in
      rw (same, take-append record_header_bytes header ws header_len)
        (framed_len-header_of crc is.payload_len is.seq is.payload is.positive is.few)

  -- The scan of the last segment stops before a torn record.
  scan_record-torn :
      (file_len position seq : ℕ) (target : TailIndex) (torn : List ℕ)
      → IsTorn crc torn
      → file_len ≡ position + length torn
      → file_len ≤ maximum wal_segment_bytes
      → scan_record row_size entry_size crc true file_len position seq target torn
        ≡ ok (stopped (position, length torn))
  unfolding scan_record scan_framed repair_or_corrupt
  scan_record-torn file_len position seq target torn is whole small =
      let limit : file_len ≤ 67_108_864 = unfold maximum in small in
      let cut : ◌≡◌ {A = ℕ} (file_len - position) (length torn) = omega arith in
      let frame_len = length-frame_of crc crc_small is.payload_len is.seq is.payload in
      let parts = length-append torn is.lost in
      let total = ap length is.split in
      elim (Bool-cases (ltb (length torn) record_header_bytes)) [
        | inl short ↦ rw (cut, short) refl
        | inr long ↦
            let n = is.payload_len in
            let b : checked_add 64 position (n + record_header_bytes)
                ≡ some (position + (n + record_header_bytes)) =
              unfold checked_add in ground (arith, is.few) in
            let c : ltb file_len (position + (n + record_header_bytes)) ≡ true =
              ground (arith, frame_len, parts, total, is.len_is, is.some_lost) in
            rw (cut, long, framed_len-torn torn is (ground arith), b, c, cut) refl
      ]

  replay_from-torn :
      (fuel file_len position seq : ℕ) (target : TailIndex) (torn : List ℕ)
      → IsTorn crc torn
      → file_len ≡ position + length torn
      → file_len ≤ maximum wal_segment_bytes
      → replay_from row_size entry_size crc (suc fuel) true file_len position seq target torn
        ≡ ok (record { end = position; removed = length torn; expected_seq = seq; target = target })
  unfolding replay_from
  replay_from-torn fuel file_len position seq target [] is whole small =
      let done : ltb position file_len ≡ false = ground arith in rw (done, replay_from) refl
  replay_from-torn fuel file_len position seq target (b ∷ torn) is whole small =
      let more : ltb position file_len ≡ true = ground arith in
      rw
        (more, replay_from, scan_record-torn file_len position seq target (b ∷ torn) is whole small)
        refl

  replay_from-Logged :
      (fuel file_len position seq last_seq : ℕ) (target last : TailIndex) (bytes torn : List ℕ)
      → Logged row_size entry_size crc target seq bytes last last_seq
      → IsTorn crc torn
      → length (bytes ++ torn) < fuel
      → file_len ≡ position + length (bytes ++ torn)
      → file_len ≤ maximum wal_segment_bytes
      → replay_from row_size entry_size crc fuel true file_len position seq target (bytes ++ torn)
        ≡ ok (record {
          end = position + length bytes;
          removed = length torn;
          expected_seq = last_seq;
          target = last;
        })
  unfolding replay_from frame_of
  replay_from-Logged zero file_len position seq last_seq target last bytes torn log is enough whole
        small =
      absurd (omega arith)
  replay_from-Logged (suc fuel) file_len position _ _ _ _ _ torn (written target seq) is enough
        whole small =
      let here : ◌≡◌ {A = ℕ} (position + 0) position = omega arith in
      rw here (replay_from-torn fuel file_len position seq target torn is whole small)
  replay_from-Logged (suc fuel) file_len position _ last_seq _ last _ torn
        (record_then {bytes = bytes} target seq body n target' valid measured applied log) is enough
        whole small =
      let frame = frame_of crc n seq (encode_payload body) in
      let later = bytes ++ torn in
      let (exact, long, limit) = measure_payload_inv body n measured in
      let frame_len : length frame ≡ n + record_header_bytes =
        omega (arith, length-frame_of crc crc_small n seq (encode_payload body)) in
      let joined = append_assoc frame bytes torn in
      let all : length ((frame ++ bytes) ++ torn) ≡ (n + record_header_bytes) + length later =
        omega (arith, ap length joined, length-append frame later) in
      let whole_later : file_len ≡ position + length (frame ++ later) =
        omega (arith, ap length joined) in
      let more : ltb position file_len ≡ true = ground (arith, all) in
      let fits : file_len ≤ 67_108_864 = unfold maximum in small in
      let end : position + length (frame ++ bytes)
          ≡ (position + (n + record_header_bytes)) + length bytes =
        omega (arith, length-append frame bytes) in
      rw
        (
          more,
          joined,
          replay_from,
          scan_record-frame_of row_size entry_size crc crc_small true file_len position target
              target' seq n body later valid measured applied whole_later (omega arith),
          end,
        )
        (replay_from-Logged fuel file_len (position + (n + record_header_bytes)) (seq + 1) last_seq
          target' last bytes torn log is (omega arith) (omega arith) small)

  -- A crash loses at most the record that was being written: in the last segment, when the checksum
  -- is a `u32` and the file is not longer than a segment may be, scanning the bytes of records
  -- that fit the index and apply to it one after another, with the front of one more frame behind
  -- them, gives the index that applying the records gives and the sequence number after them, ends
  -- behind the last record, and cuts off exactly the unfinished bytes.
  pub replay_segment-Logged :
      (file_len position seq last_seq : ℕ) (target last : TailIndex) (bytes torn : List ℕ)
      → Logged row_size entry_size crc target seq bytes last last_seq
      → IsTorn crc torn
      → file_len ≡ position + length (bytes ++ torn)
      → file_len ≤ maximum wal_segment_bytes
      → replay_segment row_size entry_size crc file_len position true seq target (bytes ++ torn)
        ≡ ok (record {
          end = position + length bytes;
          removed = length torn;
          expected_seq = last_seq;
          target = last;
        })
  unfolding replay_segment
  replay_segment-Logged file_len position seq last_seq target last bytes torn log is whole small =
      replay_from-Logged (suc (length (bytes ++ torn))) file_len position seq last_seq target last
        bytes torn log is (omega arith) whole small
