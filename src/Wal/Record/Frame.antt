-- ===== src/Wal/Record/Frame.antt =====
-- A frame is read back: its length, its sequence number, its checksum and its payload.
use litesdb.Base.{
  ℕ, ◌+◌, ◌≤◌, ◌<◌, ◌^◌, ◌==◌, ◌||◌, ◌≡◌, ◌≢◌, not, refl, arith, List, [], ◌++◌, length,
  length-append, append_assoc,
}
use litesdb.Base.{ok, err, Option, some, ltb, true, false}
use litesdb.Base.Int.{checked_add}
use litesdb.Base.Bytes.{length-to_le_bytes}
use litesdb.Base.Cursor.{
  put_u32, put_u64, read_at, read_at-to_le_bytes, tail_from, tail_from-append,
}
use litesdb.Limits.{maximum, wal_record_payload, ensure_at_most_ok, max_wal_record_payload}
use litesdb.Types.Value.{TableId, FieldId, ValueType}
use litesdb.Wal.Record.{RecordBody}
use litesdb.Wal.Record.Encode.{
  record_crc, frame_of, encode_record, encode_payload, measure_payload, frame_len_from_payload,
  record_header_bytes,
}
use litesdb.Wal.Record.Decode.{
  in_record, inspect, framed_len, validate_payload_len, decode_inspected, decode_record,
}
use litesdb.Wal.Record.Measure.{measure_payload_inv}
use litesdb.Wal.Record.RoundTrip.{IsBody, decode_payload-encode_payload}

frame_parts : (a b c d : List ℕ) → a ++ (b ++ (c ++ d)) ≡ (a ++ (b ++ c)) ++ d
frame_parts a b c d = rw (append_assoc a (b ++ c) d, append_assoc b c d) refl

-- The checksum is a `u32`.
module _ (crc : List ℕ → ℕ) (crc_small : (bytes : List ℕ) → crc bytes < 2 ^ 32) where
  pub length-frame_of :
      (n seq : ℕ) (payload : List ℕ)
      → length (frame_of crc n seq payload) ≡ record_header_bytes + length payload
  unfolding frame_of
  length-frame_of n seq payload =
      let sum = record_crc crc n seq payload in
      omega (
        arith,
        length-append (put_u32 n) (put_u64 seq ++ (put_u32 sum ++ payload)),
        length-append (put_u64 seq) (put_u32 sum ++ payload),
        length-append (put_u32 sum) payload,
        length-to_le_bytes 4 n,
        length-to_le_bytes 8 seq,
        length-to_le_bytes 4 sum,
      )

  read_length :
      (n seq : ℕ) (payload : List ℕ)
      → n < 2 ^ 32
      → read_at (in_record "truncated payload length") 4 0 (frame_of crc n seq payload) ≡ ok n
  unfolding frame_of
  read_length n seq payload h =
      read_at-to_le_bytes _ 4 0 n []
        (put_u64 seq ++ (put_u32 (record_crc crc n seq payload) ++ payload)) h refl

  read_seq :
      (n seq : ℕ) (payload : List ℕ)
      → seq < 2 ^ 64
      → read_at (in_record "truncated u64") 8 4 (frame_of crc n seq payload) ≡ ok seq
  unfolding frame_of
  read_seq n seq payload h =
      read_at-to_le_bytes _ 8 4 seq (put_u32 n) (put_u32 (record_crc crc n seq payload) ++ payload)
        h (length-to_le_bytes 4 n)

  read_crc :
      (n seq : ℕ) (payload : List ℕ)
      → read_at (in_record "truncated u32") 4 12 (frame_of crc n seq payload)
        ≡ ok (record_crc crc n seq payload)
  unfolding frame_of record_crc
  read_crc n seq payload =
      let sum = crc (put_u32 n ++ (put_u64 seq ++ payload)) in
      let front = put_u32 n ++ put_u64 seq in
      let there =
        read_at-to_le_bytes (in_record "truncated u32") 4 12 sum front payload (crc_small _) (
          omega (
            arith,
            length-append (put_u32 n) (put_u64 seq),
            length-to_le_bytes 4 n,
            length-to_le_bytes 8 seq,
          )) in
      rw (append_assoc (put_u32 n) (put_u64 seq) (put_u32 sum ++ payload)) at there

  pub read_payload :
      (n seq : ℕ) (payload : List ℕ)
      → tail_from record_header_bytes (frame_of crc n seq payload) ≡ some payload
  unfolding frame_of
  read_payload n seq payload =
      let sum = record_crc crc n seq payload in
      let front = put_u32 n ++ (put_u64 seq ++ put_u32 sum) in
      rw (frame_parts (put_u32 n) (put_u64 seq) (put_u32 sum) payload) (
        tail_from-append record_header_bytes front payload (
          omega (
            arith,
            length-append (put_u32 n) (put_u64 seq ++ put_u32 sum),
            length-append (put_u64 seq) (put_u32 sum),
            length-to_le_bytes 4 n,
            length-to_le_bytes 8 seq,
            length-to_le_bytes 4 sum,
          )))

  framed_len-frame_of :
      (n seq : ℕ) (payload : List ℕ)
      → 0 < n
      → n ≤ max_wal_record_payload
      → framed_len (frame_of crc n seq payload) ≡ ok (n + record_header_bytes)
  unfolding framed_len validate_payload_len
  framed_len-frame_of n seq payload h small =
      let fine : ((n == 0) || ltb max_wal_record_payload n) ≡ false = ground arith in
      rw (read_length n seq payload (omega arith), fine) refl

  pub inspect-frame_of :
      (n seq : ℕ) (payload : List ℕ)
      → length payload ≡ n
      → 0 < n
      → n ≤ max_wal_record_payload
      → seq < 2 ^ 64
      → inspect crc (frame_of crc n seq payload) ≡ ok seq
  unfolding inspect
  inspect-frame_of n seq payload same h small hs =
      let long = length-frame_of n seq payload in
      let whole : ltb (length (frame_of crc n seq payload)) record_header_bytes ≡ false =
        ground (arith, long) in
      let exact : not (length (frame_of crc n seq payload) == n + record_header_bytes) ≡ false =
        ground (arith, long) in
      let sums : not (record_crc crc n seq payload == record_crc crc n seq payload) ≡ false =
        ground arith in
      rw
        (
          whole,
          framed_len-frame_of n seq payload h small,
          exact,
          read_length n seq payload (omega arith),
          read_seq n seq payload hs,
          read_crc n seq payload,
          read_payload n seq payload,
          sums,
        )
        refl

  encode_record_ok :
      (seq n : ℕ) (body : RecordBody)
      → measure_payload body ≡ ok n
      → encode_record crc seq body ≡ ok (frame_of crc n seq (encode_payload body))
  unfolding encode_record frame_len_from_payload checked_add
  encode_record_ok seq n body h =
      let (exact, long, small) = measure_payload_inv body n h in
      let fits : n ≤ 65_536 = unfold maximum in small in
      let same : not (length (encode_payload body) == n) ≡ false = ground arith in
      let room : ltb (n + record_header_bytes) (2 ^ 32) ≡ true = ground arith in
      let frame : not (length (frame_of crc n seq (encode_payload body)) == n + record_header_bytes)
          ≡ false =
        ground (arith, length-frame_of n seq (encode_payload body)) in
      rw (h, ensure_at_most_ok wal_record_payload n small, room, same, frame) refl

  -- Records survive the log: when the checksum is a `u32`, the sequence number a `u64`, the record
  -- is of the types of the source and fits the fields of its table, and measuring it succeeds,
  -- then encoding succeeds with a frame of the measured length and its header, and decoding the
  -- frame with the same sequence number gives that number and the record.
  pub decode_record-encode_record :
      (field_type : TableId → FieldId → Option ValueType) (seq n : ℕ) (body : RecordBody)
      → seq < 2 ^ 64
      → IsBody field_type body
      → measure_payload body ≡ ok n
      → (frame : List ℕ) × (encode_record crc seq body ≡ ok frame)
        × (length frame ≡ n + record_header_bytes)
        × (decode_record crc field_type frame seq ≡ ok (record { seq = seq; body = body }))
  unfolding decode_record decode_inspected
  decode_record-encode_record field_type seq n body hs valid h =
      let (exact, long, small) = measure_payload_inv body n h in
      let fits : n ≤ 65_536 = unfold maximum in small in
      let payload = encode_payload body in
      let same : not (seq == seq) ≡ false = ground arith in
      (
        frame_of crc n seq payload,
        encode_record_ok seq n body h,
        omega (arith, length-frame_of n seq payload),
        rw
            (
              inspect-frame_of n seq payload exact (omega arith) (omega arith) hs,
              same,
              read_payload n seq payload,
              decode_payload-encode_payload field_type body valid (omega arith),
            )
            refl,
      )

  -- A record is read only at its place: when the checksum is a `u32`, the sequence number a `u64`
  -- and the record encodes to a frame, decoding the frame with any other expected number fails
  -- with the error of a sequence that is not continuous.
  pub decode_record-other :
      (field_type : TableId → FieldId → Option ValueType) (seq n expected : ℕ) (body : RecordBody)
      → seq < 2 ^ 64
      → measure_payload body ≡ ok n
      → expected ≢ seq
      → (frame : List ℕ) × (encode_record crc seq body ≡ ok frame)
        × (decode_record crc field_type frame expected
            ≡ err (in_record "sequence is not continuous"))
  unfolding decode_record
  decode_record-other field_type seq n expected body hs h other =
      let (exact, long, small) = measure_payload_inv body n h in
      let fits : n ≤ 65_536 = unfold maximum in small in
      let payload = encode_payload body in
      let differ : not (seq == expected) ≡ true = ground arith in
      (
        frame_of crc n seq payload,
        encode_record_ok seq n body h,
        rw (inspect-frame_of n seq payload exact (omega arith) (omega arith) hs, differ) refl,
      )
