-- ===== src/Wal/Recover/Logged.antt =====
-- core/src/wal/recover_scan.rs: a log that was written record by record, and one round of its scan.
use litesdb.Base.{
  ℕ, zero, suc, ◌+◌, ◌-◌, ◌≤◌, ◌<◌, ◌^◌, ◌==◌, not, ltb, ◌||◌, ◌≡◌, refl, ap, arith, false, Bool,
  List, [], ◌∷◌, ◌++◌, length, length-append, append_assoc, take, drop, some,
}
use litesdb.Base.{ok, >>=-eq-ok, ok_or, ok_or-eq_ok}
use litesdb.Base.Int.{checked_add}
use litesdb.Base.Bytes.{length-to_le_bytes}
use litesdb.Base.Cursor.{put_u32, put_u64, read_at-to_le_bytes}
use litesdb.Limits.{maximum, max_wal_record_payload}
use litesdb.Wal.Record.{RecordBody}
use litesdb.Wal.Record.Encode.{
  record_header_bytes, record_crc, frame_of, encode_payload, measure_payload,
}
use litesdb.Wal.Record.Decode.{
  in_record, framed_len, validate_payload_len, inspect, decode_inspected,
}
use litesdb.Wal.Record.Measure.{measure_payload_inv}
use litesdb.Wal.Record.RoundTrip.{IsBody, decode_payload-encode_payload}
use litesdb.Wal.Record.Frame.{length-frame_of, inspect-frame_of, read_payload}
use litesdb.Wal.Tail.State.{TailIndex, field_type}
use litesdb.Wal.Tail.Apply.{apply}
use litesdb.Wal.Tail.Validate.{validate}
use litesdb.Wal.Recover.{scan_record, scan_framed, scan_frame, replay_frame, advanced}

module _ (row_size entry_size : ℕ) (crc : List ℕ → ℕ) where
  -- The bytes of a log whose records fit the index and are applied to it one after another.
  pub data Logged : TailIndex → ℕ → List ℕ → TailIndex → ℕ → Type 0 where
    written : (target : TailIndex) (seq : ℕ) → Logged target seq [] target seq
    record_then :
        {bytes : List ℕ} {last : TailIndex} {last_seq : ℕ} (target : TailIndex) (seq : ℕ)
        (body : RecordBody) (n : ℕ) (target' : TailIndex)
        → IsBody (field_type target) body
        → measure_payload body ≡ ok n
        → apply row_size entry_size target seq body ≡ ok target'
        → Logged target' (seq + 1) bytes last last_seq
        → Logged target seq (frame_of crc n seq (encode_payload body) ++ bytes) last last_seq

module _ {ℓ} {A : Type ℓ} where
  pub take-append : (n : ℕ) (xs ys : List A) → length xs ≡ n → take n (xs ++ ys) ≡ xs
  take-append zero [] [] h = refl
  take-append zero [] (y ∷ ys) h = refl
  take-append zero (x ∷ xs) ys h = absurd (omega arith)
  take-append (suc n) [] ys h = absurd (omega arith)
  take-append (suc n) (x ∷ xs) ys h = ap (λ l. x ∷ l) (take-append n xs ys (omega arith))

  pub drop-append : (n : ℕ) (xs ys : List A) → length xs ≡ n → drop n (xs ++ ys) ≡ ys
  drop-append zero [] ys h = refl
  drop-append zero (x ∷ xs) ys h = absurd (omega arith)
  drop-append (suc n) [] ys h = absurd (omega arith)
  drop-append (suc n) (x ∷ xs) ys h = drop-append n xs ys (omega arith)

-- The header of a frame.
abbrev pub header_of : (List ℕ → ℕ) → ℕ → ℕ → List ℕ → List ℕ
header_of crc n seq payload = put_u32 n ++ (put_u64 seq ++ put_u32 (record_crc crc n seq payload))

pub length-header_of :
    (crc : List ℕ → ℕ) (n seq : ℕ) (payload : List ℕ)
    → length (header_of crc n seq payload) ≡ record_header_bytes
length-header_of crc n seq payload =
    let sum = put_u32 (record_crc crc n seq payload) in
    omega (
      arith,
      length-append (put_u32 n) (put_u64 seq ++ sum),
      length-append (put_u64 seq) sum,
      length-to_le_bytes 4 n,
      length-to_le_bytes 8 seq,
      length-to_le_bytes 4 (record_crc crc n seq payload),
    )

pub frame_header :
    (crc : List ℕ → ℕ) (n seq : ℕ) (payload : List ℕ)
    → frame_of crc n seq payload ≡ header_of crc n seq payload ++ payload
unfolding frame_of
frame_header crc n seq payload = simp append_assoc

-- The length that the header names.
pub framed_len-header_of :
    (crc : List ℕ → ℕ) (n seq : ℕ) (payload : List ℕ)
    → 0 < n
    → n ≤ max_wal_record_payload
    → framed_len (header_of crc n seq payload) ≡ ok (n + record_header_bytes)
unfolding framed_len validate_payload_len
framed_len-header_of crc n seq payload h small =
    let sum = put_u32 (record_crc crc n seq payload) in
    let fine : ((n == 0) || ltb max_wal_record_payload n) ≡ false = ground arith in
    rw
      (
        read_at-to_le_bytes (in_record "truncated payload length") 4 0 n [] (put_u64 seq ++ sum)
            (omega arith) refl,
        fine,
      )
      refl

module _ (row_size entry_size : ℕ) (crc : List ℕ → ℕ)
    (crc_small : (bytes : List ℕ) → crc bytes < 2 ^ 32) where
  apply-seq :
      (target target' : TailIndex) (seq : ℕ) (body : RecordBody)
      → apply row_size entry_size target seq body ≡ ok target'
      → (checked_add 64 seq 1 ≡ some (seq + 1)) × (seq + 1 < 2 ^ 64)
  unfolding apply
  apply-seq target target' seq body h =
      let (_, _, h₁) = >>=-eq-ok (validate row_size entry_size target seq body) _ h in
      let (following_seq, e, _) = >>=-eq-ok (ok_or (checked_add 64 seq 1) _) _ h₁ in
      let found = ok_or-eq_ok _ _ e in unfold checked_add in ground arith

  decoded_frame :
      (target : TailIndex) (n seq : ℕ) (body : RecordBody)
      → IsBody (field_type target) body
      → length (encode_payload body) ≤ 2 ^ 16
      → decode_inspected (field_type target) (frame_of crc n seq (encode_payload body)) seq
        ≡ ok (record { seq = seq; body = body })
  unfolding decode_inspected
  decoded_frame target n seq body valid few =
      rw
        (
          read_payload crc crc_small n seq (encode_payload body),
          decode_payload-encode_payload (field_type target) body valid few,
        )
        refl

  -- The frame of a record is inspected, decoded and applied.
  scan_frame-frame_of :
      (is_last : Bool) (file_len position frame_end : ℕ) (target target' : TailIndex) (seq n : ℕ)
      (body : RecordBody) (later : List ℕ)
      → IsBody (field_type target) body
      → measure_payload body ≡ ok n
      → apply row_size entry_size target seq body ≡ ok target'
      → scan_frame row_size entry_size crc is_last file_len position frame_end seq target
          (frame_of crc n seq (encode_payload body))
          later
          (inspect crc (frame_of crc n seq (encode_payload body)))
        ≡ ok (advanced frame_end (seq + 1) target' later)
  unfolding scan_frame replay_frame
  scan_frame-frame_of is_last file_len position frame_end target target' seq n body later valid
        measured applied =
      let (exact, long, limit) = measure_payload_inv body n measured in
      let fits : n ≤ 65_536 = unfold maximum in limit in
      let (room, seq_small) = apply-seq target target' seq body applied in
      let same : not (seq == seq) ≡ false = ground arith in
      rw
        (
          inspect-frame_of crc crc_small n seq (encode_payload body) exact (omega arith)
              (omega arith) (omega arith),
          same,
          decoded_frame target n seq body valid (omega arith),
          applied,
          room,
        )
        refl

  -- A record at the front of the bytes is applied, and the scan goes on behind it.
  pub scan_record-frame_of :
      (is_last : Bool) (file_len position : ℕ) (target target' : TailIndex) (seq n : ℕ)
      (body : RecordBody) (later : List ℕ)
      → IsBody (field_type target) body
      → measure_payload body ≡ ok n
      → apply row_size entry_size target seq body ≡ ok target'
      → file_len ≡ position + length (frame_of crc n seq (encode_payload body) ++ later)
      → file_len < 2 ^ 64
      → scan_record row_size entry_size crc is_last file_len position seq target
          (frame_of crc n seq (encode_payload body) ++ later)
        ≡ ok (advanced (position + (n + record_header_bytes)) (seq + 1) target' later)
  unfolding scan_record scan_framed
  scan_record-frame_of is_last file_len position target target' seq n body later valid measured
        applied whole small =
      let payload = encode_payload body in
      let (exact, long, limit) = measure_payload_inv body n measured in
      let fits : n ≤ 65_536 = unfold maximum in limit in
      let frame = frame_of crc n seq payload in
      let frame_len = length-frame_of crc crc_small n seq payload in
      let total = length-append frame later in
      let a : ltb (file_len - position) record_header_bytes ≡ false =
        ground (arith, total, frame_len) in
      let header : take record_header_bytes (frame ++ later) ≡ header_of crc n seq payload =
        rw
          (frame_header crc n seq payload, append_assoc (header_of crc n seq payload) payload later)
          (take-append record_header_bytes (header_of crc n seq payload) (payload ++ later)
            (length-header_of crc n seq payload)) in
      let b : checked_add 64 position (n + record_header_bytes)
          ≡ some (position + (n + record_header_bytes)) =
        unfold checked_add in ground (arith, total, frame_len) in
      let c : ltb file_len (position + (n + record_header_bytes)) ≡ false =
        ground (arith, total, frame_len) in
      let len : length frame ≡ n + record_header_bytes = omega (arith, frame_len) in
      rw
        (
          a,
          header,
          framed_len-header_of crc n seq payload (omega arith) (omega arith),
          b,
          c,
          take-append (n + record_header_bytes) frame later len,
          drop-append (n + record_header_bytes) frame later len,
          scan_frame-frame_of is_last file_len position (position + (n + record_header_bytes))
              target target' seq n body later valid measured applied,
        )
        refl
