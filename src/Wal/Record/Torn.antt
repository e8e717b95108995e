-- ===== src/Wal/Record/Torn.antt =====
-- A frame that lost its end is refused.
use litesdb.Base.{
  ℕ, ◌+◌, ◌≤◌, ◌<◌, ◌^◌, ◌==◌, ◌||◌, ◌≡◌, not, refl, ap, arith, List, [], ◌∷◌, ◌++◌, length,
  length-append, Bool-cases, inl, inr,
}
use litesdb.Base.{ok, IsErr, ltb, true, false}
use litesdb.Base.Bytes.{length-to_le_bytes}
use litesdb.Base.Cursor.{put_u32, put_u64, read_at, read_at-to_le_bytes}
use litesdb.Limits.{max_wal_record_payload}
use litesdb.Wal.Record.Encode.{record_crc, frame_of, record_header_bytes}
use litesdb.Wal.Record.Decode.{in_record, inspect, framed_len, validate_payload_len}
use litesdb.Wal.Record.Frame.{length-frame_of}

-- A longer front of the same list starts with the shorter one.
pub starts_with {ℓ} :
    {A : Type ℓ} (us xs vs ys : List A)
    → us ++ vs ≡ xs ++ ys
    → length us ≤ length xs
    → (ws : List A) × (xs ≡ us ++ ws)
starts_with [] xs vs ys e h = (xs, refl)
starts_with (u ∷ us) [] vs ys e h = absurd (omega arith)
starts_with (u ∷ us) (x ∷ xs) vs ys e h =
    let (ws, is) = starts_with us xs vs ys (cc) (omega arith) in (ws, cc)

module _ (crc : List ℕ → ℕ) (crc_small : (bytes : List ℕ) → crc bytes < 2 ^ 32) where
  -- The length that a longer front of the frame names.
  torn_length :
      (n seq : ℕ) (payload bytes lost : List ℕ)
      → n < 2 ^ 32
      → frame_of crc n seq payload ≡ bytes ++ lost
      → 4 ≤ length bytes
      → read_at (in_record "truncated payload length") 4 0 bytes ≡ ok n
  unfolding frame_of
  torn_length n seq payload bytes lost small split long =
      let (ws, is) =
        starts_with (put_u32 n) bytes
          (put_u64 seq ++ (put_u32 (record_crc crc n seq payload) ++ payload)) lost split
          (omega (arith, length-to_le_bytes 4 n)) in
      rw (is) (read_at-to_le_bytes (in_record "truncated payload length") 4 0 n [] ws small refl)

  -- A torn write is found: when the checksum is a `u32` and the length of a payload is positive
  -- and within its limit, no proper front of the payload's frame is accepted, whatever was lost.
  pub inspect-torn :
      (n seq : ℕ) (payload bytes lost : List ℕ)
      → length payload ≡ n
      → 0 < n
      → n ≤ max_wal_record_payload
      → frame_of crc n seq payload ≡ bytes ++ lost
      → 0 < length lost
      → IsErr (inspect crc bytes)
  unfolding inspect framed_len validate_payload_len
  inspect-torn n seq payload bytes lost same h small split more =
      let whole = length-frame_of crc crc_small n seq payload in
      let parts = length-append bytes lost in
      elim (Bool-cases (ltb (length bytes) record_header_bytes)) [
        | inl short ↦ (in_record "truncated frame header", rw (short) refl)
        | inr long ↦
            let fine : ((n == 0) || ltb max_wal_record_payload n) ≡ false = ground arith in
            let total = ap length split in
            let mismatch : not (length bytes == n + record_header_bytes) ≡ true = ground arith in
            (
              in_record "frame length mismatch",
              rw
                  (
                    long,
                    torn_length n seq payload bytes lost (omega arith) split (ground arith),
                    fine,
                    mismatch,
                  )
                  refl,
            )
      ]
