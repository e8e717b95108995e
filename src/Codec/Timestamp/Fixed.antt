-- ===== src/Codec/Timestamp/Fixed.antt =====
-- The fixed encoding of core/src/codec/timestamp.rs: eight bytes for each timestamp.
use litesdb.Base.{ℕ, zero, suc, ◌*◌, ◌/◌, ◌≤◌, ◌≡◌, refl, arith, List, [], ◌∷◌, ◌++◌}
use litesdb.Base.{map, All, ok, length, length-map, split_at, ap}
use litesdb.Base.{
  >>=-eq-ok, ok_or, ok_or-eq_ok, fail_if, fail_if-eq_ok, ok-injective, not, ◌==◌, corruption,
}
use litesdb.Base.Int.{ℤ, IsI64, checked_mul}
use litesdb.Base.Bytes.{i64_bits, i64_bits-lt, i64_from_bits, from_le_bytes}
use litesdb.Base.Bytes.{length-to_le_bytes, from_le_bytes-to_le_bytes, i64_from_bits-i64_bits}
use litesdb.Base.Cursor.{split_exact-append, put_i64}
use litesdb.Base.Loops.{put_all, length-put_all}
use litesdb.Codec.Timestamp.{write_chunks, encode_fixed, chunks, decode_fixed}

pub length-put_i64 : (t : ℤ) → length (put_i64 t) ≡ 8
length-put_i64 t = length-to_le_bytes 8 (i64_bits t)

write_chunks-put_all :
    (ts : List ℤ) (slice : List ℕ)
    → length slice ≡ length ts * 8
    → write_chunks ts slice ≡ put_all put_i64 ts
unfolding write_chunks put_all
write_chunks-put_all [] [] h = refl
write_chunks-put_all [] (b ∷ bs) h = absurd (omega arith)
write_chunks-put_all (t ∷ ts) slice h =
    let (front, back, e, f, g) = split_at 8 (length ts * 8) slice (omega arith) in
    rw (e, split_exact-append 8 front back f, write_chunks)
      (ap (λ w. put_i64 t ++ w) (write_chunks-put_all ts back g))

pub encode_fixed-put_all :
    (ts : List ℤ) (slice : List ℕ)
    → length slice ≡ length ts * 8
    → encode_fixed ts slice ≡ ok (put_all put_i64 ts)
unfolding encode_fixed
encode_fixed-put_all ts slice h = rw (write_chunks-put_all ts slice h) (ground arith)

chunks-put_all : (ts : List ℤ) → chunks (length ts) (put_all put_i64 ts) ≡ map put_i64 ts
unfolding chunks put_all
chunks-put_all [] = refl
chunks-put_all (t ∷ ts) =
    rw (split_exact-append 8 (put_i64 t) (put_all put_i64 ts) (length-put_i64 t), chunks)
      (ap (λ w. put_i64 t ∷ w) (chunks-put_all ts))

read_back :
    (ts : List ℤ)
    → All IsI64 ts
    → map (λ chunk. i64_from_bits (from_le_bytes chunk)) (map put_i64 ts) ≡ ts
read_back [] h = refl
read_back (t ∷ ts) (ht, h) =
    rw
      (
        from_le_bytes-to_le_bytes 8 (i64_bits t) (i64_bits-lt t ht),
        i64_from_bits-i64_bits t ht,
        read_back ts h,
      )
      refl

pub decode_fixed-put_all :
    (ts : List ℤ)
    → All IsI64 ts
    → length ts ≤ 65_536
    → decode_fixed (put_all put_i64 ts) (length ts) ≡ ok ts
unfolding decode_fixed checked_mul
decode_fixed-put_all ts h small =
    let size = length-put_all put_i64 8 ts length-put_i64 in
    let rounds : length ts * 8 / 8 ≡ length ts = omega arith in
    rw (size, rounds, chunks-put_all ts, read_back ts h) (ground arith)

-- A fixed stream that is accepted has one timestamp for each row.
length-chunks : (n : ℕ) (bytes : List ℕ) → length bytes ≡ n * 8 → length (chunks n bytes) ≡ n
unfolding chunks
length-chunks zero bytes h = refl
length-chunks (suc n) bytes h =
    let (front, back, e, f, g) = split_at 8 (n * 8) bytes (omega arith) in
    rw (e, split_exact-append 8 front back f, chunks) (ap suc (length-chunks n back g))

pub length-decode_fixed :
    (bytes : List ℕ) (row_count : ℕ) {ts : List ℤ}
    → decode_fixed bytes row_count ≡ ok ts
    → length ts ≡ row_count
unfolding decode_fixed checked_mul
length-decode_fixed bytes row_count h =
    let (expected, e₁, h₁) =
      >>=-eq-ok
        (ok_or (checked_mul 32 row_count 8) (corruption "timestamps" "fixed length overflow")) _
        h in
    let (_, e₂, h₂) =
      >>=-eq-ok
        (fail_if (not (length bytes == expected))
          (corruption "timestamps" "fixed stream length mismatch"))
        _ h₁ in
    let whole : length bytes ≡ row_count * 8 =
      ground (arith, ok_or-eq_ok _ _ e₁, fail_if-eq_ok _ _ e₂) in
    let rounds : length bytes / 8 ≡ row_count = omega arith in
    let count = length-chunks row_count bytes whole in
    rw (← ok-injective h₂, length-map, rounds) count
