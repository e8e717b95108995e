-- ===== src/Base/Cursor.antt =====
-- Reading bytes: the cursors of the decoders, and the reads at an offset. A cursor is the list of
-- the bytes that are left. The decoders differ in the context of their errors.
use Prim.Native.Nat.{ℕ, zero, suc, ◌^◌, ◌<◌}
use Prim.Native.String.{String}
use mathlib.Core.Path.{◌≡◌, refl}
use mathlib.Core.Bool.{Bool, true, false, ◌&&◌}
use litesdb.Base.Tests.{◌==◌}
use mathlib.Core.Option.{Option, none, some}
use mathlib.Core.List.{List, [], ◌∷◌, ◌++◌}
use native.Mathlib.Omega.{arith}
use litesdb.Base.Lists.{length}
use litesdb.Base.Outcome.{Result, Error, ok, err, ◌>>=◌, ok_or, corruption}
use litesdb.Base.Int.{ℤ, IsI64}
use litesdb.Base.Bytes.{to_le_bytes, from_le_bytes, i64_bits, i64_from_bits, length-to_le_bytes}
use litesdb.Base.Bytes.{from_le_bytes-to_le_bytes, i64_bits-lt, i64_from_bits-i64_bits}

-- The first `n` items and the others.
unfoldable pub split_exact {ℓ} : {A : Type ℓ} → ℕ → List A → Option (List A × List A)
split_exact zero xs = some ([], xs)
split_exact (suc n) [] = none
split_exact (suc n) (x ∷ xs) = elim (split_exact n xs) [
  | none ↦ none
  | some (front, back) ↦ some (x ∷ front, back)
]

pub split_exact-append {ℓ} :
    {A : Type ℓ} (n : ℕ) (xs ys : List A) → length xs ≡ n → split_exact n (xs ++ ys) ≡ some (xs, ys)
unfolding split_exact
split_exact-append zero [] ys h = refl
split_exact-append zero (x ∷ xs) ys h = absurd (omega arith)
split_exact-append (suc n) [] ys h = absurd (omega arith)
split_exact-append (suc n) (x ∷ xs) ys h = rw (split_exact-append n xs ys (omega arith)) refl

abbrev pub put_u16 : ℕ → List ℕ
put_u16 v = to_le_bytes 2 v

abbrev pub put_u32 : ℕ → List ℕ
put_u32 v = to_le_bytes 4 v

abbrev pub put_u64 : ℕ → List ℕ
put_u64 v = to_le_bytes 8 v

abbrev pub put_i64 : ℤ → List ℕ
put_i64 v = to_le_bytes 8 (i64_bits v)

unfoldable pub read_u8 : String → List ℕ → Result (ℕ × List ℕ)
read_u8 context [] = err (corruption context "truncated byte")
read_u8 context (b ∷ rest) = ok (b, rest)

-- `read_array`, and the number that it is the little end of.
unfoldable pub read_array : String → ℕ → List ℕ → Result (List ℕ × List ℕ)
read_array context n cursor = ok_or (split_exact n cursor) (corruption context "truncated scalar")

unfoldable pub read_le : String → ℕ → List ℕ → Result (ℕ × List ℕ)
read_le context n cursor =
    read_array context n cursor >>= λ (bytes, rest). ok (from_le_bytes bytes, rest)

abbrev pub read_u16 : String → List ℕ → Result (ℕ × List ℕ)
read_u16 context cursor = read_le context 2 cursor

abbrev pub read_u32 : String → List ℕ → Result (ℕ × List ℕ)
read_u32 context cursor = read_le context 4 cursor

abbrev pub read_u64 : String → List ℕ → Result (ℕ × List ℕ)
read_u64 context cursor = read_le context 8 cursor

unfoldable pub read_i64 : String → List ℕ → Result (ℤ × List ℕ)
read_i64 context cursor = read_le context 8 cursor >>= λ (bits, rest). ok (i64_from_bits bits, rest)

pub read_le-to_le_bytes :
    (context : String) (n v : ℕ)
    → v < 256 ^ n
    → (rest : List ℕ) → read_le context n (to_le_bytes n v ++ rest) ≡ ok (v, rest)
unfolding read_le read_array
read_le-to_le_bytes context n v h rest =
    rw
      (
        split_exact-append n (to_le_bytes n v) rest (length-to_le_bytes n v),
        from_le_bytes-to_le_bytes n v h,
      )
      refl

pub read_i64-put_i64 :
    (context : String) (v : ℤ)
    → IsI64 v
    → (rest : List ℕ) → read_i64 context (put_i64 v ++ rest) ≡ ok (v, rest)
unfolding read_i64
read_i64-put_i64 context v h rest =
    rw
      (
        read_le-to_le_bytes context 8 (i64_bits v) (i64_bits-lt v h) rest,
        i64_from_bits-i64_bits v h,
      )
      refl

-- `bytes.get(offset..)`
unfoldable pub tail_from {ℓ} : {A : Type ℓ} → ℕ → List A → Option (List A)
tail_from offset xs = elim (split_exact offset xs) [ none ↦ none | some (front, back) ↦ some back ]

-- `bytes.get(offset..offset + n)`
unfoldable pub slice {ℓ} : {A : Type ℓ} → ℕ → ℕ → List A → Option (List A)
slice offset n xs = elim (tail_from offset xs) [
  | none ↦ none
  | some back ↦ elim (split_exact n back) [ none ↦ none | some (part, rest) ↦ some part ]
]

-- A read at an offset, with the error of a short slice.
unfoldable pub read_at : Error → ℕ → ℕ → List ℕ → Result ℕ
read_at e n offset bytes = ok_or (slice offset n bytes) e >>= λ part. ok (from_le_bytes part)

pub tail_from-append {ℓ} :
    {A : Type ℓ} (offset : ℕ) (front back : List A)
    → length front ≡ offset
    → tail_from offset (front ++ back) ≡ some back
unfolding tail_from
tail_from-append offset front back h = rw (split_exact-append offset front back h, tail_from) refl

pub slice-append {ℓ} :
    {A : Type ℓ} (offset n : ℕ) (front xs back : List A)
    → length front ≡ offset
    → length xs ≡ n
    → slice offset n (front ++ (xs ++ back)) ≡ some xs
unfolding slice
slice-append offset n front xs back h g =
    rw (tail_from-append offset front (xs ++ back) h, split_exact-append n xs back g, slice) refl

pub read_at-to_le_bytes :
    (e : Error) (n offset v : ℕ) (front back : List ℕ)
    → v < 256 ^ n
    → length front ≡ offset
    → read_at e n offset (front ++ (to_le_bytes n v ++ back)) ≡ ok v
unfolding read_at
read_at-to_le_bytes e n offset v front back h g =
    rw
      (
        slice-append offset n front (to_le_bytes n v) back g (length-to_le_bytes n v),
        from_le_bytes-to_le_bytes n v h,
      )
      refl

unfoldable pub eqb_bytes : List ℕ → List ℕ → Bool
eqb_bytes [] [] = true
eqb_bytes [] (y ∷ ys) = false
eqb_bytes (x ∷ xs) [] = false
eqb_bytes (x ∷ xs) (y ∷ ys) = (x == y) && eqb_bytes xs ys

-- `bytes.get(range) == Some(expected)`
unfoldable pub is_bytes : List ℕ → Option (List ℕ) → Bool
is_bytes expected none = false
is_bytes expected (some found) = eqb_bytes found expected
