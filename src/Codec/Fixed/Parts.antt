-- ===== src/Codec/Fixed/Parts.antt =====
-- The parts of a slice of bytes, and the numbers that they stand for.
use litesdb.Base.{ℕ, zero, suc, ◌^◌, ◌≤◌, ◌<◌, ◌≡◌, refl, arith}
use litesdb.Base.{Option, none, some, List, [], ◌∷◌, All, ap, length}
use litesdb.Base.{Option-cases, inl, inr}
use litesdb.Base.Bytes.{from_le_bytes}
use native.Mathlib.Nat.{pow-suc, pow-le-pow_right}
use litesdb.Base.Cursor.{split_exact, tail_from, slice}
use litesdb.Codec.Bitmap.Marks.{IsByte}

-- A part of bytes.
abbrev pub IsPart : ℕ → List ℕ → Type 0
IsPart n part = (length part ≡ n) × All IsByte part

split_exact-IsPart :
    (n : ℕ) (xs front back : List ℕ)
    → All IsByte xs
    → split_exact n xs ≡ some (front, back)
    → IsPart n front × All IsByte back
unfolding split_exact
split_exact-IsPart zero xs front back h e =
    let same : ◌≡◌ {A = Option (List ℕ × List ℕ)} (some ([], xs)) (some (front, back)) = e in
    let no_front : [] ≡ front = cc in
    let all_back : xs ≡ back = cc in rw (← no_front, ← all_back) ((refl, tt), h)
split_exact-IsPart (suc n) [] front back h e = cc
split_exact-IsPart (suc n) (x ∷ xs) front back (hx, h) e = elim (Option-cases (split_exact n xs)) [
  | inl nothing ↦
      let bad : ◌≡◌ {A = Option (List ℕ × List ℕ)} none (some (front, back)) = rw (nothing) at e in
      cc
  | inr ((front', back'), is) ↦
      let ((size, all), rest) = split_exact-IsPart n xs front' back' h is in
      let same : ◌≡◌ {A = Option (List ℕ × List ℕ)} (some (x ∷ front', back'))
          (some (front, back)) =
        rw (is) at e in
      let same_front : x ∷ front' ≡ front = cc in
      let same_back : back' ≡ back = cc in
      rw (← same_front, ← same_back) ((ap suc size, (hx, all)), rest)
]

tail_from-IsByte :
    (offset : ℕ) (xs back : List ℕ)
    → All IsByte xs
    → tail_from offset xs ≡ some back
    → All IsByte back
unfolding tail_from
tail_from-IsByte offset xs back h e = elim (Option-cases (split_exact offset xs)) [
  | inl nothing ↦
      let bad : ◌≡◌ {A = Option (List ℕ)} none (some back) = rw (nothing, tail_from) at e in cc
  | inr ((front, back'), is) ↦
      let same : ◌≡◌ {A = Option (List ℕ)} (some back') (some back) = rw (is, tail_from) at e in
      let same_back : back' ≡ back = cc in
      rw (← same_back) (split_exact-IsPart offset xs front back' h is).1
]

pub slice-IsPart :
    (offset n : ℕ) (xs part : List ℕ)
    → All IsByte xs
    → slice offset n xs ≡ some part
    → IsPart n part
unfolding slice
slice-IsPart offset n xs part h e = elim (Option-cases (tail_from offset xs)) [
  | inl nothing ↦
      let bad : ◌≡◌ {A = Option (List ℕ)} none (some part) = rw (nothing, slice) at e in cc
  | inr (back, is) ↦
      let bytes = tail_from-IsByte offset xs back h is in
      elim (Option-cases (split_exact n back)) [
        | inl nothing ↦
            let bad : ◌≡◌ {A = Option (List ℕ)} none (some part) = rw (is, nothing, slice) at e in
            cc
        | inr ((found, rest), is') ↦
            let same : ◌≡◌ {A = Option (List ℕ)} (some found) (some part) =
              rw (is, is', slice) at e in
            let same_part : found ≡ part = cc in
            rw (← same_part) (split_exact-IsPart n back found rest bytes is').0
      ]
]

pub from_le_bytes-lt : (bs : List ℕ) → All IsByte bs → from_le_bytes bs < 256 ^ length bs
unfolding from_le_bytes
from_le_bytes-lt [] h = omega arith
from_le_bytes-lt (b ∷ bs) (hb, h) = omega (arith, pow-suc 256 (length bs), from_le_bytes-lt bs h)

pub power-le : (n : ℕ) → n ≤ 8 → 256 ^ n ≤ 2 ^ 64
power-le n h = pow-le-pow_right {n = 256} (omega arith) h
