-- ===== src/Codec/Bitmap/Inside.antt =====
-- Setting a bit of a bitmap that stands inside a longer slice.
use litesdb.Base.{ℕ, zero, suc, ◌+◌, ◌/◌, ◌%◌, ◌^◌, ◌≡◌, refl, sym, arith}
use litesdb.Base.{none, some, List, [], ◌∷◌, ◌++◌, ◌∙◌, length, ok, Error}
use litesdb.Base.{ok_or-eq_ok, inl, inr}
use litesdb.Base.{Option-cases, ◌≢◌}
use litesdb.Codec.Bitmap.{or_at, set_bit}

some_not_none : (out : List ℕ) → some out ≢ none
some_not_none out h = cc

or_at-append :
    (bytes rest out : List ℕ) (place mask : ℕ)
    → or_at bytes place mask ≡ some out
    → or_at (bytes ++ rest) place mask ≡ some (out ++ rest)
unfolding or_at
or_at-append [] rest out place mask h = cc
or_at-append (b ∷ bs) rest out zero mask h = cc
or_at-append (b ∷ bs) rest out (suc place) mask h = elim (Option-cases (or_at bs place mask)) [
  | inl nothing ↦ absurd (some_not_none out (sym h ∙ rw (nothing) refl))
  | inr (found, is) ↦
      let same : some (b ∷ found) ≡ some out = sym (rw (is) refl) ∙ h in
      rw (or_at-append bs rest found place mask is) (cc)
]

or_at-inside :
    (front bytes rest out : List ℕ) (place mask : ℕ)
    → or_at bytes place mask ≡ some out
    → or_at (front ++ (bytes ++ rest)) (length front + place) mask ≡ some (front ++ (out ++ rest))
unfolding or_at
or_at-inside [] bytes rest out place mask h =
    let start : 0 + place ≡ place = omega arith in
    rw (start) (or_at-append bytes rest out place mask h)
or_at-inside (f ∷ front) bytes rest out place mask h =
    let size : suc (length front) + place ≡ suc (length front + place) = omega arith in
    rw (size, or_at, or_at-inside front bytes rest out place mask h) refl

pub set_bit-inside :
    (e : Error) (front bytes rest out : List ℕ) (index : ℕ)
    → set_bit e 0 index bytes ≡ ok out
    → set_bit e (length front) index (front ++ (bytes ++ rest)) ≡ ok (front ++ (out ++ rest))
unfolding set_bit
set_bit-inside e front bytes rest out index h =
    let start : 0 + index / 8 ≡ index / 8 = omega arith in
    rw
      (or_at-inside front bytes rest out (index / 8) (2 ^ (index % 8))
        (rw start at (ok_or-eq_ok (or_at bytes (0 + index / 8) (2 ^ (index % 8))) e h)))
      refl
