-- ===== src/Agg/Fold/Times.antt =====
-- Times and distances in core/src/agg/fold.rs: the checked arithmetic stays within its ranges.
use litesdb.Base.{
  ℕ, zero, suc, ◌+◌, ◌-◌, ◌*◌, ◌/◌, ◌≤◌, ◌<◌, ◌^◌, ◌||◌, ◌≡◌, refl, arith, Bool-cases, ◌⊎◌, inl,
  inr, true, false, Option, some,
}
use litesdb.Base.Int.{
  ℤ, pos, pos_part, neg_part, ◌+ℤ◌, ◌-ℤ◌, ◌≤ℤ◌, ◌<ℤ◌, ltb_ℤ, IsI64, checked_add_i128,
  checked_sub_i128,
}
use litesdb.Agg.Fold.{checked_div, try_i64, min_ℤ, ends_before}
use native.Mathlib.Nat.{div-add-mod, mod-lt}

-- The whole number of widths before a time that is `r` behind the start.
pub rounded_down :
    (r width : ℕ) → 0 < width → (r / width * width ≤ r) × (r < r / width * width + width)
rounded_down r width h = ground (arith, div-add-mod r width, mod-lt r h)

pub checked_div_ok : (r width : ℕ) → 0 < width → checked_div (pos r) width ≡ some (r / width)
unfolding checked_div
checked_div_ok r zero h = absurd (omega arith)
checked_div_ok r (suc width) h = refl

-- The time from the start, and the start of its bucket.
pub relative_of :
    (start ts : ℤ)
    → IsI64 start
    → IsI64 ts
    → start ≤ℤ ts
    → (r : ℕ) × (checked_sub_i128 ts start ≡ some (pos r)) × (start +ℤ pos r ≡ ts) × (r < 2 ^ 64)
unfolding checked_sub_i128 ◌-ℤ◌ ◌+ℤ◌
relative_of start ts is_s is_t le = (
  (pos_part ts + neg_part start) - (neg_part ts + pos_part start),
  ground arith,
  ground arith,
  omega arith,
)

pub add_ok : (a : ℤ) (n : ℕ) → IsI64 a → n < 2 ^ 64 → checked_add_i128 a (pos n) ≡ some (a +ℤ pos n)
unfolding checked_add_i128 ◌+ℤ◌
add_ok a n is small = ground arith

-- Behind a time of `i64`, at a distance of at most a time of `i64`, lies one of `i64`.
pub between : (a b : ℤ) (n m : ℕ) → IsI64 a → IsI64 b → a +ℤ pos m ≡ b → n ≤ m → IsI64 (a +ℤ pos n)
unfolding ◌+ℤ◌
between a b n m is_a is_b e le = ground arith

pub try_i64_ok : (a : ℤ) → IsI64 a → try_i64 a ≡ some a
unfolding try_i64
try_i64_ok a is = ground arith

pub visible_is :
    (wide end : ℤ) (width : ℕ) → IsI64 wide → IsI64 end → IsI64 (min_ℤ (wide +ℤ pos width) end)
unfolding ◌+ℤ◌
visible_is wide end width is_w is_e = ground arith

pub wide_low :
    (start ts : ℤ) (r offset : ℕ) → start +ℤ pos r ≡ ts → offset ≤ r → start +ℤ pos offset ≤ℤ ts
unfolding ◌+ℤ◌
wide_low start ts r offset e h = ground arith

pub visible_high :
    (start end ts : ℤ) (r offset width : ℕ)
    → start +ℤ pos r ≡ ts
    → r < offset + width
    → ts <ℤ end
    → ts <ℤ min_ℤ ((start +ℤ pos offset) +ℤ pos width) end
unfolding ◌+ℤ◌
visible_high start end ts r offset width e h to = ground arith

pub min_ℤ-right : (a b : ℤ) → min_ℤ a b ≤ℤ b
min_ℤ-right a b = ground arith

pub min_ℤ-left : (a b : ℤ) → min_ℤ a b ≤ℤ a
min_ℤ-left a b = ground arith

min_ℤ_uncut : (a b : ℤ) → ltb_ℤ b a ≡ false → min_ℤ a b ≡ a
min_ℤ_uncut a b h = ground arith

pub full_or_partial :
    (natural end : ℤ) (table_max : Option ℤ)
    → ((ltb_ℤ end natural || ends_before table_max (min_ℤ natural end)) ≡ true)
      ⊎ ((min_ℤ natural end ≡ natural) × (ends_before table_max (min_ℤ natural end) ≡ false))
full_or_partial natural end table_max = elim (Bool-cases (ltb_ℤ end natural)) [
  | inl cut ↦ inl (rw cut refl)
  | inr uncut ↦
      let whole : min_ℤ natural end ≡ natural = min_ℤ_uncut natural end uncut in
      elim (Bool-cases (ends_before table_max (min_ℤ natural end))) [
        | inl early ↦ inl (rw (uncut, early) refl)
        | inr late ↦ inr (whole, late)
      ]
]
