-- ===== src/Agg/Fold/Geometry.antt =====
-- core/src/agg/fold.rs: where the bucket of a fact lies.
use litesdb.Base.{
  subst, ℕ, ◌+◌, ◌-◌, ◌*◌, ◌/◌, ◌≤◌, ◌<◌, ◌^◌, ◌||◌, ltb, ◌≡◌, refl, arith, ◌⊎◌, Bool, true, false,
  Option, some,
}
use litesdb.Base.{ok}
use litesdb.Base.Int.{
  ℤ, pos, pos_part, neg_part, ◌+ℤ◌, ◌-ℤ◌, ◌≤ℤ◌, ◌<ℤ◌, ltb_ℤ, leb_ℤ, eqb_ℤ, fits_i128, IsI64,
  checked_add_i128, checked_sub_i128, try_from,
}
use litesdb.Agg.Fold.{
  geometry, offset_from, min_ℤ, ends_before, measure_buckets, count_span, rounded_up,
}
use native.Mathlib.Nat.{le-div_iff_mul-le, div-lt_iff_lt-mul}
use litesdb.Agg.Fold.Times.{
  rounded_down, checked_div_ok, relative_of, add_ok, between, try_i64_ok, visible_is, wide_low,
  visible_high, min_ℤ-right, min_ℤ-left, full_or_partial,
}

-- The bucket of a fact: its start is a whole number of widths behind the start of the range, it
-- holds the fact, it ends within the range and at most a width behind its start, and when it is not
-- partial it is a whole width long and the table is not known to end before it does.
pub record IsBucketOf (start end : ℤ) (width : ℕ) (ts : ℤ) (table_max : Option ℤ)
    (found : ℤ × ℤ × Bool) : Type 0 where
  pub index : ℕ
  pub aligned : found.0 ≡ start +ℤ pos (index * width)
  pub holds_from : found.0 ≤ℤ ts
  pub holds_to : ts <ℤ found.1
  pub inside : found.1 ≤ℤ end
  pub no_wider : found.1 ≤ℤ found.0 +ℤ pos width
  pub full :
      (found.2 ≡ true)
      ⊎ ((found.1 ≡ found.0 +ℤ pos width) × (ends_before table_max found.1 ≡ false))

-- Every fact of a range has a bucket: when the ends of the range are `i64`, the width is a positive
-- `u32` and the fact lies in the range, its bucket is found; it starts a whole number of widths
-- behind the start of the range, holds the fact, ends within the range and at most a width behind
-- its start, and when it is not partial it is a whole width long and the newest row of the table,
-- where there is one, is not before its end.
pub geometry_lem :
    (start end : ℤ) (width : ℕ) (ts : ℤ) (table_max : Option ℤ)
    → IsI64 start
    → IsI64 end
    → 0 < width
    → width < 2 ^ 32
    → start ≤ℤ ts
    → ts <ℤ end
    → (found : ℤ × ℤ × Bool) × (geometry start end width ts table_max ≡ ok found)
      × IsBucketOf start end width ts table_max found
unfolding geometry offset_from
geometry_lem start end width ts table_max is_s is_e positive small from to =
    let is_t : IsI64 ts = ground arith in
    let (r, relative, at, near) = relative_of start ts is_s is_t from in
    let (low, high) = rounded_down r width positive in
    let offset = r / width * width in
    let wide = start +ℤ pos offset in
    let is_w = between start ts offset r is_s is_t at low in
    let natural = wide +ℤ pos width in
    let visible = min_ℤ natural end in
    let is_v : IsI64 visible = visible_is wide end width is_w is_e in
    let inside_range : (ltb_ℤ (pos r) (pos 0) || leb_ℤ end ts) ≡ false = ground arith in
    let fits : fits_i128 (pos offset) ≡ true = ground arith in
    (
      (wide, visible, ltb_ℤ end natural || ends_before table_max visible),
      rw
          (
            relative,
            inside_range,
            checked_div_ok r width positive,
            fits,
            add_ok start offset is_s (omega arith),
            add_ok wide width is_w (omega arith),
            try_i64_ok wide is_w,
            try_i64_ok visible is_v,
          )
          refl,
      record {
        index = r / width;
        aligned = refl;
        holds_from = wide_low start ts r offset at low;
        holds_to = visible_high start end ts r offset width at high to;
        inside = min_ℤ-right natural end;
        no_wider = min_ℤ-left natural end;
        full = full_or_partial natural end table_max;
      },
    )

-- The number of widths that cover `s` times.
covering :
    (index r s width : ℕ)
    → 0 < width
    → index * width ≤ r
    → r < s
    → index < (s + (width - 1)) / width
covering index r s width positive low h = (le-div_iff_mul-le positive).1 (omega arith)

count_small : (s width : ℕ) → 0 < width → s < 2 ^ 64 → (s + (width - 1)) / width < 2 ^ 64
count_small s width positive h = (div-lt_iff_lt-mul positive).1 (omega arith)

aligned_low : (start ts : ℤ) (k r : ℕ) → start +ℤ pos k ≤ℤ ts → start +ℤ pos r ≡ ts → k ≤ r
unfolding ◌+ℤ◌
aligned_low start ts k r h e = ground arith

span_of :
    (start end : ℤ)
    → IsI64 start
    → IsI64 end
    → start <ℤ end
    → (s : ℕ) × (checked_sub_i128 end start ≡ some (pos s))
      × (start +ℤ pos s ≡ end)
      × (0 < s)
      × (s < 2 ^ 64)
unfolding checked_sub_i128 ◌-ℤ◌ ◌+ℤ◌
span_of start end is_s is_e lt = (
  (pos_part end + neg_part start) - (neg_part end + pos_part start),
  ground arith,
  ground arith,
  omega arith,
  omega arith,
)

closer :
    (start end ts : ℤ) (r s : ℕ) → start +ℤ pos r ≡ ts → start +ℤ pos s ≡ end → ts <ℤ end → r < s
unfolding ◌+ℤ◌
closer start end ts r s e f h = ground arith

add_small :
    (s width : ℕ)
    → s < 2 ^ 64
    → width < 2 ^ 32
    → checked_add_i128 (pos s) (pos (width - 1)) ≡ some (pos (s + (width - 1)))
unfolding checked_add_i128 ◌+ℤ◌
add_small s width h g = ground arith

-- No fact lies behind the buckets that were counted: when the ends of the range are `i64`, the width
-- is a positive `u32` and the fact lies in the range, the buckets of the range are counted, and the
-- bucket of the fact is found and starts a number of widths behind the start that is below the
-- count.
pub geometry-measure_buckets :
    (start end : ℤ) (width : ℕ) (ts : ℤ) (table_max : Option ℤ)
    → IsI64 start
    → IsI64 end
    → 0 < width
    → width < 2 ^ 32
    → start ≤ℤ ts
    → ts <ℤ end
    → (count : ℕ) × (measure_buckets start end width ≡ ok count)
      × ((found : ℤ × ℤ × Bool) × (geometry start end width ts table_max ≡ ok found)
          × ((index : ℕ) × (found.0 ≡ start +ℤ pos (index * width)) × (index < count)))
unfolding measure_buckets count_span rounded_up try_from
geometry-measure_buckets start end width ts table_max is_s is_e positive small from to =
    let is_t : IsI64 ts = ground arith in
    let (r, _, at, near) = relative_of start ts is_s is_t from in
    let (s, span, ends, some_span, short) = span_of start end is_s is_e (omega arith) in
    let less = closer start end ts r s at ends to in
    let (found, is_found, is) =
      geometry_lem start end width ts table_max is_s is_e positive small from to in
    let apart : eqb_ℤ start end ≡ false = ground arith in
    let forward : ltb_ℤ (pos s) (pos 0) ≡ false = ground arith in
    let begins : start +ℤ pos (is.index * width) ≤ℤ ts =
      subst (λ a. a ≤ℤ ts) is.aligned is.holds_from in
    let low = aligned_low start ts (is.index * width) r begins at in
    let fits : ltb ((s + (width - 1)) / width) (2 ^ 64) ≡ true =
      ground (arith, count_small s width positive short) in
    (
      (s + (width - 1)) / width,
      rw
          (
            apart,
            span,
            forward,
            add_small s width short small,
            rounded_up,
            checked_div_ok (s + (width - 1)) width positive,
            fits,
          )
          refl,
      (found, is_found, (is.index, is.aligned, covering is.index r s width positive low less)),
    )
