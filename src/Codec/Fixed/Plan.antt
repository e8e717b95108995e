-- ===== src/Codec/Fixed/Plan.antt =====
-- The plan that measuring a fixed column returns.
use litesdb.Base.{ℕ, ◌+◌, ◌-◌, ◌*◌, ◌/◌, ◌^◌, ◌≤◌, ◌<◌, ◌≡◌, refl, arith, false}
use litesdb.Base.{some, List, All, length, ok}
use litesdb.Base.{◌==◌, if◌then◌else◌, Bool-cases, inl, inr, le→leb}
use litesdb.Base.Int.{checked_add, checked_mul}
use litesdb.Types.Value.{CellValue}
use litesdb.Codec.Bitmap.Check.{bitmap_len-ok}
use litesdb.Codec.Fixed.{FixedKind, u_int_kind, sq1_kind, f32_kind, FixedPlan}
use litesdb.Codec.Fixed.{header_len}
use litesdb.Codec.Fixed.{fixed_len, plan_width, finish_fixed, measure, new_fixed_measurer}
use litesdb.Codec.Fixed.{null_bitmap_len, and_then}
use litesdb.Codec.Fixed.Measure.{
  IsFact, count_nulls, raise_all, count_nulls-le, measured, observe_facts-measured,
  minimum_uint_width_lem, raise_all-lt,
}

abbrev pub bitmap_bytes : ℕ → ℕ → ℕ
bitmap_bytes rows nulls = if nulls == 0 then 0 else (rows + 7) / 8

abbrev pub total_len : FixedKind → ℕ → ℕ → ℕ → ℕ
total_len kind width rows nulls = (rows - nulls) * width + header_len kind + bitmap_bytes rows nulls

pub null_bitmap_len-ok :
    (rows nulls : ℕ) → rows ≤ 65_536 → null_bitmap_len rows nulls ≡ ok (bitmap_bytes rows nulls)
null_bitmap_len-ok rows nulls h = elim (Bool-cases (nulls == 0)) [
  | inl none_null ↦ rw (none_null) refl
  | inr some_null ↦ rw (some_null) (bitmap_len-ok "fixed" rows h)
]

header_len-le : (kind : FixedKind) → header_len kind ≤ 1
header_len-le u_int_kind = omega arith
header_len-le sq1_kind = omega arith
header_len-le f32_kind = omega arith

bitmap_bytes-le : (rows nulls : ℕ) → bitmap_bytes rows nulls ≤ rows + 7
bitmap_bytes-le rows nulls = ground arith

fits_u32 : (a b : ℕ) → a + b < 2 ^ 32 → checked_add 32 a b ≡ some (a + b)
unfolding checked_add
fits_u32 a b h = ground arith

product_fits : (a b : ℕ) → a * b < 2 ^ 32 → checked_mul 32 a b ≡ some (a * b)
unfolding checked_mul
product_fits a b h = ground arith

product-le : (a b : ℕ) → b ≤ 8 → a * b ≤ a * 8
product-le a b h = grind arith

pub fixed_len-total_len :
    (kind : FixedKind) (width rows nulls : ℕ)
    → rows ≤ 65_536
    → width ≤ 8
    → fixed_len kind width rows nulls (rows - nulls) ≡ ok (total_len kind width rows nulls)
unfolding fixed_len
fixed_len-total_len kind width rows nulls h small =
    let bound = product-le (rows - nulls) width small in
    let head = header_len-le kind in
    let map_bytes = bitmap_bytes-le rows nulls in
    rw
      (
        null_bitmap_len-ok rows nulls h,
        product_fits (rows - nulls) width (omega arith),
        and_then,
        fits_u32 ((rows - nulls) * width) (header_len kind) (omega arith),
        and_then,
        fits_u32 ((rows - nulls) * width + header_len kind) (bitmap_bytes rows nulls) (omega arith),
      )
      refl

pub plan_width-le : (kind : FixedKind) (top : ℕ) → top < 2 ^ 64 → plan_width kind top ≤ 8
plan_width-le u_int_kind top h = (minimum_uint_width_lem top h).1
plan_width-le sq1_kind top h = omega arith
plan_width-le f32_kind top h = omega arith

-- The plan of a column.
abbrev pub fixed_plan : FixedKind → List CellValue → FixedPlan
fixed_plan kind facts = record {
  kind = kind;
  width = plan_width kind (raise_all 0 facts);
  byte_len =
      total_len kind (plan_width kind (raise_all 0 facts)) (length facts) (count_nulls facts);
  fact_count = length facts;
  null_count = count_nulls facts;
  value_count = length facts - count_nulls facts;
}

finish_fixed-measured :
    (kind : FixedKind) (rows nulls top : ℕ)
    → 0 < rows
    → rows ≤ 65_536
    → nulls ≤ rows
    → top < 2 ^ 64
    → finish_fixed (measured kind rows nulls top)
      ≡ ok (record {
        kind = kind;
        width = plan_width kind top;
        byte_len = total_len kind (plan_width kind top) rows nulls;
        fact_count = rows;
        null_count = nulls;
        value_count = rows - nulls;
      })
unfolding finish_fixed
finish_fixed-measured kind rows nulls top pos small le h =
    let some_rows : (rows == 0) ≡ false = ground arith in
    rw
      (
        some_rows,
        le→leb nulls rows le,
        fixed_len-total_len kind (plan_width kind top) rows nulls small (plan_width-le kind top h),
      )
      refl

-- Measuring succeeds on every column that a section can hold.
pub measure-fixed_plan :
    (kind : FixedKind) (facts : List CellValue)
    → All (IsFact kind) facts
    → 0 < length facts
    → length facts ≤ 65_536
    → measure facts kind ≡ ok (fixed_plan kind facts)
unfolding measure new_fixed_measurer
measure-fixed_plan kind facts h pos small =
    let start_n : 0 + length facts ≡ length facts = omega arith in
    let start_k : 0 + count_nulls facts ≡ count_nulls facts = omega arith in
    rw (observe_facts-measured kind 0 0 0 facts h (omega arith) (omega arith), start_n, start_k)
      (finish_fixed-measured kind (length facts) (count_nulls facts) (raise_all 0 facts) pos small
        (count_nulls-le facts) (raise_all-lt kind 0 facts h (omega arith)))
