-- ===== src/Agg/Bucket/Held.antt =====
-- A value of a column, and what `observe` does with it.
use litesdb.Base.{ℕ, ◌+◌, ◌<◌, ◌^◌, ◌≡◌, ◌==◌, refl, arith, Option, none, some, Bool, true, false}
use litesdb.Base.{Bool-cases, inl, inr, ok, ok_or, if◌then◌else◌}
use litesdb.Base.Int.{checked_add, leb_ℤ, pos}
use litesdb.Types.Value.{
  CellValue, ValueType, u_int, sq1, f32_bits, u_int_value, sq1_value, f32_value, matches,
}
use litesdb.Types.Value.{HasType}
use litesdb.Types.Sq1.{fp4, fp4_order}
use litesdb.Agg.Bucket.{BucketBuilder, observe_present}
use litesdb.Agg.Bucket.{
  keep_min, keep_max, compare_values, increment, f32_order_key, sign_of, saturated,
}

-- The value of the accumulators, which is never null.
abbrev pub IsHeld : ValueType → Option CellValue → Type 0
IsHeld value_type none = Unit {0}
IsHeld value_type (some CellValue.null) = ⊥
IsHeld value_type (some (u_int_value n)) = HasType value_type (u_int_value n)
IsHeld value_type (some (sq1_value c)) = HasType value_type (sq1_value c)
IsHeld value_type (some (f32_value b)) = HasType value_type (f32_value b)

-- What a value adds to the sum.
abbrev pub amount : CellValue → ℕ
amount CellValue.null = 0
amount (u_int_value n) = n
amount (sq1_value c) = fp4 c
amount (f32_value b) = 0

-- The order of the values of a type.
unfoldable pub key : CellValue → ℕ
key CellValue.null = 0
key (u_int_value n) = n
key (sq1_value c) = c
key (f32_value b) = f32_order_key b

pub compare_ok :
    (t : ValueType) (current value : CellValue)
    → IsHeld t (some current)
    → IsHeld t (some value)
    → compare_values t current value ≡ ok (sign_of (key current) (key value))
unfolding compare_values key
compare_ok u_int (u_int_value n) (u_int_value m) h g = refl
compare_ok sq1 (sq1_value n) (sq1_value m) h g = refl
compare_ok f32_bits (f32_value n) (f32_value m) h g = refl
compare_ok _ _ _ h g = ground arith

pub either-IsHeld :
    (t : ValueType) (first : Bool) (a b : CellValue)
    → IsHeld t (some a)
    → IsHeld t (some b)
    → IsHeld t (some (if first then a else b))
either-IsHeld t true a b h g = h
either-IsHeld t false a b h g = g

fp4_small : (c : ℕ) → c < 255 → fp4 c < 2 ^ 64
fp4_small c h = elim (Bool-cases (c == 0)) [
  | inl e ↦ ground (arith, fp4_order 0 1)
  | inr e ↦ ground (arith, fp4_order 0 c)
]

sum_fits :
    (sum more : ℕ)
    → sum + more < 2 ^ 128
    → ok_or (checked_add 128 sum more) (saturated "bucket_sum") ≡ ok (sum + more)
unfolding checked_add
sum_fits sum more h = ground arith

-- What is kept is one of the two, and is at the end of both.
pub keep_min_ok :
    (t : ValueType) (current : Option CellValue) (value : CellValue)
    → IsHeld t current
    → IsHeld t (some value)
    → (kept : CellValue) × (keep_min t current value ≡ ok kept) × IsHeld t (some kept)
unfolding keep_min
keep_min_ok t none value h g = (value, refl, g)
keep_min_ok t (some current) value h g = (
  if leb_ℤ (sign_of (key current) (key value)) (pos 0) then current else value,
  rw (compare_ok t current value h g) refl,
  either-IsHeld t (leb_ℤ (sign_of (key current) (key value)) (pos 0)) current value h g,
)

pub keep_max_ok :
    (t : ValueType) (current : Option CellValue) (value : CellValue)
    → IsHeld t current
    → IsHeld t (some value)
    → (kept : CellValue) × (keep_max t current value ≡ ok kept) × IsHeld t (some kept)
unfolding keep_max
keep_max_ok t none value h g = (value, refl, g)
keep_max_ok t (some current) value h g = (
  if leb_ℤ (pos 0) (sign_of (key current) (key value)) then current else value,
  rw (compare_ok t current value h g) refl,
  either-IsHeld t (leb_ℤ (pos 0) (sign_of (key current) (key value))) current value h g,
)

pub increment_ok :
    (t : ValueType) (value : CellValue)
    → IsHeld t (some value)
    → (increment value ≡ ok (amount value)) × (amount value < 2 ^ 64) × (matches value t ≡ true)
unfolding increment matches
increment_ok u_int (u_int_value n) h = (refl, h, refl)
increment_ok sq1 (sq1_value c) h = (refl, fp4_small c h, refl)
increment_ok f32_bits (f32_value b) h = (refl, omega arith, refl)
increment_ok _ _ h = ground arith

pub observe_present_ok :
    (t : ValueType) (b : BucketBuilder) (value : CellValue)
    → IsHeld t b.min
    → IsHeld t b.max
    → IsHeld t (some value)
    → b.value_type ≡ t
    → b.sum + amount value < 2 ^ 128
    → (least : CellValue) × (greatest : CellValue) × (observe_present b value
        ≡ ok (record b { min = some least; max = some greatest; sum = b.sum + amount value }))
      × IsHeld t (some least)
      × IsHeld t (some greatest)
unfolding observe_present
observe_present_ok t b value hmin hmax h same room =
    let (least, is_least, held) = keep_min_ok t b.min value hmin h in
    let (greatest, is_greatest, held') = keep_max_ok t b.max value hmax h in
    let (more, small, matching) = increment_ok t value h in
    (
      least,
      greatest,
      rw (same, matching, is_least, is_greatest, more, sum_fits b.sum (amount value) room) refl,
      held,
      held',
    )
