-- ===== src/Agg/Bucket.antt =====
-- core/src/agg/bucket.rs: the accumulator of a bucket. An error drops the accumulator, as its
-- callers in core/src/agg/fold.rs do.
pub mod Held
pub mod Totals
pub mod Extrema
pub mod Ranks
pub mod Ends
use litesdb.Base.{
  ℕ, String, ◌+◌, ◌-◌, ◌^◌, ◌==◌, not, List, [], ◌∷◌, Bool, true, false, Option, none, some, ltb,
  bit_and, bit_xor,
}
use litesdb.Base.{
  if◌then◌else◌, Result, ok, err, ◌>>=◌, ◌>>◌, fail_if, ok_or, corruption, resource_exhausted,
  Error,
}
use litesdb.Base.Int.{ℤ, pos, negsuc, leb_ℤ, checked_add}
use litesdb.Types.Value.{
  CellValue, ValueType, u_int, sq1, f32_bits, u_int_value, sq1_value, f32_value, matches,
}
use litesdb.Types.Sq1.{fp4}

pub data SumResult : Type 0 where
  u_int_sum : ℕ → SumResult
  sq1_fp4_sum : ℕ → SumResult
  not_provided : SumResult

pub record Bucket : Type 0 where
  pub start_ts : ℤ
  pub end_ts : ℤ
  pub sample_count : ℕ
  pub null_count : ℕ
  pub min : Option CellValue
  pub max : Option CellValue
  pub sum : SumResult
  pub is_partial : Bool

pub record BucketBuilder : Type 0 where
  pub start_ts : ℤ
  pub end_ts : ℤ
  pub value_type : ValueType
  pub sample_count : ℕ
  pub null_count : ℕ
  pub min : Option CellValue
  pub max : Option CellValue
  pub sum : ℕ
  pub is_partial : Bool

unfoldable pub new_bucket : ℤ → ℤ → ValueType → Bool → BucketBuilder
new_bucket start_ts end_ts value_type is_partial = record {
  start_ts = start_ts;
  end_ts = end_ts;
  value_type = value_type;
  sample_count = 0;
  null_count = 0;
  min = none;
  max = none;
  sum = 0;
  is_partial = is_partial;
}

-- The bits of a float, with the sign turned so that the order of the keys is the float's.
unfoldable pub f32_order_key : ℕ → ℕ
f32_order_key bits =
    if bit_and bits 0x8000_0000 == 0 then bit_xor bits 0x8000_0000 else 2 ^ 32 - 1 - bits

-- `cmp` of two numbers, as -1, 0 or 1.
unfoldable pub sign_of : ℕ → ℕ → ℤ
sign_of left right = if ltb left right then negsuc 0 else (if left == right then pos 0 else pos 1)

abbrev inconsistent : Error
inconsistent = corruption "aggregation" "extrema contain inconsistent types"

unfoldable pub compare_values : ValueType → CellValue → CellValue → Result ℤ
compare_values u_int (u_int_value left) (u_int_value right) = ok (sign_of left right)
compare_values sq1 (sq1_value left) (sq1_value right) = ok (sign_of left right)
compare_values f32_bits (f32_value left) (f32_value right) =
    ok (sign_of (f32_order_key left) (f32_order_key right))
compare_values _ _ _ = err inconsistent

-- The value that stays the least, and the greatest.
unfoldable pub keep_min : ValueType → Option CellValue → CellValue → Result CellValue
keep_min value_type none value = ok value
keep_min value_type (some current) value = compare_values value_type current value >>= λ sign.
    ok (if leb_ℤ sign (pos 0) then current else value)

unfoldable pub keep_max : ValueType → Option CellValue → CellValue → Result CellValue
keep_max value_type none value = ok value
keep_max value_type (some current) value = compare_values value_type current value >>= λ sign.
    ok (if leb_ℤ (pos 0) sign then current else value)

unfoldable pub increment : CellValue → Result ℕ
increment (u_int_value value) = ok value
increment (sq1_value value) = ok (fp4 value)
increment (f32_value value) = ok 0
increment CellValue.null = err (corruption "aggregation" "Null reached value accumulator")

abbrev pub saturated : String → Error
saturated limit = resource_exhausted limit (2 ^ 64 - 1) (2 ^ 64 - 1)

unfoldable pub observe_present : BucketBuilder → CellValue → Result BucketBuilder
observe_present b value = do
  fail_if (not (matches value b.value_type))
      (corruption "aggregation" "Fact type disagrees with field type")
  least ← keep_min b.value_type b.min value
  greatest ← keep_max b.value_type b.max value
  more ← increment value
  sum ← ok_or (checked_add 128 b.sum more) (saturated "bucket_sum")
  ok (record b { min = some least; max = some greatest; sum = sum })

unfoldable pub observe_null : BucketBuilder → Result BucketBuilder
observe_null b = do
  null_count ← ok_or (checked_add 64 b.null_count 1) (saturated "bucket_nulls")
  ok (record b { null_count = null_count })

-- Whether the value is null decides which part of `observe` runs.
unfoldable pub observe_counted : BucketBuilder → CellValue → Result BucketBuilder
observe_counted b CellValue.null = observe_null b
observe_counted b (u_int_value n) = observe_present b (u_int_value n)
observe_counted b (sq1_value n) = observe_present b (sq1_value n)
observe_counted b (f32_value n) = observe_present b (f32_value n)

-- `BucketBuilder::observe`
unfoldable pub observe_bucket : BucketBuilder → CellValue → Result BucketBuilder
observe_bucket b value = do
  sample_count ← ok_or (checked_add 64 b.sample_count 1) (saturated "bucket_samples")
  observe_counted (record b { sample_count = sample_count }) value

unfoldable pub sum_result : ValueType → ℕ → SumResult
sum_result u_int sum = u_int_sum sum
sum_result sq1 sum = sq1_fp4_sum sum
sum_result f32_bits sum = not_provided

-- `BucketBuilder::finish`
unfoldable pub finish_bucket : BucketBuilder → Result Bucket
finish_bucket b = do
  fail_if (b.sample_count == 0) (corruption "aggregation" "empty bucket must not be materialized")
  ok (record {
    start_ts = b.start_ts;
    end_ts = b.end_ts;
    sample_count = b.sample_count;
    null_count = b.null_count;
    min = b.min;
    max = b.max;
    sum = sum_result b.value_type b.sum;
    is_partial = b.is_partial;
  })
