-- ===== src/Agg/Fold.antt =====
-- core/src/agg/fold.rs: the buckets of a query, and the fold of a column into them.
pub mod Times
pub mod Geometry
use litesdb.Base.{
  ℕ, zero, suc, ◌+◌, ◌-◌, ◌*◌, ◌/◌, ◌%◌, ◌≤◌, ◌<◌, ◌^◌, ◌==◌, not, ltb, ◌||◌, ◌≡◌, refl, arith,
  List, [], ◌∷◌, ◌++◌, Bool, true, false, Option, none, some, if◌then◌else◌,
}
use litesdb.Base.{
  Result, ok, err, Error, ◌>>=◌, ◌>>◌, ok_or, fail_if, corruption, invalid_argument,
  resource_exhausted, String,
}
use litesdb.Base.Int.{
  ℤ, pos, negsuc, pos_part, neg_part, ◌+ℤ◌, ◌-ℤ◌, ◌≤ℤ◌, ◌<ℤ◌, ltb_ℤ, leb_ℤ, eqb_ℤ, fits_i64,
  fits_i128, IsI64, checked_add_i128, checked_sub_i128, try_from,
}
use litesdb.Limits.{maximum, query_slots}
use litesdb.Types.Value.{ValueType, CellValue}
use litesdb.Agg.Bucket.{Bucket, BucketBuilder, new_bucket, observe_bucket, finish_bucket}

abbrev in_aggregation : String → Error
in_aggregation reason = corruption "aggregation" reason

abbrev timestamp_limit : Error
timestamp_limit = resource_exhausted "bucket_timestamp" (2 ^ 64 - 1) (2 ^ 64 - 1)

-- `i64::try_from`
unfoldable pub try_i64 : ℤ → Option ℤ
try_i64 a = if fits_i64 a then some a else none

-- `checked_div` of a number that is not negative.
unfoldable pub checked_div : ℤ → ℕ → Option ℕ
checked_div a zero = none
checked_div a (suc width) = some (pos_part a / suc width)

-- `index.checked_mul(width).and_then(|offset| start.checked_add(offset))`
unfoldable pub offset_from : ℤ → ℕ → ℕ → Option ℤ
offset_from start index width =
    if fits_i128 (pos (index * width)) then checked_add_i128 start (pos (index * width)) else none

abbrev min_ℤ : ℤ → ℤ → ℤ
min_ℤ a b = if leb_ℤ a b then a else b

-- `table_max.is_some_and(|maximum| maximum < visible_end)`
abbrev ends_before : Option ℤ → ℤ → Bool
ends_before none visible_end = false
ends_before (some newest) visible_end = ltb_ℤ newest visible_end

unfoldable pub geometry : ℤ → ℤ → ℕ → ℤ → Option ℤ → Result (ℤ × ℤ × Bool)
geometry start end width fact_ts table_max = do
  relative ← ok_or (checked_sub_i128 fact_ts start) (in_aggregation "Fact precedes query range")
  fail_if (ltb_ℤ relative (pos 0) || leb_ℤ end fact_ts)
      (in_aggregation "cursor emitted a Fact outside query range")
  index ← ok_or (checked_div relative width) (in_aggregation "bucket division failed")
  wide_start ← ok_or (offset_from start index width) timestamp_limit
  natural_end ← ok_or (checked_add_i128 wide_start (pos width)) timestamp_limit
  bucket_start ← ok_or (try_i64 wide_start) timestamp_limit
  visible_end ← ok_or (try_i64 (min_ℤ natural_end end)) timestamp_limit
  ok (bucket_start, visible_end, ltb_ℤ end natural_end || ends_before table_max visible_end)

abbrev slots_limit : Error
slots_limit = resource_exhausted "query_slots" (2 ^ 64 - 1) (maximum query_slots)

-- The quotient of the span, rounded up.
unfoldable pub rounded_up : ℤ → ℕ → Option ℕ
rounded_up span width = elim (checked_add_i128 span (pos (width - 1))) [
  | none ↦ none
  | some value ↦ elim (checked_div value width) [ none ↦ none | some count ↦ try_from 64 count ]
]

-- `measure_buckets` behind its first test.
unfoldable pub count_span : ℤ → ℤ → ℕ → Result ℕ
count_span start end width = do
  span ← ok_or (checked_sub_i128 end start) slots_limit
  fail_if (ltb_ℤ span (pos 0)) (invalid_argument "range" "range is reversed")
  ok_or (rounded_up span width) slots_limit

unfoldable pub measure_buckets : ℤ → ℤ → ℕ → Result ℕ
measure_buckets start end width = if eqb_ℤ start end then ok 0 else count_span start end width

pub record AggregateState : Type 0 where
  pub value_type : ValueType
  pub table_max : Option ℤ
  pub current : Option BucketBuilder
  pub buckets : List Bucket

pub record Fact : Type 0 where
  pub timestamp : ℤ
  pub value : CellValue

-- The active bucket, and the finished ones with the active one when the fact is not in it.
unfoldable pub close_before :
    AggregateState → ℤ → Option BucketBuilder → Result (Option BucketBuilder × List Bucket)
close_before state start none = ok (none, state.buckets)
close_before state start (some bucket) =
    if eqb_ℤ bucket.start_ts start
    then ok (some bucket, state.buckets)
    else (finish_bucket bucket >>= λ completed. ok (none, state.buckets ++ (completed ∷ [])))

-- `get_or_insert_with`
abbrev or_new : Option BucketBuilder → BucketBuilder → BucketBuilder
or_new none new = new
or_new (some bucket) new = bucket

unfoldable pub observe_fact : AggregateState → ℤ → ℤ → ℕ → Fact → Result AggregateState
observe_fact state start end width fact = do
  (bucket_start, visible_end, is_partial) ← geometry start end width fact.timestamp state.table_max
  (active, buckets) ← close_before state bucket_start state.current
  bucket ←
      observe_bucket
        (or_new active (new_bucket bucket_start visible_end state.value_type is_partial)) fact.value
  ok (record state { current = some bucket; buckets = buckets })

unfoldable pub finish_active : List Bucket → Option BucketBuilder → Result (List Bucket)
finish_active buckets none = ok buckets
finish_active buckets (some bucket) =
    finish_bucket bucket >>= λ completed. ok (buckets ++ (completed ∷ []))

unfoldable pub finish_state : AggregateState → Result (List Bucket)
finish_state state = finish_active state.buckets state.current
