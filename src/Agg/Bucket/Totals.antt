-- ===== src/Agg/Bucket/Totals.antt =====
-- A bucket takes every column of its type that the engine can hold, and its totals are exact.
use litesdb.Base.{ℕ, suc, ◌+◌, ◌*◌, ◌≤◌, ◌^◌, ◌≡◌, List, [], ◌∷◌, length, Bool}
use litesdb.Base.{Result, ok, ◌>>=◌}
use litesdb.Base.Int.{ℤ}
use litesdb.Types.Value.{CellValue, ValueType, u_int_value, sq1_value, f32_value}
use litesdb.Agg.Bucket.{Bucket, BucketBuilder, new_bucket, observe_bucket}
use litesdb.Agg.Bucket.{finish_bucket}
use litesdb.Agg.Bucket.Held.{IsHeld, amount}

unfoldable pub observe_buckets : BucketBuilder → List CellValue → Result BucketBuilder
observe_buckets b [] = ok b
observe_buckets b (v ∷ vs) = observe_bucket b v >>= λ b'. observe_buckets b' vs

-- What a value adds to the nulls and to the sum.
unfoldable pub nulls_of : List CellValue → ℕ
nulls_of [] = 0
nulls_of (CellValue.null ∷ vs) = suc (nulls_of vs)
nulls_of (u_int_value n ∷ vs) = nulls_of vs
nulls_of (sq1_value c ∷ vs) = nulls_of vs
nulls_of (f32_value b ∷ vs) = nulls_of vs

unfoldable pub total : List CellValue → ℕ
total [] = 0
total (v ∷ vs) = amount v + total vs

record IsBuilder (value_type : ValueType) (b : BucketBuilder) : Type 0 where
  pub same_type : b.value_type ≡ value_type
  pub min_held : IsHeld value_type b.min
  pub max_held : IsHeld value_type b.max
  pub few_nulls : b.null_count ≤ b.sample_count
  pub small_sum : b.sum ≤ b.sample_count * 2 ^ 64

-- The totals of a builder, behind those of an earlier one.
abbrev pub Counted : BucketBuilder → List CellValue → BucketBuilder → Type 0
Counted b vs b' =
    (b'.sample_count ≡ b.sample_count + length vs)
    × (b'.null_count ≡ b.null_count + nulls_of vs)
    × (b'.sum ≡ b.sum + total vs)

-- The bucket of a column, with the totals of the column.
unfoldable pub bucket_of : ℤ → ℤ → ValueType → Bool → List CellValue → Result Bucket
bucket_of start_ts end_ts t is_partial vs =
    observe_buckets (new_bucket start_ts end_ts t is_partial) vs >>= λ b. finish_bucket b
