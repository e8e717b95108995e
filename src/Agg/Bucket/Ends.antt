-- ===== src/Agg/Bucket/Ends.antt =====
-- The extrema that a bucket of core/src/agg/bucket.rs ends with.
use litesdb.Base.{◌≤◌, ◌≡◌, List, Option, some}
use litesdb.Base.{◌⊎◌, ok}
use litesdb.Types.Value.{CellValue, ValueType, u_int_value, sq1_value, f32_value}
use litesdb.Agg.Bucket.{BucketBuilder, Bucket}
use litesdb.Agg.Bucket.{keep_min, keep_max}
use litesdb.Agg.Bucket.Held.{IsHeld}
use litesdb.Agg.Bucket.Extrema.{KeyExtreme, before}

abbrev IsPresent : CellValue → Type 0
IsPresent CellValue.null = ⊥
IsPresent (u_int_value n) = Unit {0}
IsPresent (sq1_value c) = Unit {0}
IsPresent (f32_value b) = Unit {0}

-- What `observe` does to the accumulators.
abbrev Observed : BucketBuilder → CellValue → BucketBuilder → Type 0
Observed b v next =
    (next.value_type ≡ b.value_type)
    × (((v ≡ CellValue.null) × (next.min ≡ b.min) × (next.max ≡ b.max))
        ⊎ ((least : CellValue) × (greatest : CellValue) × (keep_min b.value_type b.min v ≡ ok least)
            × (next.min ≡ some least)
            × (keep_max b.value_type b.max v ≡ ok greatest)
            × (next.max ≡ some greatest)
            × IsPresent v))

abbrev Ends :
    ValueType → Option CellValue → Option CellValue → BucketBuilder → List CellValue → Type 0
Ends t least greatest b vs =
    IsHeld t least
    × IsHeld t greatest
    × KeyExtreme (λ a c. a ≤ c) least (before b.min vs)
    × KeyExtreme (λ a c. c ≤ a) greatest (before b.max vs)
