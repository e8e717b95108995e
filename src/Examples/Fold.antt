-- ===== src/Examples/Fold.antt =====
-- Concrete buckets of a query.
use litesdb.Base.{ℕ, ◌<◌, ◌*◌, ◌≡◌, refl, arith, ok, Bool, false, some}
use litesdb.Base.Int.{ℤ, pos, negsuc, ◌+ℤ◌, ◌-ℤ◌, checked_sub_i128, checked_add_i128}
use litesdb.Agg.Fold.{geometry, measure_buckets, checked_div, offset_from, try_i64}
use litesdb.Agg.Fold.Geometry.{IsBucketOf, geometry_lem, geometry-measure_buckets}

-- The range from -5 to 27 in buckets of ten, and a fact at 8.
geometry_lem_example :
    (found : ℤ × ℤ × Bool) × (geometry (negsuc 4) (pos 27) 10 (pos 8) (some (pos 20)) ≡ ok found)
    × IsBucketOf (negsuc 4) (pos 27) 10 (pos 8) (some (pos 20)) found
geometry_lem_example =
    geometry_lem (negsuc 4) (pos 27) 10 (pos 8) (some (pos 20)) (omega arith, omega arith)
      (omega arith, omega arith) (omega arith) (omega arith) (omega arith) (omega arith)

geometry-run : geometry (negsuc 4) (pos 27) 10 (pos 8) (some (pos 20)) ≡ ok (pos 5, pos 15, false)
unfolding geometry checked_sub_i128 checked_add_i128 checked_div offset_from try_i64 ◌+ℤ◌ ◌-ℤ◌
geometry-run = refl

geometry-measure_buckets_example :
    (count : ℕ) × (measure_buckets (negsuc 4) (pos 27) 10 ≡ ok count)
    × ((found : ℤ × ℤ × Bool) × (geometry (negsuc 4) (pos 27) 10 (pos 8) (some (pos 20)) ≡ ok found)
        × ((index : ℕ) × (found.0 ≡ negsuc 4 +ℤ pos (index * 10)) × (index < count)))
geometry-measure_buckets_example =
    geometry-measure_buckets (negsuc 4) (pos 27) 10 (pos 8) (some (pos 20))
      (omega arith, omega arith) (omega arith, omega arith) (omega arith) (omega arith)
      (omega arith) (omega arith)
