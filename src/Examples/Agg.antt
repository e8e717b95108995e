-- ===== src/Examples/Agg.antt =====
-- Buckets and SQ1 codes at concrete values.
use litesdb.Base.{◌≡◌, ◌<◌, ◌≤◌, List, [], ◌∷◌, ok, arith, false, true}
use litesdb.Base.Int.{pos}
use litesdb.Types.Value.{CellValue, u_int, u_int_value, f32_value}
use litesdb.Types.Sq1.{fp4, fp4_order}
use litesdb.Agg.Bucket.{Bucket, sum_result}
use litesdb.Base.{some, refl}
use litesdb.Base.Int.{checked_add}
use litesdb.Types.Value.{matches}
use litesdb.Agg.Bucket.{
  new_bucket, observe_bucket, observe_counted, observe_null, observe_present, keep_min, keep_max,
}
use litesdb.Agg.Bucket.{compare_values, sign_of, increment, finish_bucket, u_int_sum}
use litesdb.Agg.Bucket.{not_provided}
use litesdb.Agg.Bucket.Totals.{observe_buckets, bucket_of}

abbrev first : CellValue
first = u_int_value 40

abbrev others : List CellValue
others = CellValue.null ∷ u_int_value 2 ∷ []

fp4_order_example : (fp4 60 < fp4 200) × (fp4 200 ≤ 1_000_000)
fp4_order_example = fp4_order 60 200 (omega arith) (omega arith)

abbrev minute : Bucket
minute = record {
  start_ts = pos 0;
  end_ts = pos 60;
  sample_count = 3;
  null_count = 1;
  min = some (u_int_value 2);
  max = some (u_int_value 40);
  sum = u_int_sum 42;
  is_partial = false;
}

bucket_of-minute : bucket_of (pos 0) (pos 60) u_int false (first ∷ others) ≡ ok minute
unfolding bucket_of observe_buckets new_bucket observe_bucket observe_counted observe_null
    observe_present keep_min keep_max compare_values sign_of increment matches finish_bucket
    sum_result checked_add
bucket_of-minute = refl

abbrev floats : List CellValue
floats =
    f32_value 0x7fc0_1234
    ∷ f32_value 0
    ∷ CellValue.null
    ∷ f32_value 0x8000_0000
    ∷ f32_value 0x7f80_0000
    ∷ []

abbrev float_minute : Bucket
float_minute = record {
  start_ts = pos 0;
  end_ts = pos 60;
  sample_count = 5;
  null_count = 1;
  min = some (f32_value 0x8000_0000);
  max = some (f32_value 0x7fc0_1234);
  sum = not_provided;
  is_partial = true;
}
