-- ===== src/Codec/Fixed.antt =====
-- core/src/codec/fixed.rs and fixed_decode.rs: a column in which every value has the same width, with
-- a bitmap of its nulls. An offset into a slice is kept next to the slice.
pub mod Decode
pub mod Values
pub mod Measure
pub mod Plan
pub mod Write
pub mod Read
pub mod Column
pub mod Parts
pub mod Parsed
pub mod RoundTrip
pub mod Sound
use litesdb.Base.{
  ℕ, zero, suc, ◌+◌, ◌-◌, ◌/◌, ◌%◌, Bool, true, false, not, ◌&&◌, Option, none, some,
}
use litesdb.Base.{List, [], ◌∷◌, ◌++◌, Result, ok, err, ◌>>=◌, ◌>>◌, fail_if, ok_or, corruption}
use litesdb.Base.{invalid_argument, resource_exhausted, leb, ◌==◌, if◌then◌else◌, replicate, length}
use litesdb.Base.Int.{checked_add, checked_mul}
use litesdb.Base.Bytes.{to_le_bytes}
use litesdb.Base.Cursor.{split_exact}
use litesdb.Limits.{ensure_at_most, section_rows, max_section_rows}
use litesdb.Types.Value.{CellValue, null, u_int_value, sq1_value, f32_value, ValueType}
use litesdb.Codec.Bitmap.{bitmap_len, set_bit}
use Prim.Native.Nat.{max}

pub data FixedKind : Type 0 where
  u_int_kind sq1_kind f32_kind : FixedKind

unfoldable pub kind_of_type : ValueType → FixedKind
kind_of_type ValueType.u_int = u_int_kind
kind_of_type ValueType.sq1 = sq1_kind
kind_of_type ValueType.f32_bits = f32_kind

abbrev pub is_u_int : FixedKind → Bool
is_u_int u_int_kind = true
is_u_int sq1_kind = false
is_u_int f32_kind = false

-- `FixedKind::width`
unfoldable pub kind_width : FixedKind → Option ℕ → Result ℕ
kind_width u_int_kind none = err (corruption "fixed" "invalid UInt width")
kind_width u_int_kind (some width) =
    if width == 1
    then ok width
    else if width == 2
    then ok width
    else if width == 4
    then ok width
    else if width == 8
    then ok width
    else err (corruption "fixed" "invalid UInt width")
kind_width sq1_kind none = ok 1
kind_width f32_kind none = ok 4
kind_width sq1_kind (some _) = err (corruption "fixed" "unexpected width header")
kind_width f32_kind (some _) = err (corruption "fixed" "unexpected width header")

pub record FixedPlan : Type 0 where
  pub kind : FixedKind
  pub width : ℕ
  pub byte_len : ℕ
  pub fact_count : ℕ
  pub null_count : ℕ
  pub value_count : ℕ

pub record FixedMeasurer : Type 0 where
  pub kind : FixedKind
  pub fact_count : ℕ
  pub null_count : ℕ
  pub maximum : ℕ

unfoldable pub new_fixed_measurer : FixedKind → FixedMeasurer
new_fixed_measurer kind = record { kind = kind; fact_count = 0; null_count = 0; maximum = 0 }

abbrev pub add_row : ℕ → Result ℕ
add_row count =
    ok_or (checked_add 32 count 1)
      (resource_exhausted "section_rows" 18_446_744_073_709_551_615 max_section_rows)

-- The null count and the maximum after a fact.
unfoldable pub observe_kind : FixedKind → CellValue → ℕ → ℕ → Result (ℕ × ℕ)
observe_kind kind null nulls maximum = do nulls' ← add_row nulls; ok (nulls', maximum)
observe_kind u_int_kind (u_int_value v) nulls maximum = ok (nulls, max maximum v)
observe_kind sq1_kind (sq1_value c) nulls maximum = ok (nulls, maximum)
observe_kind f32_kind (f32_value b) nulls maximum = ok (nulls, maximum)
observe_kind kind fact nulls maximum =
    err (invalid_argument "facts" "value does not match fixed kind")

unfoldable pub observe_fixed : FixedMeasurer → CellValue → Result FixedMeasurer
unfolding observe_kind
observe_fixed m fact = do
  fact_count ← add_row m.fact_count
  ensure_at_most section_rows fact_count
  (nulls, maximum) ← observe_kind m.kind fact m.null_count m.maximum
  ok (record { kind = m.kind; fact_count = fact_count; null_count = nulls; maximum = maximum })

unfoldable pub minimum_uint_width : ℕ → ℕ
minimum_uint_width maximum =
    if leb maximum 255
    then 1
    else if leb maximum 65_535
    then 2
    else if leb maximum 4_294_967_295
    then 4
    else 8

abbrev pub null_bitmap_len : ℕ → ℕ → Result ℕ
null_bitmap_len fact_count null_count =
    if null_count == 0 then ok 0 else bitmap_len "fixed" fact_count

abbrev pub and_then {ℓ κ} : {A : Type ℓ} {B : Type κ} → Option A → (A → Option B) → Option B
and_then none f = none
and_then (some a) f = f a

abbrev pub header_len : FixedKind → ℕ
header_len kind = if is_u_int kind then 1 else 0

unfoldable pub fixed_len : FixedKind → ℕ → ℕ → ℕ → ℕ → Result ℕ
unfolding bitmap_len
fixed_len kind width fact_count null_count value_count = do
  bitmap ← null_bitmap_len fact_count null_count
  ok_or
      (and_then (checked_mul 32 value_count width) (λ values.
        and_then (checked_add 32 values (header_len kind))
          (λ length. checked_add 32 length bitmap)))
      (corruption "fixed" "stream length overflow")

abbrev pub plan_width : FixedKind → ℕ → ℕ
plan_width u_int_kind maximum = minimum_uint_width maximum
plan_width sq1_kind maximum = 1
plan_width f32_kind maximum = 4

-- `FixedMeasurer::finish`
unfoldable pub finish_fixed : FixedMeasurer → Result FixedPlan
unfolding minimum_uint_width fixed_len
finish_fixed m = do
  fail_if (m.fact_count == 0) (invalid_argument "facts" "fixed stream must not be empty")
  value_count ←
      if leb m.null_count m.fact_count
      then ok (m.fact_count - m.null_count)
      else err (corruption "fixed" "null count exceeds fact count")
  let width = plan_width m.kind m.maximum
  byte_len ← fixed_len m.kind width m.fact_count m.null_count value_count
  ok (record {
    kind = m.kind;
    width = width;
    byte_len = byte_len;
    fact_count = m.fact_count;
    null_count = m.null_count;
    value_count = value_count;
  })

unfoldable pub observe_facts : FixedMeasurer → List CellValue → Result FixedMeasurer
unfolding observe_fixed
observe_facts m [] = ok m
observe_facts m (fact ∷ facts) = do m' ← observe_fixed m fact; observe_facts m' facts

unfoldable pub measure : List CellValue → FixedKind → Result FixedPlan
unfolding observe_facts finish_fixed new_fixed_measurer
measure facts kind = do m ← observe_facts (new_fixed_measurer kind) facts; finish_fixed m

-- The eight bytes of a value, and how many of them are written.
unfoldable pub value_source : FixedKind → ℕ → CellValue → Result (List ℕ × ℕ)
value_source u_int_kind width (u_int_value v) = ok (to_le_bytes 8 v, width)
value_source sq1_kind width (sq1_value c) = ok (c ∷ replicate 7 0, 1)
value_source f32_kind width (f32_value b) = ok (to_le_bytes 4 b ++ replicate 4 0, 4)
value_source kind width fact = err (corruption "fixed" "value kind changed after measure")

-- `output.get_mut(offset..offset + count)`: what stands before, and what stands behind.
unfoldable pub around : ℕ → ℕ → List ℕ → Option (List ℕ × List ℕ)
around offset count output =
    and_then (split_exact offset output)
      (λ (front, back). and_then (split_exact count back) (λ (target, rest). some (front, rest)))

unfoldable pub write_value : CellValue → FixedKind → ℕ → List ℕ × ℕ → Result (List ℕ × ℕ)
unfolding value_source around
write_value fact kind width (output, offset) = do
  (source, count) ← value_source kind width fact
  (front, rest) ←
      ok_or (around offset count output) (corruption "fixed" "value exceeds measured output")
  (part, _) ← ok_or (split_exact count source) (corruption "fixed" "value width exceeds source")
  ok (front ++ (part ++ rest), offset + count)

unfoldable pub write_header : List ℕ × ℕ → ℕ → Result (List ℕ × ℕ)
unfolding around
write_header (output, offset) byte = do
  (front, rest) ←
      ok_or (around offset 1 output) (corruption "fixed" "header exceeds measured output")
  ok (front ++ (byte ∷ rest), offset + 1)

-- The body of the loop over the facts.
unfoldable pub write_fact : FixedKind → ℕ → ℕ → ℕ → CellValue → List ℕ × ℕ → Result (List ℕ × ℕ)
unfolding write_value
write_fact kind width bitmap_start index null (output, offset) = do
  output' ← set_bit (corruption "fixed" "bitmap offset outside output") bitmap_start index output
  ok (output', offset)
write_fact kind width bitmap_start index fact state = write_value fact kind width state

unfoldable pub write_facts :
    FixedKind → ℕ → ℕ → ℕ → List CellValue → List ℕ × ℕ → Result (List ℕ × ℕ)
unfolding write_fact
write_facts kind width bitmap_start index [] state = ok state
write_facts kind width bitmap_start index (fact ∷ facts) state = do
  state' ← write_fact kind width bitmap_start index fact state
  write_facts kind width bitmap_start (index + 1) facts state'

abbrev kind_eq : FixedKind → FixedKind → Bool
kind_eq u_int_kind u_int_kind = true
kind_eq sq1_kind sq1_kind = true
kind_eq f32_kind f32_kind = true
kind_eq _ _ = false

abbrev pub fixed_plan_eq : FixedPlan → FixedPlan → Bool
fixed_plan_eq a b =
    (kind_eq a.kind b.kind && ((a.width == b.width) && (a.byte_len == b.byte_len)))
    && ((a.fact_count == b.fact_count)
        && ((a.null_count == b.null_count) && (a.value_count == b.value_count)))

-- The slice after the loop, filled with zeros at the start.
unfoldable pub encode : List CellValue → FixedPlan → List ℕ → Result (List ℕ)
unfolding write_header write_facts bitmap_len
encode facts plan output = do
  measured ← measure facts plan.kind
  fail_if (not (fixed_plan_eq measured plan)) (corruption "fixed" "encoding plan mismatch")
  fail_if (not (length output == plan.byte_len))
      (invalid_argument "output" "length must equal measured size")
  let zeros = replicate (length output) 0
  (output', bitmap_start) ←
      if is_u_int plan.kind then write_header (zeros, 0) plan.width else ok (zeros, 0)
  bitmap_bytes ← null_bitmap_len plan.fact_count plan.null_count
  (output'', value_offset) ←
      write_facts plan.kind plan.width bitmap_start 0 facts (output', bitmap_start + bitmap_bytes)
  fail_if (not (value_offset == plan.byte_len))
      (corruption "fixed" "encoded byte count differs from plan")
  ok output''
