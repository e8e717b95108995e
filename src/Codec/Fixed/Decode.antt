-- ===== src/Codec/Fixed/Decode.antt =====
-- core/src/codec/fixed_decode.rs.
use litesdb.Base.{ℕ, zero, suc, ◌+◌, ◌-◌, Bool, false, not, ◌&&◌, none, some}
use litesdb.Base.{List, [], ◌∷◌, Result, ok, err, ◌>>=◌, ◌>>◌, fail_if, ok_or, corruption}
use litesdb.Base.{ltb, ◌==◌, if◌then◌else◌, length, get_elem?}
use litesdb.Base.Bytes.{from_le_bytes}
use litesdb.Base.Cursor.{slice}
use litesdb.Limits.{ensure_at_most, section_rows}
use litesdb.Types.Value.{CellValue, null, u_int_value, sq1_value, f32_value, new_sq1}
use litesdb.Codec.Bitmap.{bitmap_len, test_bit, BitmapTexts, validate_bits}
use litesdb.Codec.Fixed.{FixedKind, u_int_kind, sq1_kind, f32_kind, is_u_int, kind_width, fixed_len}
use litesdb.Codec.Fixed.{minimum_uint_width, null_bitmap_len, header_len}
use Prim.Native.Nat.{max}

abbrev pub fixed_texts : BitmapTexts
fixed_texts = record {
  context = "fixed";
  wrong_length = "null bitmap length mismatch";
  empty = "null bitmap is empty";
  padding = "null bitmap padding is nonzero";
  overflow = "null popcount overflow";
  wrong_count = "null bitmap count mismatch";
}

unfoldable pub validate_null_bitmap : List ℕ → ℕ → ℕ → Result (Unit {0})
unfolding validate_bits
validate_null_bitmap bitmap fact_count null_count =
    validate_bits fixed_texts fact_count null_count bitmap

unfoldable pub bitmap_bit : List ℕ → ℕ → Result Bool
unfolding test_bit
bitmap_bit bitmap index =
    ok_or (test_bit bitmap index) (corruption "fixed" "bitmap lookup out of bounds")

-- The value of the bytes of a width. The eight raw bytes of an unsigned value are these bytes and
-- zeros, which leave the number as it is.
unfoldable pub value_of : FixedKind → ℕ → List ℕ → Result CellValue
unfolding new_sq1
value_of u_int_kind width source =
    if ltb 8 width
    then err (corruption "fixed" "UInt width exceeds eight")
    else ok (u_int_value (from_le_bytes source))
value_of sq1_kind width source = do
  code ← ok_or (get_elem? source 0) (corruption "fixed" "truncated SQ1 value")
  c ← ok_or (new_sq1 code) (corruption "fixed" "SQ1 value stream contains code 255")
  ok (sq1_value c)
value_of f32_kind width source =
    if length source == 4
    then ok (f32_value (from_le_bytes source))
    else err (corruption "fixed" "F32 value width is not four")

-- The value at an offset, and the offset behind it.
unfoldable pub read_value : FixedKind → ℕ → List ℕ → ℕ → Result (CellValue × ℕ)
unfolding value_of
read_value kind width bytes offset = do
  source ← ok_or (slice offset width bytes) (corruption "fixed" "truncated fixed value")
  value ← value_of kind width source
  ok (value, offset + width)

abbrev pub raise : CellValue → ℕ → ℕ
raise (u_int_value v) maximum = max maximum v
raise null maximum = maximum
raise (sq1_value c) maximum = maximum
raise (f32_value b) maximum = maximum

unfoldable pub read_fact :
    FixedKind → ℕ → Bool → List ℕ → List ℕ → ℕ → ℕ × ℕ → Result (CellValue × ℕ × ℕ)
unfolding read_value bitmap_bit
read_fact kind width has_nulls bitmap bytes index (offset, maximum) = do
  is_null ← if has_nulls then bitmap_bit bitmap index else ok false
  if is_null
      then ok (null, offset, maximum)
      else (read_value kind width bytes offset >>= λ (value, offset').
          ok (value, offset', raise value maximum))

-- `for index in 0..capacity`, with the rounds that are left.
unfoldable pub read_facts :
    FixedKind → ℕ → Bool → List ℕ → List ℕ → ℕ → ℕ → ℕ × ℕ → Result (List CellValue × ℕ × ℕ)
unfolding read_fact
read_facts kind width has_nulls bitmap bytes zero index (offset, maximum) = ok ([], offset, maximum)
read_facts kind width has_nulls bitmap bytes (suc rounds) index state = do
  (fact, offset, maximum) ← read_fact kind width has_nulls bitmap bytes index state
  (facts, end, highest) ←
      read_facts kind width has_nulls bitmap bytes rounds (index + 1) (offset, maximum)
  ok (fact ∷ facts, end, highest)

-- The width of the values.
unfoldable pub read_width : FixedKind → List ℕ → Result ℕ
unfolding kind_width
read_width u_int_kind bytes = do
  width ← ok_or (get_elem? bytes 0) (corruption "fixed" "missing UInt width")
  kind_width u_int_kind (some width)
read_width sq1_kind bytes = kind_width sq1_kind none
read_width f32_kind bytes = kind_width f32_kind none

-- The checks before the facts: the width, and the bitmap.
unfoldable pub read_bitmap : FixedKind → List ℕ → ℕ → ℕ → Result (ℕ × List ℕ)
unfolding read_width fixed_len bitmap_len validate_null_bitmap
read_bitmap kind bytes fact_count null_count = do
  fail_if (fact_count == 0) (corruption "fixed" "fact count must be positive")
  ensure_at_most section_rows fact_count
  fail_if (ltb fact_count null_count) (corruption "fixed" "null count exceeds fact count")
  width ← read_width kind bytes
  expected ← fixed_len kind width fact_count null_count (fact_count - null_count)
  fail_if (not (length bytes == expected)) (corruption "fixed" "value stream length mismatch")
  bitmap_bytes ← null_bitmap_len fact_count null_count
  bitmap ←
      ok_or (slice (header_len kind) bitmap_bytes bytes)
        (corruption "fixed" "bitmap outside value stream")
  if null_count == 0 then ok tt else validate_null_bitmap bitmap fact_count null_count
  ok (width, bitmap)

unfoldable pub decode : FixedKind → List ℕ → ℕ → ℕ → Result (List CellValue)
unfolding read_bitmap read_facts minimum_uint_width
decode kind bytes fact_count null_count = do
  (width, bitmap) ← read_bitmap kind bytes fact_count null_count
  (facts, value_offset, maximum) ←
      read_facts kind width (not (null_count == 0)) bitmap bytes fact_count 0
        (header_len kind + length bitmap, 0)
  fail_if (not (value_offset == length bytes)) (corruption "fixed" "unused value bytes")
  fail_if (is_u_int kind && not (width == minimum_uint_width maximum))
      (corruption "fixed" "UInt width is not minimal")
  ok facts
