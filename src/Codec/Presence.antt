-- ===== src/Codec/Presence.antt =====
-- core/src/codec/presence.rs: which rows of a section have a fact of a column.
pub mod RoundTrip
use litesdb.Base.{ℕ, zero, suc, ◌+◌, ◌/◌, ◌%◌, Bool, true, false, not, ◌&&◌, Option, none, some}
use litesdb.Base.{List, [], ◌∷◌, Result, ok, err, ◌>>=◌, ◌>>◌, fail_if, ok_or, corruption, length}
use litesdb.Base.{invalid_argument, resource_exhausted, ltb, leb, ◌==◌, if◌then◌else◌, replicate}
use litesdb.Base.Int.{try_from, checked_add}
use litesdb.Limits.{ensure_at_most, section_rows, max_section_rows}
use litesdb.Codec.Bitmap.{bitmap_len, mark_rows, test_bit, BitmapTexts, validate_bits}

pub data FactShape : Type 0 where
  absent null value : FactShape

unfoldable pub is_fact : FactShape → Bool
is_fact absent = false
is_fact null = true
is_fact value = true

pub data PresenceEncoding : Type 0 where
  all_fact bitmap : PresenceEncoding

unfoldable pub presence_tag : PresenceEncoding → ℕ
presence_tag all_fact = 0
presence_tag bitmap = 1

unfoldable pub presence_from_tag : ℕ → Result PresenceEncoding
presence_from_tag zero = ok all_fact
presence_from_tag (suc zero) = ok bitmap
presence_from_tag _ = err (corruption "presence" "unknown encoding tag")

pub record PresencePlan : Type 0 where
  pub encoding : PresenceEncoding
  pub byte_len : ℕ
  pub fact_count : ℕ

pub record DecodedPresence : Type 0 where
  pub row_count : ℕ
  pub encoding : PresenceEncoding
  pub bytes : List ℕ

abbrev test_row : PresenceEncoding → List ℕ → ℕ → Option Bool
test_row all_fact bytes row = some true
test_row bitmap bytes row = test_bit bytes row

-- `DecodedPresence::is_fact`
unfoldable pub is_fact_at : DecodedPresence → ℕ → Option Bool
unfolding test_bit
is_fact_at presence row =
    if leb presence.row_count row then none else test_row presence.encoding presence.bytes row

-- `for shape in shapes { if shape.is_fact() { fact_count = ... } }`
unfoldable pub count_facts : ℕ → List FactShape → Result ℕ
unfolding is_fact
count_facts count [] = ok count
count_facts count (s ∷ ss) = do
  count' ←
      if is_fact s
      then ok_or (checked_add 32 count 1)
          (resource_exhausted "section_rows" 18_446_744_073_709_551_615 max_section_rows)
      else ok count
  count_facts count' ss

abbrev pub presence_len : PresenceEncoding → ℕ → Result ℕ
presence_len all_fact row_count = ok 0
presence_len bitmap row_count = bitmap_len "presence" row_count

abbrev pub presence_encoding : ℕ → ℕ → PresenceEncoding
presence_encoding fact_count row_count = if fact_count == row_count then all_fact else bitmap

unfoldable pub measure : List FactShape → Result PresencePlan
unfolding count_facts bitmap_len
measure shapes = do
  fail_if (length shapes == 0) (invalid_argument "rows" "section must not be empty")
  row_count ←
      ok_or (try_from 32 (length shapes))
        (resource_exhausted "section_rows" 18_446_744_073_709_551_615 max_section_rows)
  ensure_at_most section_rows row_count
  fact_count ← count_facts 0 shapes
  let encoding = presence_encoding fact_count row_count
  byte_len ← presence_len encoding row_count
  ok (record { encoding = encoding; byte_len = byte_len; fact_count = fact_count })

unfoldable pub presence_plan_eq : PresencePlan → PresencePlan → Bool
unfolding presence_tag
presence_plan_eq a b =
    (presence_tag a.encoding == presence_tag b.encoding)
    && ((a.byte_len == b.byte_len) && (a.fact_count == b.fact_count))

abbrev pub fill_rows : PresenceEncoding → List FactShape → List ℕ → Result (List ℕ)
fill_rows all_fact shapes output = ok output
fill_rows bitmap shapes output =
    mark_rows (corruption "presence" "bitmap offset out of bounds") is_fact 0 shapes output

-- The slice that is written, filled with zeros first.
unfoldable pub encode : List FactShape → PresencePlan → List ℕ → Result (List ℕ)
unfolding presence_plan_eq is_fact mark_rows
encode shapes plan output = do
  measured ← measure shapes
  fail_if (not (presence_plan_eq measured plan)) (corruption "presence" "encoding plan mismatch")
  fail_if (not (length output == plan.byte_len))
      (invalid_argument "output" "length must equal measured size")
  fill_rows plan.encoding shapes (replicate (length output) 0)

abbrev pub presence_texts : BitmapTexts
presence_texts = record {
  context = "presence";
  wrong_length = "bitmap length mismatch";
  empty = "bitmap is empty";
  padding = "tail padding bits must be zero";
  overflow = "bitmap popcount overflow";
  wrong_count = "bitmap fact count mismatch";
}

unfoldable pub validate_bitmap : ℕ → ℕ → List ℕ → Result (Unit {0})
unfolding validate_bits
validate_bitmap row_count expected_fact_count bytes =
    validate_bits presence_texts row_count expected_fact_count bytes

abbrev pub validate_as : PresenceEncoding → ℕ → ℕ → List ℕ → Result (Unit {0})
validate_as all_fact row_count expected_fact_count bytes = do
  fail_if (not (length bytes == 0)) (corruption "presence" "AllFact payload must be empty")
  fail_if (not (expected_fact_count == row_count))
      (corruption "presence" "AllFact count must equal row count")
validate_as bitmap row_count expected_fact_count bytes =
    validate_bitmap row_count expected_fact_count bytes

unfoldable pub decode : ℕ → ℕ → ℕ → List ℕ → Result DecodedPresence
unfolding presence_from_tag validate_bitmap
decode tag row_count expected_fact_count bytes = do
  fail_if (row_count == 0) (corruption "presence" "row count must be positive")
  ensure_at_most section_rows row_count
  fail_if (ltb row_count expected_fact_count) (corruption "presence" "fact count exceeds row count")
  encoding ← presence_from_tag tag
  validate_as encoding row_count expected_fact_count bytes
  ok (record { row_count = row_count; encoding = encoding; bytes = bytes })
