-- ===== src/Codec/Bitmap.antt =====
-- The bitmaps of core/src/codec/presence.rs and of the fixed columns (fixed.rs and fixed_decode.rs):
-- one bit for each row, from the lowest bit of the first byte on. The two differ in the texts of
-- their errors.
pub mod Byte
pub mod Marks
pub mod Rows
pub mod Inside
pub mod Check
use litesdb.Base.{
  ℕ, zero, suc, ◌+◌, ◌-◌, ◌/◌, ◌%◌, ◌^◌, Bool, not, Option, none, some, List, [], ◌∷◌,
}
use litesdb.Base.{Result, ok, err, ◌>>=◌, ◌>>◌, fail_if, ok_or, Error, corruption, String, length}
use litesdb.Base.{get_elem?, last?, ◌==◌, if◌then◌else◌, bit_and, bit_or}
use litesdb.Base.Int.{checked_add}

unfoldable pub bitmap_len : String → ℕ → Result ℕ
bitmap_len context n = do
  v ← ok_or (checked_add 32 n 7) (corruption context "bitmap length overflow")
  ok (v / 8)

-- `*output.get_mut(place)? |= mask`
unfoldable pub or_at : List ℕ → ℕ → ℕ → Option (List ℕ)
or_at [] place mask = none
or_at (b ∷ bs) zero mask = some (bit_or b mask ∷ bs)
or_at (b ∷ bs) (suc place) mask = elim (or_at bs place mask) [
  | none ↦ none
  | some out ↦ some (b ∷ out)
]

unfoldable pub set_bit : Error → ℕ → ℕ → List ℕ → Result (List ℕ)
unfolding or_at
set_bit e start index bytes = ok_or (or_at bytes (start + index / 8) (2 ^ (index % 8))) e

-- `value & (1 << shift) != 0`
unfoldable pub has : ℕ → ℕ → Bool
has value shift = not (bit_and value (2 ^ shift) == 0)

abbrev pub has_some : Option ℕ → ℕ → Option Bool
has_some none shift = none
has_some (some value) shift = some (has value shift)

unfoldable pub test_bit : List ℕ → ℕ → Option Bool
test_bit bytes index = has_some (get_elem? bytes (index / 8)) (index % 8)

-- `for (index, item) in items.iter().enumerate() { if p(item) { set the bit of index } }`
unfoldable pub mark_rows {ℓ} :
    {A : Type ℓ} → Error → (A → Bool) → ℕ → List A → List ℕ → Result (List ℕ)
unfolding set_bit
mark_rows e p index [] bytes = ok bytes
mark_rows e p index (x ∷ xs) bytes = do
  bytes' ← if p x then set_bit e 0 index bytes else ok bytes
  mark_rows e p (index + 1) xs bytes'

-- `u8::count_ones`
ones : ℕ → ℕ → ℕ
ones zero b = 0
ones (suc n) b = b % 2 + ones n (b / 2)

unfoldable pub count_ones : ℕ → ℕ
unfolding ones
count_ones b = ones 8 b

pub record BitmapTexts : Type 0 where
  pub context : String
  pub wrong_length : String
  pub empty : String
  pub padding : String
  pub overflow : String
  pub wrong_count : String

unfoldable pub count_bits : Error → ℕ → List ℕ → Result ℕ
unfolding count_ones
count_bits e total [] = ok total
count_bits e total (b ∷ bs) = do
  total' ← ok_or (checked_add 32 total (count_ones b)) e
  count_bits e total' bs

-- The bits of the last byte behind the rows: `last & !valid_mask`.
unfoldable pub validate_padding : BitmapTexts → ℕ → List ℕ → Result (Unit {0})
validate_padding texts tail bytes =
    if tail == 0
    then ok tt
    else (ok_or (last? bytes) (corruption texts.context texts.empty) >>= λ last.
        fail_if (not (bit_and last (255 - (2 ^ tail - 1)) == 0))
          (corruption texts.context texts.padding))

unfoldable pub validate_bits : BitmapTexts → ℕ → ℕ → List ℕ → Result (Unit {0})
unfolding bitmap_len count_bits validate_padding
validate_bits texts rows expected bytes = do
  expected_len ← bitmap_len texts.context rows
  fail_if (not (length bytes == expected_len)) (corruption texts.context texts.wrong_length)
  validate_padding texts (rows % 8) bytes
  actual ← count_bits (corruption texts.context texts.overflow) 0 bytes
  fail_if (not (actual == expected)) (corruption texts.context texts.wrong_count)
