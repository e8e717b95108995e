-- ===== src/Codec/Bitmap/Check.antt =====
-- The bitmap of a list of rows passes the check of its length, its padding and its count.
use litesdb.Base.{ℕ, suc, ◌+◌, ◌-◌, ◌*◌, ◌/◌, ◌%◌, ◌^◌, ◌<◌, ◌≤◌, ◌≡◌, refl, arith, Bool, false}
use litesdb.Base.{some, List, [], ◌∷◌, All, ap, ◌∙◌, length, get_elem?, last?, ok}
use litesdb.Base.{Error, String, ◌==◌, Bool-cases, inl, inr, corruption}
use litesdb.Base.Int.{checked_add}
use litesdb.Codec.Bitmap.{BitmapTexts, bitmap_len, count_bits, validate_padding, validate_bits}
use litesdb.Codec.Bitmap.{test_bit, has, count_ones}
use litesdb.Codec.Bitmap.Byte.{no_padding, count_ones-le}
use litesdb.Codec.Bitmap.Marks.{IsByte, Holds, total}

pub bitmap_len-ok :
    (context : String) (n : ℕ) → n ≤ 65_536 → bitmap_len context n ≡ ok ((n + 7) / 8)
unfolding bitmap_len checked_add
bitmap_len-ok context n h = ground arith

total-le : (bytes : List ℕ) → total bytes ≤ 8 * length bytes
unfolding total
total-le [] = omega arith
total-le (b ∷ bs) = omega (arith, count_ones-le b, total-le bs)

checked_add_ok : (a b : ℕ) → a + b < 2 ^ 32 → checked_add 32 a b ≡ some (a + b)
unfolding checked_add
checked_add_ok a b h = ground arith

count_bits-total :
    (e : Error) (start : ℕ) (bytes : List ℕ)
    → start + 8 * length bytes < 1_000_000
    → count_bits e start bytes ≡ ok (start + total bytes)
unfolding count_bits total
count_bits-total e start [] h = ap (λ t. ok t) (omega arith)
count_bits-total e start (b ∷ bs) h =
    rw (checked_add_ok start (count_ones b) (omega (arith, count_ones-le b))) (
      count_bits-total e (start + count_ones b) bs (omega (arith, count_ones-le b))
      ∙ ap (λ t. ok t) (omega arith))

last?-get :
    (bytes : List ℕ)
    → 0 < length bytes
    → All IsByte bytes
    → (b : ℕ) × (last? bytes ≡ some b) × (get_elem? bytes (length bytes - 1) ≡ some b) × IsByte b
last?-get [] h all = absurd (omega arith)
last?-get (b ∷ []) h (hb, _) = (b, refl, refl, hb)
last?-get (b ∷ (c ∷ bs)) h (hb, all) =
    let (x, e, f, hx) = last?-get (c ∷ bs) (omega arith) all in
    let place : suc (suc (length bs)) - 1 ≡ suc (suc (length bs) - 1) = omega arith in
    (x, e, rw (place) f, hx)

clear_bit :
    (bytes : List ℕ) (f : ℕ → Bool)
    → ((i : ℕ) → i / 8 < length bytes → test_bit bytes i ≡ some (f i))
    → (place b j : ℕ) → get_elem? bytes place ≡ some b
    → j < 8
    → place < length bytes
    → f (place * 8 + j) ≡ false
    → has b j ≡ false
unfolding test_bit
clear_bit bytes f bits place b j found lt room clear =
    let here : (place * 8 + j) / 8 ≡ place = omega arith in
    let bit : (place * 8 + j) % 8 ≡ j = omega arith in
    let read = rw (here, bit, found) at (bits (place * 8 + j) (omega arith)) in cc

-- The bits of the last byte behind the rows are those of rows that are not there.
validate_padding-ok :
    (texts : BitmapTexts) (rows : ℕ) (bytes : List ℕ) (f : ℕ → Bool) (count : ℕ)
    → Holds bytes f count
    → ((i : ℕ) → rows ≤ i → f i ≡ false)
    → length bytes ≡ (rows + 7) / 8
    → validate_padding texts (rows % 8) bytes ≡ ok tt
unfolding validate_padding test_bit
validate_padding-ok texts rows bytes f count is beyond size = elim (Bool-cases (rows % 8 == 0)) [
  | inl full ↦ rw (full) refl
  | inr part ↦
      let some_rows : 0 < rows % 8 = ground arith in
      let (b, end, place, hb) = last?-get bytes (omega arith) is.are_bytes in
      let clear = no_padding (rows % 8) b (omega arith) hb (λ j lt behind.
        clear_bit bytes f is.bits (length bytes - 1) b j place lt (omega arith)
          (beyond _ (omega arith))) in
      rw (part, end, clear) refl
]

-- A bitmap with the rows that it was made from and as many marks as are counted is accepted.
pub validate_bits-Holds :
    (texts : BitmapTexts) (rows : ℕ) (bytes : List ℕ) (f : ℕ → Bool) (count : ℕ)
    → rows ≤ 65_536
    → Holds bytes f count
    → ((i : ℕ) → rows ≤ i → f i ≡ false)
    → length bytes ≡ (rows + 7) / 8
    → validate_bits texts rows count bytes ≡ ok tt
unfolding validate_bits
validate_bits-Holds texts rows bytes f count small is beyond size =
    rw
      (
        bitmap_len-ok texts.context rows small,
        validate_padding-ok texts rows bytes f count is beyond size,
        count_bits-total (corruption texts.context texts.overflow) 0 bytes (omega arith),
      )
      (ground (arith, is.counted))
