-- ===== src/Codec/Bitmap/Byte.antt =====
-- The bits of one byte, checked at every byte.
use litesdb.Base.{
  ℕ, zero, suc, ◌+◌, ◌-◌, ◌*◌, ◌/◌, ◌%◌, ◌^◌, ◌<◌, ◌≤◌, ◌≡◌, refl, arith, Bool, true, false, not,
}
use litesdb.Base.{◌&&◌, ◌||◌, ◌==◌, ltb, bit_and, bit_or}
use litesdb.Base.{==_iff, ltb→lt}
use Prim.Native.Nat.{bit_and-bitwise}
use litesdb.Codec.Bitmap.{has, count_ones}

all_below : ℕ → (ℕ → Bool) → Bool
all_below zero p = true
all_below (suc n) p = p n && all_below n p

all_below_sound : (n : ℕ) (p : ℕ → Bool) (i : ℕ) → all_below n p ≡ true → i < n → p i ≡ true
unfolding all_below
all_below_sound zero p i e h = absurd (omega arith)
all_below_sound (suc n) p i e h = ground (arith, all_below_sound n p i)

abbrev eqb : Bool → Bool → Bool
eqb true b = b
eqb false b = not b

eqb_sound : (a b : Bool) → eqb a b ≡ true → a ≡ b
eqb_sound true true h = refl
eqb_sound true false h = cc
eqb_sound false true h = cc
eqb_sound false false h = refl

-- Setting a bit, at bit `i % 8` of the byte `i / 64` where `i / 8 % 8` is set.
abbrev sets_well : ℕ → Bool
sets_well i =
    eqb (has (bit_or (i / 64) (2 ^ (i / 8 % 8))) (i % 8))
      ((i / 8 % 8 == i % 8) || has (i / 64) (i % 8))

sets_table : all_below 16384 sets_well ≡ true
unfolding all_below has
sets_table = refl

-- The other laws, at bit `i % 8` of the byte `i / 8`: setting it keeps a byte, and counts if it
-- was not set.
abbrev counts_well : ℕ → Bool
counts_well i =
    ltb (bit_or (i / 8) (2 ^ (i % 8))) 256
    && (has (i / 8) (i % 8)
        || (count_ones (bit_or (i / 8) (2 ^ (i % 8))) == (count_ones (i / 8) + 1)))

counts_table : all_below 2048 counts_well ≡ true
unfolding all_below has count_ones
counts_table = refl

-- Whether the bits from `tail` on are clear.
abbrev clear_from : ℕ → ℕ → ℕ → Bool
clear_from zero tail b = true
clear_from (suc n) tail b = (ltb n tail || not (has b n)) && clear_from n tail b

abbrev pads_well : ℕ → Bool
pads_well i = not (clear_from 8 (i % 8) (i / 8)) || (bit_and (i / 8) (255 - (2 ^ (i % 8) - 1)) == 0)

pads_table : all_below 2048 pads_well ≡ true
unfolding all_below has
pads_table = refl

-- The place of a pair and a triple in a table.
place_2 : (b s : ℕ) → s < 8 → ((b * 8 + s) / 8 ≡ b) × ((b * 8 + s) % 8 ≡ s)
place_2 b s h = omega arith

place_3 :
    (b s t : ℕ)
    → s < 8
    → t < 8
    → ((b * 64 + s * 8 + t) / 64 ≡ b)
      × ((b * 64 + s * 8 + t) / 8 % 8 ≡ s)
      × ((b * 64 + s * 8 + t) % 8 ≡ t)
place_3 b s t h k = omega arith

pub has-bit_or :
    (b s t : ℕ) → b < 256 → s < 8 → t < 8 → has (bit_or b (2 ^ s)) t ≡ ((s == t) || has b t)
has-bit_or b s t hb hs ht =
    let (p, q, r) = place_3 b s t hs ht in
    eqb_sound _ _ (
      rw (p, q, r) at
        (all_below_sound 16384 sets_well (b * 64 + s * 8 + t) sets_table (omega arith)))

and_true : (a b : Bool) → (a && b) ≡ true → (a ≡ true) × (b ≡ true)
and_true true b h = (refl, h)
and_true false b h = cc

pub bit_or_counts :
    (b s : ℕ)
    → b < 256
    → s < 8
    → (bit_or b (2 ^ s) < 256)
      × (has b s ≡ false → count_ones (bit_or b (2 ^ s)) ≡ count_ones b + 1)
bit_or_counts b s hb hs =
    let (p, q) = place_2 b s hs in
    let entry : counts_well (b * 8 + s) ≡ true =
      all_below_sound 2048 counts_well (b * 8 + s) counts_table (omega arith) in
    let (small, counted) = and_true _ _ (rw (p, q) at entry) in
    (ltb→lt _ _ small, λ clear. (==_iff _ _).0 (rw (clear) at counted))

clear_from-of :
    (n tail b : ℕ) → ((j : ℕ) → j < n → tail ≤ j → has b j ≡ false) → clear_from n tail b ≡ true
clear_from-of zero tail b h = refl
clear_from-of (suc n) tail b h =
    ground (arith, h n, clear_from-of n tail b (λ j lt. h j (omega arith)))

-- A byte without bits from `tail` on has no padding.
pub no_padding :
    (tail b : ℕ)
    → tail < 8
    → b < 256
    → ((j : ℕ) → j < 8 → tail ≤ j → has b j ≡ false)
    → bit_and b (255 - (2 ^ tail - 1)) ≡ 0
no_padding tail b ht hb h =
    let (p, q) = place_2 b tail ht in
    let entry : pads_well (b * 8 + tail) ≡ true =
      all_below_sound 2048 pads_well (b * 8 + tail) pads_table (omega arith) in
    (==_iff _ _).0 (rw (clear_from-of 8 tail b h) at (rw (p, q) at entry))

pub has-zero : (s : ℕ) → has 0 s ≡ false
unfolding has
has-zero s = let clear : bit_and 0 (2 ^ s) ≡ 0 = bit_and-bitwise 0 (2 ^ s) in rw (clear) refl

pub count_ones-zero : count_ones 0 ≡ 0
unfolding count_ones
count_ones-zero = refl

pub count_ones-le : (b : ℕ) → count_ones b ≤ 8
unfolding count_ones
count_ones-le b = omega arith
