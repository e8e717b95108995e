-- ===== src/Codec/Bitmap/Marks.antt =====
-- The bitmap of a list of rows: which bits are set, and how many.
use litesdb.Base.{ℕ, zero, suc, ◌+◌, ◌/◌, ◌%◌, ◌^◌, ◌<◌, ◌≤◌, ◌≡◌, ◌≢◌, refl, sym, arith}
use litesdb.Base.{Bool, true, false, ◌||◌, Option, none, some, List, [], ◌∷◌, All, ap}
use litesdb.Base.{length, get_elem?, ok, Error, ◌==◌}
use litesdb.Base.{bit_or, if◌then◌else◌, subst}
use native.Mathlib.Decide.{ℕ_discrete}
use litesdb.Base.{==_iff}
use litesdb.Codec.Bitmap.{or_at, set_bit, test_bit, has, count_ones}
use litesdb.Codec.Bitmap.Byte.{has-bit_or, bit_or_counts}

abbrev pub IsByte : ℕ → Type 0
IsByte b = b < 256

-- The bits that are set.
unfoldable pub total : List ℕ → ℕ
total [] = 0
total (b ∷ bs) = count_ones b + total bs

module _ {ℓ} {A : Type ℓ} (p : A → Bool) where
  abbrev pub satisfies : Option A → Bool
  satisfies none = false
  satisfies (some x) = p x

  -- Whether the row of an index is marked, and how many rows are.
  abbrev pub marked : List A → ℕ → Bool
  marked xs i = satisfies (get_elem? xs i)

  abbrev pub count_marked : List A → ℕ
  count_marked [] = 0
  count_marked (x ∷ xs) = (if p x then 1 else 0) + count_marked xs

  pub marked_beyond : (xs : List A) (i : ℕ) → length xs ≤ i → marked xs i ≡ false
  marked_beyond [] i h = refl
  marked_beyond (x ∷ xs) zero h = absurd (omega arith)
  marked_beyond (x ∷ xs) (suc i) h = marked_beyond xs i (omega arith)

-- The bits of the bytes are those of a test, and there are `count` of them.
pub record Holds (bytes : List ℕ) (f : ℕ → Bool) (count : ℕ) : Type 0 where
  pub are_bytes : All IsByte bytes
  pub bits : (i : ℕ) → i / 8 < length bytes → test_bit bytes i ≡ some (f i)
  pub counted : total bytes ≡ count

-- What `or_at` does inside the bytes.
record Changed (bytes : List ℕ) (place mask : ℕ) : Type 0 where
  old : ℕ
  out : List ℕ
  is_byte : IsByte old
  was : get_elem? bytes place ≡ some old
  becomes : or_at bytes place mask ≡ some out
  same_length : length out ≡ length bytes
  here : get_elem? out place ≡ some (bit_or old mask)
  elsewhere : (i : ℕ) → i ≢ place → get_elem? out i ≡ get_elem? bytes i
  are_bytes : IsByte (bit_or old mask) → All IsByte out
  counted : total out + count_ones old ≡ total bytes + count_ones (bit_or old mask)

other_than_first :
    (b b' : ℕ) (bs : List ℕ) (i : ℕ) → i ≢ zero → get_elem? (b' ∷ bs) i ≡ get_elem? (b ∷ bs) i
other_than_first b b' bs zero ne = absurd (ne refl)
other_than_first b b' bs (suc i) ne = refl

other_than_later :
    (b : ℕ) (bs out : List ℕ) (place : ℕ)
    → ((i : ℕ) → i ≢ place → get_elem? out i ≡ get_elem? bs i)
    → (i : ℕ) → i ≢ suc place
    → get_elem? (b ∷ out) i ≡ get_elem? (b ∷ bs) i
other_than_later b bs out place h zero ne = refl
other_than_later b bs out place h (suc i) ne = h i (λ e. ne (ap suc e))

or_at_lem :
    (bytes : List ℕ) (place mask : ℕ)
    → All IsByte bytes
    → place < length bytes
    → Changed bytes place mask
unfolding or_at total
or_at_lem [] place mask h lt = absurd (omega arith)
or_at_lem (b ∷ bs) zero mask (hb, hbs) lt = record {
  old = b;
  out = bit_or b mask ∷ bs;
  is_byte = hb;
  was = refl;
  becomes = refl;
  same_length = refl;
  here = refl;
  elsewhere = other_than_first b (bit_or b mask) bs;
  are_bytes = λ h. (h, hbs);
  counted = omega arith;
}
or_at_lem (b ∷ bs) (suc place) mask (hb, hbs) lt =
    let c = or_at_lem bs place mask hbs (omega arith) in
    record {
      old = c.old;
      out = b ∷ c.out;
      is_byte = c.is_byte;
      was = c.was;
      becomes = rw (c.becomes, or_at) refl;
      same_length = ap suc c.same_length;
      here = c.here;
      elsewhere = other_than_later b bs c.out place c.elsewhere;
      are_bytes = λ h. (hb, c.are_bytes h);
      counted = omega (arith, c.counted);
    }

bit_was :
    (old index : ℕ) (b : Bool)
    → some (has old (index % 8)) ≡ some b
    → b ≡ false
    → has old (index % 8) ≡ false
bit_was old index b h clear = cc

same_index : (i index : ℕ) → i / 8 ≡ index / 8 → index % 8 ≡ i % 8 → index ≡ i
same_index i index p q = omega arith

or_test :
    (s t : ℕ) (b c d : Bool) → b ≡ c → (s ≡ t → d ≡ true) → (s ≢ t → d ≡ c) → ((s == t) || b) ≡ d
or_test s t b c d same yes_case no_case = elim (ℕ_discrete s t) [
  | yes e ↦ rw ((==_iff s t).1 e) (sym (yes_case e))
  | no ne ↦ ground (arith, no_case ne)
]

bits_after :
    (bytes : List ℕ) (f g : ℕ → Bool) (index : ℕ)
    → ((i : ℕ) → i / 8 < length bytes → test_bit bytes i ≡ some (f i))
    → (c : Changed bytes (index / 8) (2 ^ (index % 8))) → g index ≡ true
    → ((i : ℕ) → i ≢ index → g i ≡ f i)
    → (i : ℕ) → i / 8 < length bytes
    → test_bit c.out i ≡ some (g i)
unfolding test_bit
bits_after bytes f g index before c now others i room = elim (ℕ_discrete (i / 8) (index / 8)) [
  | yes same ↦
      let old_bit : some (has c.old (i % 8)) ≡ some (f i) = rw (same, c.was) at (before i room) in
      rw (same, c.here, has-bit_or c.old (index % 8) (i % 8) c.is_byte (omega arith) (omega arith))
        (ap (λ b. some b)
          (or_test (index % 8) (i % 8) (has c.old (i % 8)) (f i) (g i) (cc)
            (λ e. subst (λ j. g j ≡ true) (same_index i index same e) now)
            (λ ne. others i (λ e. ne (ap (λ (j : ℕ). j % 8) (sym e))))))
  | no other ↦
      rw (c.elsewhere (i / 8) other, before i room, others i (λ e. other (ap (λ (j : ℕ). j / 8) e)))
        refl
]

-- Setting a bit that is clear.
pub Holds-set_bit :
    (e : Error) (bytes : List ℕ) (f g : ℕ → Bool) (count index : ℕ)
    → Holds bytes f count
    → index / 8 < length bytes
    → f index ≡ false
    → g index ≡ true
    → ((i : ℕ) → i ≢ index → g i ≡ f i)
    → (out : List ℕ) × (set_bit e 0 index bytes ≡ ok out)
      × (length out ≡ length bytes)
      × Holds out g (count + 1)
unfolding set_bit test_bit
Holds-set_bit e bytes f g count index is lt clear now others =
    let c = or_at_lem bytes (index / 8) (2 ^ (index % 8)) is.are_bytes lt in
    let was_clear : has c.old (index % 8) ≡ false =
      bit_was c.old index (f index) (rw (c.was) at (is.bits index lt)) clear in
    let (small, more) = bit_or_counts c.old (index % 8) c.is_byte (omega arith) in
    let start : 0 + index / 8 ≡ index / 8 = omega arith in
    (
      c.out,
      rw (start, c.becomes) refl,
      c.same_length,
      record {
        are_bytes = c.are_bytes small;
        bits = λ i room.
            bits_after bytes f g index is.bits c now others i (omega (arith, c.same_length));
        counted = omega (arith, c.counted, more was_clear, is.counted);
      },
    )
