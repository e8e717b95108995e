-- ===== src/Codec/Bitmap/Rows.antt =====
-- Marking the rows of a list, one after another, in the loops of core/src/codec/presence.rs and
-- fixed.rs.
use litesdb.Base.{ℕ, zero, suc, ◌+◌, ◌*◌, ◌/◌, ◌%◌, ◌<◌, ◌≤◌, ◌≡◌, ◌≢◌, refl, arith}
use litesdb.Base.{Bool, false, none, some, List, [], ◌∷◌, ◌++◌, All, ap, ◌∙◌}
use litesdb.Base.{length, get_elem?, append_assoc, length-append, ok, Error}
use litesdb.Base.{if◌then◌else◌, Bool-cases, inl, inr, replicate, length-replicate}
use litesdb.Base.{append-nil}
use litesdb.Codec.Bitmap.{set_bit, test_bit, mark_rows}
use litesdb.Codec.Bitmap.Byte.{has-zero, count_ones-zero}
use litesdb.Codec.Bitmap.Marks.{IsByte, total, marked, count_marked, Holds, Holds-set_bit}

module _ {ℓ} {A : Type ℓ} (e : Error) (p : A → Bool) where
  at_end : (xs : List A) (x : A) → get_elem? (xs ++ (x ∷ [])) (length xs) ≡ some x
  at_end [] x = refl
  at_end (y ∷ xs) x = at_end xs x

  not_at_end :
      (xs : List A) (x : A) (i : ℕ) → i ≢ length xs → get_elem? (xs ++ (x ∷ [])) i ≡ get_elem? xs i
  not_at_end [] x zero ne = absurd (ne refl)
  not_at_end [] x (suc i) ne = refl
  not_at_end (y ∷ xs) x zero ne = refl
  not_at_end (y ∷ xs) x (suc i) ne = not_at_end xs x i (λ e. ne (ap suc e))

  beyond : (xs : List A) → get_elem? xs (length xs) ≡ none
  beyond [] = refl
  beyond (x ∷ xs) = beyond xs

  count_marked-append :
      (xs : List A) (x : A)
      → count_marked p (xs ++ (x ∷ [])) ≡ count_marked p xs + (if p x then 1 else 0)
  count_marked-append [] x = omega arith
  count_marked-append (y ∷ xs) x = omega (arith, count_marked-append xs x)

  marked_clear :
      (xs : List A) (x : A) (i : ℕ) → p x ≡ false → marked p (xs ++ (x ∷ [])) i ≡ marked p xs i
  marked_clear [] x zero h = h
  marked_clear [] x (suc i) h = refl
  marked_clear (y ∷ xs) x zero h = refl
  marked_clear (y ∷ xs) x (suc i) h = marked_clear xs x i h

  pub Holds-unmarked :
      (done : List A) (x : A) (bytes : List ℕ)
      → Holds bytes (marked p done) (count_marked p done)
      → p x ≡ false
      → Holds bytes (marked p (done ++ (x ∷ []))) (count_marked p (done ++ (x ∷ [])))
  Holds-unmarked done x bytes is clear = record {
    are_bytes = is.are_bytes;
    bits = λ i lt. rw (marked_clear done x i clear) (is.bits i lt);
    counted = rw (count_marked-append done x, clear) (omega (arith, is.counted));
  }

  -- One row, in the loop that marks the rows of a list.
  pub Holds-mark :
      (done : List A) (x : A) (bytes : List ℕ)
      → Holds bytes (marked p done) (count_marked p done)
      → length done / 8 < length bytes
      → (out : List ℕ) × ((if p x then set_bit e 0 (length done) bytes else ok bytes) ≡ ok out)
        × (length out ≡ length bytes)
        × Holds out (marked p (done ++ (x ∷ []))) (count_marked p (done ++ (x ∷ [])))
  Holds-mark done x bytes is room = elim (Bool-cases (p x)) [
    | inl set ↦
        let (out, done_so, same, holds) =
          Holds-set_bit e bytes (marked p done) (marked p (done ++ (x ∷ []))) (count_marked p done)
            (length done) is room (rw (beyond done) refl) (rw (at_end done x) set)
            (λ i ne. rw (not_at_end done x i ne) refl) in
        (out, rw (set) done_so, same, rw (count_marked-append done x, set) holds)
    | inr clear ↦ (bytes, rw (clear) refl, refl, Holds-unmarked done x bytes is clear)
  ]

  Holds-mark_rows_from :
      (done xs : List A) (bytes : List ℕ)
      → Holds bytes (marked p done) (count_marked p done)
      → length done + length xs ≤ length bytes * 8
      → (out : List ℕ) × (mark_rows e p (length done) xs bytes ≡ ok out)
        × (length out ≡ length bytes)
        × Holds out (marked p (done ++ xs)) (count_marked p (done ++ xs))
  unfolding mark_rows
  Holds-mark_rows_from done [] bytes is room = (bytes, refl, refl, rw (append-nil done) is)
  Holds-mark_rows_from done (x ∷ xs) bytes is room =
      let (bytes', one, same, is') = Holds-mark done x bytes is (omega arith) in
      let size : length (done ++ (x ∷ [])) ≡ length done + 1 = length-append done (x ∷ []) in
      let (out, rest, same', is'') =
        Holds-mark_rows_from (done ++ (x ∷ [])) xs bytes' is' (omega (arith, size, same)) in
      (out, rw (one, ← size) rest, same' ∙ same, rw (append_assoc done (x ∷ []) xs) at is'')

zeros-IsByte : (n : ℕ) → All IsByte (replicate n 0)
zeros-IsByte zero = tt
zeros-IsByte (suc n) = (omega arith, zeros-IsByte n)

total-zeros : (n : ℕ) → total (replicate n 0) ≡ 0
unfolding total
total-zeros zero = refl
total-zeros (suc n) = omega (arith, count_ones-zero, total-zeros n)

get_elem?-zeros : (n i : ℕ) → i < n → get_elem? {A = ℕ} (replicate n 0) i ≡ some 0
get_elem?-zeros zero i h = absurd (omega arith)
get_elem?-zeros (suc n) zero h = refl
get_elem?-zeros (suc n) (suc i) h = get_elem?-zeros n i (omega arith)

pub Holds-zeros : {A : Type 0} (p : A → Bool) (n : ℕ) → Holds (replicate n 0) (marked p []) 0
unfolding test_bit
Holds-zeros p n = record {
  are_bytes = zeros-IsByte n;
  bits = λ i lt.
      rw (get_elem?-zeros n (i / 8) (omega (arith, length-replicate {A = ℕ} n 0)), has-zero (i % 8))
        refl;
  counted = total-zeros n;
}

-- Marking the rows of a list in zeros that are long enough.
pub Holds-mark_rows :
    {A : Type 0} (e : Error) (p : A → Bool) (xs : List A) (n : ℕ)
    → length xs ≤ n * 8
    → (out : List ℕ) × (mark_rows e p 0 xs (replicate n 0) ≡ ok out)
      × (length out ≡ n)
      × Holds out (marked p xs) (count_marked p xs)
Holds-mark_rows e p xs n room =
    let (out, marks, same, is) =
      Holds-mark_rows_from e p [] xs (replicate n 0) (Holds-zeros p n)
        (omega (arith, length-replicate {A = ℕ} n 0)) in
    (out, marks, same ∙ length-replicate {A = ℕ} n 0, is)
