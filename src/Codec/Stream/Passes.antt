-- ===== src/Codec/Stream/Passes.antt =====
-- Measuring and encoding a column through its predictor, by the theorems on the NVR codec.
use litesdb.Base.{ℕ, ◌≤◌, ◌<◌, ◌≡◌, refl, arith, List, [], ◌∷◌, All, Bool, true, false, length}
use litesdb.Base.{Option, none, some, Result, ok, >>=-eq-ok, ◌∙◌, String}
use litesdb.Codec.Nvr.Token.{NvrSymbol, NvrMode, NvrPlan}
use litesdb.Codec.Nvr.Encode.{
  NvrMeasurer, new_measurer, observe_all_measurer, finish_measurer, measure,
}
use litesdb.Codec.Nvr.Encode.{NvrEncoder, new_encoder, observe_all_encoder, finish_encoder}
use litesdb.Codec.Nvr.Runs.{IsSymbol, count_nulls}
use litesdb.Codec.Nvr.Measure.{plan, measure-runs}
use litesdb.Codec.Nvr.Write.{encoding, encoded, encode_rest_first, length-encoding-le}
use litesdb.Codec.Diff2.{Preprocessed}
use litesdb.Codec.Stream.{Taken, offer_all, offer_all-Taken, encode_all, encode_all-Taken}
use litesdb.Codec.Stream.{option_plan_eq, length-Taken, finish_option, kept}

pub option_plan_eq_refl : (p : Option NvrPlan) → option_plan_eq p p ≡ true
option_plan_eq_refl none = refl
option_plan_eq_refl (some p) = ground arith

-- The plan of the symbols of a column.
abbrev pub symbols_plan : List NvrSymbol → NvrPlan
symbols_plan ys = plan (length (encoding ys)) (length ys) (count_nulls ys)

measure_passes :
    (mode : NvrMode) (y : NvrSymbol) (ys : List NvrSymbol)
    → All (IsSymbol mode) (y ∷ ys)
    → length (y ∷ ys) ≤ 65_536
    → (m : NvrMeasurer) × (observe_all_measurer (new_measurer mode) (y ∷ ys) ≡ ok m)
      × (finish_measurer m ≡ ok (symbols_plan (y ∷ ys)))
measure_passes mode y ys h small =
    >>=-eq-ok (observe_all_measurer (new_measurer mode) (y ∷ ys)) finish_measurer
      (unfold measure encoding in measure-runs mode y ys h small)

encode_passes :
    (mode : NvrMode) (y : NvrSymbol) (ys : List NvrSymbol) (slice : List ℕ)
    → All (IsSymbol mode) (y ∷ ys)
    → length (y ∷ ys) ≤ 65_536
    → length slice ≡ length (encoding (y ∷ ys))
    → (e : NvrEncoder) × (observe_all_encoder (new_encoder mode slice) (y ∷ ys) ≡ ok e)
      × (finish_encoder e ≡ encoded (encoding (y ∷ ys)) [] (length (y ∷ ys)) (count_nulls (y ∷ ys)))
encode_passes mode y ys slice h small e =
    >>=-eq-ok (observe_all_encoder (new_encoder mode slice) (y ∷ ys)) finish_encoder
      (encode_rest_first mode y ys slice h small e (omega (arith, length-encoding-le (y ∷ ys))))

-- The plan that a column has, if it is taken whole.
abbrev pub plan_of : Bool → List NvrSymbol → Option NvrPlan
plan_of true ys = some (symbols_plan ys)
plan_of false ys = none

measure_taken :
    (mode : NvrMode) (ys : List NvrSymbol) (whole : Bool)
    → All (IsSymbol mode) ys
    → length ys ≤ 65_536
    → (whole ≡ true → 0 < length ys)
    → (m : NvrMeasurer) × (observe_all_measurer (new_measurer mode) ys ≡ ok m)
      × (finish_option (kept whole m) ≡ ok (plan_of whole ys))
measure_taken mode [] true h small some_ys = absurd (omega (arith, some_ys refl))
measure_taken mode [] false h small some_ys =
    (new_measurer mode, unfold observe_all_measurer in refl, refl)
measure_taken mode (y ∷ ys) false h small some_ys =
    let (m, all, _) = measure_passes mode y ys h small in (m, all, refl)
measure_taken mode (y ∷ ys) true h small some_ys =
    let (m, all, done) = measure_passes mode y ys h small in (m, all, rw (done) refl)

module _ {S X : Type 0} (observe : S → X → Result (S × Preprocessed)) (mode : NvrMode) where
  -- Offering a column to a new measurer, and finishing it.
  pub finish_option-offer_all :
      (s : S) (x : X) (xs : List X) (ys : List NvrSymbol) (whole : Bool)
      → Taken observe s (x ∷ xs) ys whole
      → All (IsSymbol mode) ys
      → length (x ∷ xs) ≤ 65_536
      → (s' : S) × (m : Option NvrMeasurer) × (offer_all observe
            (s, some (new_measurer mode))
            (x ∷ xs)
          ≡ ok (s', m))
        × (finish_option m ≡ ok (plan_of whole ys))
  finish_option-offer_all s x xs ys whole t h small =
      let (le, eq) = length-Taken observe s (x ∷ xs) ys whole t in
      let (m, all, done) = measure_taken mode ys whole h (omega arith) (λ e. omega (arith, eq e)) in
      let (s', offered) = offer_all-Taken observe s (x ∷ xs) ys whole (new_measurer mode) m t all in
      (s', kept whole m, offered, done)

  -- Encoding a column that is taken whole.
  pub finish_encoder-encode_all :
      (context : String) (s : S) (x : X) (xs : List X) (ys : List NvrSymbol) (slice : List ℕ)
      → Taken observe s (x ∷ xs) ys true
      → All (IsSymbol mode) ys
      → length (x ∷ xs) ≤ 65_536
      → length slice ≡ length (encoding ys)
      → (e : NvrEncoder) × (encode_all observe context s (new_encoder mode slice) (x ∷ xs) ≡ ok e)
        × (finish_encoder e ≡ encoded (encoding ys) [] (length ys) (count_nulls ys))
  finish_encoder-encode_all context s x xs [] slice t h small size =
      absurd (omega (arith, (length-Taken observe s (x ∷ xs) [] true t).1 refl))
  finish_encoder-encode_all context s x xs (y ∷ ys) slice t h small size =
      let (le, _) = length-Taken observe s (x ∷ xs) (y ∷ ys) true t in
      let (e, all, done) = encode_passes mode y ys slice h (omega arith) size in
      (e, encode_all-Taken observe context s (x ∷ xs) (y ∷ ys) _ t ∙ all, done)
