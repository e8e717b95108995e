-- ===== src/Codec/Stream.antt =====
-- What core/src/codec/timestamp.rs and selector.rs share: a predictor turns the values of a column
-- into symbols until it gives up, and the symbols are measured or encoded as they come.
pub mod Passes
use litesdb.Base.{Bool, true, false, Option, none, some, List, [], ◌∷◌, ◌≡◌, refl, String}
use litesdb.Base.{Result, ok, err, ◌>>=◌, corruption, >>=-eq-ok, length, ◌≤◌, ap, arith, suc}
use litesdb.Base.{ℕ, not, ◌==◌, ◌||◌}
use litesdb.Codec.Nvr.Token.{NvrSymbol, NvrPlan}
use litesdb.Codec.Nvr.Encode.{finish_measurer, plan_eq}
use litesdb.Codec.Nvr.Encode.{NvrMeasurer, observe_measurer, observe_all_measurer}
use litesdb.Codec.Nvr.Encode.{NvrEncoder, observe_encoder, observe_all_encoder}
use litesdb.Codec.Diff2.{Preprocessed, symbol, unavailable}

-- `measurer.map(NvrMeasurer::finish).transpose()`
abbrev pub finish_option : Option NvrMeasurer → Result (Option NvrPlan)
finish_option none = ok none
finish_option (some m) = do plan ← finish_measurer m; ok (some plan)

abbrev pub counts_disagree : Option NvrPlan → ℕ → ℕ → Bool
counts_disagree none facts nulls = false
counts_disagree (some plan) facts nulls =
    not (plan.fact_count == facts) || not (plan.null_count == nulls)

abbrev pub option_plan_eq : Option NvrPlan → Option NvrPlan → Bool
option_plan_eq none none = true
option_plan_eq (some a) (some b) = plan_eq a b
option_plan_eq none (some b) = false
option_plan_eq (some a) none = false

abbrev pub kept : Bool → NvrMeasurer → Option NvrMeasurer
kept true m = some m
kept false m = none

module _ {S X : Type 0} (observe : S → X → Result (S × Preprocessed)) where
  offer_out : S → NvrMeasurer → Preprocessed → Result (S × Option NvrMeasurer)
  offer_out s m (symbol y) = do m' ← observe_measurer m y; ok (s, some m')
  offer_out s m unavailable = ok (s, none)

  -- `if let Some(active) = measurer.as_mut() { match predictor.observe(x)? { ... } }`
  unfoldable pub offer : S × Option NvrMeasurer → X → Result (S × Option NvrMeasurer)
  unfolding offer_out
  offer (s, none) x = ok (s, none)
  offer (s, some m) x = do (s', out) ← observe s x; offer_out s' m out

  unfoldable pub offer_all : S × Option NvrMeasurer → List X → Result (S × Option NvrMeasurer)
  unfolding offer
  offer_all state [] = ok state
  offer_all state (x ∷ xs) = do state' ← offer state x; offer_all state' xs

  encode_out : String → S → NvrEncoder → Preprocessed → Result (S × NvrEncoder)
  encode_out context s e (symbol y) = do e' ← observe_encoder e y; ok (s, e')
  encode_out context s e unavailable = err (corruption context "selected NVR became unavailable")

  -- `for x in xs { let Symbol(symbol) = predictor.observe(x)? else ...; encoder.observe(symbol)?; }`
  unfoldable pub encode_all : String → S → NvrEncoder → List X → Result NvrEncoder
  unfolding encode_out
  encode_all context s e [] = ok e
  encode_all context s e (x ∷ xs) = do
    (s', out) ← observe s x
    (s'', e') ← encode_out context s' e out
    encode_all context s'' e' xs

  -- The symbols that a predictor turns values into, and whether it took all of them.
  pub data Taken : S → List X → List NvrSymbol → Bool → Type 0 where
    ended : (s : S) → Taken s [] [] true
    gave_up :
        (s s' : S) (x : X) (xs : List X)
        → observe s x ≡ ok (s', unavailable)
        → Taken s (x ∷ xs) [] false
    taken :
        (s s' : S) (x : X) (xs : List X) (y : NvrSymbol) (ys : List NvrSymbol) (whole : Bool)
        → observe s x ≡ ok (s', symbol y)
        → Taken s' xs ys whole
        → Taken s (x ∷ xs) (y ∷ ys) whole

  offer_all-none : (s : S) (xs : List X) → offer_all (s, none) xs ≡ ok (s, none)
  unfolding offer_all
  offer_all-none s [] = refl
  offer_all-none s (x ∷ xs) = offer_all-none s xs

  -- Offering the values measures the symbols that were taken.
  pub offer_all-Taken :
      (s : S) (xs : List X) (ys : List NvrSymbol) (whole : Bool) (m m' : NvrMeasurer)
      → Taken s xs ys whole
      → observe_all_measurer m ys ≡ ok m'
      → (s' : S) × (offer_all (s, some m) xs ≡ ok (s', kept whole m'))
  unfolding offer_all observe_all_measurer
  offer_all-Taken _ _ _ _ m m' (Taken.ended s) h = (s, cc)
  offer_all-Taken _ _ _ _ m m' (Taken.gave_up s s' x xs gave) h =
      (s', rw gave (offer_all-none s' xs))
  offer_all-Taken _ _ _ _ m m' (Taken.taken s s' x xs y ys whole first later) h =
      let (m₁, one, rest) = >>=-eq-ok (observe_measurer m y) _ h in
      let (s'', all) = offer_all-Taken s' xs ys whole m₁ m' later rest in (s'', rw (first, one) all)

  encode_step :
      (context : String) (s : S) (xs : List X) (ys : List NvrSymbol) (y : NvrSymbol)
      (e : NvrEncoder)
      → ((e' : NvrEncoder) → encode_all context s e' xs ≡ observe_all_encoder e' ys)
      → (encode_out context s e (symbol y) >>= λ (s', e'). encode_all context s' e' xs)
        ≡ (observe_encoder e y >>= λ e'. observe_all_encoder e' ys)
  unfolding encode_out
  encode_step context s xs ys y e h =
      elim (observe_encoder e y)
        as (λ r.
          ((r >>= λ e'. ok (s, e')) >>= λ (s', e'). encode_all context s' e' xs)
          ≡ (r >>= λ e'. observe_all_encoder e' ys)) [ ok e' ↦ h e' | err f ↦ refl ]

  -- Encoding the values encodes the symbols, when all were taken.
  pub encode_all-Taken :
      (context : String) (s : S) (xs : List X) (ys : List NvrSymbol) (e : NvrEncoder)
      → Taken s xs ys true
      → encode_all context s e xs ≡ observe_all_encoder e ys
  unfolding encode_all observe_all_encoder
  encode_all-Taken context _ _ _ e (Taken.ended s) = refl
  encode_all-Taken context _ _ _ e (Taken.taken s s' x xs y ys _ first later) =
      rw (first)
        (encode_step context s' xs ys y e (λ e'. encode_all-Taken context s' xs ys e' later))

  pub length-Taken :
      (s : S) (xs : List X) (ys : List NvrSymbol) (whole : Bool)
      → Taken s xs ys whole
      → (length ys ≤ length xs) × (whole ≡ true → length ys ≡ length xs)
  length-Taken _ _ _ _ (Taken.ended s) = (omega arith, λ _. refl)
  length-Taken _ _ _ _ (Taken.gave_up s s' x xs gave) = (omega arith, λ e. cc)
  length-Taken _ _ _ _ (Taken.taken s s' x xs y ys whole first later) =
      let (le, eq) = length-Taken s' xs ys whole later in (omega arith, λ e. ap suc (eq e))
