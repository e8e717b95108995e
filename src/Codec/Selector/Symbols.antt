-- ===== src/Codec/Selector/Symbols.antt =====
-- The predictors of core/src/codec/selector.rs on a column of a type.
use litesdb.Base.{ℕ, ◌-◌, ◌^◌, ◌≡◌, refl, arith, Bool, true, Option, none, some}
use litesdb.Base.{List, [], ◌∷◌, All, ◌∙◌, Result, ok, err, if◌then◌else◌}
use litesdb.Base.Int.{ℤ, pos}
use litesdb.Types.Value.{CellValue, null, u_int_value, sq1_value, f32_value, u_int, sq1}
use litesdb.Types.Value.{HasType}
use litesdb.Codec.Nvr.Token.{NvrSymbol}
use litesdb.Codec.Nvr.Runs.{IsSymbol, nulls_of}
use litesdb.Codec.Nvr.Runs as Runs
use litesdb.Codec.Diff2.{Diff2Value, Diff2Encoder, unsigned_kind, symbol}
use litesdb.Codec.Diff2.{
  observe_value, input_value, encode_value, store_code, observe_xor, xor_previous,
}
use litesdb.Codec.Diff2.Streams.{Admissible, observing}
use litesdb.Codec.Stream.{Taken}
use litesdb.Codec.Fixed.Measure.{is_null, count_nulls}
use litesdb.Codec.Selector.{Predictor, u_int_predictor, sq1_predictor, f32_predictor}
use litesdb.Codec.Selector.{observe_fact, rebuilt}

-- What the second-order predictor is given of a cell. It is given no float.
abbrev pub diff2_of : CellValue → Diff2Value
diff2_of null = Diff2Value.null
diff2_of (u_int_value v) = Diff2Value.unsigned v
diff2_of (sq1_value c) = Diff2Value.unsigned c
diff2_of (f32_value b) = Diff2Value.null

-- A predictor of the second order on the cells that `P` holds of.
module _ (wrap : Diff2Encoder → Predictor) (P : CellValue → Type 0)
    (agrees : (e : Diff2Encoder) (x : CellValue)
      → P x
      → observe_fact (wrap e) x ≡ rebuilt wrap (observing diff2_of e x)) where
  pub Taken-wrap :
      (e : Diff2Encoder) (xs : List CellValue) (ys : List NvrSymbol) (whole : Bool)
      → Taken (observing diff2_of) e xs ys whole
      → All P xs
      → Taken observe_fact (wrap e) xs ys whole
  Taken-wrap _ _ _ _ (Taken.ended e) h = Taken.ended (wrap e)
  Taken-wrap _ _ _ _ (Taken.gave_up e e' x xs gave) (hx, h) =
      Taken.gave_up (wrap e) (wrap e') x xs (agrees e x hx ∙ rw (gave) refl)
  Taken-wrap _ _ _ _ (Taken.taken e e' x xs y ys whole first later) (hx, h) =
      Taken.taken (wrap e) (wrap e') x xs y ys whole (agrees e x hx ∙ rw (first) refl)
        (Taken-wrap e' xs ys whole later h)

pub u_int_agrees :
    (e : Diff2Encoder) (x : CellValue)
    → HasType u_int x
    → observe_fact (u_int_predictor e) x ≡ rebuilt u_int_predictor (observing diff2_of e x)
unfolding observe_fact
u_int_agrees e null h = refl
u_int_agrees e (u_int_value v) h = refl
u_int_agrees e (sq1_value c) h = absurd h
u_int_agrees e (f32_value b) h = absurd h

pub sq1_agrees :
    (e : Diff2Encoder) (x : CellValue)
    → HasType sq1 x
    → observe_fact (sq1_predictor e) x ≡ rebuilt sq1_predictor (observing diff2_of e x)
unfolding observe_fact
sq1_agrees e null h = refl
sq1_agrees e (u_int_value v) h = absurd h
sq1_agrees e (sq1_value c) h = refl
sq1_agrees e (f32_value b) h = absurd h

pub u_int-Admissible :
    (xs : List CellValue)
    → All (HasType u_int) xs
    → All (λ x. Admissible (unsigned_kind (2 ^ 64 - 1)) (diff2_of x)) xs
unfolding input_value
u_int-Admissible [] h = tt
u_int-Admissible (null ∷ xs) (hx, h) = ((none, refl), u_int-Admissible xs h)
u_int-Admissible (u_int_value v ∷ xs) (hx, h) =
    ((some (pos v), ground arith), u_int-Admissible xs h)
u_int-Admissible (sq1_value c ∷ xs) (hx, h) = absurd hx
u_int-Admissible (f32_value b ∷ xs) (hx, h) = absurd hx

pub sq1-Admissible :
    (xs : List CellValue)
    → All (HasType sq1) xs
    → All (λ x. Admissible (unsigned_kind 254) (diff2_of x)) xs
unfolding input_value
sq1-Admissible [] h = tt
sq1-Admissible (null ∷ xs) (hx, h) = ((none, refl), sq1-Admissible xs h)
sq1-Admissible (u_int_value v ∷ xs) (hx, h) = absurd hx
sq1-Admissible (sq1_value c ∷ xs) (hx, h) = ((some (pos c), ground arith), sq1-Admissible xs h)
sq1-Admissible (f32_value b ∷ xs) (hx, h) = absurd hx

store_code-value :
    (e e' : Diff2Encoder) (v : ℤ) (stored : Option (ℕ × Option ℤ)) (y : NvrSymbol)
    → store_code e v stored ≡ (e', symbol y)
    → nulls_of y ≡ 0
store_code-value e e' v none y h = cc
store_code-value e e' v (some (code, kept)) y h =
    let is_value : y ≡ NvrSymbol.value code = cc in rw (is_value) refl

observe_value-unsigned :
    (e e' : Diff2Encoder) (v : ℕ) (y : NvrSymbol)
    → observe_value e (Diff2Value.unsigned v) ≡ ok (e', symbol y)
    → nulls_of y ≡ 0
unfolding observe_value input_value
observe_value-unsigned e e' v y h =
    ground (arith, store_code-value e e' (pos v) (encode_value e (pos v)) y)

observe_value-null :
    (e e' : Diff2Encoder) (y : NvrSymbol)
    → observe_value e Diff2Value.null ≡ ok (e', symbol y)
    → nulls_of y ≡ 1
unfolding observe_value input_value
observe_value-null e e' y h = ground arith

abbrev null_of : CellValue → ℕ
null_of x = if is_null x then 1 else 0

rebuilt_inv {ℓ} :
    {P S : Type 0} {R : Type ℓ} (wrap : S → P) (result : Result (S × R)) {p : P} {r : R}
    → rebuilt wrap result ≡ ok (p, r)
    → (s : S) × (result ≡ ok (s, r))
rebuilt_inv wrap (err f) h = cc
rebuilt_inv wrap (ok (s, r)) h = (s, cc)

-- A fact and its symbol are null together.
observe_fact-nulls :
    (p p' : Predictor) (x : CellValue) (y : NvrSymbol)
    → observe_fact p x ≡ ok (p', symbol y)
    → nulls_of y ≡ null_of x
unfolding observe_fact observe_xor
observe_fact-nulls (u_int_predictor e) p' null y h =
    let (e', done) = rebuilt_inv u_int_predictor _ h in observe_value-null e e' y done
observe_fact-nulls (u_int_predictor e) p' (u_int_value v) y h =
    let (e', done) = rebuilt_inv u_int_predictor _ h in observe_value-unsigned e e' v y done
observe_fact-nulls (u_int_predictor e) p' (sq1_value c) y h = cc
observe_fact-nulls (u_int_predictor e) p' (f32_value b) y h = cc
observe_fact-nulls (sq1_predictor e) p' null y h =
    let (e', done) = rebuilt_inv sq1_predictor _ h in observe_value-null e e' y done
observe_fact-nulls (sq1_predictor e) p' (sq1_value c) y h =
    let (e', done) = rebuilt_inv sq1_predictor _ h in observe_value-unsigned e e' c y done
observe_fact-nulls (sq1_predictor e) p' (u_int_value v) y h = cc
observe_fact-nulls (sq1_predictor e) p' (f32_value b) y h = cc
observe_fact-nulls (f32_predictor previous) p' null y h =
    let same : y ≡ NvrSymbol.null = cc in rw (same) refl
observe_fact-nulls (f32_predictor previous) p' (f32_value b) y h =
    let same : y ≡ NvrSymbol.value (xor_previous previous b) = cc in rw (same) refl
observe_fact-nulls (f32_predictor previous) p' (u_int_value v) y h = cc
observe_fact-nulls (f32_predictor previous) p' (sq1_value c) y h = cc

-- A column that is taken whole has as many nulls as its symbols.
pub count_nulls-Taken :
    (p : Predictor) (xs : List CellValue) (ys : List NvrSymbol)
    → Taken observe_fact p xs ys true
    → Runs.count_nulls ys ≡ count_nulls xs
unfolding Runs.count_nulls
count_nulls-Taken _ _ _ (Taken.ended p) = refl
count_nulls-Taken _ _ _ (Taken.taken p p' x xs y ys _ first later) =
    omega (arith, observe_fact-nulls p p' x y first, count_nulls-Taken p' xs ys later)
