-- ===== src/Codec/Diff2/Streams.antt =====
-- Diff2Encoder as the predictor of a column: the symbols that it turns admissible values into fit the
-- NVR codec.
use litesdb.Base.{ℕ, ◌^◌, ◌<◌, ◌≡◌, refl, arith, List, [], ◌∷◌, map, All, Bool, true, false}
use litesdb.Base.{Option, none, some, Result, ok}
use litesdb.Base.Int.{ℤ, pos, negsuc}
use litesdb.Codec.Nvr.Token.{NvrSymbol, NvrMode, values, timestamps}
use litesdb.Codec.Nvr.Runs.{IsSymbol}
use litesdb.Codec.Diff2.{Diff2Value, Diff2Kind, unsigned_kind, timestamp_kind, Diff2Encoder}
use litesdb.Codec.Diff2.{Preprocessed, symbol, observe_value, input_value}
use litesdb.Codec.Diff2.{encode_value, first_code, zigzag, predict}
use litesdb.Codec.Diff2.{checked_sub_i128}
use litesdb.Codec.Diff2.Inverse.{encoder, then_some-eq_some, unzigzag-zigzag}
use litesdb.Codec.Diff2.RoundTrip.{observe_values}
use litesdb.Codec.Stream.{Taken}

abbrev pub mode_of : Diff2Kind → NvrMode
mode_of (unsigned_kind maximum) = values
mode_of timestamp_kind = timestamps

-- A value that the encoder of a kind takes.
abbrev pub Admissible : Diff2Kind → Diff2Value → Type 0
Admissible kind v = (input : Option ℤ) × (input_value kind v ≡ ok input)

first_code_small :
    (kind : Diff2Kind) (v : ℤ) (code : ℕ) → first_code kind v ≡ some code → code < 2 ^ 64
unfolding first_code
first_code_small (unsigned_kind maximum) (pos n) code h = ground arith
first_code_small (unsigned_kind maximum) (negsuc n) code h = cc
first_code_small timestamp_kind v code h = (unzigzag-zigzag v code h).1

code_small :
    (kind : Diff2Kind) (previous delta : Option ℤ) (v : ℤ) (code : ℕ) (kept : Option ℤ)
    → encode_value (encoder kind previous delta true) v ≡ some (code, kept)
    → code < 2 ^ 64
unfolding encode_value
code_small kind none delta v code kept e =
    let (c, first, same) = then_some-eq_some (first_code kind v) _ e in
    let here : first_code kind v ≡ some code = cc in first_code_small kind v code here
code_small kind (some previous) delta v code kept e =
    let (d, sub, e₁) = then_some-eq_some (checked_sub_i128 v previous) _ e in
    let (p, guess, e₂) = then_some-eq_some (predict d delta) _ e₁ in
    let (c, zig, same) = then_some-eq_some (zigzag p) _ e₂ in
    let here : zigzag p ≡ some code = cc in (unzigzag-zigzag p code here).1

null_admissible :
    (kind : Diff2Kind) (v : Diff2Value)
    → input_value kind v ≡ ok none
    → IsSymbol (mode_of kind) NvrSymbol.null
unfolding input_value
null_admissible (unsigned_kind maximum) v h = refl
null_admissible timestamp_kind Diff2Value.null h = cc
null_admissible timestamp_kind (Diff2Value.timestamp t) h = cc
null_admissible timestamp_kind (Diff2Value.unsigned n) h = cc

module _ {X : Type 0} (f : X → Diff2Value) where
  abbrev pub observing : Diff2Encoder → X → Result (Diff2Encoder × Preprocessed)
  observing e x = observe_value e (f x)

  -- What taking a column gives.
  abbrev pub TakenUp : Diff2Kind → Diff2Encoder → List X → Type 0
  TakenUp kind e xs =
      (ys : List NvrSymbol) × (whole : Bool) × Taken observing e xs ys whole
      × All (IsSymbol (mode_of kind)) ys

  take_up_step :
      (kind : Diff2Kind) (e e' : Diff2Encoder) (x : X) (xs : List X) (y : NvrSymbol)
      → observing e x ≡ ok (e', symbol y)
      → IsSymbol (mode_of kind) y
      → TakenUp kind e' xs
      → TakenUp kind e (x ∷ xs)
  take_up_step kind e e' x xs y first fits (ys, whole, later, all) =
      (y ∷ ys, whole, Taken.taken e e' x xs y ys whole first later, (fits, all))

  take_up_value :
      (kind : Diff2Kind) (previous delta : Option ℤ) (v : ℤ) (stored : Option (ℕ × Option ℤ))
      (x : X) (xs : List X)
      → input_value kind (f x) ≡ ok (some v)
      → encode_value (encoder kind previous delta true) v ≡ stored
      → ((previous' delta' : Option ℤ) → TakenUp kind (encoder kind previous' delta' true) xs)
      → TakenUp kind (encoder kind previous delta true) (x ∷ xs)
  unfolding observe_value
  take_up_value kind previous delta v none x xs inp enc later =
      ([], false, Taken.gave_up _ (encoder kind previous delta false) x xs (rw (inp, enc) refl), tt)
  take_up_value kind previous delta v (some (code, kept)) x xs inp enc later =
      take_up_step kind _ (encoder kind (some v) kept true) x xs (NvrSymbol.value code)
        (rw (inp, enc) refl) (code_small kind previous delta v code kept enc) (later (some v) kept)

  take_up_input :
      (kind : Diff2Kind) (previous delta : Option ℤ) (input : Option ℤ) (x : X) (xs : List X)
      → input_value kind (f x) ≡ ok input
      → ((previous' delta' : Option ℤ) → TakenUp kind (encoder kind previous' delta' true) xs)
      → TakenUp kind (encoder kind previous delta true) (x ∷ xs)
  unfolding observe_value
  take_up_input kind previous delta none x xs inp later =
      take_up_step kind _ (encoder kind previous delta true) x xs NvrSymbol.null (rw (inp) refl)
        (null_admissible kind (f x) inp) (later previous delta)
  take_up_input kind previous delta (some v) x xs inp later =
      take_up_value kind previous delta v _ x xs inp refl later

  -- Every column of admissible values is taken up to the point where the encoder gives up.
  pub take_up :
      (kind : Diff2Kind) (previous delta : Option ℤ) (xs : List X)
      → All (λ x. Admissible kind (f x)) xs
      → TakenUp kind (encoder kind previous delta true) xs
  take_up kind previous delta [] h = ([], true, Taken.ended _, tt)
  take_up kind previous delta (x ∷ xs) ((input, inp), h) =
      take_up_input kind previous delta input x xs inp (λ p d. take_up kind p d xs h)

  -- A column that is taken whole.
  pub observe_values-Taken :
      (e : Diff2Encoder) (xs : List X) (ys : List NvrSymbol)
      → Taken observing e xs ys true
      → observe_values e (map f xs) ≡ ok (map symbol ys)
  unfolding observe_values
  observe_values-Taken _ _ _ (Taken.ended e) = refl
  observe_values-Taken _ _ _ (Taken.taken e e' x xs y ys _ first later) =
      rw (first, observe_values-Taken e' xs ys later) refl
