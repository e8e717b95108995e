-- ===== src/Codec/Selector/Decoded.antt =====
-- The reconstructors of core/src/codec/selector.rs undo the predictors.
use litesdb.Base.{ℕ, ◌-◌, ◌^◌, ◌<◌, ◌≡◌, refl, arith, Bool, true, Option, none, some}
use litesdb.Base.{List, [], ◌∷◌, All, ◌∙◌, Result, ok, ◌>>=◌, >>=-eq-ok, map}
use litesdb.Base.Int.{try_from}
use litesdb.Types.Value.{CellValue, null, u_int_value, sq1_value, f32_value, ValueType, u_int, sq1}
use litesdb.Types.Value.{f32_bits, HasType, new_sq1}
use litesdb.Codec.Nvr.Token.{NvrSymbol}
use litesdb.Codec.Diff2.{Diff2Decoder, DecodedDiff2, decode_symbol, decode_xor, unsigned_kind}
use litesdb.Codec.Diff2.{new_diff2_decoder, new_diff2_encoder, observe_xor, xor_previous}
use litesdb.Codec.Diff2.RoundTrip.{decode_symbols, decoded, decode_symbols-observe_values, IsTyped}
use litesdb.Codec.Diff2.Streams.{observing, observe_values-Taken}
use litesdb.Codec.Diff2.Xor.{IsBits, decode_xor-observe_xor}
use litesdb.Codec.Stream.{Taken}
use litesdb.Codec.Selector.{Predictor, u_int_predictor, sq1_predictor, f32_predictor, new_predictor}
use litesdb.Codec.Selector.{
  Reconstructor, u_int_decoder, sq1_decoder, f32_decoder, new_reconstructor,
}
use litesdb.Codec.Selector.{
  reconstruct, reconstruct_all, u_int_of, sq1_of, decode_sq1, observe_fact,
}
use litesdb.Codec.Selector.Symbols.{
  diff2_of, Taken-wrap, u_int_agrees, sq1_agrees, u_int-Admissible, sq1-Admissible,
}
use litesdb.Codec.Nvr.Token.{values}
use litesdb.Codec.Nvr.Runs.{IsSymbol}
use litesdb.Codec.Diff2.{Diff2Kind}
use litesdb.Codec.Diff2.RoundTrip.{IsTypedKind}
use litesdb.Codec.Diff2.Streams.{take_up}
use litesdb.Codec.Diff2.Xor.{xor_previous-lt}
use litesdb.Base.{subst}

-- A reconstructor of the second order, on the cells that `P` holds of.
module _ (wrap : Diff2Decoder → Reconstructor) (of : DecodedDiff2 → Result CellValue)
    (P : CellValue → Type 0)
    (steps : (d : Diff2Decoder) (s : NvrSymbol)
      → reconstruct (wrap d) s
        ≡ (decode_symbol d s >>= λ (d', out). of out >>= λ fact. ok (wrap d', fact)))
    (gives : (x : CellValue) → P x → of (decoded (diff2_of x)) ≡ ok x) where
  reconstruct_all-decode_symbols :
      (d : Diff2Decoder) (ss : List NvrSymbol) (xs : List CellValue)
      → All P xs
      → decode_symbols d ss ≡ ok (map decoded (map diff2_of xs))
      → reconstruct_all (wrap d) ss ≡ ok xs
  unfolding decode_symbols reconstruct_all
  reconstruct_all-decode_symbols d [] [] hp h = refl
  reconstruct_all-decode_symbols d [] (x ∷ xs) hp h = cc
  reconstruct_all-decode_symbols d (s ∷ ss) [] hp h =
      let ((d', out), first, h₁) = >>=-eq-ok (decode_symbol d s) _ h in
      let (rest, others, same) = >>=-eq-ok (decode_symbols d' ss) _ h₁ in cc
  reconstruct_all-decode_symbols d (s ∷ ss) (x ∷ xs) (hx, hp) h =
      let ((d', out), first, h₁) = >>=-eq-ok (decode_symbol d s) _ h in
      let (rest, others, same) = >>=-eq-ok (decode_symbols d' ss) _ h₁ in
      let here : decode_symbol d s ≡ ok (d', decoded (diff2_of x)) = cc in
      let later : decode_symbols d' ss ≡ ok (map decoded (map diff2_of xs)) = cc in
      let one : reconstruct (wrap d) s ≡ ok (wrap d', x) = steps d s ∙ rw (here, gives x hx) refl in
      rw (one, reconstruct_all-decode_symbols d' ss xs hp later) refl

u_int_steps :
    (d : Diff2Decoder) (s : NvrSymbol)
    → reconstruct (u_int_decoder d) s
      ≡ (decode_symbol d s >>= λ (d', out). u_int_of out >>= λ fact. ok (u_int_decoder d', fact))
unfolding reconstruct
u_int_steps d s = refl

sq1_steps :
    (d : Diff2Decoder) (s : NvrSymbol)
    → reconstruct (sq1_decoder d) s
      ≡ (decode_symbol d s >>= λ (d', out). sq1_of out >>= λ fact. ok (sq1_decoder d', fact))
unfolding reconstruct
sq1_steps d s = refl

u_int_gives : (x : CellValue) → HasType u_int x → u_int_of (decoded (diff2_of x)) ≡ ok x
unfolding u_int_of decoded
u_int_gives null h = refl
u_int_gives (u_int_value v) h = refl
u_int_gives (sq1_value c) h = absurd h
u_int_gives (f32_value b) h = absurd h

sq1_gives : (x : CellValue) → HasType sq1 x → sq1_of (decoded (diff2_of x)) ≡ ok x
unfolding sq1_of decoded decode_sq1 try_from new_sq1
sq1_gives null h = refl
sq1_gives (u_int_value v) h = absurd h
sq1_gives (sq1_value c) h = ground arith
sq1_gives (f32_value b) h = absurd h

u_int-IsTyped : (xs : List CellValue) → All (HasType u_int) xs → All IsTyped (map diff2_of xs)
u_int-IsTyped [] h = tt
u_int-IsTyped (null ∷ xs) (hx, h) = (tt, u_int-IsTyped xs h)
u_int-IsTyped (u_int_value v ∷ xs) (hx, h) = (hx, u_int-IsTyped xs h)
u_int-IsTyped (sq1_value c ∷ xs) (hx, h) = absurd hx
u_int-IsTyped (f32_value b ∷ xs) (hx, h) = absurd hx

sq1-IsTyped : (xs : List CellValue) → All (HasType sq1) xs → All IsTyped (map diff2_of xs)
sq1-IsTyped [] h = tt
sq1-IsTyped (null ∷ xs) (hx, h) = (tt, sq1-IsTyped xs h)
sq1-IsTyped (u_int_value v ∷ xs) (hx, h) = absurd hx
sq1-IsTyped (sq1_value c ∷ xs) (hx, h) = (omega arith, sq1-IsTyped xs h)
sq1-IsTyped (f32_value b ∷ xs) (hx, h) = absurd hx

-- What predicting a column gives: its symbols, which a reconstructor reads back if the predictor
-- has taken all of it.
abbrev pub Coded : Predictor → Reconstructor → List CellValue → Type 0
Coded predictor decoder xs =
    (ys : List NvrSymbol) × (whole : Bool) × Taken observe_fact predictor xs ys whole
    × All (IsSymbol values) ys
    × (whole ≡ true → reconstruct_all decoder ys ≡ ok xs)

reconstruct_next :
    (r r' : Reconstructor) (y : NvrSymbol) (ys : List NvrSymbol) (x : CellValue)
    (xs : List CellValue)
    → reconstruct r y ≡ ok (r', x)
    → reconstruct_all r' ys ≡ ok xs
    → reconstruct_all r (y ∷ ys) ≡ ok (x ∷ xs)
unfolding reconstruct_all
reconstruct_next r r' y ys x xs one rest = rw (one, rest) refl

f32_step :
    (previous : Option ℕ) (b : ℕ)
    → IsBits previous
    → b < 2 ^ 32
    → reconstruct (f32_decoder previous) (NvrSymbol.value (xor_previous previous b))
      ≡ ok (f32_decoder (some b), f32_value b)
unfolding reconstruct
f32_step previous b hp h = rw (decode_xor-observe_xor previous b hp h) refl

code_f32 :
    (previous : Option ℕ) (xs : List CellValue)
    → IsBits previous
    → All (HasType f32_bits) xs
    → Coded (f32_predictor previous) (f32_decoder previous) xs
unfolding observe_fact observe_xor
code_f32 previous [] hp h = ([], true, Taken.ended _, tt, λ _. unfold reconstruct_all in refl)
code_f32 previous (null ∷ xs) hp (hx, h) =
    let (ys, whole, later, all, back) = code_f32 previous xs hp h in
    (
      NvrSymbol.null ∷ ys,
      whole,
      Taken.taken _ (f32_predictor previous) null xs NvrSymbol.null ys whole refl later,
      (refl, all),
      λ e.
          reconstruct_next (f32_decoder previous) (f32_decoder previous) NvrSymbol.null ys null xs
            (unfold reconstruct decode_xor in refl) (back e),
    )
code_f32 previous (f32_value b ∷ xs) hp (hx, h) =
    let (ys, whole, later, all, back) = code_f32 (some b) xs hx h in
    let y : NvrSymbol = NvrSymbol.value (xor_previous previous b) in
    (
      y ∷ ys,
      whole,
      Taken.taken _ (f32_predictor (some b)) (f32_value b) xs y ys whole refl later,
      (omega (arith, xor_previous-lt previous b hp hx), all),
      λ e.
          reconstruct_next (f32_decoder previous) (f32_decoder (some b)) y ys (f32_value b) xs
            (f32_step previous b hp hx) (back e),
    )
code_f32 previous (u_int_value v ∷ xs) hp (hx, h) = absurd hx
code_f32 previous (sq1_value c ∷ xs) hp (hx, h) = absurd hx

code_diff2 :
    (kind : Diff2Kind) (xs : List CellValue) (ys : List NvrSymbol) (whole : Bool)
    → IsTypedKind kind
    → All IsTyped (map diff2_of xs)
    → Taken (observing diff2_of) (new_diff2_encoder kind) xs ys whole
    → whole ≡ true
    → decode_symbols (new_diff2_decoder kind) ys ≡ ok (map decoded (map diff2_of xs))
code_diff2 kind xs ys whole hk h trace e =
    decode_symbols-observe_values kind (map diff2_of xs) ys hk h (
      observe_values-Taken diff2_of (new_diff2_encoder kind) xs ys
        (subst (λ w. Taken (observing diff2_of) (new_diff2_encoder kind) xs ys w) e trace))

-- A column of a type is predicted, and read back from its symbols.
pub code_column :
    (t : ValueType) (xs : List CellValue)
    → All (HasType t) xs
    → Coded (new_predictor t) (new_reconstructor t) xs
unfolding new_predictor new_reconstructor
code_column u_int xs h =
    let kind : Diff2Kind = unsigned_kind (2 ^ 64 - 1) in
    let (ys, whole, trace, all) = take_up diff2_of kind none none xs (u_int-Admissible xs h) in
    let trace' : Taken (observing diff2_of) (new_diff2_encoder kind) xs ys whole =
      unfold new_diff2_encoder in trace in
    (
      ys,
      whole,
      Taken-wrap u_int_predictor (HasType u_int) u_int_agrees _ xs ys whole trace' h,
      all,
      λ e.
          reconstruct_all-decode_symbols u_int_decoder u_int_of (HasType u_int) u_int_steps
            u_int_gives (new_diff2_decoder kind) ys xs h
            (code_diff2 kind xs ys whole (omega arith) (u_int-IsTyped xs h) trace' e),
    )
code_column sq1 xs h =
    let kind : Diff2Kind = unsigned_kind 254 in
    let (ys, whole, trace, all) = take_up diff2_of kind none none xs (sq1-Admissible xs h) in
    let trace' : Taken (observing diff2_of) (new_diff2_encoder kind) xs ys whole =
      unfold new_diff2_encoder in trace in
    (
      ys,
      whole,
      Taken-wrap sq1_predictor (HasType sq1) sq1_agrees _ xs ys whole trace' h,
      all,
      λ e.
          reconstruct_all-decode_symbols sq1_decoder sq1_of (HasType sq1) sq1_steps sq1_gives
            (new_diff2_decoder kind) ys xs h
            (code_diff2 kind xs ys whole (omega arith) (sq1-IsTyped xs h) trace' e),
    )
code_column f32_bits xs h = code_f32 none xs tt h
