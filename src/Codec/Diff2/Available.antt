-- ===== src/Codec/Diff2/Available.antt =====
-- Streams on which the encoder of core/src/codec/diff2.rs never gives up.
use litesdb.Base.{ℕ, ◌+◌, ◌-◌, ◌*◌, ◌^◌, ◌<◌, ◌≤◌, ◌≡◌, refl, arith, List, [], ◌∷◌, map, All}
use litesdb.Base.{true, Option, none, some, ok, ltb, leb}
use litesdb.Base.Int.{ℤ, pos, negsuc, ◌-ℤ◌, pos_part, neg_part, checked_sub_i128}
use litesdb.Codec.Nvr.Token.{NvrSymbol}
use litesdb.Codec.Diff2.{Diff2Value, unsigned_kind, new_diff2_encoder, new_diff2_decoder}
use litesdb.Codec.Diff2.{
  observe_value, encode_value, input_value, symbol, zigzag, predict, first_code,
}
use litesdb.Codec.Diff2.Inverse.{encoder}
use litesdb.Codec.Diff2.RoundTrip.{IsTyped, decoded, observe_values, decode_symbols}
use litesdb.Codec.Diff2.RoundTrip.{decode_symbols-observe_values}

-- Integers between `-maximum` and `maximum`.
abbrev Within : ℕ → ℤ → Type 0
Within maximum v = (pos_part v ≤ maximum) × (neg_part v ≤ maximum)

abbrev WithinOption : ℕ → Option ℤ → Type 0
WithinOption maximum none = Unit {0}
WithinOption maximum (some v) = Within maximum v

abbrev NonNegative : Option ℤ → Type 0
NonNegative none = Unit {0}
NonNegative (some v) = neg_part v ≡ 0

-- The values that a kind with the bound `maximum` takes.
abbrev pub IsUnsigned : ℕ → Diff2Value → Type 0
IsUnsigned maximum Diff2Value.null = Unit {0}
IsUnsigned maximum (Diff2Value.unsigned v) = v ≤ maximum
IsUnsigned maximum (Diff2Value.timestamp t) = ⊥

zigzag-some : (v : ℤ) → Within (2 ^ 63 - 1) v → (code : ℕ) × (zigzag v ≡ some code)
unfolding zigzag
zigzag-some (pos n) h = (n * 2, ground arith)
zigzag-some (negsuc n) h = (n * 2 + 1, ground arith)

sub_some : (a b : ℤ) → Within (2 ^ 63) (a -ℤ b) → checked_sub_i128 a b ≡ some (a -ℤ b)
unfolding checked_sub_i128
sub_some a b h = ground arith

sub_bounds :
    (a b : ℤ)
    → (pos_part (a -ℤ b) ≤ pos_part a + neg_part b) × (neg_part (a -ℤ b) ≤ neg_part a + pos_part b)
unfolding ◌-ℤ◌
sub_bounds a b = ground arith

-- A delta of values in the bound, and its prediction.
predict-some :
    (delta : ℤ) (pd : Option ℤ) (maximum : ℕ)
    → maximum < 2 ^ 62
    → Within maximum delta
    → WithinOption maximum pd
    → (p : ℤ) × (predict delta pd ≡ some p) × Within (2 ^ 63 - 1) p
unfolding predict
predict-some delta none maximum hm hd h = (delta, refl, omega arith)
predict-some delta (some previous) maximum hm hd h =
    let (small, small') = sub_bounds delta previous in
    (delta -ℤ previous, sub_some delta previous (omega arith, omega arith), omega arith)

delta-Within :
    (n : ℕ) (previous : ℤ) (maximum : ℕ)
    → n ≤ maximum
    → Within maximum previous
    → neg_part previous ≡ 0
    → Within maximum (pos n -ℤ previous)
unfolding ◌-ℤ◌
delta-Within n previous maximum h w sign = ground arith

next-Within :
    (maximum n : ℕ) (previous : ℤ) (pd : Option ℤ)
    → maximum < 2 ^ 62
    → n ≤ maximum
    → Within maximum previous
    → neg_part previous ≡ 0
    → WithinOption maximum pd
    → (code : ℕ) × (encode_value (encoder (unsigned_kind maximum) (some previous) pd true) (pos n)
        ≡ some (code, some (pos n -ℤ previous)))
unfolding encode_value
next-Within maximum n previous pd hm hn hv sign hd =
    let near = delta-Within n previous maximum hn hv sign in
    let (small, small') = sub_bounds (pos n) previous in
    let (p, guess, bound) = predict-some (pos n -ℤ previous) pd maximum hm near hd in
    let (code, zig) = zigzag-some p bound in
    (code, rw (sub_some (pos n) previous (omega arith, omega arith), guess, zig) refl)

first_within :
    (maximum n : ℕ) (pd : Option ℤ)
    → maximum < 2 ^ 62
    → n ≤ maximum
    → encode_value (encoder (unsigned_kind maximum) none pd true) (pos n) ≡ some (n, pd)
unfolding encode_value first_code
first_within maximum n pd hm hn =
    let small : ltb n (2 ^ 64) ≡ true = ground arith in rw (small) refl

-- A present value within the bound always gets a code.
encoder_within :
    (maximum n : ℕ) (pv pd : Option ℤ)
    → maximum < 2 ^ 62
    → n ≤ maximum
    → WithinOption maximum pv
    → NonNegative pv
    → WithinOption maximum pd
    → (code : ℕ) × (kept : Option ℤ) × (encode_value
          (encoder (unsigned_kind maximum) pv pd true)
          (pos n)
        ≡ some (code, kept))
      × WithinOption maximum kept
encoder_within maximum n none pd hm hn hv sign hd = (n, pd, first_within maximum n pd hm hn, hd)
encoder_within maximum n (some previous) pd hm hn hv sign hd =
    let (code, done) = next-Within maximum n previous pd hm hn hv sign hd in
    (code, some (pos n -ℤ previous), done, delta-Within n previous maximum hn hv sign)

value_within :
    (maximum : ℕ) (v : Diff2Value) (pv pd : Option ℤ)
    → maximum < 2 ^ 62
    → IsUnsigned maximum v
    → WithinOption maximum pv
    → NonNegative pv
    → WithinOption maximum pd
    → (pv' : Option ℤ) × (pd' : Option ℤ) × (s : NvrSymbol) × (observe_value
          (encoder (unsigned_kind maximum) pv pd true)
          v
        ≡ ok (encoder (unsigned_kind maximum) pv' pd' true, symbol s))
      × WithinOption maximum pv'
      × NonNegative pv'
      × WithinOption maximum pd'
unfolding observe_value input_value
value_within maximum Diff2Value.null pv pd hm hv a b c = (pv, pd, NvrSymbol.null, refl, a, b, c)
value_within maximum (Diff2Value.unsigned n) pv pd hm hv a b c =
    let (code, kept, done, near) = encoder_within maximum n pv pd hm hv a b c in
    let fits : leb n maximum ≡ true = ground arith in
    (some (pos n), kept, NvrSymbol.value code, rw (fits, done) refl, (hv, omega arith), refl, near)
value_within maximum (Diff2Value.timestamp t) pv pd hm hv a b c = absurd hv

values_within :
    (maximum : ℕ) (vs : List Diff2Value) (pv pd : Option ℤ)
    → maximum < 2 ^ 62
    → All (IsUnsigned maximum) vs
    → WithinOption maximum pv
    → NonNegative pv
    → WithinOption maximum pd
    → (ss : List NvrSymbol) × (observe_values (encoder (unsigned_kind maximum) pv pd true) vs
        ≡ ok (map symbol ss))
unfolding observe_values
values_within maximum [] pv pd hm hv a b c = ([], refl)
values_within maximum (v ∷ vs) pv pd hm (hv, hvs) a b c =
    let (pv', pd', s, done, a', b', c') = value_within maximum v pv pd hm hv a b c in
    let (ss, rest) = values_within maximum vs pv' pd' hm hvs a' b' c' in
    (s ∷ ss, rw (done, rest) refl)

All-IsTyped :
    (maximum : ℕ) (vs : List Diff2Value)
    → maximum < 2 ^ 62
    → All (IsUnsigned maximum) vs
    → All IsTyped vs
All-IsTyped maximum [] hm h = tt
All-IsTyped maximum (Diff2Value.null ∷ vs) hm (hv, hvs) = (tt, All-IsTyped maximum vs hm hvs)
All-IsTyped maximum (Diff2Value.unsigned n ∷ vs) hm (hv, hvs) =
    (omega arith, All-IsTyped maximum vs hm hvs)
All-IsTyped maximum (Diff2Value.timestamp t ∷ vs) hm (hv, hvs) = absurd hv

-- A stream of small unsigned values is always encoded and comes back: when the bound of the kind
-- is below 2^62 and every value is null or at most the bound, the new encoder turns the values
-- into symbols, and the new decoder turns these symbols into the values.
pub decode_symbols-observe_values_within :
    (maximum : ℕ) (vs : List Diff2Value)
    → maximum < 2 ^ 62
    → All (IsUnsigned maximum) vs
    → (ss : List NvrSymbol) × (observe_values (new_diff2_encoder (unsigned_kind maximum)) vs
        ≡ ok (map symbol ss))
      × (decode_symbols (new_diff2_decoder (unsigned_kind maximum)) ss ≡ ok (map decoded vs))
unfolding new_diff2_encoder
decode_symbols-observe_values_within maximum vs hm h =
    let (ss, done) = values_within maximum vs none none hm h tt tt tt in
    (
      ss,
      done,
      decode_symbols-observe_values (unsigned_kind maximum) vs ss (omega arith)
          (All-IsTyped maximum vs hm h) done,
    )
