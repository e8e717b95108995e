-- ===== src/Codec/Diff2/RoundTrip.antt =====
-- A stream through `Diff2Encoder::observe` and back through `Diff2Decoder::decode`.
use litesdb.Base.{ℕ, ◌^◌, ◌<◌, ◌≡◌, refl, arith, List, [], ◌∷◌, map, All}
use litesdb.Base.{true, Option, none, some, Result, ok, ◌>>=◌, >>=-eq-ok}
use litesdb.Base.Int.{ℤ, IsI64}
use litesdb.Codec.Nvr.Token.{NvrSymbol}
use litesdb.Codec.Diff2.{Diff2Value, DecodedDiff2, Diff2Kind, unsigned_kind, timestamp_kind}
use litesdb.Codec.Diff2.{
  Diff2Encoder, Diff2Decoder, observe_value, decode_symbol, new_diff2_encoder,
}
use litesdb.Codec.Diff2.{
  encode_value, decode_value, input_value, output_value, Preprocessed, symbol,
}
use litesdb.Codec.Diff2.{store_code, observe_input, new_diff2_decoder}
use litesdb.Codec.Diff2.Inverse.{InDomain, encoder, decoder, decode_value-encode_value}

-- What the types of the source say of a value: a timestamp is an `i64`.
abbrev pub IsTyped : Diff2Value → Type 0
IsTyped Diff2Value.null = Unit {0}
IsTyped (Diff2Value.unsigned v) = v < 2 ^ 64
IsTyped (Diff2Value.timestamp t) = IsI64 t

-- The bound of a kind is a `u64`.
abbrev pub IsTypedKind : Diff2Kind → Type 0
IsTypedKind (unsigned_kind maximum) = maximum < 2 ^ 64
IsTypedKind timestamp_kind = Unit {0}

unfoldable pub decoded : Diff2Value → DecodedDiff2
decoded Diff2Value.null = DecodedDiff2.null
decoded (Diff2Value.unsigned v) = DecodedDiff2.unsigned v
decoded (Diff2Value.timestamp t) = DecodedDiff2.timestamp t

unfoldable pub observe_values : Diff2Encoder → List Diff2Value → Result (List Preprocessed)
observe_values e [] = ok []
observe_values e (v ∷ vs) = do
  (e', out) ← observe_value e v
  rest ← observe_values e' vs
  ok (out ∷ rest)

unfoldable pub decode_symbols : Diff2Decoder → List NvrSymbol → Result (List DecodedDiff2)
decode_symbols d [] = ok []
decode_symbols d (s ∷ ss) = do
  (d', v) ← decode_symbol d s
  rest ← decode_symbols d' ss
  ok (v ∷ rest)

-- The value that the encoder takes is in the domain, and the decoder gives it back.
input_value_inv :
    (kind : Diff2Kind) (v : Diff2Value) {x : ℤ}
    → IsTypedKind kind
    → IsTyped v
    → input_value kind v ≡ ok (some x)
    → InDomain kind x × (output_value kind x ≡ ok (decoded v))
unfolding input_value output_value decoded
input_value_inv (unsigned_kind maximum) Diff2Value.null hk hv h = cc
input_value_inv timestamp_kind Diff2Value.null hk hv h = cc
input_value_inv (unsigned_kind maximum) (Diff2Value.unsigned n) hk hv h = ground arith
input_value_inv timestamp_kind (Diff2Value.timestamp t) hk hv h = ground arith
input_value_inv (unsigned_kind maximum) (Diff2Value.timestamp t) hk hv h = cc
input_value_inv timestamp_kind (Diff2Value.unsigned n) hk hv h = cc

input_value-none :
    (kind : Diff2Kind) (v : Diff2Value) (pv pd : Option ℤ)
    → input_value kind v ≡ ok none
    → decode_symbol (decoder kind pv pd) NvrSymbol.null ≡ ok (decoder kind pv pd, decoded v)
unfolding input_value decode_symbol decoded
input_value-none (unsigned_kind maximum) Diff2Value.null pv pd h = refl
input_value-none timestamp_kind Diff2Value.null pv pd h = cc
input_value-none (unsigned_kind maximum) (Diff2Value.unsigned n) pv pd h = ground arith
input_value-none timestamp_kind (Diff2Value.timestamp t) pv pd h = cc
input_value-none (unsigned_kind maximum) (Diff2Value.timestamp t) pv pd h = cc
input_value-none timestamp_kind (Diff2Value.unsigned n) pv pd h = cc

decode_symbol-decode_value :
    (kind : Diff2Kind) (pv pd : Option ℤ) (code : ℕ) (x : ℤ) (kept : Option ℤ) {v : DecodedDiff2}
    → decode_value (decoder kind pv pd) code ≡ ok (x, kept)
    → output_value kind x ≡ ok v
    → decode_symbol (decoder kind pv pd) (NvrSymbol.value code) ≡ ok (decoder kind (some x) kept, v)
unfolding decode_symbol
decode_symbol-decode_value kind pv pd code x kept read out = rw (read, out) refl

store_code_inv :
    (kind : Diff2Kind) (pv pd : Option ℤ) (v : Diff2Value) (x : ℤ) (stored : Option (ℕ × Option ℤ))
    {e' : Diff2Encoder} {s : NvrSymbol}
    → InDomain kind x
    → output_value kind x ≡ ok (decoded v)
    → encode_value (encoder kind pv pd true) x ≡ stored
    → store_code (encoder kind pv pd true) x stored ≡ (e', symbol s)
    → (pv' pd' : Option ℤ) × (e' ≡ encoder kind pv' pd' true)
      × (decode_symbol (decoder kind pv pd) s ≡ ok (decoder kind pv' pd', decoded v))
store_code_inv kind pv pd v x none dom out enc h = cc
store_code_inv kind pv pd v x (some (code, kept)) dom out enc h =
    let read =
      decode_symbol-decode_value kind pv pd code x kept
        (decode_value-encode_value kind pv pd x dom enc) out in
    (some x, kept, cc, cc)

observe_input_inv :
    (kind : Diff2Kind) (pv pd : Option ℤ) (v : Diff2Value) (input : Option ℤ) {e' : Diff2Encoder}
    {s : NvrSymbol}
    → IsTypedKind kind
    → IsTyped v
    → input_value kind v ≡ ok input
    → observe_input (encoder kind pv pd true) input ≡ (e', symbol s)
    → (pv' pd' : Option ℤ) × (e' ≡ encoder kind pv' pd' true)
      × (decode_symbol (decoder kind pv pd) s ≡ ok (decoder kind pv' pd', decoded v))
observe_input_inv kind pv pd v none hk hv inp same =
    let back = input_value-none kind v pv pd inp in (pv, pd, cc, cc)
observe_input_inv kind pv pd v (some x) hk hv inp same =
    let (dom, out) = input_value_inv kind v hk hv inp in
    store_code_inv kind pv pd v x _ dom out refl same

-- One value: the two states stay in step.
observe_step :
    (kind : Diff2Kind) (pv pd : Option ℤ) (v : Diff2Value) {e' : Diff2Encoder} {s : NvrSymbol}
    → IsTypedKind kind
    → IsTyped v
    → observe_value (encoder kind pv pd true) v ≡ ok (e', symbol s)
    → (pv' pd' : Option ℤ) × (e' ≡ encoder kind pv' pd' true)
      × (decode_symbol (decoder kind pv pd) s ≡ ok (decoder kind pv' pd', decoded v))
unfolding observe_value
observe_step kind pv pd v hk hv h =
    let (input, inp, same) = >>=-eq-ok (input_value kind v) _ h in
    observe_input_inv kind pv pd v input hk hv inp cc

pub decode_symbols-observe_values_from :
    (kind : Diff2Kind) (pv pd : Option ℤ) (vs : List Diff2Value) (ss : List NvrSymbol)
    → IsTypedKind kind
    → All IsTyped vs
    → observe_values (encoder kind pv pd true) vs ≡ ok (map symbol ss)
    → decode_symbols (decoder kind pv pd) ss ≡ ok (map decoded vs)
unfolding observe_values decode_symbols
decode_symbols-observe_values_from kind pv pd [] [] hk hv h = refl
decode_symbols-observe_values_from kind pv pd [] (s ∷ ss) hk hv h = cc
decode_symbols-observe_values_from kind pv pd (v ∷ vs) [] hk (hv, hvs) h =
    let ((e', out), first, h₁) = >>=-eq-ok (observe_value (encoder kind pv pd true) v) _ h in
    let (rest, others, same) = >>=-eq-ok (observe_values e' vs) _ h₁ in cc
decode_symbols-observe_values_from kind pv pd (v ∷ vs) (s ∷ ss) hk (hv, hvs) h =
    let ((e', out), first, h₁) = >>=-eq-ok (observe_value (encoder kind pv pd true) v) _ h in
    let (rest, others, same) = >>=-eq-ok (observe_values e' vs) _ h₁ in
    let same_out : out ≡ symbol s = cc in
    let later : observe_values e' vs ≡ ok (map symbol ss) = cc in
    let here_in : observe_value (encoder kind pv pd true) v ≡ ok (e', symbol s) = cc in
    let (pv', pd', is, here) = observe_step kind pv pd v hk hv here_in in
    let later' : observe_values (encoder kind pv' pd' true) vs ≡ ok (map symbol ss) = cc in
    let others = decode_symbols-observe_values_from kind pv' pd' vs ss hk hvs later' in
    rw (here, others) refl

-- Every stream of a kind that the encoder takes without becoming unavailable comes back: when
-- the kind's bound and the values are of their Rust types and the new encoder turns the values
-- into the symbols `ss`, the new decoder turns `ss` into those values.
pub decode_symbols-observe_values :
    (kind : Diff2Kind) (vs : List Diff2Value) (ss : List NvrSymbol)
    → IsTypedKind kind
    → All IsTyped vs
    → observe_values (new_diff2_encoder kind) vs ≡ ok (map symbol ss)
    → decode_symbols (new_diff2_decoder kind) ss ≡ ok (map decoded vs)
unfolding new_diff2_encoder new_diff2_decoder
decode_symbols-observe_values kind vs ss hk hvs h =
    decode_symbols-observe_values_from kind none none vs ss hk hvs h
