-- ===== src/Codec/Diff2/Xor.antt =====
-- The exclusive-or of successive floats, in core/src/codec/diff2.rs.
use litesdb.Base.{ℕ, ◌<◌, ◌^◌, ◌≡◌, refl, arith, ltb, true, List, [], ◌∷◌, All, Option, none, some}
use litesdb.Base.{Result, ok, ◌>>=◌}
use litesdb.Base.Bits.{bit_xor_twice, bit_xor-lt}
use litesdb.Codec.Nvr.Token.{NvrSymbol}
use litesdb.Codec.Diff2.{xor_previous, observe_xor, decode_xor}

-- An absent value, or the bits of an `f32`.
abbrev pub IsBits : Option ℕ → Type 0
IsBits none = Unit {0}
IsBits (some bits) = bits < 2 ^ 32

unfoldable pub observe_xors : Option ℕ → List (Option ℕ) → List NvrSymbol
observe_xors previous [] = []
observe_xors previous (v ∷ vs) =
    let (previous', symbol) = observe_xor previous v in symbol ∷ observe_xors previous' vs

unfoldable pub decode_xors : Option ℕ → List NvrSymbol → Result (List (Option ℕ))
decode_xors previous [] = ok []
decode_xors previous (s ∷ ss) = do
  (previous', v) ← decode_xor previous s
  rest ← decode_xors previous' ss
  ok (v ∷ rest)

xor_previous_back :
    (previous : Option ℕ) (bits : ℕ) → xor_previous previous (xor_previous previous bits) ≡ bits
unfolding xor_previous
xor_previous_back none bits = refl
xor_previous_back (some previous) bits = bit_xor_twice previous bits

pub xor_previous-lt :
    (previous : Option ℕ) (bits : ℕ)
    → IsBits previous
    → bits < 2 ^ 32
    → xor_previous previous bits < 2 ^ 32
unfolding xor_previous
xor_previous-lt none bits hp h = h
xor_previous-lt (some previous) bits hp h = bit_xor-lt 32 previous bits hp h

pub decode_xor-observe_xor :
    (previous : Option ℕ) (bits : ℕ)
    → IsBits previous
    → bits < 2 ^ 32
    → decode_xor previous (NvrSymbol.value (xor_previous previous bits)) ≡ ok (some bits, some bits)
unfolding decode_xor
decode_xor-observe_xor previous bits hp h =
    let small : ltb (xor_previous previous bits) (2 ^ 32) ≡ true =
      ground (arith, xor_previous-lt previous bits hp h) in
    rw (small, xor_previous_back previous bits) refl

-- A decoder in the state of the encoder reads back every list of absent values and 32-bit
-- patterns that the encoder has turned into symbols, whatever 32-bit value came before.
pub decode_xors-observe_xors :
    (previous : Option ℕ) (vs : List (Option ℕ))
    → IsBits previous
    → All IsBits vs
    → decode_xors previous (observe_xors previous vs) ≡ ok vs
unfolding observe_xors decode_xors observe_xor decode_xor
decode_xors-observe_xors previous [] hp h = refl
decode_xors-observe_xors previous (none ∷ vs) hp (hv, hvs) =
    rw (decode_xors-observe_xors previous vs hp hvs) refl
decode_xors-observe_xors previous (some bits ∷ vs) hp (hv, hvs) =
    rw (decode_xor-observe_xor previous bits hp hv, decode_xors-observe_xors (some bits) vs hv hvs)
      refl
