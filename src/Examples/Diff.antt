-- ===== src/Examples/Diff.antt =====
-- The predictors at concrete inputs.
use litesdb.Base.{ℕ, ◌≡◌, refl, List, [], ◌∷◌, ok, arith, map, Option, none, some}
use litesdb.Codec.Nvr.Token.{NvrSymbol}
use litesdb.Codec.Diff2.{Diff2Value, unsigned_kind, new_diff2_encoder, new_diff2_decoder, symbol}
use litesdb.Codec.Diff2.{observe_value, input_value, encode_value, first_code, predict, zigzag}
use litesdb.Codec.Diff2.{observe_xor, xor_previous}
use litesdb.Codec.Diff2.RoundTrip.{
  observe_values, decode_symbols, decoded, decode_symbols-observe_values,
}
use litesdb.Codec.Diff2.Available.{decode_symbols-observe_values_within}
use litesdb.Codec.Diff2.Xor.{observe_xors, decode_xors, decode_xors-observe_xors}
use litesdb.Base.Int.{checked_sub_i128, ◌-ℤ◌}

abbrev counters : List Diff2Value
counters =
    Diff2Value.unsigned 5 ∷ Diff2Value.null ∷ Diff2Value.unsigned 9 ∷ Diff2Value.unsigned 12 ∷ []

abbrev counter_symbols : List NvrSymbol
counter_symbols = NvrSymbol.value 5 ∷ NvrSymbol.null ∷ NvrSymbol.value 8 ∷ NvrSymbol.value 1 ∷ []

observe-counters :
    observe_values (new_diff2_encoder (unsigned_kind 1000)) counters
    ≡ ok (map symbol counter_symbols)
unfolding observe_values new_diff2_encoder observe_value input_value encode_value first_code predict
    zigzag checked_sub_i128 ◌-ℤ◌
observe-counters = refl

decode_symbols-observe_values_example :
    decode_symbols (new_diff2_decoder (unsigned_kind 1000)) counter_symbols
    ≡ ok (map decoded counters)
decode_symbols-observe_values_example =
    decode_symbols-observe_values (unsigned_kind 1000) counters counter_symbols (omega arith)
      (omega arith, (tt, (omega arith, (omega arith, tt)))) observe-counters

abbrev floats : List (Option ℕ)
floats = some 0x3f80_0000 ∷ none ∷ some 0x3f80_0001 ∷ []

observe-floats :
    observe_xors none floats ≡ NvrSymbol.value 0x3f80_0000 ∷ NvrSymbol.null ∷ NvrSymbol.value 1 ∷ []
unfolding observe_xors observe_xor xor_previous
observe-floats = refl

decode_xors-observe_xors_example : decode_xors none (observe_xors none floats) ≡ ok floats
decode_xors-observe_xors_example =
    decode_xors-observe_xors none floats tt (omega arith, (tt, (omega arith, tt)))

decode_symbols-observe_values_within_example :
    (ss : List NvrSymbol) × (observe_values (new_diff2_encoder (unsigned_kind 1000)) counters
      ≡ ok (map symbol ss))
    × (decode_symbols (new_diff2_decoder (unsigned_kind 1000)) ss ≡ ok (map decoded counters))
decode_symbols-observe_values_within_example =
    decode_symbols-observe_values_within 1000 counters (omega arith)
      (omega arith, (tt, (omega arith, (omega arith, tt))))
