-- ===== src/Examples/Codec.antt =====
-- The codecs at concrete inputs.
use litesdb.Base.{ℕ, ◌≡◌, refl, List, [], ◌∷◌, ok, err, arith, length, corruption}
use litesdb.Limits.{ensure_at_most}
use litesdb.Codec.Nvr.Token.{
  NvrSymbol, null, value, values, NvrPlan, observe_state, finish_nvr_state,
}
use litesdb.Codec.Nvr.Encode.{encode, measure, observe_all_encoder, finish_encoder, new_encoder}
use litesdb.Codec.Nvr.Encode.{token_len, write_token, add_token}
use litesdb.Codec.Nvr.Decode.{decode, scan_tokens, scan_loop, scan_token, parse_token, append_token}
use litesdb.Codec.Nvr.Runs.{count_nulls}
use litesdb.Codec.Nvr.RoundTrip.{decode-encode}

abbrev symbols : List NvrSymbol
symbols = value 300 ∷ value 0 ∷ value 0 ∷ null ∷ value 7 ∷ []

abbrev symbols_plan : NvrPlan
symbols_plan = record { byte_len = 5; fact_count = 5; null_count = 1 }

measure-symbols : measure symbols values ≡ ok symbols_plan
unfolding measure observe_state ensure_at_most token_len add_token finish_nvr_state
measure-symbols = refl

encode-symbols :
    encode symbols values symbols_plan (9 ∷ 9 ∷ 9 ∷ 9 ∷ 9 ∷ [])
    ≡ ok (0x6c ∷ 0x04 ∷ 0x82 ∷ 0xc1 ∷ 0x07 ∷ [])
unfolding encode measure observe_state ensure_at_most token_len add_token finish_nvr_state
    observe_all_encoder finish_encoder new_encoder write_token
encode-symbols = refl

decode-symbols : decode (0x6c ∷ 0x04 ∷ 0x82 ∷ 0xc1 ∷ 0x07 ∷ []) values 5 1 ≡ ok symbols
unfolding decode ensure_at_most scan_tokens scan_loop scan_token parse_token append_token
decode-symbols = refl

-- A literal that is padded with an empty continuation byte is refused.
decode_padded :
    decode (0x41 ∷ 0x00 ∷ []) values 1 0 ≡ err (corruption "NVR" "varint is not shortest")
unfolding decode ensure_at_most scan_tokens scan_loop scan_token parse_token append_token
decode_padded = refl

decode-encode_example :
    (p : NvrPlan) × (measure symbols values ≡ ok p)
    × (p.fact_count ≡ length symbols)
    × (p.null_count ≡ count_nulls symbols)
    × ((slice : List ℕ)
        → length slice ≡ p.byte_len
        → (bytes : List ℕ) × (encode symbols values p slice ≡ ok bytes)
          × (decode bytes values p.fact_count p.null_count ≡ ok symbols))
decode-encode_example =
    decode-encode values (value 300) (value 0 ∷ value 0 ∷ null ∷ value 7 ∷ [])
      (omega arith, (omega arith, (omega arith, (refl, (omega arith, tt))))) (omega arith)
