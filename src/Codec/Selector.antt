-- ===== src/Codec/Selector.antt =====
-- core/src/codec/selector.rs: the values of a column, in the shorter of the fixed and the predicted
-- encoding. A slice that is written is a list of its length, and the result is the list that it
-- holds at the end.
pub mod Symbols
pub mod Decoded
pub mod Selected
pub mod RoundTrip
use litesdb.Base.{
  ℕ, zero, suc, ◌+◌, ◌^◌, ◌-◌, Bool, not, ◌&&◌, ◌||◌, Option, none, some, List, [], ◌∷◌,
}
use litesdb.Base.{◌++◌, Result, ok, err, ◌>>=◌, ◌>>◌, fail_if, ok_or, corruption, invalid_argument}
use litesdb.Base.{length, ltb, ◌==◌, if◌then◌else◌}
use litesdb.Base.Int.{try_from}
use litesdb.Types.Value.{CellValue, null, u_int_value, sq1_value, f32_value, ValueType, u_int, sq1}
use litesdb.Types.Value.{f32_bits, new_sq1}
use litesdb.Codec.Nvr.Token.{NvrSymbol, NvrPlan, values}
use litesdb.Codec.Nvr.Encode.{NvrMeasurer, new_measurer, new_encoder, finish_encoder, plan_eq}
use litesdb.Codec.Nvr.Decode as Nvr
use litesdb.Codec.Diff2.{Diff2Value, Diff2Encoder, Diff2Decoder, DecodedDiff2, Preprocessed, symbol}
use litesdb.Codec.Diff2.{observe_value, decode_symbol, new_diff2_encoder, new_diff2_decoder}
use litesdb.Codec.Diff2.{unsigned_kind, observe_xor, decode_xor}
use litesdb.Codec.Stream.{offer, encode_all, finish_option, counts_disagree, option_plan_eq}
use litesdb.Codec.Fixed.{FixedMeasurer, FixedPlan, kind_of_type, new_fixed_measurer, observe_fixed}
use litesdb.Codec.Fixed.{finish_fixed, fixed_plan_eq}
use litesdb.Codec.Fixed as Fixed
use litesdb.Codec.Fixed.Decode as FixedDecode

pub data ValueEncoding : Type 0 where
  fixed nvr : ValueEncoding

unfoldable pub value_tag : ValueEncoding → ℕ
value_tag fixed = 0
value_tag nvr = 1

unfoldable pub value_from_tag : ℕ → Result ValueEncoding
value_from_tag zero = ok fixed
value_from_tag (suc zero) = ok nvr
value_from_tag _ = err (corruption "value encoding" "unknown encoding tag")

pub record Selection : Type 0 where
  pub encoding : ValueEncoding
  pub fixed_plan : FixedPlan
  pub nvr_plan : Option NvrPlan

-- `Selection::byte_len`
unfoldable pub selected_len : ValueEncoding → FixedPlan → Option NvrPlan → ℕ
selected_len nvr fixed_plan (some plan) = plan.byte_len
selected_len nvr fixed_plan none = fixed_plan.byte_len
selected_len fixed fixed_plan plan = fixed_plan.byte_len

pub data Predictor : Type 0 where
  u_int_predictor : Diff2Encoder → Predictor
  sq1_predictor : Diff2Encoder → Predictor
  f32_predictor : Option ℕ → Predictor

unfoldable pub new_predictor : ValueType → Predictor
new_predictor u_int = u_int_predictor (new_diff2_encoder (unsigned_kind (2 ^ 64 - 1)))
new_predictor sq1 = sq1_predictor (new_diff2_encoder (unsigned_kind 254))
new_predictor f32_bits = f32_predictor none

abbrev pub rebuilt {ℓ} : {P S : Type 0} {R : Type ℓ} → (S → P) → Result (S × R) → Result (P × R)
rebuilt wrap result = result >>= λ (state, out). ok (wrap state, out)

abbrev pub xor_rebuilt : Option ℕ × NvrSymbol → Result (Predictor × Preprocessed)
xor_rebuilt (previous, out) = ok (f32_predictor previous, symbol out)

-- `Predictor::observe`
unfoldable pub observe_fact : Predictor → CellValue → Result (Predictor × Preprocessed)
observe_fact (u_int_predictor e) null = rebuilt u_int_predictor (observe_value e Diff2Value.null)
observe_fact (sq1_predictor e) null = rebuilt sq1_predictor (observe_value e Diff2Value.null)
observe_fact (u_int_predictor e) (u_int_value v) =
    rebuilt u_int_predictor (observe_value e (Diff2Value.unsigned v))
observe_fact (sq1_predictor e) (sq1_value c) =
    rebuilt sq1_predictor (observe_value e (Diff2Value.unsigned c))
observe_fact (f32_predictor previous) null = xor_rebuilt (observe_xor previous none)
observe_fact (f32_predictor previous) (f32_value b) = xor_rebuilt (observe_xor previous (some b))
observe_fact predictor fact = err (invalid_argument "facts" "value does not match selector type")

pub data Reconstructor : Type 0 where
  u_int_decoder : Diff2Decoder → Reconstructor
  sq1_decoder : Diff2Decoder → Reconstructor
  f32_decoder : Option ℕ → Reconstructor

unfoldable pub new_reconstructor : ValueType → Reconstructor
new_reconstructor u_int = u_int_decoder (new_diff2_decoder (unsigned_kind (2 ^ 64 - 1)))
new_reconstructor sq1 = sq1_decoder (new_diff2_decoder (unsigned_kind 254))
new_reconstructor f32_bits = f32_decoder none

unfoldable pub decode_sq1 : ℕ → Result CellValue
unfolding new_sq1
decode_sq1 value = do
  code ← ok_or (try_from 8 value) (corruption "selector" "SQ1 code does not fit byte")
  c ← ok_or (new_sq1 code) (corruption "selector" "SQ1 null code appeared as a non-null value")
  ok (sq1_value c)

unfoldable pub u_int_of : DecodedDiff2 → Result CellValue
u_int_of DecodedDiff2.null = ok null
u_int_of (DecodedDiff2.unsigned v) = ok (u_int_value v)
u_int_of (DecodedDiff2.timestamp t) = err (corruption "selector" "unexpected timestamp")

unfoldable pub sq1_of : DecodedDiff2 → Result CellValue
unfolding decode_sq1
sq1_of DecodedDiff2.null = ok null
sq1_of (DecodedDiff2.unsigned v) = decode_sq1 v
sq1_of (DecodedDiff2.timestamp t) = err (corruption "selector" "unexpected timestamp")

abbrev pub f32_of : Option ℕ → CellValue
f32_of none = null
f32_of (some b) = f32_value b

-- `Reconstructor::decode`
unfoldable pub reconstruct : Reconstructor → NvrSymbol → Result (Reconstructor × CellValue)
unfolding u_int_of sq1_of
reconstruct (u_int_decoder d) s = do
  (d', out) ← decode_symbol d s
  fact ← u_int_of out
  ok (u_int_decoder d', fact)
reconstruct (sq1_decoder d) s = do
  (d', out) ← decode_symbol d s
  fact ← sq1_of out
  ok (sq1_decoder d', fact)
reconstruct (f32_decoder previous) s = do
  (previous', bits) ← decode_xor previous s
  ok (f32_decoder previous', f32_of bits)

-- The loop over the facts: both measurers see a fact, the second while it is there.
unfoldable pub select_facts :
    FixedMeasurer
    → Predictor × Option NvrMeasurer
    → List CellValue
    → Result (FixedMeasurer × Predictor × Option NvrMeasurer)
unfolding observe_fact offer
select_facts m (predictor, measurer) [] = ok (m, predictor, measurer)
select_facts m state (fact ∷ facts) = do
  m' ← observe_fixed m fact
  state' ← offer observe_fact state fact
  select_facts m' state' facts

abbrev pub choose : FixedPlan → Option NvrPlan → ValueEncoding
choose fixed_plan none = fixed
choose fixed_plan (some plan) = if ltb plan.byte_len fixed_plan.byte_len then nvr else fixed

unfoldable pub select : List CellValue → ValueType → Result Selection
unfolding select_facts new_predictor
select facts value_type = do
  (m, _, measurer) ←
      select_facts (new_fixed_measurer (kind_of_type value_type))
        (new_predictor value_type, some (new_measurer values)) facts
  fixed_plan ← finish_fixed m
  plan ← finish_option measurer
  fail_if (counts_disagree plan fixed_plan.fact_count fixed_plan.null_count)
      (corruption "selector" "candidate counts disagree")
  ok (record { encoding = choose fixed_plan plan; fixed_plan = fixed_plan; nvr_plan = plan })

unfoldable pub selection_eq : Selection → Selection → Bool
unfolding value_tag
selection_eq a b =
    (value_tag a.encoding == value_tag b.encoding)
    && (fixed_plan_eq a.fixed_plan b.fixed_plan && option_plan_eq a.nvr_plan b.nvr_plan)

unfoldable pub encode_nvr : List CellValue → ValueType → Selection → List ℕ → Result (List ℕ)
unfolding observe_fact new_predictor
encode_nvr facts value_type selection output = do
  plan ← ok_or selection.nvr_plan (corruption "selector" "NVR plan is absent")
  fail_if (not (length output == plan.byte_len))
      (invalid_argument "output" "length must equal measured size")
  encoder ←
      encode_all observe_fact "selector" (new_predictor value_type) (new_encoder values output)
        facts
  (actual, out) ← finish_encoder encoder
  fail_if (not (plan_eq actual plan) || not (length out.written == plan.byte_len))
      (corruption "selector" "encoded result differs from plan")
  ok (out.written ++ out.room)

abbrev pub encode_as :
    ValueEncoding → List CellValue → ValueType → Selection → List ℕ → Result (List ℕ)
encode_as fixed facts value_type selection output = Fixed.encode facts selection.fixed_plan output
encode_as nvr facts value_type selection output = encode_nvr facts value_type selection output

unfoldable pub encode : List CellValue → ValueType → Selection → List ℕ → Result (List ℕ)
unfolding encode_nvr selection_eq
encode facts value_type selection output = do
  selected ← select facts value_type
  fail_if (not (selection_eq selected selection)) (corruption "selector" "encoding plan mismatch")
  encode_as selection.encoding facts value_type selection output

-- `symbols.into_iter().map(|symbol| decoder.decode(symbol)).collect()`
unfoldable pub reconstruct_all : Reconstructor → List NvrSymbol → Result (List CellValue)
unfolding reconstruct
reconstruct_all decoder [] = ok []
reconstruct_all decoder (s ∷ ss) = do
  (decoder', fact) ← reconstruct decoder s
  facts ← reconstruct_all decoder' ss
  ok (fact ∷ facts)

abbrev pub decode_as : ValueEncoding → ValueType → List ℕ → ℕ → ℕ → Result (List CellValue)
decode_as fixed value_type bytes fact_count null_count =
    FixedDecode.decode (kind_of_type value_type) bytes fact_count null_count
decode_as nvr value_type bytes fact_count null_count = do
  symbols ← Nvr.decode bytes values fact_count null_count
  reconstruct_all (new_reconstructor value_type) symbols

unfoldable pub decode : ValueType → ℕ → List ℕ → ℕ → ℕ → Result (List CellValue)
unfolding value_from_tag reconstruct_all new_reconstructor
decode value_type tag bytes fact_count null_count = do
  encoding ← value_from_tag tag
  decode_as encoding value_type bytes fact_count null_count
