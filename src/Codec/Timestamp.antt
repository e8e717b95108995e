-- ===== src/Codec/Timestamp.antt =====
-- core/src/codec/timestamp.rs: the timestamps of a section, in the shorter of two encodings. A slice
-- that is written is a list of its length, and the result is the list that it holds at the end.
pub mod Symbols
pub mod Fixed
pub mod RoundTrip
pub mod Sound
use litesdb.Base.{ℕ, zero, suc, ◌+◌, ◌*◌, ◌/◌, ◌%◌, ◌^◌, Bool, true, false, not, ◌&&◌, ◌||◌, map}
use litesdb.Base.{Option, none, some, List, [], ◌∷◌, ◌++◌, Result, ok, err, ◌>>=◌, ◌>>◌, fail_if}
use litesdb.Base.{ok_or, ltb, leb, ◌==◌, if◌then◌else◌, invalid_argument, corruption, length}
use litesdb.Base.{resource_exhausted, any_adjacent, last?, get_elem?}
use litesdb.Base.Int.{ℤ, leb_ℤ, eqb_ℤ, try_from, checked_mul}
use litesdb.Base.Bytes.{from_le_bytes, i64_from_bits}
use litesdb.Base.Cursor.{split_exact, put_i64}
use litesdb.Limits.{ensure_at_most, section_rows, max_section_rows}
use litesdb.Codec.Nvr.Token.{NvrSymbol, NvrPlan, timestamps}
use litesdb.Codec.Nvr.Encode.{
  NvrMeasurer, new_measurer, finish_measurer, new_encoder, finish_encoder,
}
use litesdb.Codec.Nvr.Encode.{plan_eq}
use litesdb.Codec.Nvr.Decode as Nvr
use litesdb.Codec.Diff2.{Diff2Value, Diff2Encoder, observe_value, new_diff2_encoder, timestamp_kind}
use litesdb.Codec.Diff2.{Preprocessed, Diff2Decoder, new_diff2_decoder, decode_symbol, DecodedDiff2}
use litesdb.Codec.Stream.{offer_all, encode_all, finish_option, counts_disagree, option_plan_eq}

pub data TimestampEncoding : Type 0 where
  fixed nvr : TimestampEncoding

unfoldable pub encoding_tag : TimestampEncoding → ℕ
encoding_tag fixed = 0
encoding_tag nvr = 1

unfoldable pub encoding_from_tag : ℕ → Result TimestampEncoding
encoding_from_tag zero = ok fixed
encoding_from_tag (suc zero) = ok nvr
encoding_from_tag _ = err (corruption "timestamp encoding" "unknown encoding tag")

pub record TimestampPlan : Type 0 where
  pub encoding : TimestampEncoding
  pub fixed_len : ℕ
  pub nvr_plan : Option NvrPlan
  pub row_count : ℕ

unfoldable pub chosen_len : TimestampEncoding → ℕ → Option NvrPlan → ℕ
chosen_len nvr fixed_len (some plan) = plan.byte_len
chosen_len fixed fixed_len plan = fixed_len
chosen_len nvr fixed_len none = fixed_len

abbrev pub plan_len : TimestampPlan → ℕ
plan_len plan = chosen_len plan.encoding plan.fixed_len plan.nvr_plan

unfoldable pub validate_row_count : ℕ → Result (Unit {0})
validate_row_count row_count = do
  fail_if (row_count == 0) (corruption "timestamps" "row count must be positive")
  ensure_at_most section_rows row_count

abbrev pub disordered : List ℤ → Bool
disordered ts = any_adjacent (λ a b. leb_ℤ b a) ts

unfoldable pub validate_source : List ℤ → Result ℕ
unfolding validate_row_count
validate_source ts = do
  row_count ←
      ok_or (try_from 32 (length ts))
        (resource_exhausted "section_rows" 18_446_744_073_709_551_615 max_section_rows)
  validate_row_count row_count
  fail_if (disordered ts)
      (invalid_argument "timestamps" "section timestamps must be strictly increasing")
  ok row_count

-- `predictor.observe(Diff2Value::Timestamp(*timestamp))`
abbrev pub observe_timestamp : Diff2Encoder → ℤ → Result (Diff2Encoder × Preprocessed)
observe_timestamp e t = observe_value e (Diff2Value.timestamp t)

unfoldable pub choose_encoding : Option NvrPlan → ℕ → TimestampEncoding
choose_encoding none fixed_len = fixed
choose_encoding (some plan) fixed_len = if ltb plan.byte_len fixed_len then nvr else fixed

unfoldable pub select : List ℤ → Result TimestampPlan
unfolding validate_source choose_encoding
select ts = do
  row_count ← validate_source ts
  fixed_len ←
      ok_or (checked_mul 32 row_count 8)
        (resource_exhausted "timestamp_bytes" 18_446_744_073_709_551_615 4_294_967_295)
  (_, measurer) ←
      offer_all observe_timestamp (new_diff2_encoder timestamp_kind, some (new_measurer timestamps))
        ts
  plan ← finish_option measurer
  fail_if (counts_disagree plan row_count 0)
      (corruption "timestamp selector" "candidate counts disagree")
  ok (record {
    encoding = choose_encoding plan fixed_len;
    fixed_len = fixed_len;
    nvr_plan = plan;
    row_count = row_count;
  })

abbrev encoding_eq : TimestampEncoding → TimestampEncoding → Bool
encoding_eq a b = encoding_tag a == encoding_tag b

unfoldable pub timestamp_plan_eq : TimestampPlan → TimestampPlan → Bool
unfolding encoding_tag
timestamp_plan_eq a b =
    (encoding_eq a.encoding b.encoding && (a.fixed_len == b.fixed_len))
    && (option_plan_eq a.nvr_plan b.nvr_plan && (a.row_count == b.row_count))

-- `for (timestamp, chunk) in timestamps.iter().zip(output.chunks_exact_mut(8))`
unfoldable pub write_chunks : List ℤ → List ℕ → List ℕ
write_chunks [] output = output
write_chunks (t ∷ ts) output = elim (split_exact 8 output) [
  | none ↦ output
  | some (chunk, rest) ↦ put_i64 t ++ write_chunks ts rest
]

unfoldable pub encode_fixed : List ℤ → List ℕ → Result (List ℕ)
unfolding write_chunks
encode_fixed ts output = do
  let written = write_chunks ts output
  fail_if (not (length output % 8 == 0))
      (corruption "timestamp selector" "fixed output is not i64 aligned")
  ok written

unfoldable pub encode_nvr : List ℤ → TimestampPlan → List ℕ → Result (List ℕ)
encode_nvr ts plan output = do
  expected_plan ← ok_or plan.nvr_plan (corruption "timestamp selector" "NVR plan is absent")
  encoder ←
      encode_all observe_timestamp "timestamp selector" (new_diff2_encoder timestamp_kind)
        (new_encoder timestamps output) ts
  (actual, out) ← finish_encoder encoder
  fail_if (not (plan_eq actual expected_plan) || not (length out.written == length output))
      (corruption "timestamp selector" "encoded result differs from plan")
  ok (out.written ++ out.room)

abbrev pub encode_as : TimestampEncoding → List ℤ → TimestampPlan → List ℕ → Result (List ℕ)
encode_as fixed ts plan output = encode_fixed ts output
encode_as nvr ts plan output = encode_nvr ts plan output

unfoldable pub encode : List ℤ → TimestampPlan → List ℕ → Result (List ℕ)
unfolding encode_fixed encode_nvr timestamp_plan_eq chosen_len
encode ts plan output = do
  selected ← select ts
  fail_if (not (timestamp_plan_eq selected plan))
      (corruption "timestamp selector" "encoding plan mismatch")
  fail_if (not (length output == plan_len plan))
      (invalid_argument "output" "length must equal measured size")
  encode_as plan.encoding ts plan output

-- `chunks_exact(8)` as a list of slices.
unfoldable pub chunks : ℕ → List ℕ → List (List ℕ)
chunks zero bytes = []
chunks (suc n) bytes = elim (split_exact 8 bytes) [
  | none ↦ []
  | some (chunk, rest) ↦ chunk ∷ chunks n rest
]

-- A chunk has eight bytes, so its conversion to an array cannot fail.
unfoldable pub decode_fixed : List ℕ → ℕ → Result (List ℤ)
unfolding chunks
decode_fixed bytes row_count = do
  expected ← ok_or (checked_mul 32 row_count 8) (corruption "timestamps" "fixed length overflow")
  fail_if (not (length bytes == expected)) (corruption "timestamps" "fixed stream length mismatch")
  ok (map (λ chunk. i64_from_bits (from_le_bytes chunk)) (chunks (length bytes / 8) bytes))

unfoldable pub timestamp_of : DecodedDiff2 → Result ℤ
timestamp_of (DecodedDiff2.timestamp t) = ok t
timestamp_of DecodedDiff2.null =
    err (corruption "timestamps" "inverse predictor returned a non-timestamp")
timestamp_of (DecodedDiff2.unsigned n) =
    err (corruption "timestamps" "inverse predictor returned a non-timestamp")

-- `symbols.into_iter().map(|symbol| match predictor.decode(symbol)? { ... }).collect()`
unfoldable pub decode_all : Diff2Decoder → List NvrSymbol → Result (List ℤ)
unfolding timestamp_of
decode_all d [] = ok []
decode_all d (s ∷ ss) = do
  (d', out) ← decode_symbol d s
  t ← timestamp_of out
  ts ← decode_all d' ss
  ok (t ∷ ts)

unfoldable pub decode_nvr : List ℕ → ℕ → Result (List ℤ)
unfolding decode_all
decode_nvr bytes row_count = do
  symbols ← Nvr.decode bytes timestamps row_count 0
  decode_all (new_diff2_decoder timestamp_kind) symbols

abbrev pub is_timestamp : ℤ → Option ℤ → Bool
is_timestamp expected none = false
is_timestamp expected (some t) = eqb_ℤ t expected

unfoldable pub validate_decoded : List ℤ → ℤ → ℤ → Result (Unit {0})
validate_decoded ts expected_min expected_max =
    fail_if
      (not (is_timestamp expected_min (get_elem? ts 0))
        || (not (is_timestamp expected_max (last? ts)) || disordered ts))
      (corruption "timestamps" "decoded order or range disagrees with directory")

abbrev pub decode_as : TimestampEncoding → List ℕ → ℕ → Result (List ℤ)
decode_as fixed bytes row_count = decode_fixed bytes row_count
decode_as nvr bytes row_count = decode_nvr bytes row_count

unfoldable pub decode : ℕ → List ℕ → ℕ → ℤ → ℤ → Result (List ℤ)
unfolding decode_fixed decode_nvr validate_decoded validate_row_count encoding_from_tag
decode tag bytes row_count expected_min expected_max = do
  validate_row_count row_count
  encoding ← encoding_from_tag tag
  ts ← decode_as encoding bytes row_count
  validate_decoded ts expected_min expected_max
  ok ts
