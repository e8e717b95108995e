-- ===== src/Codec/Diff2.antt =====
-- core/src/codec/diff2.rs: the second-order predictor of integers and timestamps. The `i128`
-- arithmetic is checked as in the source; a value is an integer.
pub mod Inverse
pub mod RoundTrip
pub mod Available
pub mod Xor
pub mod Streams
use litesdb.Base.{ℕ, zero, suc, ◌+◌, ◌*◌, ◌/◌, ◌%◌, ◌^◌, ◌<◌, ◌≤◌, Bool, true, false, not, ◌&&◌}
use litesdb.Base.{Option, none, some, List, [], ◌∷◌, Result, ok, err, ◌>>=◌, ◌>>◌, fail_if, ok_or}
use litesdb.Base.{ltb, leb, ◌==◌, if◌then◌else◌, invalid_argument, corruption, bit_and, bit_xor}
use litesdb.Base.Int.{ℤ, pos, negsuc, ◌+ℤ◌, ◌-ℤ◌, leb_ℤ, checked_add_i128, checked_sub_i128}
use litesdb.Base.Int.{fits_i64, fits_i128}
use litesdb.Codec.Nvr.Token.{NvrSymbol}

pub data Diff2Value : Type 0 where
  null : Diff2Value
  unsigned : ℕ → Diff2Value
  timestamp : ℤ → Diff2Value

pub data DecodedDiff2 : Type 0 where
  null : DecodedDiff2
  unsigned : ℕ → DecodedDiff2
  timestamp : ℤ → DecodedDiff2

pub data Preprocessed : Type 0 where
  symbol : NvrSymbol → Preprocessed
  unavailable : Preprocessed

pub data Diff2Kind : Type 0 where
  unsigned_kind : ℕ → Diff2Kind
  timestamp_kind : Diff2Kind

pub record Diff2Encoder : Type 0 where
  pub kind : Diff2Kind
  pub previous_value : Option ℤ
  pub previous_delta : Option ℤ
  pub available : Bool

unfoldable pub new_diff2_encoder : Diff2Kind → Diff2Encoder
new_diff2_encoder kind = record {
  kind = kind;
  previous_value = none;
  previous_delta = none;
  available = true;
}

unfoldable pub input_value : Diff2Kind → Diff2Value → Result (Option ℤ)
input_value (unsigned_kind maximum) Diff2Value.null = ok none
input_value timestamp_kind Diff2Value.null =
    err (invalid_argument "timestamp" "timestamp stream cannot contain null")
input_value (unsigned_kind maximum) (Diff2Value.unsigned v) =
    if leb v maximum
    then ok (some (pos v))
    else err (invalid_argument "value" "unsigned value exceeds logical domain")
input_value timestamp_kind (Diff2Value.timestamp v) = ok (some v)
input_value (unsigned_kind maximum) (Diff2Value.timestamp v) =
    err (invalid_argument "value" "value kind does not match predictor")
input_value timestamp_kind (Diff2Value.unsigned v) =
    err (invalid_argument "value" "value kind does not match predictor")

-- A result of the checked `i128` operations, and its conversion to `u64`.
abbrev pub narrow : ℕ → Option ℕ
narrow n = if ltb n (2 ^ 127) then (if ltb n (2 ^ 64) then some n else none) else none

unfoldable pub zigzag : ℤ → Option ℕ
zigzag (pos n) = narrow (n * 2)
zigzag (negsuc n) = if ltb (suc n * 2) (2 ^ 127) then narrow (n * 2 + 1) else none

-- On a `u64` the shift, the addition and the negation cannot fail.
unfoldable pub unzigzag : ℕ → Result ℤ
unzigzag encoded =
    if bit_and encoded 1 == 0 then ok (pos (encoded / 2)) else ok (negsuc (encoded / 2))

-- `u64::try_from`
abbrev pub to_u64 : ℤ → Option ℕ
to_u64 (pos n) = if ltb n (2 ^ 64) then some n else none
to_u64 (negsuc n) = none

unfoldable pub first_code : Diff2Kind → ℤ → Option ℕ
first_code (unsigned_kind maximum) v = to_u64 v
first_code timestamp_kind v = zigzag v

abbrev pub then_some {ℓ κ} : {A : Type ℓ} {B : Type κ} → Option A → (A → Option B) → Option B
then_some none f = none
then_some (some a) f = f a

unfoldable pub predict : ℤ → Option ℤ → Option ℤ
predict delta none = some delta
predict delta (some previous_delta) = checked_sub_i128 delta previous_delta

-- `encode_first` and `encode_next`: the code, with the delta that is kept.
unfoldable pub encode_value : Diff2Encoder → ℤ → Option (ℕ × Option ℤ)
encode_value e v = elim e.previous_value [
  | none ↦ then_some (first_code e.kind v) (λ code. some (code, e.previous_delta))
  | some previous ↦ then_some (checked_sub_i128 v previous) (λ delta.
      then_some (predict delta e.previous_delta)
        (λ predicted. then_some (zigzag predicted) (λ code. some (code, some delta))))
]

abbrev pub store_code : Diff2Encoder → ℤ → Option (ℕ × Option ℤ) → Diff2Encoder × Preprocessed
store_code e v none = (record e { available = false }, unavailable)
store_code e v (some (code, delta)) =
    (record e { previous_value = some v; previous_delta = delta }, symbol (NvrSymbol.value code))

abbrev pub observe_input : Diff2Encoder → Option ℤ → Diff2Encoder × Preprocessed
observe_input e none = (e, symbol NvrSymbol.null)
observe_input e (some v) = store_code e v (encode_value e v)

-- `Diff2Encoder::observe`
unfoldable pub observe_value : Diff2Encoder → Diff2Value → Result (Diff2Encoder × Preprocessed)
observe_value e v = elim e.available [
  | false ↦ ok (e, unavailable)
  | true ↦ input_value e.kind v >>= λ input. ok (observe_input e input)
]

pub record Diff2Decoder : Type 0 where
  pub kind : Diff2Kind
  pub previous_value : Option ℤ
  pub previous_delta : Option ℤ

unfoldable pub new_diff2_decoder : Diff2Kind → Diff2Decoder
new_diff2_decoder kind = record { kind = kind; previous_value = none; previous_delta = none }

unfoldable pub validate_domain : Diff2Kind → ℤ → Result (Unit {0})
validate_domain (unsigned_kind maximum) v =
    if leb_ℤ (pos 0) v && leb_ℤ v (pos maximum)
    then ok tt
    else err (corruption "diff2" "unsigned value outside domain")
validate_domain timestamp_kind v =
    if fits_i64 v then ok tt else err (corruption "diff2" "timestamp outside i64 domain")

unfoldable pub first_value : Diff2Kind → ℕ → Result ℤ
first_value (unsigned_kind maximum) encoded = ok (pos encoded)
first_value timestamp_kind encoded = unzigzag encoded

unfoldable pub add_prediction : Option ℤ → ℤ → Result ℤ
add_prediction none predicted = ok predicted
add_prediction (some previous_delta) predicted =
    ok_or (checked_add_i128 previous_delta predicted) (corruption "diff2" "delta overflow")

-- `decode_first` and `decode_next`: the value, with the delta that is kept.
unfoldable pub decode_value : Diff2Decoder → ℕ → Result (ℤ × Option ℤ)
decode_value d encoded = elim d.previous_value [
  | none ↦ do v ← first_value d.kind encoded; validate_domain d.kind v; ok (v, d.previous_delta)
  | some previous ↦ do
    predicted ← unzigzag encoded
    delta ← add_prediction d.previous_delta predicted
    v ← ok_or (checked_add_i128 previous delta) (corruption "diff2" "value overflow")
    validate_domain d.kind v
    ok (v, some delta)
]

unfoldable pub output_value : Diff2Kind → ℤ → Result DecodedDiff2
output_value (unsigned_kind maximum) v =
    ok_or (to_u64 v) (corruption "diff2" "unsigned conversion failed") >>= λ n.
    ok (DecodedDiff2.unsigned n)
output_value timestamp_kind v =
    if fits_i64 v
    then ok (DecodedDiff2.timestamp v)
    else err (corruption "diff2" "timestamp conversion failed")

-- `Diff2Decoder::decode`
unfoldable pub decode_symbol : Diff2Decoder → NvrSymbol → Result (Diff2Decoder × DecodedDiff2)
decode_symbol d NvrSymbol.null = elim d.kind [
  | unsigned_kind maximum ↦ ok (d, DecodedDiff2.null)
  | timestamp_kind ↦ err (corruption "diff2" "timestamp stream contains null")
]
decode_symbol d (NvrSymbol.value encoded) = do
  (v, delta) ← decode_value d encoded
  out ← output_value d.kind v
  ok (record d { previous_value = some v; previous_delta = delta }, out)

-- `XorEncoder` and `XorDecoder` hold the bits of the previous value.
unfoldable pub xor_previous : Option ℕ → ℕ → ℕ
xor_previous none bits = bits
xor_previous (some previous) bits = bit_xor previous bits

-- `XorEncoder::observe`
unfoldable pub observe_xor : Option ℕ → Option ℕ → Option ℕ × NvrSymbol
observe_xor previous none = (previous, NvrSymbol.null)
observe_xor previous (some bits) = (some bits, NvrSymbol.value (xor_previous previous bits))

-- `XorDecoder::decode`
unfoldable pub decode_xor : Option ℕ → NvrSymbol → Result (Option ℕ × Option ℕ)
decode_xor previous NvrSymbol.null = ok (previous, none)
decode_xor previous (NvrSymbol.value encoded) =
    if ltb encoded (2 ^ 32)
    then ok (some (xor_previous previous encoded), some (xor_previous previous encoded))
    else err (corruption "F32 XOR" "encoded value exceeds u32")
