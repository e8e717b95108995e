-- ===== src/Codec/Nvr/Encode.antt =====
-- core/src/codec/nvr.rs: measuring and writing.
use litesdb.Base.{ℕ, ◌+◌, ◌/◌, ◌<◌, ◌^◌, Bool, true, false, Option, none, some}
use litesdb.Base.{List, [], ◌∷◌, ◌++◌, Result, ok, err, ◌>>=◌, ◌>>◌, fail_if, invalid_argument}
use litesdb.Base.{
  resource_exhausted, corruption, not, ltb, ◌==◌, if◌then◌else◌, arith, ◌&&◌, bit_and,
}
use litesdb.Base.{bit_or, length}
use litesdb.Base.Order.{lt_wf}
use litesdb.Codec.Nvr.Token.{NvrSymbol, NvrMode, NvrPlan, Token, first_payload_bits, payload}
use litesdb.Codec.Nvr.Token.{first_byte_parts, NvrState, new_state, observe_state, finish_nvr_state}
use mathlib.Core.Logic.{dite}
use mathlib.Core.WellFounded.{Acc}
use native.Mathlib.Decide.{dec_lt}

pub shift_shrinks : (r : ℕ) → 0 < r → r / 128 < r
shift_shrinks r h = omega arith

-- `while remaining != 0 { length += 1; remaining >>= 7 }`
unfoldable pub length_loop : (remaining : ℕ) → Acc ◌<◌ remaining → ℕ → ℕ
length_loop remaining (Acc.intro _ smaller) count =
    dite (dec_lt 0 remaining)
      (λ more. length_loop (remaining / 128) (smaller _ (shift_shrinks remaining more)) (count + 1))
      (λ _. count)

abbrev pub zero_payload : Token → Result (Unit {0})
zero_payload token = fail_if (payload token == 0) (corruption "NVR" "token payload must be nonzero")

-- A `u64` takes at most ten rounds, so the `u32` length cannot overflow.
unfoldable pub token_len : Token → Result ℕ
unfolding length_loop lt_wf dec_lt
token_len token = do
  zero_payload token
  let remaining = payload token / 2 ^ first_payload_bits token
  ok (length_loop remaining (lt_wf.apply remaining) 1)

pub record NvrMeasurer : Type 0 where
  pub state : NvrState
  pub byte_len : ℕ

unfoldable pub new_measurer : NvrMode → NvrMeasurer
unfolding new_state
new_measurer mode = record { state = new_state mode; byte_len = 0 }

unfoldable pub add_token : NvrMeasurer → Token → Result NvrMeasurer
add_token measurer token = do
  len ← token_len token
  if ltb (measurer.byte_len + len) (2 ^ 32)
      then ok (record measurer { byte_len = measurer.byte_len + len })
      else err (resource_exhausted "nvr_bytes" 18_446_744_073_709_551_615 4_294_967_295)

abbrev pub add_completed : NvrMeasurer → Option Token → Result NvrMeasurer
add_completed measurer none = ok measurer
add_completed measurer (some token) = add_token measurer token

-- `NvrMeasurer::observe`
unfoldable pub observe_measurer : NvrMeasurer → NvrSymbol → Result NvrMeasurer
observe_measurer measurer symbol = do
  (state, completed) ← observe_state measurer.state symbol
  add_completed (record measurer { state = state }) completed

-- `NvrMeasurer::finish`
unfoldable pub finish_measurer : NvrMeasurer → Result NvrPlan
finish_measurer measurer = do
  (token, fact_count, null_count) ← finish_nvr_state measurer.state
  m ← add_token measurer token
  ok (record { byte_len = m.byte_len; fact_count = fact_count; null_count = null_count })

unfoldable pub observe_all_measurer : NvrMeasurer → List NvrSymbol → Result NvrMeasurer
unfolding observe_measurer
observe_all_measurer measurer [] = ok measurer
observe_all_measurer measurer (symbol ∷ rest) = do
  m ← observe_measurer measurer symbol
  observe_all_measurer m rest

unfoldable pub measure : List NvrSymbol → NvrMode → Result NvrPlan
unfolding observe_all_measurer finish_measurer new_measurer
measure symbols mode = do m ← observe_all_measurer (new_measurer mode) symbols; finish_measurer m

-- `output` with `offset`: the bytes before the offset, and those from it on.
pub record Output : Type 0 where
  pub written : List ℕ
  pub room : List ℕ

unfoldable pub write_byte : Output → ℕ → Result Output
write_byte output byte = elim output.room [
  | [] ↦ err (corruption "NVR" "encoder exceeded measured output")
  | _ ∷ room ↦ ok (record { written = output.written ++ (byte ∷ []); room = room })
]

abbrev pub flag_if : Bool → ℕ → ℕ
flag_if true flag = flag
flag_if false flag = 0

-- `while remaining != 0 { ... }` of `write_token`
unfoldable pub write_loop : (remaining : ℕ) → Acc ◌<◌ remaining → Output → Result Output
write_loop remaining (Acc.intro _ smaller) output =
    dite (dec_lt 0 remaining)
      (λ more.
        let byte = bit_or (bit_and remaining 0x7f) (flag_if (not (remaining / 128 == 0)) 0x80) in
        write_byte output byte
        >>= write_loop (remaining / 128) (smaller _ (shift_shrinks remaining more)))
      (λ _. ok output)

unfoldable pub write_token : Token → Output → Result Output
unfolding write_byte write_loop lt_wf dec_lt
write_token token output = do
  zero_payload token
  let (tag, continuation, mask) = first_byte_parts token
  let remaining = payload token / 2 ^ first_payload_bits token
  let head = bit_or tag (bit_and (payload token) mask)
  out ← write_byte output (bit_or head (flag_if (not (remaining == 0)) continuation))
  write_loop remaining (lt_wf.apply remaining) out

pub record NvrEncoder : Type 0 where
  pub state : NvrState
  pub output : Output

unfoldable pub new_encoder : NvrMode → List ℕ → NvrEncoder
unfolding new_state
new_encoder mode slice = record {
  state = new_state mode;
  output = record { written = []; room = slice };
}

abbrev pub write_completed : Option Token → Output → Result Output
write_completed none output = ok output
write_completed (some token) output = write_token token output

-- `NvrEncoder::observe`
unfoldable pub observe_encoder : NvrEncoder → NvrSymbol → Result NvrEncoder
observe_encoder encoder symbol = do
  (state, completed) ← observe_state encoder.state symbol
  output ← write_completed completed encoder.output
  ok (record { state = state; output = output })

-- `NvrEncoder::finish`: the plan, with the slice as it is at the end.
unfoldable pub finish_encoder : NvrEncoder → Result (NvrPlan × Output)
finish_encoder encoder = do
  (token, fact_count, null_count) ← finish_nvr_state encoder.state
  output ← write_token token encoder.output
  fail_if (not (ltb (length output.written) (2 ^ 32)))
      (corruption "NVR" "written length does not fit u32")
  ok (
    record { byte_len = length output.written; fact_count = fact_count; null_count = null_count },
    output,
  )

unfoldable pub observe_all_encoder : NvrEncoder → List NvrSymbol → Result NvrEncoder
unfolding observe_encoder
observe_all_encoder encoder [] = ok encoder
observe_all_encoder encoder (symbol ∷ rest) = do
  e ← observe_encoder encoder symbol
  observe_all_encoder e rest

abbrev pub plan_eq : NvrPlan → NvrPlan → Bool
plan_eq a b =
    (a.byte_len == b.byte_len) && ((a.fact_count == b.fact_count) && (a.null_count == b.null_count))

-- The slice that the encoder leaves; the count that it returns is the length of it.
unfoldable pub encode : List NvrSymbol → NvrMode → NvrPlan → List ℕ → Result (List ℕ)
encode symbols mode plan slice = do
  measured ← measure symbols mode
  fail_if (not (plan_eq measured plan)) (corruption "NVR" "encoding plan mismatch")
  fail_if (not (length slice == plan.byte_len))
      (invalid_argument "output" "length must equal measured size")
  e ← observe_all_encoder (new_encoder mode slice) symbols
  (actual, output) ← finish_encoder e
  fail_if (not (plan_eq actual plan && (length output.written == plan.byte_len)))
      (corruption "NVR" "encoded result differs from plan")
  ok (output.written ++ output.room)
