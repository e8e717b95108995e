-- ===== src/Codec/Nvr/Token.antt =====
-- core/src/codec/nvr.rs: symbols, tokens and the run-length state, which measuring and encoding
-- share.
use litesdb.Base.{ℕ, zero, suc, ◌+◌, ◌^◌, Bool, true, false, Option, none, some}
use litesdb.Base.{Result, ok, err, ◌>>=◌, ◌>>◌, invalid_argument}
use litesdb.Base.{resource_exhausted, ltb, if◌then◌else◌}
use litesdb.Limits.{ensure_at_most, section_rows, max_section_rows}

pub data NvrSymbol : Type 0 where
  null : NvrSymbol
  value : ℕ → NvrSymbol

pub data NvrMode : Type 0 where
  values timestamps : NvrMode

abbrev pub allows_null : NvrMode → Bool
allows_null values = true
allows_null timestamps = false

pub record NvrPlan : Type 0 where
  pub byte_len : ℕ
  pub fact_count : ℕ
  pub null_count : ℕ

pub data Token : Type 0 where
  lit : ℕ → Token
  zero_run : ℕ → Token
  null_run : ℕ → Token

abbrev pub first_payload_bits : Token → ℕ
first_payload_bits (lit _) = 6
first_payload_bits (zero_run _) = 5
first_payload_bits (null_run _) = 4

abbrev pub payload : Token → ℕ
payload (lit v) = v
payload (zero_run v) = v
payload (null_run v) = v

abbrev pub first_byte_parts : Token → ℕ × ℕ × ℕ
first_byte_parts (lit _) = (0x00, 0x40, 0x3f)
first_byte_parts (zero_run _) = (0x80, 0x20, 0x1f)
first_byte_parts (null_run _) = (0xc0, 0x10, 0x0f)

abbrev pub repeats_run : Token → Option Token → Bool
repeats_run (zero_run _) (some (zero_run _)) = true
repeats_run (null_run _) (some (null_run _)) = true
repeats_run _ _ = false

pub record NvrState : Type 0 where
  pub mode : NvrMode
  pub pending : Option Token
  pub fact_count : ℕ
  pub null_count : ℕ

unfoldable pub new_state : NvrMode → NvrState
new_state mode = record { mode = mode; pending = none; fact_count = 0; null_count = 0 }

-- The token of one symbol.
unfoldable pub symbol_token : NvrMode → NvrSymbol → Result Token
symbol_token mode (value zero) = ok (zero_run 1)
symbol_token mode (value (suc v)) = ok (lit (suc v))
symbol_token values null = ok (null_run 1)
symbol_token timestamps null =
    err (invalid_argument "symbols" "timestamp NVR stream cannot contain null")

-- The runs are counted in `u64`.
unfoldable pub add_run : ℕ → Result ℕ
add_run count =
    if ltb (count + 1) (2 ^ 64)
    then ok (count + 1)
    else err (resource_exhausted "section_rows" 18_446_744_073_709_551_615 max_section_rows)

-- The token that becomes pending, and the one that is complete.
unfoldable pub merge_token : Option Token → Token → Result (Token × Option Token)
unfolding add_run
merge_token none next = ok (next, none)
merge_token (some (zero_run count)) (zero_run _) = do n ← add_run count; ok (zero_run n, none)
merge_token (some (null_run count)) (null_run _) = do n ← add_run count; ok (null_run n, none)
merge_token (some previous) next = ok (next, some previous)

abbrev pub is_null : NvrSymbol → Bool
is_null null = true
is_null (value _) = false

-- The counts are `u32`.
abbrev pub add_u32 : ℕ → ℕ → Result ℕ
add_u32 count n =
    if ltb (count + n) (2 ^ 32)
    then ok (count + n)
    else err (resource_exhausted "section_rows" 18_446_744_073_709_551_615 max_section_rows)

unfoldable pub observe_state : NvrState → NvrSymbol → Result (NvrState × Option Token)
unfolding symbol_token merge_token
observe_state state symbol = do
  facts ← add_u32 state.fact_count 1
  ensure_at_most section_rows facts
  next ← symbol_token state.mode symbol
  (pending, completed) ← merge_token state.pending next
  nulls ← if is_null symbol then add_u32 state.null_count 1 else ok state.null_count
  ok (
    record { mode = state.mode; pending = some pending; fact_count = facts; null_count = nulls },
    completed,
  )

unfoldable pub finish_nvr_state : NvrState → Result (Token × ℕ × ℕ)
finish_nvr_state state = elim state.pending [
  | none ↦ err (invalid_argument "symbols" "NVR stream must not be empty")
  | some token ↦ ok (token, state.fact_count, state.null_count)
]
