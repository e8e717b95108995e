-- ===== src/Codec/Nvr/Decode.antt =====
-- core/src/codec/nvr_decode.rs: reading tokens back.
use litesdb.Base.{ℕ, zero, suc, ◌+◌, ◌*◌, ◌/◌, ◌%◌, ◌^◌, Bool, true, false}
use litesdb.Base.{List, [], ◌∷◌, ◌++◌, Result, ok, err, ◌>>=◌, ◌>>◌, fail_if, Option, none, some}
use litesdb.Base.{corruption, not, ltb, leb, ◌==◌, if◌then◌else◌, ◌&&◌, ◌||◌, bit_and}
use litesdb.Base.{bit_or, length, replicate}
use litesdb.Limits.{ensure_at_most, section_rows}
use litesdb.Codec.Nvr.Token.{
  NvrSymbol, null, value, NvrMode, allows_null, Token, lit, zero_run, null_run,
}
use litesdb.Codec.Nvr.Token.{repeats_run}

-- The kind, the continuation flag, the mask and the payload bits of a first byte.
unfoldable pub first_parts : ℕ → Result (ℕ × Bool × ℕ × ℕ)
first_parts first =
    if bit_and first 0x80 == 0
    then ok (0, not (bit_and first 0x40 == 0), 0x3f, 6)
    else if bit_and first 0xc0 == 0x80
    then ok (1, not (bit_and first 0x20 == 0), 0x1f, 5)
    else if bit_and first 0xe0 == 0xc0
    then ok (2, not (bit_and first 0x10 == 0), 0x0f, 4)
    else err (corruption "NVR" "reserved token tag")

abbrev pub u64_max : ℕ
u64_max = 18_446_744_073_709_551_615

-- `while more`, entered with `more` set. `checked_shr` and `checked_shl` fail from a shift of 64 on.
unfoldable pub more_loop : List ℕ → ℕ → ℕ → ℕ → Result (ℕ × List ℕ)
more_loop [] payload shift count =
    if count == 10
    then err (corruption "NVR" "token exceeds ten bytes")
    else err (corruption "NVR" "truncated continuation")
more_loop (byte ∷ rest) payload shift count =
    let chunk = bit_and byte 0x7f in
    let payload' = bit_or payload (chunk * 2 ^ shift % 2 ^ 64) in
    let again = more_loop rest payload' (shift + 7) (count + 1) in
    if count == 10
    then err (corruption "NVR" "token exceeds ten bytes")
    else if leb 64 shift
    then err (corruption "NVR" "continuation shift overflow")
    else if ltb (u64_max / 2 ^ shift) chunk
    then err (corruption "NVR" "token payload exceeds u64")
    else if not (bit_and byte 0x80 == 0)
    then again
    else if chunk == 0
    then err (corruption "NVR" "varint is not shortest")
    else ok (payload', rest)

unfoldable pub read_payload : Bool → List ℕ → ℕ → ℕ → Result (ℕ × List ℕ)
unfolding more_loop
read_payload false rest payload shift = ok (payload, rest)
read_payload true rest payload shift = more_loop rest payload shift 1

unfoldable pub token_of : ℕ → ℕ → Result Token
token_of zero payload = ok (lit payload)
token_of (suc zero) payload = ok (zero_run payload)
token_of (suc (suc zero)) payload = ok (null_run payload)
token_of _ payload = err (corruption "NVR" "unknown parsed token kind")

-- The token, and the bytes behind it.
unfoldable pub parse_token : List ℕ → Result (Token × List ℕ)
unfolding first_parts read_payload token_of
parse_token [] = err (corruption "NVR" "token starts beyond input")
parse_token (first ∷ rest) = do
  (kind, continuation, mask, bits) ← first_parts first
  (payload, next) ← read_payload continuation rest (bit_and first mask) bits
  fail_if (payload == 0) (corruption "NVR" "token payload must be nonzero")
  token ← token_of kind payload
  ok (token, next)

abbrev pub is_null_run : Token → Bool
is_null_run (null_run _) = true
is_null_run _ = false

unfoldable pub represented : Token → Result ℕ
represented (lit _) = ok 1
represented (zero_run count) =
    if ltb count (2 ^ 32) then ok count else err (corruption "NVR" "run length exceeds row domain")
represented (null_run count) =
    if ltb count (2 ^ 32) then ok count else err (corruption "NVR" "run length exceeds row domain")

abbrev pub checked_count : ℕ → ℕ → Result ℕ
checked_count a b =
    if ltb (a + b) (2 ^ 32) then ok (a + b) else err (corruption "NVR" "fact count overflow")

abbrev pub add_nulls : Token → ℕ → ℕ → Result ℕ
add_nulls token nulls n =
    if is_null_run token
    then (if ltb (nulls + n) (2 ^ 32)
        then ok (nulls + n)
        else err (corruption "NVR" "null count overflow"))
    else ok nulls

pub record ScanState : Type 0 where
  pub facts : ℕ
  pub nulls : ℕ
  pub previous : Option Token

-- The body of the loop of `scan_tokens`, up to the call of `emit`.
unfoldable pub scan_token : NvrMode → ℕ → ScanState → Token → Result ScanState
unfolding represented
scan_token mode maximum s token = do
  fail_if (repeats_run token s.previous) (corruption "NVR" "adjacent equal runs must be merged")
  fail_if (is_null_run token && not (allows_null mode))
      (corruption "NVR" "timestamp stream contains NRUN")
  n ← represented token
  facts ← checked_count s.facts n
  fail_if (ltb maximum facts) (corruption "NVR" "tokens exceed expected fact count")
  nulls ← add_nulls token s.nulls n
  ok (record { facts = facts; nulls = nulls; previous = some token })

-- The loop, with what `emit` collects. Each round takes a byte at least, so as many rounds as bytes
-- are enough; the error of a loop that has used them up is no error of the program.
module _ {ℓ} {E : Type ℓ} (emit : Token → E → Result E) where
  unfoldable pub scan_loop : ℕ → NvrMode → ℕ → List ℕ → ScanState → E → Result (ScanState × E)
  scan_loop fuel mode maximum [] s collected = ok (s, collected)
  scan_loop zero mode maximum (byte ∷ bytes) s collected = err (corruption "NVR" "no round left")
  scan_loop (suc fuel) mode maximum (byte ∷ bytes) s collected = do
    (token, next) ← parse_token (byte ∷ bytes)
    s' ← scan_token mode maximum s token
    collected' ← emit token collected
    scan_loop fuel mode maximum next s' collected'

  unfoldable pub scan_tokens : List ℕ → NvrMode → ℕ → E → Result (ScanState × E)
  scan_tokens [] mode maximum collected = err (corruption "NVR" "value stream is empty")
  scan_tokens (byte ∷ bytes) mode maximum collected =
      scan_loop (length (byte ∷ bytes)) mode maximum (byte ∷ bytes)
        (record { facts = 0; nulls = 0; previous = none }) collected

-- The symbols of a token.
unfoldable pub expand : Token → List NvrSymbol
expand (lit v) = value v ∷ []
expand (zero_run count) = replicate count (value 0)
expand (null_run count) = replicate count null

-- `append_token`: a decoded length never reaches `usize::MAX`.
unfoldable pub append_token : Token → List NvrSymbol → Result (List NvrSymbol)
unfolding expand
append_token token output = ok (output ++ expand token)

abbrev pub emit_nothing : Token → Unit {0} → Result (Unit {0})
emit_nothing token u = ok u

unfoldable pub decode : List ℕ → NvrMode → ℕ → ℕ → Result (List NvrSymbol)
decode bytes mode expected_facts expected_nulls = do
  fail_if (expected_facts == 0) (corruption "NVR" "fact count must be positive")
  ensure_at_most section_rows expected_facts
  fail_if (ltb expected_facts expected_nulls) (corruption "NVR" "null count exceeds fact count")
  (counts, _) ← scan_tokens emit_nothing bytes mode expected_facts tt
  fail_if (not (counts.facts == expected_facts) || not (counts.nulls == expected_nulls))
      (corruption "NVR" "token counts disagree with directory")
  (_, symbols) ← scan_tokens append_token bytes mode expected_facts []
  fail_if (not (length symbols == expected_facts)) (corruption "NVR" "decoded symbol count changed")
  ok symbols
