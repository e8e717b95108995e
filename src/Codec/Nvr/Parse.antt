-- ===== src/Codec/Nvr/Parse.antt =====
-- `parse_token` reads back the bytes of a token, whatever follows them.
use litesdb.Base.{ℕ, zero, suc, ◌+◌, ◌*◌, ◌/◌, ◌%◌, ◌≤◌, ◌<◌, ◌^◌, ◌≡◌, refl, ap}
use litesdb.Base.{List, [], ◌∷◌, ◌++◌, ok}
use litesdb.Base.{Bool, true, false, not, ◌==◌, arith, bit_and, bit_or}
use litesdb.Base.{Bool-cases, inl, inr}
use litesdb.Base.Bits.{
  bit_and-15, bit_and-31, bit_and-63, bit_and-127, bit_or-above, bit_7, agree_below_sound,
}
use litesdb.Codec.Nvr.Token.{Token, lit, zero_run, null_run}
use litesdb.Codec.Nvr.Encode.{flag_if}
use litesdb.Codec.Nvr.Decode.{parse_token, read_payload, more_loop, first_parts, u64_max}
use litesdb.Codec.Nvr.Bytes.{IsToken, groups, token_bytes}
use native.Mathlib.Nat.{pow-suc, le-div_iff_mul-le, one-le-pow, div-add-mod}
use native.Mathlib.Decide.{dec_lt}
use native.Mathlib.Numerals.{towards_suc}

fits_shift : (c s : ℕ) → c * 2 ^ s < 2 ^ 64 → c ≤ u64_max / 2 ^ s
fits_shift c s h = (le-div_iff_mul-le (omega (arith, one-le-pow s 2))).1 (omega arith)

mod_small : (x : ℕ) → x < 2 ^ 64 → x % 2 ^ 64 ≡ x
mod_small x h = omega arith

seven_more : (s : ℕ) → 2 ^ (s + 7) ≡ 128 * 2 ^ s
seven_more s = simp towards_suc (omega arith)

-- The lowest seven bits of `r` and the rest, both shifted.
split_low : (r s : ℕ) → r * 2 ^ s ≡ r % 128 * 2 ^ s + r / 128 * 2 ^ (s + 7)
split_low r s = omega (
  arith,
  ap (λ (t : ℕ). t * 2 ^ s) (div-add-mod r 128),
  ap (λ (t : ℕ). r / 128 * t) (seven_more s),
)

-- What one byte adds to the payload.
add_chunk :
    (p r s byte : ℕ)
    → p < 2 ^ s
    → p + r * 2 ^ s < 2 ^ 64
    → bit_and byte 0x7f ≡ r
    → bit_or p (bit_and byte 0x7f * 2 ^ s % 2 ^ 64) ≡ p + r * 2 ^ s
add_chunk p r s byte hp h e = rw (e, mod_small (r * 2 ^ s) (omega arith)) (bit_or-above s p r hp)

-- A last byte, and one that another follows.
last_byte :
    (r p s n : ℕ) (rest : List ℕ)
    → 0 < r
    → r < 128
    → p < 2 ^ s
    → p + r * 2 ^ s < 2 ^ 64
    → n < 10
    → s < 64
    → more_loop (r ∷ rest) p s n ≡ ok (p + r * 2 ^ s, rest)
unfolding more_loop
last_byte r p s n rest pos small hp h hn hs =
    ground (arith, bit_and-127 r, bit_7 r, add_chunk p r s r, fits_shift r s)

inner_byte :
    (g p s n : ℕ) (rest : List ℕ)
    → g < 128
    → p < 2 ^ s
    → p + g * 2 ^ s < 2 ^ 64
    → n < 10
    → s < 64
    → more_loop ((g + 128) ∷ rest) p s n ≡ more_loop rest (p + g * 2 ^ s) (s + 7) (n + 1)
unfolding more_loop
inner_byte g p s n rest small hp h hn hs =
    ground
      (arith, bit_and-127 (g + 128), bit_7 (g + 128), add_chunk p g s (g + 128), fits_shift g s)

groups-zero : (k : ℕ) → groups k 0 ≡ []
unfolding groups
groups-zero zero = refl
groups-zero (suc k) = refl

groups_last : (k r : ℕ) → 0 < r → r < 128 → groups (suc k) r ≡ r ∷ []
unfolding groups
groups_last k r pos small =
    let low : r / 128 ≡ 0 = omega arith in rw (low, groups-zero k) (ground arith)

groups_inner : (k r : ℕ) → 128 ≤ r → groups (suc k) r ≡ (r % 128 + 128) ∷ groups k (r / 128)
unfolding groups
groups_inner k r big = ground arith

power_room : (p g s : ℕ) → p < 2 ^ s → g < 128 → p + g * 2 ^ s < 2 ^ (s + 7)
power_room p g s hp hg = rw seven_more (grind arith)

more_loop-groups :
    (k r p s n : ℕ) (rest : List ℕ)
    → 0 < r
    → r < 128 ^ k
    → p < 2 ^ s
    → p + r * 2 ^ s < 2 ^ 64
    → n + k ≤ 10
    → s + 1 ≤ 7 * n
    → more_loop (groups k r ++ rest) p s n ≡ ok (p + r * 2 ^ s, rest)
more_loop-groups zero r p s n rest pos h hp fits hn hs = absurd (omega arith)
more_loop-groups (suc k) r p s n rest pos h hp fits hn hs = elim (dec_lt r 128) [
  | yes small ↦
      rw (groups_last k r pos small)
        (last_byte r p s n rest pos small hp fits (omega arith) (omega arith))
  | no big ↦
      rw
        (
          groups_inner k r (omega arith),
          inner_byte (r % 128) p s n (groups k (r / 128) ++ rest) (omega arith) hp
              (omega (arith, split_low r s)) (omega arith) (omega arith),
          more_loop-groups k (r / 128) (p + r % 128 * 2 ^ s) (s + 7) (n + 1) rest (omega arith)
              (omega (arith, pow-suc 128 k)) (power_room p (r % 128) s hp (omega arith))
              (omega (arith, split_low r s)) (omega arith) (omega arith),
        )
        (ap (λ t. ok (t, rest)) (omega (arith, split_low r s)))
]

ruleset head_masks = (bit_and-15, bit_and-31, bit_and-63)

-- The classification of a first byte, by its tag bits.
mask_table :
    (b : ℕ)
    → b < 256
    → (bit_and b 0xc0 ≡ b / 64 * 64)
      × (bit_and b 0xe0 ≡ b / 32 * 32)
      × (bit_and b 0x40 ≡ b / 64 % 2 * 64)
      × (bit_and b 0x20 ≡ b / 32 % 2 * 32)
      × (bit_and b 0x10 ≡ b / 16 % 2 * 16)
mask_table b h = (
  agree_below_sound 256 (λ b. bit_and b 0xc0) (λ b. b / 64 * 64) refl b h,
  agree_below_sound 256 (λ b. bit_and b 0xe0) (λ b. b / 32 * 32) refl b h,
  agree_below_sound 256 (λ b. bit_and b 0x40) (λ b. b / 64 % 2 * 64) refl b h,
  agree_below_sound 256 (λ b. bit_and b 0x20) (λ b. b / 32 % 2 * 32) refl b h,
  agree_below_sound 256 (λ b. bit_and b 0x10) (λ b. b / 16 % 2 * 16) refl b h,
)

first_parts_lit : (q : ℕ) (b : Bool) → q < 64 → first_parts (q + flag_if b 64) ≡ ok (0, b, 0x3f, 6)
unfolding first_parts
first_parts_lit q b h = ground (arith, bit_7 (q + flag_if b 64), mask_table (q + flag_if b 64))

first_parts_zero :
    (q : ℕ) (b : Bool) → q < 32 → first_parts (0x80 + q + flag_if b 32) ≡ ok (1, b, 0x1f, 5)
unfolding first_parts
first_parts_zero q b h =
    ground (arith, bit_7 (0x80 + q + flag_if b 32), mask_table (0x80 + q + flag_if b 32))

first_parts_null :
    (q : ℕ) (b : Bool) → q < 16 → first_parts (0xc0 + q + flag_if b 16) ≡ ok (2, b, 0x0f, 4)
unfolding first_parts
first_parts_null q b h =
    ground (arith, bit_7 (0xc0 + q + flag_if b 16), mask_table (0xc0 + q + flag_if b 16))

-- `read_payload` behind a head of `bits` payload bits, where continuation bytes follow and where
-- none do.
read_payload-true : (rest : List ℕ) (p s : ℕ) → read_payload true rest p s ≡ more_loop rest p s 1
unfolding read_payload
read_payload-true rest p s = refl

read_payload-false : (rest : List ℕ) (p s : ℕ) → read_payload false rest p s ≡ ok (p, rest)
unfolding read_payload
read_payload-false rest p s = refl

read_payload-groups :
    (bits low r : ℕ) (rest : List ℕ)
    → 0 < bits
    → bits ≤ 6
    → low < 2 ^ bits
    → low + r * 2 ^ bits < 2 ^ 64
    → r < 128 ^ 9
    → read_payload (not (r == 0)) (groups 9 r ++ rest) low bits ≡ ok (low + r * 2 ^ bits, rest)
read_payload-groups bits low r rest hb hb' hl fits h = elim (Bool-cases (r == 0)) [
  | inl done ↦
      let z : r ≡ 0 = ground arith in
      rw (done, read_payload-false) (rw (z, groups-zero 9) (ap (λ t. ok (t, rest)) (omega arith)))
  | inr more ↦
      rw (more, read_payload-true)
        (more_loop-groups 9 r low bits 1 rest (ground arith) h hl fits (omega arith) (omega arith))
]

-- `parse_token` returns the token that `write_token` wrote, and what follows it.
pub parse_token-token_bytes :
    (token : Token) (rest : List ℕ)
    → IsToken token
    → parse_token (token_bytes token ++ rest) ≡ ok (token, rest)
unfolding parse_token token_bytes
parse_token-token_bytes (lit v) rest h =
    let b = not (v / 64 == 0) in
    ground (
      arith,
      first_parts_lit (v % 64) b,
      bit_and-63 (v % 64 + flag_if b 64),
      read_payload-groups 6 (v % 64) (v / 64) rest,
    )
parse_token-token_bytes (zero_run v) rest h =
    let b = not (v / 32 == 0) in
    ground (
      arith,
      first_parts_zero (v % 32) b,
      bit_and-31 (0x80 + v % 32 + flag_if b 32),
      read_payload-groups 5 (v % 32) (v / 32) rest,
    )
parse_token-token_bytes (null_run v) rest h =
    let b = not (v / 16 == 0) in
    ground (
      arith,
      first_parts_null (v % 16) b,
      bit_and-15 (0xc0 + v % 16 + flag_if b 16),
      read_payload-groups 4 (v % 16) (v / 16) rest,
    )
