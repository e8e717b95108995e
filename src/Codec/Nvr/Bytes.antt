-- ===== src/Codec/Nvr/Bytes.antt =====
-- The bytes of a token in plain arithmetic, and that `write_token` and `token_len` agree with them.
use litesdb.Base.{ℕ, zero, suc, ◌+◌, ◌/◌, ◌%◌, ◌<◌, ◌^◌, ◌≡◌, refl, ap}
use litesdb.Base.{List, [], ◌∷◌, ◌++◌, append_assoc, append-nil, length, ok}
use litesdb.Base.{Bool, true, false, not, ◌==◌, if◌then◌else◌, arith, bit_and, bit_or}
use litesdb.Base.Order.{lt_wf}
use litesdb.Base.Bits.{
  bit_and-15, bit_and-31, bit_and-63, bit_and-127, bit_or-above, bit_or-zero, agree_below_sound,
}
use litesdb.Codec.Nvr.Token.{Token, lit, zero_run, null_run, payload}
use litesdb.Codec.Nvr.Encode.{
  Output, write_byte, write_loop, write_token, flag_if, length_loop, token_len,
}
use mathlib.Core.WellFounded.{Acc}
use native.Mathlib.Nat.{pow-suc}

abbrev pub IsToken : Token → Type 0
IsToken token = (0 < payload token) × (payload token < 2 ^ 64)

abbrev pub marked : ℕ → ℕ
marked r = flag_if (not (r / 128 == 0)) 128

-- The continuation bytes of `r`, for `r` below 128 ^ k.
unfoldable pub groups : ℕ → ℕ → List ℕ
groups zero r = []
groups (suc k) r =
    let rest = groups k (r / 128) in if r == 0 then [] else (r % 128 + marked r) ∷ rest

unfoldable pub head_byte : Token → ℕ
head_byte (lit v) = v % 64 + flag_if (not (v / 64 == 0)) 0x40
head_byte (zero_run v) = 0x80 + v % 32 + flag_if (not (v / 32 == 0)) 0x20
head_byte (null_run v) = 0xc0 + v % 16 + flag_if (not (v / 16 == 0)) 0x10

abbrev pub above_head : Token → ℕ
above_head (lit v) = v / 64
above_head (zero_run v) = v / 32
above_head (null_run v) = v / 16

unfoldable pub token_bytes : Token → List ℕ
unfolding head_byte groups
token_bytes token = head_byte token ∷ groups 9 (above_head token)

abbrev pub output : List ℕ → List ℕ → Output
output written room = record { written = written; room = room }

group_byte : (r : ℕ) (b : Bool) → bit_or (bit_and r 0x7f) (flag_if b 0x80) ≡ r % 128 + flag_if b 128
group_byte r true = omega (
  arith,
  bit_and-127 r,
  ap (λ x. bit_or x 0x80) (bit_and-127 r),
  bit_or-above 7 (r % 128) 1 (omega arith),
)
group_byte r false = omega (arith, bit_and-127 r, bit_or-zero (bit_and r 0x7f))

write_loop-groups :
    (k r : ℕ) (w : Acc ◌<◌ r) (written mid back : List ℕ)
    → r < 128 ^ k
    → length mid ≡ length (groups k r)
    → write_loop r w (output written (mid ++ back)) ≡ ok (output (written ++ groups k r) back)
unfolding groups write_loop write_byte
write_loop-groups zero r (Acc.intro _ smaller) written [] back h e =
    ground (arith, append-nil written)
write_loop-groups zero r (Acc.intro _ smaller) written (x ∷ mid) back h e = absurd (omega arith)
write_loop-groups (suc k) r (Acc.intro _ smaller) written [] back h e =
    ground (arith, append-nil written)
write_loop-groups (suc k) r (Acc.intro _ smaller) written (x ∷ mid) back h e =
    let byte : List ℕ = (r % 128 + marked r) ∷ [] in
    grind (
      arith,
      group_byte r (not (r / 128 == 0)),
      λ (w : Acc ◌<◌ (r / 128)).
          write_loop-groups k (r / 128) w (written ++ byte) mid back (omega (arith, pow-suc 128 k)),
      append_assoc written byte (groups k (r / 128)),
    )

length_loop-groups :
    (k r : ℕ) (w : Acc ◌<◌ r) (n : ℕ) → r < 128 ^ k → length_loop r w n ≡ n + length (groups k r)
unfolding groups length_loop
length_loop-groups zero r (Acc.intro _ smaller) n h = ground arith
length_loop-groups (suc k) r (Acc.intro _ smaller) n h = grind (
  arith,
  λ (w : Acc ◌<◌ (r / 128)).
      length_loop-groups k (r / 128) w (n + 1) (omega (arith, pow-suc 128 k)),
)

above_head-lt : (token : Token) → IsToken token → above_head token < 128 ^ 9
above_head-lt (lit v) h = omega arith
above_head-lt (zero_run v) h = omega arith
above_head-lt (null_run v) h = omega arith

-- What `token_len` measures is how many bytes the token has.
pub token_len-token_bytes :
    (token : Token) → IsToken token → token_len token ≡ ok (length (token_bytes token))
unfolding token_len token_bytes
token_len-token_bytes (lit v) h =
    ground (arith, length_loop-groups 9 (v / 64) (lt_wf.apply (v / 64)) 1 (omega arith))
token_len-token_bytes (zero_run v) h =
    ground (arith, length_loop-groups 9 (v / 32) (lt_wf.apply (v / 32)) 1 (omega arith))
token_len-token_bytes (null_run v) h =
    ground (arith, length_loop-groups 9 (v / 16) (lt_wf.apply (v / 16)) 1 (omega arith))

lit_head :
    (v : ℕ) (b : Bool) → bit_or (bit_or 0 (bit_and v 0x3f)) (flag_if b 0x40) ≡ v % 64 + flag_if b 64
lit_head v true =
    rw (bit_and-63 v) (
      agree_below_sound 64 (λ q. bit_or (bit_or 0 q) 0x40) (λ q. q + 64) refl (v % 64)
        (omega arith))
lit_head v false =
    rw (bit_and-63 v)
      (agree_below_sound 64 (λ q. bit_or (bit_or 0 q) 0) (λ q. q + 0) refl (v % 64) (omega arith))

zero_head :
    (v : ℕ) (b : Bool)
    → bit_or (bit_or 0x80 (bit_and v 0x1f)) (flag_if b 0x20) ≡ 0x80 + v % 32 + flag_if b 32
zero_head v true = rw (bit_and-31 v) (
    agree_below_sound 32 (λ q. bit_or (bit_or 0x80 q) 0x20) (λ q. 0x80 + q + 32) refl (v % 32)
      (omega arith))
zero_head v false = rw (bit_and-31 v) (
    agree_below_sound 32 (λ q. bit_or (bit_or 0x80 q) 0) (λ q. 0x80 + q + 0) refl (v % 32)
      (omega arith))

null_head :
    (v : ℕ) (b : Bool)
    → bit_or (bit_or 0xc0 (bit_and v 0x0f)) (flag_if b 0x10) ≡ 0xc0 + v % 16 + flag_if b 16
null_head v true = rw (bit_and-15 v) (
    agree_below_sound 16 (λ q. bit_or (bit_or 0xc0 q) 0x10) (λ q. 0xc0 + q + 16) refl (v % 16)
      (omega arith))
null_head v false = rw (bit_and-15 v) (
    agree_below_sound 16 (λ q. bit_or (bit_or 0xc0 q) 0) (λ q. 0xc0 + q + 0) refl (v % 16)
      (omega arith))

-- `write_token` puts the bytes of the token into the room, where there is room for them.
pub write_token-token_bytes :
    (token : Token) (written mid back : List ℕ)
    → IsToken token
    → length mid ≡ length (token_bytes token)
    → write_token token (output written (mid ++ back))
      ≡ ok (output (written ++ token_bytes token) back)
unfolding token_bytes
write_token-token_bytes token written [] back h e = absurd (omega arith)
write_token-token_bytes (lit v) written (x ∷ mid) back h e =
    let r = v / 64 in
    let head : List ℕ = head_byte (lit v) ∷ [] in
    unfold write_token in
    ground (
      arith,
      lit_head v (not (r == 0)),
      write_loop-groups 9 r (lt_wf.apply r) (written ++ head) mid back (omega arith),
      append_assoc written head (groups 9 r),
    )
write_token-token_bytes (zero_run v) written (x ∷ mid) back h e =
    let r = v / 32 in
    let head : List ℕ = head_byte (zero_run v) ∷ [] in
    unfold write_token in
    ground (
      arith,
      zero_head v (not (r == 0)),
      write_loop-groups 9 r (lt_wf.apply r) (written ++ head) mid back (omega arith),
      append_assoc written head (groups 9 r),
    )
write_token-token_bytes (null_run v) written (x ∷ mid) back h e =
    let r = v / 16 in
    let head : List ℕ = head_byte (null_run v) ∷ [] in
    unfold write_token in
    ground (
      arith,
      null_head v (not (r == 0)),
      write_loop-groups 9 r (lt_wf.apply r) (written ++ head) mid back (omega arith),
      append_assoc written head (groups 9 r),
    )
