-- ===== src/Base/Int.antt =====
-- Signed integers over the native numbers, under the library's names, and the ranges of `i64` and
-- `i128`. Sums and orders go through the two parts of an integer, which are plain numbers.
use Prim.Native.Nat.{ℕ, suc, ◌+◌, ◌*◌, ◌-◌, ◌≤◌, ◌<◌, ◌^◌}
use mathlib.Core.Path.{◌≡◌}
use mathlib.Core.Bool.{Bool, ◌&&◌}
use mathlib.Core.Option.{Option, none, some}
use native.Mathlib.Omega.{arith}
use litesdb.Base.Tests.{ltb, leb, if◌then◌else◌, ◌==◌}

-- `negsuc n` is -(n + 1).
pub data ℤ : Type 0 where
  pos : ℕ → ℤ
  negsuc : ℕ → ℤ

abbrev pub pos_part : ℤ → ℕ
pos_part (pos n) = n
pos_part (negsuc n) = 0

abbrev pub neg_part : ℤ → ℕ
neg_part (pos n) = 0
neg_part (negsuc n) = suc n

-- a - b, as an integer.
abbrev pub sub_ℕ : ℕ → ℕ → ℤ
sub_ℕ a b = if leb b a then pos (a - b) else negsuc (b - a - 1)

infixl 65 ◌+ℤ◌ ◌-ℤ◌
infix 50 ◌≤ℤ◌ ◌<ℤ◌
unfoldable pub ◌+ℤ◌ : ℤ → ℤ → ℤ
a +ℤ b = sub_ℕ (pos_part a + pos_part b) (neg_part a + neg_part b)

unfoldable pub ◌-ℤ◌ : ℤ → ℤ → ℤ
a -ℤ b = sub_ℕ (pos_part a + neg_part b) (neg_part a + pos_part b)

abbrev pub ◌≤ℤ◌ : ℤ → ℤ → Type 0
a ≤ℤ b = pos_part a + neg_part b ≤ pos_part b + neg_part a

abbrev pub ◌<ℤ◌ : ℤ → ℤ → Type 0
a <ℤ b = pos_part a + neg_part b < pos_part b + neg_part a

abbrev pub ltb_ℤ : ℤ → ℤ → Bool
ltb_ℤ a b = ltb (pos_part a + neg_part b) (pos_part b + neg_part a)

abbrev pub leb_ℤ : ℤ → ℤ → Bool
leb_ℤ a b = leb (pos_part a + neg_part b) (pos_part b + neg_part a)

abbrev pub eqb_ℤ : ℤ → ℤ → Bool
eqb_ℤ a b = (pos_part a + neg_part b) == (pos_part b + neg_part a)

pub +ℤ_parts :
    (a b : ℤ)
    → pos_part (a +ℤ b) + neg_part a + neg_part b ≡ neg_part (a +ℤ b) + pos_part a + pos_part b
unfolding ◌+ℤ◌
+ℤ_parts a b = ground arith

pub -ℤ_parts :
    (a b : ℤ)
    → pos_part (a -ℤ b) + neg_part a + pos_part b ≡ neg_part (a -ℤ b) + pos_part a + neg_part b
unfolding ◌-ℤ◌
-ℤ_parts a b = ground arith

pub eq_of_parts : (a b : ℤ) → pos_part a + neg_part b ≡ pos_part b + neg_part a → a ≡ b
eq_of_parts a b h = ground arith

pub ruleset int_laws = (arith, +ℤ_parts, -ℤ_parts, eq_of_parts)

-- Whether an integer lies in the range of `i64`, and of `i128`.
abbrev pub fits_i64 : ℤ → Bool
fits_i64 a = ltb (pos_part a) (2 ^ 63) && leb (neg_part a) (2 ^ 63)

abbrev pub fits_i128 : ℤ → Bool
fits_i128 a = ltb (pos_part a) (2 ^ 127) && leb (neg_part a) (2 ^ 127)

abbrev pub IsI64 : ℤ → Type 0
IsI64 a = (pos_part a < 2 ^ 63) × (neg_part a ≤ 2 ^ 63)

abbrev pub IsI128 : ℤ → Type 0
IsI128 a = (pos_part a < 2 ^ 127) × (neg_part a ≤ 2 ^ 127)

-- `i128::checked_add` and `i128::checked_sub`
unfoldable pub checked_add_i128 : ℤ → ℤ → Option ℤ
checked_add_i128 a b = if fits_i128 (a +ℤ b) then some (a +ℤ b) else none

unfoldable pub checked_sub_i128 : ℤ → ℤ → Option ℤ
checked_sub_i128 a b = if fits_i128 (a -ℤ b) then some (a -ℤ b) else none

-- `checked_add` and `checked_mul` of the unsigned integers of `w` bits, and `try_from`.
unfoldable pub checked_add : ℕ → ℕ → ℕ → Option ℕ
checked_add w a b = if ltb (a + b) (2 ^ w) then some (a + b) else none

unfoldable pub checked_mul : ℕ → ℕ → ℕ → Option ℕ
checked_mul w a b = if ltb (a * b) (2 ^ w) then some (a * b) else none

unfoldable pub try_from : ℕ → ℕ → Option ℕ
try_from w a = if ltb a (2 ^ w) then some a else none
