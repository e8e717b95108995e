-- ===== src/Base/Bytes.antt =====
-- Little-endian bytes: `to_le_bytes` and `from_le_bytes`.
use Prim.Native.Nat.{ℕ, zero, suc, ◌+◌, ◌-◌, ◌*◌, ◌/◌, ◌%◌, ◌^◌, ◌<◌}
use mathlib.Core.Path.{◌≡◌, refl, ap}
use mathlib.Core.List.{List, [], ◌∷◌}
use native.Mathlib.Omega.{arith}
use native.Mathlib.Nat.{pow-suc}
use litesdb.Base.Tests.{ltb, if◌then◌else◌}
use litesdb.Base.Lists.{length}
use litesdb.Base.Int.{ℤ, pos, negsuc, IsI64}

-- The bytes of a word of `n` bytes.
unfoldable pub to_le_bytes : ℕ → ℕ → List ℕ
to_le_bytes zero v = []
to_le_bytes (suc n) v = v % 256 ∷ to_le_bytes n (v / 256)

unfoldable pub from_le_bytes : List ℕ → ℕ
from_le_bytes [] = 0
from_le_bytes (b ∷ bs) = b + 256 * from_le_bytes bs

-- The bit pattern of an `i64`, and the integer that a pattern stands for.
unfoldable pub i64_bits : ℤ → ℕ
i64_bits (pos n) = n
i64_bits (negsuc n) = 2 ^ 64 - suc n

unfoldable pub i64_from_bits : ℕ → ℤ
i64_from_bits w = if ltb w (2 ^ 63) then pos w else negsuc (2 ^ 64 - w - 1)

pub length-to_le_bytes : (n v : ℕ) → length (to_le_bytes n v) ≡ n
unfolding to_le_bytes
length-to_le_bytes zero v = refl
length-to_le_bytes (suc n) v = ap suc (length-to_le_bytes n (v / 256))

pub from_le_bytes-to_le_bytes : (n v : ℕ) → v < 256 ^ n → from_le_bytes (to_le_bytes n v) ≡ v
unfolding to_le_bytes from_le_bytes
from_le_bytes-to_le_bytes zero v h = omega arith
from_le_bytes-to_le_bytes (suc n) v h =
    omega
      (arith, pow-suc 256 n, from_le_bytes-to_le_bytes n (v / 256) (omega (arith, pow-suc 256 n)))

pub i64_bits-lt : (a : ℤ) → IsI64 a → i64_bits a < 2 ^ 64
unfolding i64_bits
i64_bits-lt (pos n) h = omega arith
i64_bits-lt (negsuc n) h = omega arith

pub i64_from_bits-i64_bits : (a : ℤ) → IsI64 a → i64_from_bits (i64_bits a) ≡ a
unfolding i64_bits i64_from_bits
i64_from_bits-i64_bits (pos n) h = ground arith
i64_from_bits-i64_bits (negsuc n) h = ground arith
