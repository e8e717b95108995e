-- ===== src/Base/Bits.antt =====
-- The bit operations as arithmetic: masks are remainders, `|` of disjoint fields is a sum, and `^`
-- undoes itself.
use Prim.Native.Nat.{ℕ, zero, suc, ◌+◌, ◌*◌, ◌/◌, ◌%◌, ◌^◌, ◌≤◌, ◌<◌, min, max, digits, differ}
use Prim.Native.Nat.{bit_and, bit_or, bit_xor, bit_and-bitwise, bit_or-bitwise, bit_xor-bitwise}
use mathlib.Core.Path.{◌≡◌, refl, ap, ◌∙◌}
use mathlib.Core.Bool.{Bool, true, ◌&&◌}
use mathlib.Core.WellFounded
use native.Mathlib.Nat.{pow-suc, le_refl}
use native.Mathlib.Omega.{arith}
use litesdb.Base.Tests.{◌==◌}
use litesdb.Base.Order.{lt_wf}

-- The recursion on digits does not depend on how many rounds are left over.
module _ (run_out : ℕ → ℕ) (digit : ℕ → ℕ → ℕ) where
  enough_digits :
      (n m a b : ℕ) → a ≤ n → a ≤ m → digits run_out digit n a b ≡ digits run_out digit m a b
  enough_digits zero zero a b p q = refl
  enough_digits zero (suc m) zero b p q = refl
  enough_digits zero (suc m) (suc a) b p q = elim p [ ]
  enough_digits (suc n) zero zero b p q = refl
  enough_digits (suc n) zero (suc a) b p q = elim q [ ]
  enough_digits (suc n) (suc m) zero b p q = refl
  enough_digits (suc n) (suc m) (suc a) b p q =
      ap (λ t. t * 2 + digit (suc a % 2) (b % 2))
        (enough_digits n m (suc a / 2) (b / 2) (omega arith) (omega arith))

  lowest_digit :
      (a b : ℕ)
      → digits run_out digit (suc a) (suc a) b
        ≡ digits run_out digit (suc a / 2) (suc a / 2) (b / 2) * 2 + digit (suc a % 2) (b % 2)
  lowest_digit a b =
      ap (λ t. t * 2 + digit (suc a % 2) (b % 2))
        (enough_digits a (suc a / 2) (suc a / 2) (b / 2) (omega arith) (le_refl _))

pub bit_and-lowest : (a b : ℕ) → bit_and a b ≡ bit_and (a / 2) (b / 2) * 2 + min (a % 2) (b % 2)
bit_and-lowest zero b = simp bit_and-bitwise (omega arith)
bit_and-lowest (suc a) b = simp bit_and-bitwise (lowest_digit (λ b. 0) min a b)

bit_or-lowest : (a b : ℕ) → bit_or a b ≡ bit_or (a / 2) (b / 2) * 2 + max (a % 2) (b % 2)
bit_or-lowest zero b = simp bit_or-bitwise (omega arith)
bit_or-lowest (suc a) b = simp bit_or-bitwise (lowest_digit (λ b. b) max a b)

bit_xor-lowest : (a b : ℕ) → bit_xor a b ≡ bit_xor (a / 2) (b / 2) * 2 + differ (a % 2) (b % 2)
bit_xor-lowest zero b = simp bit_xor-bitwise (omega arith)
bit_xor-lowest (suc a) b = simp bit_xor-bitwise (lowest_digit (λ b. b) differ a b)

-- Strong induction on the first number.
halving : (P : ℕ → Type 0) → P 0 → ((a : ℕ) → P (suc a / 2) → P (suc a)) → (a : ℕ) → P a
halving P base up a = WellFounded.induction lt_wf {C = P} a step
  where
    step : (n : ℕ) → ((m : ℕ) → m < n → P m) → P n
    step zero ih = base
    step (suc n) ih = up n (ih (suc n / 2) (omega arith))

bit_and-zero : (a : ℕ) → bit_and a 0 ≡ 0
bit_and-zero = halving (λ a. bit_and a 0 ≡ 0) refl λ a ih. omega (arith, bit_and-lowest (suc a) 0)

pub bit_or-zero : (a : ℕ) → bit_or a 0 ≡ a
bit_or-zero = halving (λ a. bit_or a 0 ≡ a) refl λ a ih. omega (arith, bit_or-lowest (suc a) 0)

bit_and-1 : (a : ℕ) → bit_and a 1 ≡ a % 2
bit_and-1 a = omega (arith, bit_and-lowest a 1, bit_and-zero (a / 2))

pub bit_and-15 : (a : ℕ) → bit_and a 0x0f ≡ a % 16
bit_and-15 a = omega (
  arith,
  bit_and-lowest a 15,
  bit_and-lowest (a / 2) 7,
  bit_and-lowest (a / 2 / 2) 3,
  bit_and-1 (a / 2 / 2 / 2),
)

pub bit_and-31 : (a : ℕ) → bit_and a 0x1f ≡ a % 32
bit_and-31 a = omega (arith, bit_and-lowest a 31, bit_and-15 (a / 2))

pub bit_and-63 : (a : ℕ) → bit_and a 0x3f ≡ a % 64
bit_and-63 a = omega (arith, bit_and-lowest a 63, bit_and-31 (a / 2))

pub bit_and-127 : (a : ℕ) → bit_and a 0x7f ≡ a % 128
bit_and-127 a = omega (arith, bit_and-lowest a 127, bit_and-63 (a / 2))

pub low_bit : (a : ℕ) → bit_and a 1 ≡ a % 2
low_bit = bit_and-1

-- The masks that the token formats use.
pub ruleset masks = (bit_and-15, bit_and-31, bit_and-63, bit_and-127)

bit_or-above_step :
    (a t : ℕ) → bit_or (a / 2) (t * 2 / 2) ≡ a / 2 + t * 2 / 2 → bit_or a (t * 2) ≡ a + t * 2
bit_or-above_step a t ih = omega (arith, bit_or-lowest a (t * 2))

-- `a | (c << k)` is a sum when `a` fits `k` bits.
pub bit_or-above : (k a c : ℕ) → a < 2 ^ k → bit_or a (c * 2 ^ k) ≡ a + c * 2 ^ k
bit_or-above zero zero c h = omega (arith, bit_or-bitwise 0 (c * 2 ^ 0))
bit_or-above zero (suc a) c h = absurd (omega arith)
bit_or-above (suc k) a c h =
    let double : c * 2 ^ suc k ≡ c * 2 ^ k * 2 =
      omega (arith, ap (λ (t : ℕ). c * t) (pow-suc 2 k)) in
    let half : c * 2 ^ k * 2 / 2 ≡ c * 2 ^ k = omega arith in
    rw double (
      bit_or-above_step a (c * 2 ^ k)
        (rw half (bit_or-above k (a / 2) c (omega (arith, pow-suc 2 k)))))

-- Over a byte, every value is checked by evaluation.
abbrev pub agree_below : ℕ → (ℕ → ℕ) → (ℕ → ℕ) → Bool
agree_below zero f g = true
agree_below (suc n) f g = (f n == g n) && agree_below n f g

pub agree_below_sound :
    (n : ℕ) (f g : ℕ → ℕ) → agree_below n f g ≡ true → (i : ℕ) → i < n → f i ≡ g i
agree_below_sound zero f g e i h = elim h [ ]
agree_below_sound (suc n) f g e i h = ground (arith, agree_below_sound n f g (ground arith) i)

pub bit_7 : (b : ℕ) → b < 256 → bit_and b 0x80 ≡ b / 128 * 128
bit_7 = agree_below_sound 256 (λ b. bit_and b 0x80) (λ b. b / 128 * 128) refl

differ-binary : (x y : ℕ) → x < 2 → y < 2 → (differ x y < 2) × (differ x (differ x y) ≡ y)
differ-binary zero y h k = (k, refl)
differ-binary (suc zero) zero h k = (omega arith, refl)
differ-binary (suc zero) (suc zero) h k = (omega arith, refl)
differ-binary (suc zero) (suc (suc y)) h k = absurd (omega arith)
differ-binary (suc (suc x)) y h k = absurd (omega arith)

bit_xor-parts :
    (a b : ℕ)
    → (bit_xor a b / 2 ≡ bit_xor (a / 2) (b / 2)) × (bit_xor a b % 2 ≡ differ (a % 2) (b % 2))
bit_xor-parts a b =
    let small = (differ-binary (a % 2) (b % 2) (omega arith) (omega arith)).0 in
    omega (arith, bit_xor-lowest a b, small)

xor_twice_step :
    (a b : ℕ) → bit_xor (a / 2) (bit_xor (a / 2) (b / 2)) ≡ b / 2 → bit_xor a (bit_xor a b) ≡ b
xor_twice_step a b ih =
    let (half, low) = bit_xor-parts a b in
    let twice = (differ-binary (a % 2) (b % 2) (omega arith) (omega arith)).1 in
    rw (bit_xor-lowest a (bit_xor a b), half, low, ih, twice) (omega arith)

zero-bit_xor : (b : ℕ) → bit_xor 0 b ≡ b
zero-bit_xor b = bit_xor-bitwise 0 b

-- `p ^ (p ^ b)` is `b`.
pub bit_xor_twice : (a b : ℕ) → bit_xor a (bit_xor a b) ≡ b
bit_xor_twice =
    halving (λ a. (b : ℕ) → bit_xor a (bit_xor a b) ≡ b)
      (λ b. zero-bit_xor (bit_xor 0 b) ∙ zero-bit_xor b)
      λ a ih b. xor_twice_step (suc a) b (ih (b / 2))

-- `^` keeps within a width.
pub bit_xor-lt : (k a b : ℕ) → a < 2 ^ k → b < 2 ^ k → bit_xor a b < 2 ^ k
bit_xor-lt zero zero b p q = omega (arith, zero-bit_xor b)
bit_xor-lt zero (suc a) b p q = absurd (omega arith)
bit_xor-lt (suc k) a b p q =
    let (half, low) = bit_xor-parts a b in
    omega (
      arith,
      pow-suc 2 k,
      half,
      bit_xor-lt k (a / 2) (b / 2) (omega (arith, pow-suc 2 k)) (omega (arith, pow-suc 2 k)),
    )

differ-zero : (x : ℕ) → x < 2 → differ x 0 ≡ x
differ-zero zero h = refl
differ-zero (suc zero) h = refl
differ-zero (suc (suc x)) h = absurd (omega arith)

half_of_power : (k : ℕ) → (2 ^ suc k / 2 ≡ 2 ^ k) × (2 ^ suc k % 2 ≡ 0)
half_of_power k = (omega (arith, pow-suc 2 k), omega (arith, pow-suc 2 k))

bit_and_power_step : (k a : ℕ) → bit_and a (2 ^ suc k) ≡ bit_and (a / 2) (2 ^ k) * 2
bit_and_power_step k a =
    let (half, low) = half_of_power k in bit_and-lowest a (2 ^ suc k) ∙ rw (half, low) (omega arith)

-- The bit above a number, and the highest bit of a number.
pub bit_and-above : (k a : ℕ) → a < 2 ^ k → bit_and a (2 ^ k) ≡ 0
bit_and-above zero a h = low_bit a ∙ omega arith
bit_and-above (suc k) a h =
    omega (arith, bit_and_power_step k a, bit_and-above k (a / 2) (omega (arith, pow-suc 2 k)))

pub bit_and-highest : (k a : ℕ) → 2 ^ k ≤ a → a < 2 ^ suc k → bit_and a (2 ^ k) ≡ 2 ^ k
bit_and-highest zero a h g = low_bit a ∙ omega arith
bit_and-highest (suc k) a h g = omega (
  arith,
  pow-suc 2 k,
  bit_and_power_step k a,
  bit_and-highest k (a / 2) (omega (arith, pow-suc 2 k)) (omega (arith, pow-suc 2 (suc k))),
)

pub bit_xor-above : (k a : ℕ) → a < 2 ^ k → bit_xor a (2 ^ k) ≡ a + 2 ^ k
bit_xor-above zero zero h = zero-bit_xor 1
bit_xor-above zero (suc a) h = absurd (omega arith)
bit_xor-above (suc k) a h =
    let (half, low) = half_of_power k in
    let (front, back) = bit_xor-parts a (2 ^ suc k) in
    let same = bit_xor-above k (a / 2) (omega (arith, pow-suc 2 k)) in
    let front' : bit_xor a (2 ^ suc k) / 2 ≡ a / 2 + 2 ^ k = front ∙ rw (half) same in
    let back' : bit_xor a (2 ^ suc k) % 2 ≡ a % 2 =
      back ∙ rw (low) (differ-zero (a % 2) (omega arith)) in
    omega (arith, pow-suc 2 k, front', back')
