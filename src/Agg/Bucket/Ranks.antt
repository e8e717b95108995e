-- ===== src/Agg/Bucket/Ranks.antt =====
-- The order of the values of core/src/agg/bucket.rs in plain arithmetic, and that the keys keep it.
use litesdb.Base.{ℕ, ◌+◌, ◌-◌, ◌≤◌, ◌<◌, ◌^◌, ◌≡◌, refl, arith, List, [], ◌∷◌, All, Option}
use litesdb.Base.{none, some, ◌⊎◌, inl, inr, ltb, if◌then◌else◌, Bool-cases}
use litesdb.Base.Bits.{bit_and-above, bit_and-highest, bit_xor-above}
use litesdb.Base.Int.{ℤ, pos, negsuc, ◌≤ℤ◌}
use litesdb.Types.Value.{CellValue, ValueType, u_int_value, sq1_value, f32_value, HasType}
use litesdb.Types.Value.{u_int, sq1, f32_bits}
use litesdb.Agg.Bucket.{f32_order_key}
use litesdb.Agg.Bucket.Held.{IsHeld, key}
use litesdb.Agg.Bucket.Extrema.{KeyExtreme, Reached, Occurs, IsNull}

-- Where a float stands among all of them: one without the sign bit at its bits, one with it below
-- them all, the further the more the other bits are.
unfoldable pub float_rank : ℕ → ℤ
float_rank bits = if ltb bits 2_147_483_648 then pos bits else negsuc (bits - 2_147_483_648)

-- Two values of one type in order.
abbrev pub NotAbove : CellValue → CellValue → Type 0
NotAbove (u_int_value m) (u_int_value n) = m ≤ n
NotAbove (sq1_value c) (sq1_value d) = c ≤ d
NotAbove (f32_value a) (f32_value b) = float_rank a ≤ℤ float_rank b
NotAbove _ _ = ⊥

abbrev pub NotBelow : CellValue → CellValue → Type 0
NotBelow a b = NotAbove b a

-- The end of a list with nulls in an order: one of its values, that the order puts with every value.
abbrev pub Extreme : (CellValue → CellValue → Type 0) → Option CellValue → List CellValue → Type 0
Extreme Reaches none vs = All IsNull vs
Extreme Reaches (some m) vs = Occurs m vs × All (λ v. (v ≡ CellValue.null) ⊎ Reaches m v) vs

f32_order_key_lem :
    (bits : ℕ)
    → bits < 2 ^ 32
    → ((bits < 2_147_483_648) × (f32_order_key bits ≡ bits + 2_147_483_648))
      ⊎ ((2_147_483_648 ≤ bits) × (f32_order_key bits ≡ 2 ^ 32 - 1 - bits))
unfolding f32_order_key
f32_order_key_lem bits h = elim (Bool-cases (ltb bits 2_147_483_648)) [
  | inl low ↦
      let small : bits < 2_147_483_648 = ground arith in
      inl (small, rw (bit_and-above 31 bits small) (bit_xor-above 31 bits small))
  | inr high ↦
      let big : 2_147_483_648 ≤ bits = ground arith in
      inr (big, rw (bit_and-highest 31 bits big h) refl)
]

float_rank-key :
    (a b : ℕ)
    → a < 2 ^ 32
    → b < 2 ^ 32
    → f32_order_key a ≤ f32_order_key b
    → float_rank a ≤ℤ float_rank b
unfolding float_rank
float_rank-key a b ha hb le =
    let key_a = f32_order_key_lem a ha in let key_b = f32_order_key_lem b hb in ground arith

pub NotAbove-key :
    (t : ValueType) (m v : CellValue)
    → IsHeld t (some m)
    → IsHeld t (some v)
    → key m ≤ key v
    → NotAbove m v
unfolding key
NotAbove-key u_int (u_int_value m) (u_int_value n) h g le = le
NotAbove-key sq1 (sq1_value c) (sq1_value d) h g le = le
NotAbove-key f32_bits (f32_value a) (f32_value b) h g le = float_rank-key a b h g le
NotAbove-key _ _ _ h g le = ground arith

pub NotBelow-key :
    (t : ValueType) (m v : CellValue)
    → IsHeld t (some m)
    → IsHeld t (some v)
    → key v ≤ key m
    → NotBelow m v
NotBelow-key t m v h g le = NotAbove-key t v m g h le

module _ (KeyReaches : ℕ → ℕ → Type 0) (Reaches : CellValue → CellValue → Type 0) (t : ValueType)
    (of_keys : (m v : CellValue)
      → IsHeld t (some m)
      → IsHeld t (some v)
      → KeyReaches (key m) (key v)
      → Reaches m v) where
  reaches_value :
      (m v : CellValue)
      → IsHeld t (some m)
      → HasType t v
      → Reached KeyReaches m v
      → (v ≡ CellValue.null) ⊎ Reaches m v
  reaches_value m CellValue.null h g r = inl refl
  reaches_value m (u_int_value n) h g r = inr (of_keys m (u_int_value n) h g r)
  reaches_value m (sq1_value c) h g r = inr (of_keys m (sq1_value c) h g r)
  reaches_value m (f32_value b) h g r = inr (of_keys m (f32_value b) h g r)

  reaches_values :
      (m : CellValue) (vs : List CellValue)
      → IsHeld t (some m)
      → All (HasType t) vs
      → All (Reached KeyReaches m) vs
      → All (λ v. (v ≡ CellValue.null) ⊎ Reaches m v) vs
  reaches_values m [] h g r = tt
  reaches_values m (v ∷ vs) h (g, gs) (r, rs) =
      (reaches_value m v h g r, reaches_values m vs h gs rs)

  pub Extreme-KeyExtreme :
      (m : Option CellValue) (vs : List CellValue)
      → IsHeld t m
      → All (HasType t) vs
      → KeyExtreme KeyReaches m vs
      → Extreme Reaches m vs
  Extreme-KeyExtreme none vs h g x = x
  Extreme-KeyExtreme (some m) vs h g (at, all) = (at, reaches_values m vs h g all)
