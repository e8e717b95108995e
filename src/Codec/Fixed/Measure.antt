-- ===== src/Codec/Fixed/Measure.antt =====
-- Measuring a fixed column.
use litesdb.Base.{ℕ, ◌+◌, ◌^◌, ◌≤◌, ◌<◌, ◌≡◌, refl, arith, Bool, true, false}
use litesdb.Base.{some, List, [], ◌∷◌, All, ◌∙◌, length, ok, leb}
use litesdb.Base.{if◌then◌else◌, Bool-cases, inl, inr, leb→le}
use litesdb.Base.Int.{checked_add}
use litesdb.Limits.{ensure_at_most}
use litesdb.Types.Value.{CellValue, null, u_int_value, sq1_value, f32_value, ValueType, HasType}
use litesdb.Types.Value.{u_int, sq1, f32_bits}
use litesdb.Codec.Bitmap.Marks.{count_marked}
use litesdb.Codec.Fixed.{FixedKind, u_int_kind, sq1_kind, f32_kind, kind_of_type, FixedMeasurer}
use litesdb.Codec.Fixed.{observe_fixed, observe_facts, minimum_uint_width}
use litesdb.Codec.Fixed.{plan_width, kind_width}
use litesdb.Codec.Fixed.Decode.{raise}
use litesdb.Codec.Fixed.Values.{FitsWidth, u_int_fits, sq1_fits, f32_fits}

-- A null, or a value of a kind and of its Rust type.
pub data IsFact : FixedKind → CellValue → Type 0 where
  null_fact : (kind : FixedKind) → IsFact kind null
  u_int_fact : (v : ℕ) → v < 2 ^ 64 → IsFact u_int_kind (u_int_value v)
  sq1_fact : (c : ℕ) → c < 255 → IsFact sq1_kind (sq1_value c)
  f32_fact : (b : ℕ) → b < 2 ^ 32 → IsFact f32_kind (f32_value b)

pub IsFact-HasType :
    (t : ValueType) (fact : CellValue) → HasType t fact → IsFact (kind_of_type t) fact
unfolding kind_of_type
IsFact-HasType t null h = null_fact (kind_of_type t)
IsFact-HasType u_int (u_int_value v) h = u_int_fact v h
IsFact-HasType sq1 (sq1_value c) h = sq1_fact c h
IsFact-HasType f32_bits (f32_value b) h = f32_fact b h
IsFact-HasType u_int (sq1_value c) h = absurd h
IsFact-HasType u_int (f32_value b) h = absurd h
IsFact-HasType sq1 (u_int_value v) h = absurd h
IsFact-HasType sq1 (f32_value b) h = absurd h
IsFact-HasType f32_bits (u_int_value v) h = absurd h
IsFact-HasType f32_bits (sq1_value c) h = absurd h

abbrev pub is_null : CellValue → Bool
is_null null = true
is_null (u_int_value v) = false
is_null (sq1_value c) = false
is_null (f32_value b) = false

abbrev pub count_nulls : List CellValue → ℕ
count_nulls facts = count_marked is_null facts

-- The greatest unsigned value, from a maximum on.
abbrev pub raise_all : ℕ → List CellValue → ℕ
raise_all maximum [] = maximum
raise_all maximum (fact ∷ facts) = raise_all (raise fact maximum) facts

pub count_nulls-le : (facts : List CellValue) → count_nulls facts ≤ length facts
count_nulls-le [] = omega arith
count_nulls-le (fact ∷ facts) = ground (arith, count_nulls-le facts)

abbrev pub measured : FixedKind → ℕ → ℕ → ℕ → FixedMeasurer
measured kind facts nulls maximum = record {
  kind = kind;
  fact_count = facts;
  null_count = nulls;
  maximum = maximum;
}

observe_fixed-next :
    (kind : FixedKind) (n k maximum : ℕ) (fact : CellValue)
    → IsFact kind fact
    → k ≤ n
    → n < 65_536
    → observe_fixed (measured kind n k maximum) fact
      ≡ ok (measured kind (n + 1) (k + (if is_null fact then 1 else 0)) (raise fact maximum))
unfolding observe_fixed ensure_at_most checked_add
observe_fixed-next _ n k maximum _ (null_fact kind) le lt = ground arith
observe_fixed-next _ n k maximum _ (u_int_fact v h) le lt = ground arith
observe_fixed-next _ n k maximum _ (sq1_fact c h) le lt = ground arith
observe_fixed-next _ n k maximum _ (f32_fact b h) le lt = ground arith

pub observe_facts-measured :
    (kind : FixedKind) (n k maximum : ℕ) (facts : List CellValue)
    → All (IsFact kind) facts
    → k ≤ n
    → n + length facts ≤ 65_536
    → observe_facts (measured kind n k maximum) facts
      ≡ ok (measured kind (n + length facts) (k + count_nulls facts) (raise_all maximum facts))
unfolding observe_facts
observe_facts-measured kind n k maximum [] h le small = ground arith
observe_facts-measured kind n k maximum (fact ∷ facts) (hf, h) le small =
    rw (observe_fixed-next kind n k maximum fact hf le (omega arith)) (
      observe_facts-measured kind (n + 1) _ (raise fact maximum) facts h (ground arith)
        (omega arith)
      ∙ ground arith)

-- The least width of a maximum.
pub minimum_uint_width_lem :
    (top : ℕ)
    → top < 2 ^ 64
    → (top < 256 ^ minimum_uint_width top)
      × (minimum_uint_width top ≤ 8)
      × (kind_width u_int_kind (some (minimum_uint_width top)) ≡ ok (minimum_uint_width top))
unfolding minimum_uint_width kind_width
minimum_uint_width_lem top h = elim (Bool-cases (leb top 255)) [
  | inl a ↦ rw (a) (omega (arith, leb→le _ _ a), omega arith, refl)
  | inr a ↦ elim (Bool-cases (leb top 65_535)) [
    | inl b ↦ rw (a, b) (omega (arith, leb→le _ _ b), omega arith, refl)
    | inr b ↦ elim (Bool-cases (leb top 4_294_967_295)) [
      | inl c ↦ rw (a, b, c) (omega (arith, leb→le _ _ c), omega arith, refl)
      | inr c ↦ rw (a, b, c) (omega arith, omega arith, refl)
    ]
  ]
]

-- A null, or a value that fits a width.
pub data Fitting (kind : FixedKind) (width : ℕ) : CellValue → Type 0 where
  null_fits : Fitting kind width null
  value_fits :
      (fact : CellValue)
      → is_null fact ≡ false
      → FitsWidth kind width fact
      → Fitting kind width fact

raise-le : (fact : CellValue) (maximum : ℕ) → maximum ≤ raise fact maximum
raise-le null maximum = omega arith
raise-le (u_int_value v) maximum = omega arith
raise-le (sq1_value c) maximum = omega arith
raise-le (f32_value b) maximum = omega arith

raise_all-le : (maximum : ℕ) (facts : List CellValue) → maximum ≤ raise_all maximum facts
raise_all-le maximum [] = omega arith
raise_all-le maximum (fact ∷ facts) =
    omega (arith, raise-le fact maximum, raise_all-le (raise fact maximum) facts)

pub raise_all-lt :
    (kind : FixedKind) (maximum : ℕ) (facts : List CellValue)
    → All (IsFact kind) facts
    → maximum < 2 ^ 64
    → raise_all maximum facts < 2 ^ 64
raise_all-lt kind maximum [] h small = small
raise_all-lt kind maximum (fact ∷ facts) (hf, h) small =
    raise_all-lt kind (raise fact maximum) facts h (raise-lt kind fact maximum hf small)
  where
    raise-lt :
        (kind : FixedKind) (fact : CellValue) (maximum : ℕ)
        → IsFact kind fact
        → maximum < 2 ^ 64
        → raise fact maximum < 2 ^ 64
    raise-lt _ _ maximum (null_fact kind) small = small
    raise-lt _ _ maximum (u_int_fact v h) small = omega arith
    raise-lt _ _ maximum (sq1_fact c h) small = small
    raise-lt _ _ maximum (f32_fact b h) small = small

fits_one :
    (kind : FixedKind) (fact : CellValue) (maximum top : ℕ)
    → IsFact kind fact
    → raise fact maximum ≤ top
    → top < 2 ^ 64
    → Fitting kind (plan_width kind top) fact
fits_one _ _ maximum top (null_fact kind) le h = null_fits
fits_one _ _ maximum top (u_int_fact v hv) le h =
    let (small, eight, _) = minimum_uint_width_lem top h in
    value_fits (u_int_value v) refl (u_int_fits _ v (omega arith) eight)
fits_one _ _ maximum top (sq1_fact c hc) le h = value_fits (sq1_value c) refl (sq1_fits 1 c hc refl)
fits_one _ _ maximum top (f32_fact b hb) le h = value_fits (f32_value b) refl (f32_fits 4 b hb refl)

-- Every fact fits the width of a plan for the greatest value, or one above it.
pub fits_all :
    (kind : FixedKind) (maximum top : ℕ) (facts : List CellValue)
    → All (IsFact kind) facts
    → raise_all maximum facts ≤ top
    → top < 2 ^ 64
    → All (Fitting kind (plan_width kind top)) facts
fits_all kind maximum top [] h le small = tt
fits_all kind maximum top (fact ∷ facts) (hf, h) le small = (
  fits_one kind fact maximum top hf (omega (arith, raise_all-le (raise fact maximum) facts)) small,
  fits_all kind (raise fact maximum) top facts h le small,
)
