-- ===== src/Agg/Bucket/Extrema.antt =====
-- The extrema of a bucket are values of its column at the ends of the column's order.
use litesdb.Base.{ℕ, subst, sym, ◌≤◌, ◌≡◌, refl, arith, List, [], ◌∷◌, All, Option, none, some}
use litesdb.Base.{Bool-cases, ◌⊎◌, inl, inr, ok, if◌then◌else◌, leb}
use litesdb.Base.Int.{pos, leb_ℤ}
use litesdb.Types.Value.{CellValue, ValueType, u_int_value, sq1_value, f32_value}
use litesdb.Agg.Bucket.{keep_min, keep_max, sign_of}
use litesdb.Agg.Bucket.Held.{IsHeld, key, compare_ok, keep_min_ok, keep_max_ok}

abbrev pub Occurs : CellValue → List CellValue → Type 0
Occurs m [] = ⊥
Occurs m (v ∷ vs) = (v ≡ m) ⊎ Occurs m vs

sign_of-leb : (a b : ℕ) → leb_ℤ (sign_of a b) (pos 0) ≡ leb a b
unfolding sign_of
sign_of-leb a b = ground arith

leb-sign_of : (a b : ℕ) → leb_ℤ (pos 0) (sign_of a b) ≡ leb b a
unfolding sign_of
leb-sign_of a b = ground arith

-- What is kept of two values: one of them, that is beyond neither.
abbrev pub Kept : (ℕ → ℕ → Type 0) → CellValue → CellValue → CellValue → Type 0
Kept Reaches current value kept =
    ((kept ≡ current) ⊎ (kept ≡ value))
    × Reaches (key kept) (key current)
    × Reaches (key kept) (key value)

pick_least :
    (current value kept : CellValue)
    → kept ≡ (if leb (key current) (key value) then current else value)
    → Kept (λ a b. a ≤ b) current value kept
pick_least current value kept e = elim (Bool-cases (leb (key current) (key value))) [
  | inl p ↦
      let same : kept ≡ current = cc in
      (inl same, rw (same) (omega arith), rw (same) (ground arith))
  | inr p ↦
      let same : kept ≡ value = cc in (inr same, rw (same) (ground arith), rw (same) (omega arith))
]

pick_greatest :
    (current value kept : CellValue)
    → kept ≡ (if leb (key value) (key current) then current else value)
    → Kept (λ a b. b ≤ a) current value kept
pick_greatest current value kept e = elim (Bool-cases (leb (key value) (key current))) [
  | inl p ↦
      let same : kept ≡ current = cc in
      (inl same, rw (same) (omega arith), rw (same) (ground arith))
  | inr p ↦
      let same : kept ≡ value = cc in (inr same, rw (same) (ground arith), rw (same) (omega arith))
]

keep_min-Kept :
    (t : ValueType) (current value kept : CellValue)
    → IsHeld t (some current)
    → IsHeld t (some value)
    → keep_min t (some current) value ≡ ok kept
    → Kept (λ a b. a ≤ b) current value kept
unfolding keep_min
keep_min-Kept t current value kept h g e =
    let picked : keep_min t (some current) value
        ≡ ok (if leb (key current) (key value) then current else value) =
      rw (compare_ok t current value h g, sign_of-leb (key current) (key value)) refl in
    pick_least current value kept cc

keep_max-Kept :
    (t : ValueType) (current value kept : CellValue)
    → IsHeld t (some current)
    → IsHeld t (some value)
    → keep_max t (some current) value ≡ ok kept
    → Kept (λ a b. b ≤ a) current value kept
unfolding keep_max
keep_max-Kept t current value kept h g e =
    let picked : keep_max t (some current) value
        ≡ ok (if leb (key value) (key current) then current else value) =
      rw (compare_ok t current value h g, leb-sign_of (key current) (key value)) refl in
    pick_greatest current value kept cc

-- The extreme value of a list with nulls.
abbrev pub Reached : (ℕ → ℕ → Type 0) → CellValue → CellValue → Type 0
Reached Reaches m CellValue.null = Unit {0}
Reached Reaches m (u_int_value n) = Reaches (key m) (key (u_int_value n))
Reached Reaches m (sq1_value c) = Reaches (key m) (key (sq1_value c))
Reached Reaches m (f32_value b) = Reaches (key m) (key (f32_value b))

abbrev pub IsNull : CellValue → Type 0
IsNull v = v ≡ CellValue.null

abbrev pub KeyExtreme : (ℕ → ℕ → Type 0) → Option CellValue → List CellValue → Type 0
KeyExtreme Reaches none vs = All IsNull vs
KeyExtreme Reaches (some m) vs = Occurs m vs × All (Reached Reaches m) vs

abbrev pub before : Option CellValue → List CellValue → List CellValue
before none vs = vs
before (some m) vs = m ∷ vs

module _ (Reaches : ℕ → ℕ → Type 0)
    (reaches_trans : (a b c : ℕ) → Reaches a b → Reaches b c → Reaches a c) where
  -- A null in front changes nothing.
  KeyExtreme-null :
      (m current : Option CellValue) (vs : List CellValue)
      → KeyExtreme Reaches m (before current vs)
      → KeyExtreme Reaches m (before current (CellValue.null ∷ vs))
  KeyExtreme-null none none vs h = (refl, h)
  KeyExtreme-null none (some c) vs (e, h) = (e, (refl, h))
  KeyExtreme-null (some m) none vs (at, all) = (inr at, (tt, all))
  KeyExtreme-null (some m) (some c) vs (inl e, (r, all)) = (inl e, (r, (tt, all)))
  KeyExtreme-null (some m) (some c) vs (inr at, (r, all)) = (inr (inr at), (r, (tt, all)))

  held_reached :
      (t : ValueType) (m v : CellValue)
      → IsHeld t (some v)
      → Reached Reaches m v
      → Reaches (key m) (key v)
  held_reached t m CellValue.null h r = absurd h
  held_reached t m (u_int_value n) h r = r
  held_reached t m (sq1_value c) h r = r
  held_reached t m (f32_value b) h r = r

  Reached-of : (m v : CellValue) → Reaches (key m) (key v) → Reached Reaches m v
  Reached-of m CellValue.null r = tt
  Reached-of m (u_int_value n) r = r
  Reached-of m (sq1_value c) r = r
  Reached-of m (f32_value b) r = r

  Occurs-of_kept :
      (m current v kept : CellValue) (vs : List CellValue)
      → ((kept ≡ current) ⊎ (kept ≡ v))
      → Occurs m (kept ∷ vs)
      → Occurs m (current ∷ (v ∷ vs))
  Occurs-of_kept m current v kept vs (inl e) (inl f) = inl cc
  Occurs-of_kept m current v kept vs (inr e) (inl f) = inr (inl cc)
  Occurs-of_kept m current v kept vs which (inr at) = inr (inr at)

  -- What is kept of two values in front stands for both.
  KeyExtreme-Kept :
      (t : ValueType) (m : Option CellValue) (current v kept : CellValue) (vs : List CellValue)
      → IsHeld t (some kept)
      → Kept Reaches current v kept
      → KeyExtreme Reaches m (kept ∷ vs)
      → KeyExtreme Reaches m (current ∷ (v ∷ vs))
  KeyExtreme-Kept t none current v CellValue.null vs h k x = absurd h
  KeyExtreme-Kept t none current v (u_int_value n) vs h k (e, x) = cc
  KeyExtreme-Kept t none current v (sq1_value n) vs h k (e, x) = cc
  KeyExtreme-Kept t none current v (f32_value n) vs h k (e, x) = cc
  KeyExtreme-Kept t (some m) current v kept vs h (which, to_current, to_v) (at, (r, all)) =
      let to_kept = held_reached t m kept h r in
      (
        Occurs-of_kept m current v kept vs which at,
        (
          Reached-of m current (reaches_trans (key m) (key kept) (key current) to_kept to_current),
          (Reached-of m v (reaches_trans (key m) (key kept) (key v) to_kept to_v), all),
        ),
      )

-- How an accumulator changes with a value.
abbrev pub KeptOf : (ℕ → ℕ → Type 0) → Option CellValue → CellValue → CellValue → Type 0
KeptOf Reaches none v kept = kept ≡ v
KeptOf Reaches (some c) v kept = Kept Reaches c v kept

abbrev pub Change :
    (ℕ → ℕ → Type 0) → ValueType → Option CellValue → CellValue → Option CellValue → Type 0
Change Reaches t current v next =
    ((v ≡ CellValue.null) × (next ≡ current))
    ⊎ ((kept : CellValue) × (next ≡ some kept)
        × IsHeld t (some kept)
        × KeptOf Reaches current v kept)

module _ (Reaches : ℕ → ℕ → Type 0)
    (reaches_trans : (a b c : ℕ) → Reaches a b → Reaches b c → Reaches a c) where
  KeyExtreme-of_kept :
      (t : ValueType) (m current : Option CellValue) (v kept : CellValue) (vs : List CellValue)
      → IsHeld t (some kept)
      → KeptOf Reaches current v kept
      → KeyExtreme Reaches m (kept ∷ vs)
      → KeyExtreme Reaches m (before current (v ∷ vs))
  KeyExtreme-of_kept t m none v kept vs h k x = subst (λ w. KeyExtreme Reaches m (w ∷ vs)) k x
  KeyExtreme-of_kept t m (some c) v kept vs h k x =
      KeyExtreme-Kept Reaches reaches_trans t m c v kept vs h k x

  pub KeyExtreme-Change :
      (t : ValueType) (m current next : Option CellValue) (v : CellValue) (vs : List CellValue)
      → Change Reaches t current v next
      → KeyExtreme Reaches m (before next vs)
      → KeyExtreme Reaches m (before current (v ∷ vs))
  KeyExtreme-Change t m current next v vs (inl (e, same)) x =
      let y =
        KeyExtreme-null Reaches reaches_trans m current vs
          (subst (λ o. KeyExtreme Reaches m (before o vs)) same x) in
      subst (λ w. KeyExtreme Reaches m (before current (w ∷ vs))) (sym e) y
  KeyExtreme-Change t m current next v vs (inr (kept, same, held, k)) x =
      KeyExtreme-of_kept t m current v kept vs held k
        (subst (λ o. KeyExtreme Reaches m (before o vs)) same x)

  pub IsHeld-Change :
      (t : ValueType) (current next : Option CellValue) (v : CellValue)
      → IsHeld t current
      → Change Reaches t current v next
      → IsHeld t next
  IsHeld-Change t current next v h (inl (e, same)) = subst (IsHeld t) (sym same) h
  IsHeld-Change t current next v h (inr (kept, same, held, k)) = subst (IsHeld t) (sym same) held

  pub KeyExtreme-alone :
      ((a : ℕ) → Reaches a a)
      → (current : Option CellValue) → KeyExtreme Reaches current (before current [])
  KeyExtreme-alone reaches_self none = tt
  KeyExtreme-alone reaches_self (some c) =
      (inl refl, (Reached-of Reaches reaches_trans c c (reaches_self (key c)), tt))

pub min_change :
    (t : ValueType) (current : Option CellValue) (v kept : CellValue)
    → IsHeld t current
    → IsHeld t (some v)
    → keep_min t current v ≡ ok kept
    → IsHeld t (some kept) × KeptOf (λ a b. a ≤ b) current v kept
min_change t none v kept h g e =
    let same : v ≡ kept = unfold keep_min in cc in (subst (λ w. IsHeld t (some w)) same g, sym same)
min_change t (some c) v kept h g e =
    let (other, found, held) = keep_min_ok t (some c) v h g in
    let same : other ≡ kept = cc in
    (subst (λ w. IsHeld t (some w)) same held, keep_min-Kept t c v kept h g e)

pub max_change :
    (t : ValueType) (current : Option CellValue) (v kept : CellValue)
    → IsHeld t current
    → IsHeld t (some v)
    → keep_max t current v ≡ ok kept
    → IsHeld t (some kept) × KeptOf (λ a b. b ≤ a) current v kept
max_change t none v kept h g e =
    let same : v ≡ kept = unfold keep_max in cc in (subst (λ w. IsHeld t (some w)) same g, sym same)
max_change t (some c) v kept h g e =
    let (other, found, held) = keep_max_ok t (some c) v h g in
    let same : other ≡ kept = cc in
    (subst (λ w. IsHeld t (some w)) same held, keep_max-Kept t c v kept h g e)
