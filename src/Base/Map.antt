-- ===== src/Base/Map.antt =====
-- `BTreeMap`: a list of keys with values in the order of the keys.
use Prim.Native.Nat.{ℕ, compare, Ordering}
use mathlib.Core.Path.{◌≡◌, refl}
use mathlib.Core.Logic.{◌↔◌}
use mathlib.Core.Bool.{Bool, true, false}
use mathlib.Core.Option.{Option, none, some}
use mathlib.Core.List.{List, [], ◌∷◌}
use native.Mathlib.Omega.{arith}
use litesdb.Base.Tests.{if◌then◌else◌}

-- `Ord`: a total order that decides equality.
pub record Ord {ℓ} (K : Type ℓ) : Type ℓ where
  pub cmp : K → K → Ordering
  pub cmp_eq : (a b : K) → (cmp a b ≡ Ordering.eq) ↔ (a ≡ b)
  pub cmp_gt : (a b : K) → cmp a b ≡ Ordering.gt → cmp b a ≡ Ordering.lt
  pub cmp_trans :
      (a b c : K) → cmp a b ≡ Ordering.lt → cmp b c ≡ Ordering.lt → cmp a c ≡ Ordering.lt

pub cmp_ℕ-eq : (a b : ℕ) → (compare a b ≡ Ordering.eq) ↔ (a ≡ b)
cmp_ℕ-eq a b = ground arith

pub cmp_ℕ-gt : (a b : ℕ) → compare a b ≡ Ordering.gt → compare b a ≡ Ordering.lt
cmp_ℕ-gt a b h = ground arith

pub cmp_ℕ-trans :
    (a b c : ℕ) → compare a b ≡ Ordering.lt → compare b c ≡ Ordering.lt → compare a c ≡ Ordering.lt
cmp_ℕ-trans a b c p q = ground arith

instance abbrev pub nat_ord : Ord ℕ
nat_ord = record { cmp = compare; cmp_eq = cmp_ℕ-eq; cmp_gt = cmp_ℕ-gt; cmp_trans = cmp_ℕ-trans }

-- Pairs are compared by their first parts, then by their second.
abbrev pub cmp_pair : ℕ × ℕ → ℕ × ℕ → Ordering
cmp_pair (a, b) (c, d) = elim (compare a c) [
  | Ordering.lt ↦ Ordering.lt
  | Ordering.eq ↦ compare b d
  | Ordering.gt ↦ Ordering.gt
]

pub cmp_pair-eq : (p q : ℕ × ℕ) → (cmp_pair p q ≡ Ordering.eq) ↔ (p ≡ q)
cmp_pair-eq p q = ground arith

pub cmp_pair-gt : (p q : ℕ × ℕ) → cmp_pair p q ≡ Ordering.gt → cmp_pair q p ≡ Ordering.lt
cmp_pair-gt p q h = ground arith

pub cmp_pair_trans :
    (p q r : ℕ × ℕ)
    → cmp_pair p q ≡ Ordering.lt
    → cmp_pair q r ≡ Ordering.lt
    → cmp_pair p r ≡ Ordering.lt
cmp_pair_trans p q r g h = ground arith

instance abbrev pub pair_ord : Ord (ℕ × ℕ)
pair_ord = record {
  cmp = cmp_pair;
  cmp_eq = cmp_pair-eq;
  cmp_gt = cmp_pair-gt;
  cmp_trans = cmp_pair_trans;
}

abbrev pub is_eq : Ordering → Bool
is_eq Ordering.eq = true
is_eq _ = false

abbrev pub is_lt : Ordering → Bool
is_lt Ordering.lt = true
is_lt _ = false

module _ {ℓ} {K : Type ℓ} ⦃o : Ord K⦄ where
  -- `==` and `<` of the keys.
  abbrev pub same_key : K → K → Bool
  same_key a b = is_eq (o.cmp a b)

  abbrev pub key_lt : K → K → Bool
  key_lt a b = is_lt (o.cmp a b)

  pub same_key_iff : (a b : K) → (same_key a b ≡ true) ↔ (a ≡ b)
  same_key_iff a b = ground (arith, o.cmp_eq a b)

abbrev pub Map {ℓ κ} : Type ℓ → Type κ → Type (ℓ ⊔ κ)
Map K V = List (K × V)

module _ {ℓ κ} {K : Type ℓ} ⦃o : Ord K⦄ {V : Type κ} where
  unfoldable pub get : K → Map K V → Option V
  get k [] = none
  get k ((j, v) ∷ m) = if same_key j k then some v else get k m

  -- The value at `k` before the entry that is compared decides where the new one goes.
  unfoldable pub insert : K → V → Map K V → Map K V
  insert k v [] = (k, v) ∷ []
  insert k v ((j, w) ∷ m) = elim (o.cmp k j) [
    | Ordering.lt ↦ (k, v) ∷ ((j, w) ∷ m)
    | Ordering.eq ↦ (k, v) ∷ m
    | Ordering.gt ↦ (j, w) ∷ insert k v m
  ]

  unfoldable pub remove : K → Map K V → Map K V
  remove k [] = []
  remove k ((j, w) ∷ m) = let rest = remove k m in if same_key j k then rest else (j, w) ∷ rest

  -- `k` is below every key.
  abbrev pub Below : K → Map K V → Type ℓ
  Below k [] = Unit {ℓ}
  Below k ((j, w) ∷ m) = (key_lt k j ≡ true) × Below k m

  abbrev pub IsSorted : Map K V → Type ℓ
  IsSorted [] = Unit {ℓ}
  IsSorted ((j, w) ∷ m) = Below j m × IsSorted m

  pub get-insert :
      (k j : K) (v : V) (m : Map K V)
      → get j (insert k v m) ≡ (if same_key k j then some v else get j m)
  unfolding get insert
  get-insert k j v [] = refl
  get-insert k j v ((i, w) ∷ m) =
      ground (arith, o.cmp_eq k i, o.cmp_eq i j, o.cmp_eq k j, get-insert k j v m)

  pub get-remove :
      (k j : K) (m : Map K V) → get j (remove k m) ≡ (if same_key k j then none else get j m)
  unfolding get remove
  get-remove k j [] = ground arith
  get-remove k j ((i, w) ∷ m) =
      ground (arith, o.cmp_eq i k, o.cmp_eq i j, o.cmp_eq k j, get-remove k j m)

  pub Below-trans : (i j : K) (m : Map K V) → key_lt i j ≡ true → Below j m → Below i m
  Below-trans i j [] h b = b
  Below-trans i j ((k, w) ∷ m) h (p, b) = (ground (arith, o.cmp_trans i j k), Below-trans i j m h b)

  Below-insert :
      (i k : K) (v : V) (m : Map K V) → key_lt i k ≡ true → Below i m → Below i (insert k v m)
  unfolding insert
  Below-insert i k v [] h b = ground arith
  Below-insert i k v ((j, w) ∷ m) h (p, b) = ground (arith, Below-insert i k v m h b)

  Below-remove : (i k : K) (m : Map K V) → Below i m → Below i (remove k m)
  unfolding remove
  Below-remove i k [] b = b
  Below-remove i k ((j, w) ∷ m) (p, b) = ground (arith, Below-remove i k m b)

  pub insert-IsSorted : (k : K) (v : V) (m : Map K V) → IsSorted m → IsSorted (insert k v m)
  unfolding insert
  insert-IsSorted k v [] h = ground arith
  insert-IsSorted k v ((j, w) ∷ m) (b, h) = ground (
    arith,
    o.cmp_eq k j,
    o.cmp_gt k j,
    Below-trans k j m,
    Below-insert j k v m,
    insert-IsSorted k v m h,
  )

  pub remove-IsSorted : (k : K) (m : Map K V) → IsSorted m → IsSorted (remove k m)
  unfolding remove
  remove-IsSorted k [] h = h
  remove-IsSorted k ((j, w) ∷ m) (b, h) =
      ground (arith, Below-remove j k m b, remove-IsSorted k m h)
