-- ===== src/Manifest/Tables.antt =====
-- core/src/manifest/catalog.rs with core/src/wal/tail.rs: a table of the catalog and its place in
-- the tail index.
use litesdb.Base.{
  ℕ, ◌+◌, ◌==◌, ◌≡◌, ◌||◌, refl, sym, subst, ◌∙◌, arith, List, [], ◌∷◌, ◌++◌, Bool, map,
  append_assoc, append-nil, length, any_adjacent, leb, ltb, not, true, false, is_some, Option, none,
  some,
}
use litesdb.Base.{ok, >>=-eq-ok, ok_or, ok_or-eq_ok, fail_if, fail_if-eq_ok}
use litesdb.Base.Int.{ℤ, checked_add, try_from}
use litesdb.Base.Map.{Map, IsSorted, Below, Below-trans, key_lt, insert, nat_ord}
use litesdb.Limits.{max_logical_streams}
use litesdb.Types.Schema.{TableVersion}
use litesdb.Types.Observation.{is_empty}
use litesdb.Wal.Tail.State.{collect}
use litesdb.Wal.Tail.Invariant.{Numbered}
use litesdb.Manifest.Catalog.{
  TableCatalog, series_pair, field_pair, restore_table, series_unordered, retired_unordered,
}
use litesdb.Manifest.Versions.{
  validate_versions, validate_from, next_effective, validate_field_compatibility, in_table,
}

Below-end {ℓ} :
    {V : Type ℓ} (j k : ℕ) (v : V) (m rest : Map ℕ V)
    → Below j (m ++ ((k, v) ∷ rest))
    → key_lt j k ≡ true
Below-end j k v [] rest b = b.0
Below-end j k v ((i, w) ∷ m) rest b = Below-end j k v m rest b.1

-- Inserting above every key puts the entry at the end.
pub insert-last {ℓ} :
    {V : Type ℓ} (k : ℕ) (v : V) (m rest : Map ℕ V)
    → IsSorted (m ++ ((k, v) ∷ rest))
    → insert k v m ≡ m ++ ((k, v) ∷ [])
unfolding insert
insert-last k v [] rest h = refl
insert-last k v ((j, w) ∷ m) rest (b, h) =
    ground (arith, insert-last k v m rest h, Below-end j k v m rest b)

-- Collecting entries in the order of their keys keeps them as they are.
pub collect_sorted {ℓ} :
    {V : Type ℓ} (rest m : Map ℕ V) → IsSorted (m ++ rest) → collect rest m ≡ m ++ rest
unfolding collect
collect_sorted [] m h = sym (append-nil m)
collect_sorted ((k, v) ∷ rest) m h =
    let joined = append_assoc m ((k, v) ∷ []) rest in
    rw (insert-last k v m rest h)
      (collect_sorted rest (m ++ ((k, v) ∷ [])) (subst (λ l. IsSorted l) (sym joined) h) ∙ joined)

-- Entries whose keys rise are sorted.
rising {ℓ κ} :
    {A : Type ℓ} {V : Type κ} (f : A → ℕ × V) (xs : List A)
    → any_adjacent (λ a b. leb (f b).0 (f a).0) xs ≡ false
    → IsSorted (map f xs)
rising f [] h = tt
rising f (x ∷ []) h = (tt, tt)
rising f (x ∷ (y ∷ ys)) h =
    let sorted = rising f (y ∷ ys) (ground (arith, h)) in
    let lower : key_lt (f x).0 (f y).0 ≡ true = ground arith in
    ((lower, Below-trans (f x).0 (f y).0 (map f ys) lower sorted.0), sorted)

-- Only the last version may be inactive.
next_effective_inv :
    (previous effective : Option ℤ) (is_last : Bool) {found : Option ℤ}
    → next_effective previous effective is_last ≡ ok found
    → is_last ≡ false
    → is_some effective ≡ true
unfolding next_effective
next_effective_inv previous none is_last h g = ground (arith, h)
next_effective_inv previous (some effective) is_last h g = refl

try_from-add :
    (index : ℕ) {number expected : ℕ}
    → try_from 32 index ≡ some number
    → checked_add 32 number 1 ≡ some expected
    → expected ≡ index + 1
unfolding try_from checked_add
try_from-add index h g = ground arith

-- What one round says of its version.
round_inv :
    (count index : ℕ) (before : Option TableVersion) (effective : Option ℤ) (version : TableVersion)
    (rest : List TableVersion) {last : Option ℤ}
    → validate_from count index before effective (version ∷ rest) ≡ ok last
    → (effective' : Option ℤ) × (version.version_no ≡ index + 1)
      × ((index + 1 == count) ≡ false → is_some version.effective_from ≡ true)
      × (validate_from count (index + 1) (some version) effective' rest ≡ ok last)
unfolding validate_from
round_inv count index before effective version rest h =
    let (number, n, h₁) =
      >>=-eq-ok (ok_or (try_from 32 index) (in_table "version number overflow")) _ h in
    let (expected, x, h₂) =
      >>=-eq-ok (ok_or (checked_add 32 number 1) (in_table "version number overflow")) _ h₁ in
    let (_, same, h₃) = >>=-eq-ok (fail_if (not (version.version_no == expected)) _) _ h₂ in
    let (_, _, h₄) = >>=-eq-ok (validate_field_compatibility before version) _ h₃ in
    let (effective', active, h₅) =
      >>=-eq-ok (next_effective effective version.effective_from (index + 1 == count)) _ h₄ in
    let number_is = try_from-add index (ok_or-eq_ok _ _ n) (ok_or-eq_ok _ _ x) in
    let same_no = fail_if-eq_ok (not (version.version_no == expected)) _ same in
    (
      effective',
      ground (arith, same_no, number_is),
      next_effective_inv effective version.effective_from (index + 1 == count) active,
      h₅,
    )

-- The versions that pass are numbered, and only the last may be inactive.
validate_from-Numbered :
    (count index : ℕ) (before : Option TableVersion) (effective : Option ℤ) (version : TableVersion)
    (rest : List TableVersion) {last : Option ℤ}
    → count ≡ index + length (version ∷ rest)
    → validate_from count index before effective (version ∷ rest) ≡ ok last
    → Numbered (index + 1) (version ∷ rest)
validate_from-Numbered count index before effective version [] e h =
    (round_inv count index before effective version [] h).1
validate_from-Numbered count index before effective version (next ∷ rest) e h =
    let (effective', number, active, h') =
      round_inv count index before effective version (next ∷ rest) h in
    (
      number,
      active (ground arith),
      validate_from-Numbered count (index + 1) (some version) effective' next rest (omega arith) h',
    )

validate_versions-Numbered :
    (last_ts : Option ℤ) (versions : List TableVersion) {u : Unit {0}}
    → validate_versions last_ts versions ≡ ok u
    → Numbered 1 versions
unfolding validate_versions
validate_versions-Numbered last_ts [] h = ground (arith, h)
validate_versions-Numbered last_ts (version ∷ rest) h =
    let versions = version ∷ rest in
    let (_, _, h₁) =
      >>=-eq-ok
        (fail_if (is_empty versions || ltb max_logical_streams (length versions))
          (in_table "version count is invalid"))
        _ h in
    let (last, passed, _) = >>=-eq-ok (validate_from (length versions) 0 none none versions) _ h₁ in
    validate_from-Numbered (length versions) 0 none none version rest (omega arith) passed

-- A table that its constructor made.
abbrev pub IsCatalog : TableCatalog → Type 0
IsCatalog t = restore_table t.table t.last_ts t.versions t.retired_series t.retired_fields ≡ ok t

pub record CatalogFacts (t : TableCatalog) : Type 0 where
  pub numbered : Numbered 1 t.versions
  pub series_sorted : IsSorted (map series_pair t.retired_series)
  pub fields_sorted : IsSorted (map field_pair t.retired_fields)

pub IsCatalog-CatalogFacts : (t : TableCatalog) → IsCatalog t → CatalogFacts t
unfolding restore_table
IsCatalog-CatalogFacts t h =
    let (_, v, h₁) = >>=-eq-ok (validate_versions t.last_ts t.versions) _ h in
    let (_, s, h₂) = >>=-eq-ok (fail_if (any_adjacent series_unordered t.retired_series) _) _ h₁ in
    let (_, f, _) = >>=-eq-ok (fail_if (any_adjacent retired_unordered t.retired_fields) _) _ h₂ in
    record {
      numbered = validate_versions-Numbered t.last_ts t.versions v;
      series_sorted = rising series_pair t.retired_series (fail_if-eq_ok _ _ s);
      fields_sorted = rising field_pair t.retired_fields (fail_if-eq_ok _ _ f);
    }
