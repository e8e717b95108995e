-- ===== src/Manifest/Valid.antt =====
-- core/src/manifest/catalog.rs: what `Manifest::restore` accepts.
use litesdb.Base.{
  ℕ, ◌≤◌, ◌<◌, ◌==◌, ◌≡◌, ◌≢◌, refl, arith, List, [], ◌∷◌, All, length, any, any_adjacent, last?,
  ltb, true, false,
}
use litesdb.Limits.{max_tables, max_live_units}
use litesdb.Manifest.Catalog.{Manifest, TableCatalog, UnitMeta}
use litesdb.Manifest.Catalog.{
  tables_unordered, units_unordered, order_key_lt, repeats_id, last_above,
}
use litesdb.Base.{◌⊎◌, inl, inr, ◌↔◌, Bool-cases}
use litesdb.Base.Int.{◌<ℤ◌, ltb_ℤ, eq_of_parts}

-- The tables are in the order of their identifiers.
abbrev pub TablesOrdered : List TableCatalog → Type 0
TablesOrdered [] = Unit {0}
TablesOrdered (t ∷ []) = Unit {0}
TablesOrdered (t ∷ (u ∷ rest)) = (t.table < u.table) × TablesOrdered (u ∷ rest)

-- A unit starts earlier, or at the same time with a lower identifier.
abbrev pub Precedes : UnitMeta → UnitMeta → Type 0
Precedes t u = (t.min_ts <ℤ u.min_ts) ⊎ ((t.min_ts ≡ u.min_ts) × (t.unit_id < u.unit_id))

order_key_lt_iff : (t u : UnitMeta) → (order_key_lt t u ≡ true) ↔ Precedes t u
unfolding order_key_lt
order_key_lt_iff t u = (before t u, later t u)
  where
    before : (t u : UnitMeta) → order_key_lt t u ≡ true → Precedes t u
    before t u h = elim (Bool-cases (ltb_ℤ t.min_ts u.min_ts)) [
      | inl earlier ↦ inl (ground arith)
      | inr not_earlier ↦ inr (eq_of_parts t.min_ts u.min_ts (ground arith), ground arith)
    ]

    later : (t u : UnitMeta) → Precedes t u → order_key_lt t u ≡ true
    later t u (inl earlier) = ground arith
    later t u (inr (same, lower)) = rw (same) (ground arith)

-- The units are in the order of their minimum times, and of their identifiers at one time.
abbrev pub UnitsOrdered : List UnitMeta → Type 0
UnitsOrdered [] = Unit {0}
UnitsOrdered (t ∷ []) = Unit {0}
UnitsOrdered (t ∷ (u ∷ rest)) = Precedes t u × UnitsOrdered (u ∷ rest)

-- No unit has the identifier.
abbrev pub Absent : ℕ → List UnitMeta → Type 0
Absent id units = All (λ unit. id ≢ unit.unit_id) units

abbrev pub Distinct : List UnitMeta → Type 0
Distinct [] = Unit {0}
Distinct (unit ∷ rest) = Absent unit.unit_id rest × Distinct rest

pub record IsManifest (m : Manifest) : Type 0 where
  pub few_tables : length m.tables ≤ max_tables
  pub few_units : length m.units ≤ max_live_units
  pub tables_ordered : TablesOrdered m.tables
  pub units_ordered : UnitsOrdered m.units
  pub distinct : Distinct m.units
  pub tables_low : All (λ t. t.table ≤ m.identity.table_high_water) m.tables
  pub units_low : All (λ u. u.unit_id ≤ m.identity.unit_high_water) m.units

pub TablesOrdered-of :
    (tables : List TableCatalog)
    → any_adjacent tables_unordered tables ≡ false
    → TablesOrdered tables
TablesOrdered-of [] h = tt
TablesOrdered-of (t ∷ []) h = tt
TablesOrdered-of (t ∷ (u ∷ rest)) h = ground (arith, TablesOrdered-of (u ∷ rest))

pub tables_adjacent :
    (tables : List TableCatalog)
    → TablesOrdered tables
    → any_adjacent tables_unordered tables ≡ false
tables_adjacent [] h = refl
tables_adjacent (t ∷ []) h = refl
tables_adjacent (t ∷ (u ∷ rest)) (h, g) = ground (arith, tables_adjacent (u ∷ rest) g)

pub UnitsOrdered-of :
    (units : List UnitMeta) → any_adjacent units_unordered units ≡ false → UnitsOrdered units
UnitsOrdered-of [] h = tt
UnitsOrdered-of (t ∷ []) h = tt
UnitsOrdered-of (t ∷ (u ∷ rest)) h =
    let here : order_key_lt t u ≡ true = ground arith in
    ((order_key_lt_iff t u).0 here, UnitsOrdered-of (u ∷ rest) (ground arith))

pub units_adjacent :
    (units : List UnitMeta) → UnitsOrdered units → any_adjacent units_unordered units ≡ false
units_adjacent [] h = refl
units_adjacent (t ∷ []) h = refl
units_adjacent (t ∷ (u ∷ rest)) (h, g) =
    let here : order_key_lt t u ≡ true = (order_key_lt_iff t u).1 h in
    ground (arith, units_adjacent (u ∷ rest) g)

-- The last of ordered tables is the highest.
pub tables_low_of :
    (high : ℕ) (tables : List TableCatalog)
    → TablesOrdered tables
    → last_above high (last? tables) ≡ false
    → All (λ t. t.table ≤ high) tables
unfolding last_above
tables_low_of high [] h g = tt
tables_low_of high (t ∷ []) h g = ground arith
tables_low_of high (t ∷ (u ∷ rest)) (low, h) g =
    let (here, later) = tables_low_of high (u ∷ rest) h g in (omega arith, (here, later))

pub last_above_of :
    (high : ℕ) (tables : List TableCatalog)
    → All (λ t. t.table ≤ high) tables
    → last_above high (last? tables) ≡ false
unfolding last_above
last_above_of high [] h = refl
last_above_of high (t ∷ []) (h, g) = ground arith
last_above_of high (t ∷ (u ∷ rest)) (h, g) = last_above_of high (u ∷ rest) g

pub units_low_of :
    (high : ℕ) (units : List UnitMeta)
    → any (λ unit. ltb high unit.unit_id) units ≡ false
    → All (λ u. u.unit_id ≤ high) units
units_low_of high [] h = tt
units_low_of high (u ∷ rest) h = ground (arith, units_low_of high rest)

pub any_above_of :
    (high : ℕ) (units : List UnitMeta)
    → All (λ u. u.unit_id ≤ high) units
    → any (λ unit. ltb high unit.unit_id) units ≡ false
any_above_of high [] h = refl
any_above_of high (u ∷ rest) (h, g) = ground (arith, any_above_of high rest g)

-- No unit has an identifier of the set.
abbrev Fresh : List ℕ → List UnitMeta → Type 0
Fresh ids units = All (λ id. Absent id units) ids

absent_here :
    (ids : List ℕ) (unit : UnitMeta)
    → any (λ id. id == unit.unit_id) ids ≡ false
    → All (λ id. id ≢ unit.unit_id) ids
absent_here [] unit h = tt
absent_here (id ∷ ids) unit h = ground (arith, absent_here ids unit)

any_here :
    (ids : List ℕ) (unit : UnitMeta)
    → All (λ id. id ≢ unit.unit_id) ids
    → any (λ id. id == unit.unit_id) ids ≡ false
any_here [] unit h = refl
any_here (id ∷ ids) unit (h, g) = ground (arith, any_here ids unit g)

Fresh-cons :
    (ids : List ℕ) (unit : UnitMeta) (rest : List UnitMeta)
    → All (λ id. id ≢ unit.unit_id) ids
    → Fresh ids rest
    → Fresh ids (unit ∷ rest)
Fresh-cons [] unit rest h g = tt
Fresh-cons (id ∷ ids) unit rest (h, hs) (g, gs) = ((h, g), Fresh-cons ids unit rest hs gs)

Fresh-head :
    (ids : List ℕ) (unit : UnitMeta) (rest : List UnitMeta)
    → Fresh ids (unit ∷ rest)
    → All (λ id. id ≢ unit.unit_id) ids × Fresh ids rest
Fresh-head [] unit rest h = (tt, tt)
Fresh-head (id ∷ ids) unit rest ((h, g), hs) =
    let (heads, tails) = Fresh-head ids unit rest hs in ((h, heads), (g, tails))

Fresh-nil : (ids : List ℕ) → Fresh ids []
Fresh-nil [] = tt
Fresh-nil (id ∷ ids) = (tt, Fresh-nil ids)

pub Distinct-of :
    (ids : List ℕ) (units : List UnitMeta)
    → repeats_id ids units ≡ false
    → Fresh ids units × Distinct units
unfolding repeats_id
Distinct-of ids [] h = (Fresh-nil ids, tt)
Distinct-of ids (unit ∷ rest) h =
    let new : any (λ id. id == unit.unit_id) ids ≡ false = ground arith in
    let later : repeats_id (unit.unit_id ∷ ids) rest ≡ false = ground arith in
    let ((absent, fresh), distinct) = Distinct-of (unit.unit_id ∷ ids) rest later in
    (Fresh-cons ids unit rest (absent_here ids unit new) fresh, (absent, distinct))

pub repeats_id_of :
    (ids : List ℕ) (units : List UnitMeta)
    → Fresh ids units
    → Distinct units
    → repeats_id ids units ≡ false
unfolding repeats_id
repeats_id_of ids [] f d = refl
repeats_id_of ids (unit ∷ rest) f (absent, d) =
    let (new, fresh) = Fresh-head ids unit rest f in
    rw (any_here ids unit new, repeats_id_of (unit.unit_id ∷ ids) rest (absent, fresh) d) refl
