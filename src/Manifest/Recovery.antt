-- ===== src/Manifest/Recovery.antt =====
-- core/src/manifest/catalog.rs, core/src/manifest/transition.rs and core/src/wal/tail.rs: the index
-- that a manifest restores, and the manifest that the index gives back.
use litesdb.Base.{
  ℕ, ◌+◌, ◌≤◌, ◌<◌, ◌^◌, ◌≡◌, ◌||◌, refl, sym, ap, subst, ◌∙◌, arith, List, [], ◌∷◌, ◌++◌, map,
  append_assoc, append-nil, All, ltb, true, false, Option, none, some,
}
use litesdb.Base.{ok, traverse-map}
use litesdb.Base.Int.{checked_add}
use litesdb.Base.Map.{Map, IsSorted, Below-trans, key_lt, nat_ord}
use litesdb.Types.Value.{TableId}
use litesdb.Types.Schema.{TableVersion}
use litesdb.Types.Observation.{is_empty}
use litesdb.Wal.Checkpoint.{Checkpoint}
use litesdb.Wal.Tail.State.{
  TailTable, TailIndex, restored_table, restore_tables, restore_tail, not_above,
}
use litesdb.Wal.Tail.Invariant.{Numbered, IsTail, Tables}
use litesdb.Manifest.Catalog.{
  Manifest, ManifestIdentity, TableCatalog, SeriesRetirement, FieldRetirement, series_pair,
  field_pair, recovered, replay_target,
}
use litesdb.Manifest.Transition.{
  catalog_of, series_retirement, field_retirement, successor_from_tail, next_identity,
}
use litesdb.Manifest.Valid.{TablesOrdered, IsManifest}
use litesdb.Manifest.Restore.{restore_manifest_ok}
use litesdb.Manifest.Tables.{IsCatalog, IsCatalog-CatalogFacts, collect_sorted, insert-last}

abbrev entry_of : TableCatalog → TableId × TailTable
entry_of t = (t.table, restored_table (recovered t))

-- The entries of ordered tables are sorted.
entries-IsSorted :
    (tables : List TableCatalog) → TablesOrdered tables → IsSorted (map entry_of tables)
entries-IsSorted [] h = tt
entries-IsSorted (t ∷ []) h = (tt, tt)
entries-IsSorted (t ∷ (u ∷ rest)) (low, h) =
    let sorted = entries-IsSorted (u ∷ rest) h in
    let lower : key_lt t.table u.table ≡ true = ground arith in
    ((lower, Below-trans t.table u.table (map entry_of rest) lower sorted.0), sorted)

not_empty : (versions : List TableVersion) → Numbered 1 versions → is_empty versions ≡ false
not_empty [] h = absurd h
not_empty (v ∷ vs) h = refl

-- The first of the tables is above the one before.
abbrev Above : Option TableId → List TableCatalog → Type 0
Above previous [] = Unit {0}
Above previous (t ∷ rest) = not_above previous t.table ≡ false

next-Above :
    (t : TableCatalog) (rest : List TableCatalog)
    → TablesOrdered (t ∷ rest)
    → Above (some t.table) rest
next-Above t [] h = tt
next-Above t (u ∷ rest) (h, g) = ground arith

ordered_rest :
    (t : TableCatalog) (rest : List TableCatalog) → TablesOrdered (t ∷ rest) → TablesOrdered rest
ordered_rest t [] h = tt
ordered_rest t (u ∷ rest) (h, g) = g

restore_tables_ok :
    (high : ℕ) (previous : Option TableId) (tables : List TableCatalog) (m : Map TableId TailTable)
    → TablesOrdered tables
    → Above previous tables
    → All (λ t. t.table ≤ high) tables
    → All IsCatalog tables
    → IsSorted (m ++ map entry_of tables)
    → restore_tables high previous (map recovered tables) m ≡ ok (m ++ map entry_of tables)
unfolding restore_tables recovered
restore_tables_ok high previous [] m order above low is sorted = rw (append-nil m) refl
restore_tables_ok high previous (t ∷ rest) m order above (low, lows) (is, iss) sorted =
    let facts = IsCatalog-CatalogFacts t is in
    let some_versions = not_empty t.versions facts.numbered in
    let fits : (ltb high t.table || not_above previous t.table || is_empty t.versions) ≡ false =
      ground (arith, above, some_versions) in
    let state = restored_table (recovered t) in
    let joined = append_assoc m ((t.table, state) ∷ []) (map entry_of rest) in
    rw (fits, insert-last t.table state m (map entry_of rest) sorted)
      (restore_tables_ok high (some t.table) rest (m ++ ((t.table, state) ∷ []))
          (ordered_rest t rest order) (next-Above t rest order) lows iss
          (subst (λ l. IsSorted l) (sym joined) sorted)
        ∙ ap (λ l. ok l) joined)

-- The index of a manifest.
abbrev tail_of : Manifest → TailIndex
tail_of m = record {
  tables = map entry_of m.tables;
  table_high_water = m.identity.table_high_water;
  next_seq = m.checkpoint.next_seq;
  estimated_bytes = 0;
}

replay_target_ok :
    (m : Manifest) → IsManifest m → All IsCatalog m.tables → replay_target m ≡ ok (tail_of m)
unfolding replay_target restore_tail
replay_target_ok m is tables =
    rw
      (restore_tables_ok m.identity.table_high_water none m.tables [] is.tables_ordered
        (first m.tables) is.tables_low tables (entries-IsSorted m.tables is.tables_ordered))
      refl
  where
    first : (tables : List TableCatalog) → Above none tables
    first [] = tt
    first (t ∷ rest) = refl

restored-Tables :
    (high : ℕ) (tables : List TableCatalog)
    → All (λ t. t.table ≤ high) tables
    → All IsCatalog tables
    → Tables high 0 (map entry_of tables)
unfolding restored_table recovered
restored-Tables high [] low is = tt
restored-Tables high (t ∷ rest) (low, lows) (is, iss) =
    let facts = IsCatalog-CatalogFacts t is in
    (
      low,
      record {
        numbered = facts.numbered;
        tiled = refl;
        clocked = tt;
        streams = tt;
        few_rows = omega arith;
        few_entries = omega arith;
      },
      restored-Tables high rest lows iss,
    )

-- A checkpoint restores a well-formed index: from a well-formed manifest whose tables their
-- constructor made, the replay target is built, it is well formed, its next sequence number and
-- its high water are those of the manifest, and nothing is counted in it yet.
pub replay_target-IsTail :
    (m : Manifest)
    → IsManifest m
    → All IsCatalog m.tables
    → (tail : TailIndex) × (replay_target m ≡ ok tail)
      × IsTail tail
      × (tail.next_seq ≡ m.checkpoint.next_seq)
      × (tail.table_high_water ≡ m.identity.table_high_water)
      × (tail.estimated_bytes ≡ 0)
replay_target-IsTail m is tables = (
  tail_of m,
  replay_target_ok m is tables,
  record {
    sorted = entries-IsSorted m.tables is.tables_ordered;
    each = restored-Tables m.identity.table_high_water m.tables is.tables_low tables;
    bounded = omega arith;
  },
  refl,
  refl,
  refl,
)

map-series_pair :
    (retired : List SeriesRetirement) → map series_retirement (map series_pair retired) ≡ retired
map-series_pair [] = refl
map-series_pair (r ∷ rest) = ap (λ l. r ∷ l) (map-series_pair rest)

map-field_pair :
    (retired : List FieldRetirement) → map field_retirement (map field_pair retired) ≡ retired
map-field_pair [] = refl
map-field_pair (r ∷ rest) = ap (λ l. r ∷ l) (map-field_pair rest)

catalog_of-entry_of : (t : TableCatalog) → IsCatalog t → catalog_of (entry_of t) ≡ ok t
unfolding catalog_of restored_table recovered
catalog_of-entry_of t is =
    let facts = IsCatalog-CatalogFacts t is in
    rw
      (
        collect_sorted (map series_pair t.retired_series) [] facts.series_sorted,
        collect_sorted (map field_pair t.retired_fields) [] facts.fields_sorted,
        map-series_pair t.retired_series,
        map-field_pair t.retired_fields,
      )
      is

given_back :
    (tables : List TableCatalog)
    → All IsCatalog tables
    → All (λ t. catalog_of (entry_of t) ≡ ok t) tables
given_back [] h = tt
given_back (t ∷ rest) (is, iss) = (catalog_of-entry_of t is, given_back rest iss)

-- A checkpoint with nothing to replay changes nothing but its place: when the generation is not
-- the last, the replay target of a well-formed manifest whose tables their constructor made is
-- built, and the successor from it with the same units is the manifest with the next generation
-- and the new checkpoint.
pub successor_from_tail-replay_target :
    (m : Manifest) (checkpoint : Checkpoint)
    → IsManifest m
    → All IsCatalog m.tables
    → m.identity.generation + 1 < 2 ^ 64
    → (tail : TailIndex) × (replay_target m ≡ ok tail)
      × (successor_from_tail m checkpoint tail m.units m.identity.unit_high_water
          ≡ ok (record m {
            identity = record m.identity { generation = m.identity.generation + 1 };
            checkpoint = checkpoint;
          }))
unfolding successor_from_tail next_identity checked_add
successor_from_tail-replay_target m checkpoint is tables room =
    let identity : ManifestIdentity = record m.identity {
      generation = m.identity.generation + 1;
    } in
    let m' : Manifest = record m { identity = identity; checkpoint = checkpoint } in
    let fits : ltb (m.identity.generation + 1) (2 ^ 64) ≡ true = ground arith in
    let kept : (ltb m.identity.unit_high_water m.identity.unit_high_water
          || ltb m.identity.table_high_water m.identity.table_high_water)
        ≡ false =
      ground arith in
    let is' : IsManifest m' = record {
      few_tables = is.few_tables;
      few_units = is.few_units;
      tables_ordered = is.tables_ordered;
      units_ordered = is.units_ordered;
      distinct = is.distinct;
      tables_low = is.tables_low;
      units_low = is.units_low;
    } in
    (
      tail_of m,
      replay_target_ok m is tables,
      rw (traverse-map catalog_of entry_of m.tables (given_back m.tables tables), fits, kept)
          (restore_manifest_ok m' is'),
    )
