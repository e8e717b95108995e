-- ===== src/Manifest/Restore.antt =====
-- core/src/manifest/catalog.rs: `Manifest::restore` accepts the well-formed manifests and no other.
use litesdb.Base.{ℕ, ◌≤◌, ◌≡◌, ◌↔◌, ◌||◌, refl, sym, arith, List, [], length, any, last?, ltb}
use litesdb.Base.{ok, >>=-eq-ok, fail_if-eq_ok, ok-injective, String}
use litesdb.Limits.{max_tables, max_live_units}
use litesdb.Wal.Checkpoint.{Checkpoint}
use litesdb.Manifest.Catalog.{Manifest, ManifestIdentity, RetentionState, TableCatalog, UnitMeta}
use litesdb.Manifest.Catalog.{restore_manifest, last_above}
use litesdb.Manifest.Valid.{
  IsManifest, TablesOrdered-of, tables_adjacent, UnitsOrdered-of, units_adjacent, tables_low_of,
  last_above_of, units_low_of, any_above_of, Distinct-of, repeats_id_of,
}
use litesdb.Manifest.Versions.{validate_count}

abbrev pub manifest_of :
    ManifestIdentity → Checkpoint → RetentionState → List TableCatalog → List UnitMeta → Manifest
manifest_of identity checkpoint retention tables units = record {
  identity = identity;
  checkpoint = checkpoint;
  retention = retention;
  tables = tables;
  units = units;
}

count_fits :
    (name : String) (actual maximum : ℕ) {u : Unit {0}}
    → validate_count name actual maximum ≡ ok u
    → actual ≤ maximum
unfolding validate_count
count_fits name actual maximum h = ground (arith, fail_if-eq_ok _ _ h)

count_ok :
    (name : String) (actual maximum : ℕ)
    → actual ≤ maximum
    → validate_count name actual maximum ≡ ok tt
unfolding validate_count
count_ok name actual maximum h = ground arith

pub restore_manifest_inv :
    (identity : ManifestIdentity) (checkpoint : Checkpoint) (retention : RetentionState)
    (tables : List TableCatalog) (units : List UnitMeta) {m : Manifest}
    → restore_manifest identity checkpoint retention tables units ≡ ok m
    → (m ≡ manifest_of identity checkpoint retention tables units)
      × IsManifest (manifest_of identity checkpoint retention tables units)
unfolding restore_manifest
restore_manifest_inv identity checkpoint retention tables units h =
    let (_, few_t, h₁) = >>=-eq-ok _ _ h in
    let (_, few_u, h₂) = >>=-eq-ok _ _ h₁ in
    let (_, order_t, h₃) = >>=-eq-ok _ _ h₂ in
    let (_, order_u, h₄) = >>=-eq-ok _ _ h₃ in
    let (_, repeats, h₅) = >>=-eq-ok _ _ h₄ in
    let (_, above, h₆) = >>=-eq-ok _ _ h₅ in
    let ordered = TablesOrdered-of tables (fail_if-eq_ok _ _ order_t) in
    let low =
      fail_if-eq_ok
        (last_above identity.table_high_water (last? tables)
          || any (λ unit. ltb identity.unit_high_water unit.unit_id) units)
        _ above in
    (
      sym (ok-injective h₆),
      record {
        few_tables = count_fits _ _ _ few_t;
        few_units = count_fits _ _ _ few_u;
        tables_ordered = ordered;
        units_ordered = UnitsOrdered-of units (fail_if-eq_ok _ _ order_u);
        distinct = (Distinct-of [] units (fail_if-eq_ok _ _ repeats)).1;
        tables_low = tables_low_of _ tables ordered (ground (arith, low));
        units_low = units_low_of _ units (ground (arith, low));
      },
    )

pub restore_manifest_ok :
    (m : Manifest)
    → IsManifest m
    → restore_manifest m.identity m.checkpoint m.retention m.tables m.units ≡ ok m
unfolding restore_manifest
restore_manifest_ok m is =
    rw
      (
        count_ok "tables" (length m.tables) max_tables is.few_tables,
        count_ok "live_units" (length m.units) max_live_units is.few_units,
        tables_adjacent m.tables is.tables_ordered,
        units_adjacent m.units is.units_ordered,
        repeats_id_of [] m.units tt is.distinct,
        last_above_of m.identity.table_high_water m.tables is.tables_low,
        any_above_of m.identity.unit_high_water m.units is.units_low,
      )
      refl

-- What is restored is well formed, and nothing well formed is refused: restoring the parts of a
-- manifest gives that manifest just when its counts are within the limits, its tables are strictly
-- ordered, its units are strictly ordered by minimum time and identifier, no identifier of a unit
-- repeats, and no identifier is above its high water.
pub restore_manifest_iff :
    (m : Manifest)
    → (restore_manifest m.identity m.checkpoint m.retention m.tables m.units ≡ ok m) ↔ IsManifest m
restore_manifest_iff m = (
  λ h. (restore_manifest_inv m.identity m.checkpoint m.retention m.tables m.units h).1,
  restore_manifest_ok m,
)
