-- ===== src/Manifest/Next.antt =====
-- core/src/manifest/transition.rs: which successors a manifest has.
use litesdb.Base.{
  ℕ, ◌+◌, ◌≤◌, ◌<◌, ◌^◌, ◌≡◌, ◌||◌, refl, arith, List, ltb, false, sym, subst, ◌∙◌, some,
}
use litesdb.Base.{ok, >>=-eq-ok, ok_or, ok_or-eq_ok, fail_if-eq_ok, ok-injective}
use litesdb.Base.Int.{checked_add}
use litesdb.Manifest.Catalog.{Manifest, ManifestIdentity, RetentionState, UnitMeta}
use litesdb.Manifest.Transition.{next_identity, successor_catalog, successor_writer_epoch, spent}
use litesdb.Manifest.Valid.{IsManifest}
use litesdb.Manifest.Restore.{restore_manifest_inv}
use litesdb.Base.{◌↔◌, ap}
use litesdb.Manifest.Steps.{checked_add_inv}
use litesdb.Manifest.Restore.{restore_manifest_ok}

checked_add_next : (a : ℕ) → a + 1 < 2 ^ 64 → checked_add 64 a 1 ≡ some (a + 1)
unfolding checked_add
checked_add_next a h = ground arith

-- The manifest of the next generation with other units and another retention.
abbrev pub with_catalog : Manifest → RetentionState → List UnitMeta → ℕ → Manifest
with_catalog m retention units high = record m {
  identity = record m.identity { generation = m.identity.generation + 1; unit_high_water = high };
  retention = retention;
  units = units;
}

-- The manifest of the next generation for the next writer.
abbrev pub with_next_epoch : Manifest → Manifest
with_next_epoch m = record m {
  identity = record m.identity {
    generation = m.identity.generation + 1;
    writer_epoch = m.identity.writer_epoch + 1;
  };
}

-- Neither the generation nor the epoch matters to the form of a manifest.
with_next_epoch-IsManifest : (m : Manifest) → IsManifest m → IsManifest (with_next_epoch m)
with_next_epoch-IsManifest m is = record {
  few_tables = is.few_tables;
  few_units = is.few_units;
  tables_ordered = is.tables_ordered;
  units_ordered = is.units_ordered;
  distinct = is.distinct;
  tables_low = is.tables_low;
  units_low = is.units_low;
}

next_identity_exact :
    (m : Manifest) (units : ℕ) {identity : ManifestIdentity}
    → next_identity m units m.identity.table_high_water ≡ ok identity
    → (m.identity.generation + 1 < 2 ^ 64)
      × (m.identity.unit_high_water ≤ units)
      × (identity
          ≡ record m.identity { generation = m.identity.generation + 1; unit_high_water = units })
unfolding next_identity
next_identity_exact m units h =
    let (generation, g, h₁) = >>=-eq-ok _ _ h in
    let (_, f, h₂) = >>=-eq-ok _ _ h₁ in
    let kept =
      fail_if-eq_ok
        (ltb units m.identity.unit_high_water
          || ltb m.identity.table_high_water m.identity.table_high_water)
        _ f in
    let (plus, small) = checked_add_inv _ _ (ok_or-eq_ok _ _ g) in
    (omega arith, ground (arith, kept), sym (ok-injective h₂) ∙ rw (plus) refl)

-- Which catalogs can follow a manifest: a successor from units, a retention and a high water of the
-- units is made just when the generation is not at the end of `u64`, the high water is not lower,
-- and the manifest of the next generation with these parts is well formed; it is that manifest.
pub successor_catalog_iff :
    (m m' : Manifest) (retention : RetentionState) (units : List UnitMeta) (high : ℕ)
    → (successor_catalog m retention units high ≡ ok m') ↔ (
        (m.identity.generation + 1 < 2 ^ 64)
        × (m.identity.unit_high_water ≤ high)
        × IsManifest (with_catalog m retention units high)
        × (m' ≡ with_catalog m retention units high))
unfolding successor_catalog next_identity
successor_catalog_iff m m' retention units high = (
  λ h.
      let (identity, i, h₁) = >>=-eq-ok (next_identity m high m.identity.table_high_water) _ h in
      let (small, kept, same) = next_identity_exact m high i in
      let (made, is) = restore_manifest_inv identity m.checkpoint retention m.tables units h₁ in
      let placed : ManifestIdentity → Manifest =
        λ i. record (with_catalog m retention units high) { identity = i } in
      (small, kept, subst (λ i. IsManifest (placed i)) same is, made ∙ ap placed same),
  λ (small, kept, is, same).
      let regressed : (ltb high m.identity.unit_high_water
            || ltb m.identity.table_high_water m.identity.table_high_water)
          ≡ false =
        ground arith in
      rw (checked_add_next m.identity.generation small, regressed)
        (restore_manifest_ok (with_catalog m retention units high) is ∙ ap (λ r. ok r) (sym same)),
)

-- Which manifests have a next writer: from a well-formed manifest, a successor for a new writer
-- epoch is made just when neither the generation nor the epoch is at the end of `u64`; it has both
-- raised by one, and all else is as before.
pub successor_writer_epoch_iff :
    (m m' : Manifest)
    → IsManifest m
    → (successor_writer_epoch m ≡ ok m') ↔ (
        (m.identity.generation + 1 < 2 ^ 64)
        × (m.identity.writer_epoch + 1 < 2 ^ 64)
        × (m' ≡ with_next_epoch m))
unfolding successor_writer_epoch
successor_writer_epoch_iff m m' is = (
  λ h.
      let (generation, g, h₁) =
        >>=-eq-ok (ok_or (checked_add 64 m.identity.generation 1) (spent "manifest_generation")) _
          h in
      let (epoch, e, h₂) =
        >>=-eq-ok (ok_or (checked_add 64 m.identity.writer_epoch 1) (spent "writer_epoch")) _ h₁ in
      let (plus, small) = checked_add_inv _ _ (ok_or-eq_ok _ _ g) in
      let (more, small') = checked_add_inv _ _ (ok_or-eq_ok _ _ e) in
      let (made, _) = restore_manifest_inv _ m.checkpoint m.retention m.tables m.units h₂ in
      (omega arith, omega arith, made ∙ rw (plus, more) refl),
  λ (small, small', same).
      rw
        (
          checked_add_next m.identity.generation small,
          checked_add_next m.identity.writer_epoch small',
        )
        (restore_manifest_ok (with_next_epoch m) (with_next_epoch-IsManifest m is)
          ∙ ap (λ r. ok r) (sym same)),
)
