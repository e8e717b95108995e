-- ===== src/Manifest/Steps.antt =====
-- core/src/manifest/transition.rs: the manifests of a database over its life.
use litesdb.Base.{ℕ, ◌+◌, ◌≤◌, ◌<◌, ◌^◌, ◌≡◌, ◌||◌, refl, arith, List, ltb, sym, subst, ◌∙◌, some}
use litesdb.Base.{ok, >>=-eq-ok, ok_or, ok_or-eq_ok, fail_if-eq_ok, ok-injective, traverse}
use litesdb.Base.Int.{checked_add}
use litesdb.Wal.Checkpoint.{Checkpoint}
use litesdb.Wal.Tail.State.{TailIndex}
use litesdb.Manifest.Catalog.{
  Manifest, ManifestIdentity, RetentionState, TableCatalog, UnitMeta, restore_manifest,
}
use litesdb.Manifest.Transition.{
  next_identity, catalog_of, successor_from_tail, successor_catalog, successor_writer_epoch, spent,
}
use litesdb.Manifest.Valid.{IsManifest}
use litesdb.Manifest.Restore.{restore_manifest_inv}

-- A manifest that the code can put in the place of another.
pub data Successor (m m' : Manifest) : Type 0 where
  from_tail :
      (checkpoint : Checkpoint) (tail : TailIndex) (units : List UnitMeta) (high : ℕ)
      → successor_from_tail m checkpoint tail units high ≡ ok m'
      → Successor m m'
  from_catalog :
      (retention : RetentionState) (units : List UnitMeta) (high : ℕ)
      → successor_catalog m retention units high ≡ ok m'
      → Successor m m'
  from_epoch : successor_writer_epoch m ≡ ok m' → Successor m m'

-- The manifests that follow a first one, with the number of the steps.
pub data Follows (m : Manifest) : ℕ → Manifest → Type 0 where
  start : Follows m 0 m
  next : {n : ℕ} {m' m'' : Manifest} → Follows m n m' → Successor m' m'' → Follows m (n + 1) m''

-- What no later manifest takes back.
pub record NotRegressed (old new : ManifestIdentity) : Type 0 where
  pub units_kept : old.unit_high_water ≤ new.unit_high_water
  pub tables_kept : old.table_high_water ≤ new.table_high_water
  pub epoch_kept : old.writer_epoch ≤ new.writer_epoch
  pub shard_kept : new.shard_id ≡ old.shard_id

-- A step adds one to the generation, which stays a `u64`.
abbrev Advanced : Manifest → Manifest → Type 0
Advanced m m' =
    IsManifest m'
    × (m'.identity.generation ≡ m.identity.generation + 1)
    × (m'.identity.generation < 2 ^ 64)
    × NotRegressed m.identity m'.identity

pub checked_add_inv : (a b : ℕ) {c : ℕ} → checked_add 64 a b ≡ some c → (c ≡ a + b) × (c < 2 ^ 64)
unfolding checked_add
checked_add_inv a b h = ground arith

next_identity_inv :
    (m : Manifest) (units tables : ℕ) {identity : ManifestIdentity}
    → next_identity m units tables ≡ ok identity
    → (identity.generation ≡ m.identity.generation + 1)
      × (identity.generation < 2 ^ 64)
      × NotRegressed m.identity identity
unfolding next_identity
next_identity_inv m units tables h =
    let (generation, g, h₁) = >>=-eq-ok _ _ h in
    let (_, f, h₂) = >>=-eq-ok _ _ h₁ in
    let kept =
      fail_if-eq_ok (ltb units m.identity.unit_high_water || ltb tables m.identity.table_high_water)
        _ f in
    let (plus, small) = checked_add_inv _ _ (ok_or-eq_ok _ _ g) in
    subst
      (λ new.
        (new.generation ≡ m.identity.generation + 1)
        × (new.generation < 2 ^ 64)
        × NotRegressed m.identity new)
      {x = record {
        generation = generation;
        unit_high_water = units;
        table_high_water = tables;
        shard_id = m.identity.shard_id;
        writer_epoch = m.identity.writer_epoch;
      }}
      (ok-injective h₂)
      (
        plus,
        small,
        record {
          units_kept = ground (arith, kept);
          tables_kept = ground (arith, kept);
          epoch_kept = omega arith;
          shard_kept = refl;
        },
      )

restored_step :
    (m m' : Manifest) (identity : ManifestIdentity) (checkpoint : Checkpoint)
    (retention : RetentionState) (tables : List TableCatalog) (units : List UnitMeta)
    → identity.generation ≡ m.identity.generation + 1
    → identity.generation < 2 ^ 64
    → NotRegressed m.identity identity
    → restore_manifest identity checkpoint retention tables units ≡ ok m'
    → Advanced m m'
restored_step m m' identity checkpoint retention tables units g small kept h =
    let (same, is) = restore_manifest_inv identity checkpoint retention tables units h in
    subst (λ new. Advanced m new) (sym same) (is, g, small, kept)

step_inv : (m m' : Manifest) → Successor m m' → Advanced m m'
unfolding successor_from_tail successor_catalog successor_writer_epoch
step_inv m m' (from_tail checkpoint tail units high h) =
    let (tables, _, h₁) = >>=-eq-ok (traverse catalog_of tail.tables) _ h in
    let (identity, i, h₂) = >>=-eq-ok (next_identity m high tail.table_high_water) _ h₁ in
    let (g, small, kept) = next_identity_inv m _ _ i in
    restored_step m m' identity checkpoint m.retention tables units g small kept h₂
step_inv m m' (from_catalog retention units high h) =
    let (identity, i, h₁) = >>=-eq-ok (next_identity m high m.identity.table_high_water) _ h in
    let (g, small, kept) = next_identity_inv m _ _ i in
    restored_step m m' identity m.checkpoint retention m.tables units g small kept h₁
step_inv m m' (from_epoch h) =
    let (generation, g, h₁) =
      >>=-eq-ok (ok_or (checked_add 64 m.identity.generation 1) (spent "manifest_generation")) _
        h in
    let (epoch, e, h₂) =
      >>=-eq-ok (ok_or (checked_add 64 m.identity.writer_epoch 1) (spent "writer_epoch")) _ h₁ in
    let (plus, small) = checked_add_inv _ _ (ok_or-eq_ok _ _ g) in
    let (more, _) = checked_add_inv _ _ (ok_or-eq_ok _ _ e) in
    restored_step m m' (record m.identity { generation = generation; writer_epoch = epoch })
      m.checkpoint m.retention m.tables m.units plus small
      (record {
        units_kept = omega arith;
        tables_kept = omega arith;
        epoch_kept = omega arith;
        shard_kept = refl;
      })
      h₂

NotRegressed-trans :
    (a b c : ManifestIdentity) → NotRegressed a b → NotRegressed b c → NotRegressed a c
NotRegressed-trans a b c p q = record {
  units_kept = omega (arith, p.units_kept, q.units_kept);
  tables_kept = omega (arith, p.tables_kept, q.tables_kept);
  epoch_kept = omega (arith, p.epoch_kept, q.epoch_kept);
  shard_kept = q.shard_kept ∙ p.shard_kept;
}

-- Nothing regresses: from a well-formed manifest, any number of successors, made from the tail of
-- the log, from the catalog or for a new writer epoch, leads to a well-formed manifest whose
-- generation is higher by that number, whose high waters and writer epoch are not lower, and
-- whose shard is the same.
pub Follows-IsManifest :
    (m m' : Manifest) (n : ℕ)
    → IsManifest m
    → Follows m n m'
    → IsManifest m'
      × (m'.identity.generation ≡ m.identity.generation + n)
      × NotRegressed m.identity m'.identity
Follows-IsManifest m m' n is start = (
  is,
  omega arith,
  record {
    units_kept = omega arith;
    tables_kept = omega arith;
    epoch_kept = omega arith;
    shard_kept = refl;
  },
)
Follows-IsManifest m m'' n is (next {n = k} {m' = m'} steps step) =
    let (is', g, kept) = Follows-IsManifest m m' k is steps in
    let (is'', g', small, kept') = step_inv m' m'' step in
    (is'', omega arith, NotRegressed-trans m.identity m'.identity m''.identity kept kept')
