-- ===== src/Wal/Tail/Bodies.antt =====
-- Every kind of record that validation accepts is applied, and keeps the index well formed.
use litesdb.Base.{
  ℕ, ◌+◌, ◌≤◌, not, ◌||◌, ◌≡◌, refl, arith, [], ◌∷◌, ◌++◌, some, is_some, true, false,
}
use litesdb.Base.{ok, >>=-eq-ok, ok_or, map_err, last?}
use litesdb.Base.{ok_or-eq_ok, fail_if-eq_ok, map_err-eq_ok, is_ok-eq_ok}
use litesdb.Base.Int.{ℤ}
use litesdb.Base.Map.{get, insert, nat_ord}
use litesdb.Types.Value.{TableId, FieldId}
use litesdb.Types.Schema.{TableVersion, VersionSpec, successor, find_field}
use litesdb.Types.Observation.{Observation, validate_after, validate_schema}
use litesdb.Wal.Record.{RecordBody, append_observation, create_table, new_table_version, drop_table}
use litesdb.Wal.Record.{retire_series, retire_field}
use litesdb.Wal.Tail.State.{TailTable, TailIndex, lookup_field, type_in}
use litesdb.Wal.Tail.Validate.{estimate_with, validate_body, validate_observation}
use litesdb.Wal.Tail.Validate.{validate_version, validate_retired_field, is_none, is_err}
use litesdb.Wal.Tail.Apply.{apply_body, apply_observation, apply_version}
use litesdb.Wal.Tail.Apply.{apply_retire_field, set_table, push_observation}
use litesdb.Wal.Tail.Invariant.{IsTail}
use litesdb.Wal.Tail.Rows.{After-validate_after, Numbered-snoc}
use litesdb.Wal.Tail.Push.{estimate_with_inv, IsTable-push_observation}
use litesdb.Wal.Tail.Tables.{
  IsTable-of, IsTail-replace, IsTail-set_table, Applied, apply_create-validate_create,
  apply_drop-validate_present, apply_retire_series-validate_present,
}

type_in-some :
    (version : TableVersion) (field : FieldId)
    → not (is_some (find_field field version.fields)) ≡ false
    → not (is_some (type_in field (some version))) ≡ false
type_in-some version field h = ground arith

lookup_field_none :
    (state : TailTable) (version : TableVersion) (field : FieldId)
    → last? state.versions ≡ some version
    → is_none (find_field field version.fields) ≡ false
    → is_none (lookup_field state field) ≡ false
unfolding lookup_field is_none
lookup_field_none state version field l h = rw (l) (type_in-some version field h)

apply_retire_field-validate_retired_field :
    (tail : TailIndex) (id : TableId) (field : FieldId) (t : ℤ)
    → IsTail tail
    → validate_retired_field tail id field ≡ ok tt
    → Applied tail (apply_retire_field tail id field t)
unfolding validate_retired_field apply_retire_field
apply_retire_field-validate_retired_field tail id field t is h =
    let (state, found, h₁) = >>=-eq-ok (ok_or (get id tail.tables) _) _ h in
    let (version, l, h₂) = >>=-eq-ok (ok_or (last? state.versions) _) _ h₁ in
    let here = ok_or-eq_ok _ _ found in
    let known = lookup_field_none state version field (ok_or-eq_ok _ _ l) (fail_if-eq_ok _ _ h₂) in
    let (low, table) = IsTable-of tail id state is here in
    let state' : TailTable = record state {
      retired_fields = insert field t state.retired_fields;
    } in
    (
      set_table tail id state',
      rw (here, known) refl,
      IsTail-set_table tail id state' is low (record {
        numbered = table.numbered;
        tiled = table.tiled;
        clocked = table.clocked;
        streams = table.streams;
        few_rows = table.few_rows;
        few_entries = table.few_entries;
      }),
    )

successor_number :
    (previous : TableVersion) (spec : VersionSpec) (v : TableVersion)
    → successor previous spec ≡ ok v
    → v.version_no ≡ previous.version_no + 1
unfolding successor
successor_number previous spec v h = ground arith

successor_ok :
    (previous : TableVersion) (spec : VersionSpec)
    → is_none previous.effective_from || is_err (successor previous spec) ≡ false
    → (v : TableVersion) × (successor previous spec ≡ ok v)
      × (v.version_no ≡ previous.version_no + 1)
      × (is_none previous.effective_from ≡ false)
      × (is_some previous.effective_from ≡ true)
unfolding is_none is_err
successor_ok previous spec h =
    let (v, e) = is_ok-eq_ok (successor previous spec) (ground arith) in
    (v, e, successor_number previous spec v e, ground arith, ground arith)

apply_version-validate_version :
    (tail : TailIndex) (id : TableId) (spec : VersionSpec)
    → IsTail tail
    → validate_version tail id spec ≡ ok tt
    → Applied tail (apply_version tail id spec)
unfolding validate_version apply_version
apply_version-validate_version tail id spec is h =
    let (state, found, h₁) = >>=-eq-ok (ok_or (get id tail.tables) _) _ h in
    let (previous, l, h₂) = >>=-eq-ok (ok_or (last? state.versions) _) _ h₁ in
    let here = ok_or-eq_ok _ _ found in
    let latest = ok_or-eq_ok _ _ l in
    let (v, next, number, known, active) = successor_ok previous spec (fail_if-eq_ok _ _ h₂) in
    let (low, table) = IsTable-of tail id state is here in
    let state' : TailTable = record state { versions = state.versions ++ (v ∷ []) } in
    (
      set_table tail id state',
      rw (here, latest, known, next) refl,
      IsTail-set_table tail id state' is low (record {
        numbered = Numbered-snoc 1 state.versions previous v table.numbered latest active number;
        tiled = table.tiled;
        clocked = table.clocked;
        streams = table.streams;
        few_rows = table.few_rows;
        few_entries = table.few_entries;
      }),
    )

apply_observation_ok :
    (row_size entry_size : ℕ) (tail : TailIndex) (id : TableId) (o : Observation) (estimated : ℕ)
    (state pushed : TailTable)
    → estimate_with row_size entry_size tail o ≡ ok estimated
    → get id tail.tables ≡ some state
    → push_observation state o ≡ ok pushed
    → apply_observation row_size entry_size tail id o
      ≡ ok (record (set_table tail id pushed) { estimated_bytes = estimated })
unfolding apply_observation
apply_observation_ok row_size entry_size tail id o estimated state pushed e here push =
    rw (e, here, push) refl

apply_observation-validate_observation :
    (row_size entry_size : ℕ) (tail : TailIndex) (id : TableId) (o : Observation)
    → 1 ≤ row_size
    → IsTail tail
    → validate_observation row_size entry_size tail id o ≡ ok tt
    → Applied tail (apply_observation row_size entry_size tail id o)
unfolding validate_observation
apply_observation-validate_observation row_size entry_size tail id o size is h =
    let (state, found, h₁) = >>=-eq-ok (ok_or (get id tail.tables) _) _ h in
    let (_, clock, h₂) = >>=-eq-ok (map_err _ (validate_after o state.last_ts)) _ h₁ in
    let (version, l, h₃) = >>=-eq-ok (ok_or (last? state.versions) _) _ h₂ in
    let (_, schema, h₄) = >>=-eq-ok (map_err _ (validate_schema o version)) _ h₃ in
    let (estimated, e, h₅) = >>=-eq-ok (estimate_with row_size entry_size tail o) _ h₄ in
    let here = ok_or-eq_ok _ _ found in
    let after = After-validate_after o state.last_ts (map_err-eq_ok _ _ clock) in
    let (grow, small) = estimate_with_inv row_size entry_size tail o estimated e in
    let (low, table) = IsTable-of tail id state is here in
    let (pushed, push, new) =
      IsTable-push_observation tail.estimated_bytes estimated state o table after (omega arith)
        small in
    (
      record (set_table tail id pushed) { estimated_bytes = estimated },
      apply_observation_ok row_size entry_size tail id o estimated state pushed e here push,
      IsTail-replace tail id pushed estimated is low (omega arith) small new,
    )

pub apply_body-validate_body :
    (row_size entry_size : ℕ) (tail : TailIndex) (body : RecordBody)
    → 1 ≤ row_size
    → IsTail tail
    → validate_body row_size entry_size tail body ≡ ok tt
    → Applied tail (apply_body row_size entry_size tail body)
unfolding validate_body apply_body
apply_body-validate_body row_size entry_size tail (append_observation id o) size is h =
    apply_observation-validate_observation row_size entry_size tail id o size is h
apply_body-validate_body row_size entry_size tail (create_table id spec) size is h =
    apply_create-validate_create tail id spec is h
apply_body-validate_body row_size entry_size tail (new_table_version id spec) size is h =
    apply_version-validate_version tail id spec is h
apply_body-validate_body row_size entry_size tail (drop_table id) size is h =
    apply_drop-validate_present tail id is h
apply_body-validate_body row_size entry_size tail (retire_series id series t) size is h =
    apply_retire_series-validate_present tail id series t is h
apply_body-validate_body row_size entry_size tail (retire_field id field t) size is h =
    apply_retire_field-validate_retired_field tail id field t is h
