-- ===== src/Wal/Tail/Read.antt =====
-- What the index gives back of an observation that was applied.
use litesdb.Base.{
  ℕ, String, ◌+◌, ◌≡◌, ◌≢◌, refl, ap, arith, List, [], ◌∷◌, ◌++◌, length, take, drop, none, some,
}
use litesdb.Base.{length-append, ok, >>=-eq-ok, ok_or, ok_or-eq_ok, last?, leb, true, if◌then◌else◌}
use litesdb.Base.Int.{try_from, checked_add}
use litesdb.Base.Map.{Map, get, insert, get-insert, nat_ord}
use litesdb.Types.Schema.{TableVersion}
use litesdb.Types.Value.{TableId}
use litesdb.Types.Observation.{Observation, ObservationEntry, entries}
use litesdb.Wal.Record.{append_observation}
use litesdb.Wal.Tail.State.{TailTable, TailIndex, TailRow, row_entries}
use litesdb.Wal.Tail.Validate.{validate, estimate_with}
use litesdb.Wal.Tail.Apply.{
  apply, apply_body, apply_observation, push_observation, row_number, activate_last,
}

drop-length {ℓ} : {A : Type ℓ} (xs ys : List A) → drop (length xs) (xs ++ ys) ≡ ys
drop-length [] ys = refl
drop-length (x ∷ xs) ys = drop-length xs ys

take-length {ℓ} : {A : Type ℓ} (xs : List A) → take (length xs) xs ≡ xs
take-length [] = refl
take-length (x ∷ xs) = ap (λ t. x ∷ t) (take-length xs)

last?-append {ℓ} : {A : Type ℓ} (xs : List A) (x : A) → last? (xs ++ (x ∷ [])) ≡ some x
last?-append [] x = refl
last?-append (y ∷ []) x = refl
last?-append (y ∷ (z ∷ xs)) x = last?-append (z ∷ xs) x

-- The new row of a table owns the entries of the observation.
abbrev pub HoldsLast : TailTable → Observation → Type 0
HoldsLast state o =
    (row : TailRow) × (last? state.rows ≡ some row)
    × (row.timestamp ≡ o.timestamp)
    × (row_entries state row ≡ some (entries o))
    × (state.last_ts ≡ some o.timestamp)

row_number_inv : (limit : String) (n m : ℕ) → row_number limit n ≡ ok m → m ≡ n
unfolding try_from
row_number_inv limit n m h = ground arith

row_of_entries :
    (start list : List ObservationEntry)
    → (if leb (length start + length list) (length (start ++ list))
        then some (take (length list) (drop (length start) (start ++ list)))
        else none)
      ≡ some list
row_of_entries start list =
    let fits : leb (length start + length list) (length (start ++ list)) ≡ true =
      ground (arith, length-append start list) in
    rw (fits, drop-length start list, take-length list) refl

HoldsLast-of :
    (state pushed : TailTable) (o : Observation) (row : TailRow)
    → pushed.rows ≡ state.rows ++ (row ∷ [])
    → pushed.entries ≡ state.entries ++ entries o
    → pushed.last_ts ≡ some o.timestamp
    → row.timestamp ≡ o.timestamp
    → row.entry_start ≡ length state.entries
    → row.entry_len ≡ length (entries o)
    → HoldsLast pushed o
unfolding row_entries
HoldsLast-of state pushed o row rows held clock time start len = (
  row,
  rw (rows) (last?-append state.rows row),
  time,
  rw (held, start, len) (row_of_entries state.entries (entries o)),
  clock,
)

abbrev pushed_row : Observation → TableVersion → ℕ → ℕ → TailRow
pushed_row o v start len = record {
  timestamp = o.timestamp;
  version_no = v.version_no;
  entry_start = start;
  entry_len = len;
}

HoldsLast-push_observation :
    (state : TailTable) (o : Observation) (pushed : TailTable)
    → push_observation state o ≡ ok pushed
    → HoldsLast pushed o
unfolding push_observation
HoldsLast-push_observation state o pushed h =
    let (n, e₁, h₁) = >>=-eq-ok (row_number "tail_rows" (length state.rows)) _ h in
    let (start, e₂, h₂) = >>=-eq-ok (row_number "tail_entries" (length state.entries)) _ h₁ in
    let (len, e₃, h₃) = >>=-eq-ok (row_number "tail_entries" (length (entries o))) _ h₂ in
    let ((v, vs), e₄, h₄) = >>=-eq-ok (activate_last state.versions o.timestamp) _ h₃ in
    let is_start = row_number_inv _ _ _ e₂ in
    let is_len = row_number_inv _ _ _ e₃ in
    HoldsLast-of state pushed o (pushed_row o v start len) (cc) (cc) (cc) refl is_start is_len

get_same :
    (id : TableId) (state : TailTable) (m : Map TableId TailTable)
    → get id (insert id state m) ≡ some state
get_same id state m = ground (arith, get-insert id id state m)

get_other :
    (id other : TableId) (state : TailTable) (m : Map TableId TailTable)
    → other ≢ id
    → get other (insert id state m) ≡ get other m
get_other id other state m ne = ground (arith, get-insert id other state m)

-- The index with the table of an observation pushed.
apply_observation_inv :
    (row_size entry_size : ℕ) (tail : TailIndex) (id : TableId) (o : Observation)
    (tail' : TailIndex)
    → apply_observation row_size entry_size tail id o ≡ ok tail'
    → (state : TailTable) × (pushed : TailTable) × (push_observation state o ≡ ok pushed)
      × (get id tail.tables ≡ some state)
      × (tail'.tables ≡ insert id pushed tail.tables)
unfolding apply_observation
apply_observation_inv row_size entry_size tail id o tail' h =
    let (estimated, e, h₁) = >>=-eq-ok (estimate_with row_size entry_size tail o) _ h in
    let (state, found, h₂) = >>=-eq-ok (ok_or (get id tail.tables) _) _ h₁ in
    let (pushed, push, h₃) = >>=-eq-ok (push_observation state o) _ h₂ in
    (state, pushed, push, ok_or-eq_ok _ _ found, cc)

tables_of_apply :
    (row_size entry_size : ℕ) (tail : TailIndex) (seq : ℕ) (id : TableId) (o : Observation)
    (tail' : TailIndex)
    → apply row_size entry_size tail seq (append_observation id o) ≡ ok tail'
    → (inner : TailIndex) × (apply_observation row_size entry_size tail id o ≡ ok inner)
      × (tail'.tables ≡ inner.tables)
unfolding apply apply_body
tables_of_apply row_size entry_size tail seq id o tail' h =
    let (_, valid, h₁) =
      >>=-eq-ok (validate row_size entry_size tail seq (append_observation id o)) _ h in
    let (n, next, h₂) = >>=-eq-ok (ok_or (checked_add 64 seq 1) _) _ h₁ in
    let (inner, done, h₃) = >>=-eq-ok (apply_observation row_size entry_size tail id o) _ h₂ in
    (inner, done, cc)

-- What is applied can be read: when an observation of a table is applied, the index has that
-- table, whose last row has the observation's time and gives back exactly the observation's
-- entries, the clock of the table is the observation's time, and every other table is as before.
pub row_entries-apply :
    (row_size entry_size : ℕ) (tail : TailIndex) (seq : ℕ) (id : TableId) (o : Observation)
    (tail' : TailIndex)
    → apply row_size entry_size tail seq (append_observation id o) ≡ ok tail'
    → ((state : TailTable) × (get id tail'.tables ≡ some state) × HoldsLast state o)
      × ((other : TableId) → other ≢ id → get other tail'.tables ≡ get other tail.tables)
row_entries-apply row_size entry_size tail seq id o tail' h =
    let (inner, done, same) = tables_of_apply row_size entry_size tail seq id o tail' h in
    let (state, pushed, push, found, tables) =
      apply_observation_inv row_size entry_size tail id o inner done in
    let all : tail'.tables ≡ insert id pushed tail.tables = cc in
    (
      (
        pushed,
        rw (all) (get_same id pushed tail.tables),
        HoldsLast-push_observation state o pushed push,
      ),
      (λ (other : TableId) (ne : other ≢ id). rw (all) (get_other id other pushed tail.tables ne)),
    )
