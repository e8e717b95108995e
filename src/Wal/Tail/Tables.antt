-- ===== src/Wal/Tail/Tables.antt =====
-- Creating, dropping and replacing a table, and retiring a series, keep the index well formed.
use litesdb.Base.{
  ℕ, ◌≤◌, ◌<◌, ◌==◌, not, ◌||◌, ◌≡◌, refl, arith, Option, none, some, is_some, false,
}
use litesdb.Base.{Result, ok, >>=-eq-ok, fail_if}
use litesdb.Base.{Error, fail_if-eq_ok}
use litesdb.Base.Int.{ℤ, checked_add}
use litesdb.Base.Map.{get, insert, remove, insert-IsSorted, remove-IsSorted, nat_ord}
use litesdb.Limits.{max_tail_index_bytes}
use litesdb.Types.Value.{TableId, SeriesId}
use litesdb.Types.Schema.{VersionSpec, initial}
use litesdb.Wal.Tail.State.{TailTable, TailIndex}
use litesdb.Wal.Tail.Validate.{validate_create}
use litesdb.Wal.Tail.Validate.{validate_present, next_table, is_none}
use litesdb.Wal.Tail.Apply.{apply_create, apply_drop}
use litesdb.Wal.Tail.Apply.{apply_retire_series, set_table, created}
use litesdb.Wal.Tail.Invariant.{
  IsTable, IsTail, Tables-get, Tables-insert, Tables-remove, Tables-grow,
}

pub IsTable-of :
    (tail : TailIndex) (id : TableId) (state : TailTable)
    → IsTail tail
    → get id tail.tables ≡ some state
    → (id ≤ tail.table_high_water) × IsTable tail.estimated_bytes state
IsTable-of tail id state is found = Tables-get _ _ tail.tables id state is.each found

-- A table that is replaced, with more bytes.
pub IsTail-replace :
    (tail : TailIndex) (id : TableId) (state : TailTable) (bytes : ℕ)
    → IsTail tail
    → id ≤ tail.table_high_water
    → tail.estimated_bytes ≤ bytes
    → bytes ≤ max_tail_index_bytes
    → IsTable bytes state
    → IsTail (record (set_table tail id state) { estimated_bytes = bytes })
IsTail-replace tail id state bytes is low grow small new = record {
  sorted = insert-IsSorted id state tail.tables is.sorted;
  each =
      Tables-insert _ _ tail.tables id state
        (Tables-grow tail.table_high_water tail.table_high_water tail.estimated_bytes bytes
          tail.tables (omega arith) grow is.each)
        low new;
  bounded = small;
}

pub IsTail-set_table :
    (tail : TailIndex) (id : TableId) (state : TailTable)
    → IsTail tail
    → id ≤ tail.table_high_water
    → IsTable tail.estimated_bytes state
    → IsTail (set_table tail id state)
IsTail-set_table tail id state is low new =
    IsTail-replace tail id state tail.estimated_bytes is low (omega arith) is.bounded new

abbrev pub Applied : TailIndex → Result TailIndex → Type 0
Applied tail result = (tail' : TailIndex) × (result ≡ ok tail') × IsTail tail'

IsTable-created : (bytes : ℕ) (spec : VersionSpec) → IsTable bytes (created spec)
unfolding created initial
IsTable-created bytes spec = record {
  numbered = refl;
  tiled = refl;
  clocked = tt;
  streams = tt;
  few_rows = omega arith;
  few_entries = omega arith;
}

new_table :
    (tail : TailIndex) (id expected : ℕ)
    → next_table tail ≡ ok expected
    → (found : Option TailTable) → not (id == expected) || is_some found ≡ false
    → (tail.table_high_water < expected) × (id ≡ expected)
unfolding next_table checked_add
new_table tail id expected next found fresh = ground arith

pub apply_create-validate_create :
    (tail : TailIndex) (id : TableId) (spec : VersionSpec)
    → IsTail tail
    → validate_create tail id ≡ ok tt
    → Applied tail (apply_create tail id spec)
unfolding validate_create apply_create
apply_create-validate_create tail id spec is h =
    let (expected, next, h₁) = >>=-eq-ok (next_table tail) _ h in
    let fresh = fail_if-eq_ok _ _ h₁ in
    let (above, same) = new_table tail id expected next (get id tail.tables) fresh in
    (
      record tail { tables = insert id (created spec) tail.tables; table_high_water = expected },
      rw (next, fresh) refl,
      record {
        sorted = insert-IsSorted id (created spec) tail.tables is.sorted;
        each =
            Tables-insert _ _ tail.tables id (created spec)
              (Tables-grow tail.table_high_water expected tail.estimated_bytes tail.estimated_bytes
                tail.tables (omega arith) (omega arith) is.each)
              (omega arith) (IsTable-created tail.estimated_bytes spec);
        bounded = is.bounded;
      },
    )

pub apply_drop-validate_present :
    (tail : TailIndex) (id : TableId)
    → IsTail tail
    → validate_present tail id ≡ ok tt
    → Applied tail (apply_drop tail id)
unfolding validate_present apply_drop
apply_drop-validate_present tail id is h = (
  record tail { tables = remove id tail.tables },
  rw (fail_if-eq_ok _ _ h) refl,
  record {
    sorted = remove-IsSorted id tail.tables is.sorted;
    each = Tables-remove _ _ tail.tables id is.each;
    bounded = is.bounded;
  },
)

some_of {ℓ} :
    {A : Type ℓ} (o : Option A) (e : Error) → fail_if (is_none o) e ≡ ok tt → (a : A) × (o ≡ some a)
unfolding is_none
some_of none e h = cc
some_of (some a) e h = (a, refl)

found_of :
    (tail : TailIndex) (id : TableId)
    → validate_present tail id ≡ ok tt
    → (state : TailTable) × (get id tail.tables ≡ some state)
unfolding validate_present
found_of tail id h = some_of (get id tail.tables) _ h

pub apply_retire_series-validate_present :
    (tail : TailIndex) (id : TableId) (series : SeriesId) (t : ℤ)
    → IsTail tail
    → validate_present tail id ≡ ok tt
    → Applied tail (apply_retire_series tail id series t)
unfolding apply_retire_series
apply_retire_series-validate_present tail id series t is h =
    let (state, found) = found_of tail id h in
    let (low, table) = IsTable-of tail id state is found in
    let state' : TailTable = record state {
      retired_series = insert series t state.retired_series;
    } in
    (
      set_table tail id state',
      rw (found) refl,
      IsTail-set_table tail id state' is low (record {
        numbered = table.numbered;
        tiled = table.tiled;
        clocked = table.clocked;
        streams = table.streams;
        few_rows = table.few_rows;
        few_entries = table.few_entries;
      }),
    )
