-- ===== src/Wal/Tail/Invariant.antt =====
-- What holds of the index at every moment.
use litesdb.Base.{
  ℕ, ◌+◌, ◌≤◌, ◌<◌, ◌≡◌, arith, List, [], ◌∷◌, All, length, Option, some, is_some, true,
}
use litesdb.Base.Int.{ℤ, ◌<ℤ◌}
use litesdb.Base.Map.{Map, IsSorted, nat_ord, pair_ord, insert, get, remove}
use litesdb.Limits.{max_tail_index_bytes}
use litesdb.Types.Schema.{TableVersion}
use litesdb.Types.Value.{TableId, SeriesId, FieldId}
use litesdb.Wal.Tail.State.{TailTable, TailIndex, TailRow}

-- The versions are numbered from `n` on, and all but the last are active.
abbrev pub Numbered : ℕ → List TableVersion → Type 0
Numbered n [] = ⊥
Numbered n (v ∷ []) = v.version_no ≡ n
Numbered n (v ∷ (w ∷ rest)) =
    (v.version_no ≡ n) × (is_some v.effective_from ≡ true) × Numbered (n + 1) (w ∷ rest)

-- The rows own consecutive runs of entries, from `start` to `end`.
abbrev pub Tiles : ℕ → List TailRow → ℕ → Type 0
Tiles start [] end = start ≡ end
Tiles start (row ∷ rest) end = (row.entry_start ≡ start) × Tiles (start + row.entry_len) rest end

abbrev pub Later : ℤ → List TailRow → Type 0
Later t rows = All (λ row. t <ℤ row.timestamp) rows

-- The rows are in the order of their times, and end at the time of the table.
abbrev pub Clocked : List TailRow → Option ℤ → Type 0
Clocked [] last = Unit {0}
Clocked (row ∷ []) last = last ≡ some row.timestamp
Clocked (row ∷ (next ∷ rest)) last = (row.timestamp <ℤ next.timestamp) × Clocked (next ∷ rest) last

-- Every stream lists rows of the table.
abbrev pub StreamRows : ℕ → Map (SeriesId × FieldId) (List ℕ) → Type 0
StreamRows count [] = Unit {0}
StreamRows count ((k, rows) ∷ m) = All (λ row. row < count) rows × StreamRows count m

pub record IsTable (bytes : ℕ) (state : TailTable) : Type 0 where
  pub numbered : Numbered 1 state.versions
  pub tiled : Tiles 0 state.rows (length state.entries)
  pub clocked : Clocked state.rows state.last_ts
  pub streams : StreamRows (length state.rows) state.per_stream
  pub few_rows : length state.rows ≤ bytes
  pub few_entries : length state.entries ≤ bytes

abbrev pub Tables : ℕ → ℕ → Map TableId TailTable → Type 0
Tables high bytes [] = Unit {0}
Tables high bytes ((id, state) ∷ m) = (id ≤ high) × IsTable bytes state × Tables high bytes m

pub record IsTail (tail : TailIndex) : Type 0 where
  pub sorted : IsSorted tail.tables
  pub each : Tables tail.table_high_water tail.estimated_bytes tail.tables
  pub bounded : tail.estimated_bytes ≤ max_tail_index_bytes

-- The tables of an index.
pub Tables-get :
    (high bytes : ℕ) (m : Map TableId TailTable) (id : TableId) (state : TailTable)
    → Tables high bytes m
    → get id m ≡ some state
    → (id ≤ high) × IsTable bytes state
unfolding get
Tables-get high bytes [] id state h e = cc
Tables-get high bytes ((j, s) ∷ m) id state (lower, here, rest) e =
    ground (arith, Tables-get high bytes m id state rest)

pub Tables-insert :
    (high bytes : ℕ) (m : Map TableId TailTable) (id : TableId) (state : TailTable)
    → Tables high bytes m
    → id ≤ high
    → IsTable bytes state
    → Tables high bytes (insert id state m)
unfolding insert
Tables-insert high bytes [] id state h lower is = (lower, is, tt)
Tables-insert high bytes ((j, s) ∷ m) id state (low, here, rest) lower is =
    ground (arith, Tables-insert high bytes m id state rest)

pub Tables-remove :
    (high bytes : ℕ) (m : Map TableId TailTable) (id : TableId)
    → Tables high bytes m
    → Tables high bytes (remove id m)
unfolding remove
Tables-remove high bytes [] id h = tt
Tables-remove high bytes ((j, s) ∷ m) id (low, here, rest) =
    ground (arith, Tables-remove high bytes m id rest)

IsTable-grow :
    (bytes more : ℕ) (state : TailTable) → bytes ≤ more → IsTable bytes state → IsTable more state
IsTable-grow bytes more state h is = record {
  numbered = is.numbered;
  tiled = is.tiled;
  clocked = is.clocked;
  streams = is.streams;
  few_rows = omega arith;
  few_entries = omega arith;
}

pub Tables-grow :
    (high top bytes more : ℕ) (m : Map TableId TailTable)
    → high ≤ top
    → bytes ≤ more
    → Tables high bytes m
    → Tables top more m
Tables-grow high top bytes more [] h g t = tt
Tables-grow high top bytes more ((id, state) ∷ m) h g (low, here, rest) =
    (omega arith, IsTable-grow bytes more state g here, Tables-grow high top bytes more m h g rest)
