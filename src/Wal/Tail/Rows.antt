-- ===== src/Wal/Tail/Rows.antt =====
-- What one more row, or one more version, keeps of a table.
use litesdb.Base.{
  ℕ, ◌+◌, ◌≤◌, ◌<◌, ◌≡◌, refl, arith, List, [], ◌∷◌, ◌++◌, All, Option, none, some, last?, is_some,
  true,
}
use litesdb.Base.{Bool-cases, inl, inr, ok}
use litesdb.Base.Int.{ℤ, ◌<ℤ◌}
use litesdb.Base.Map.{Map, nat_ord, pair_ord, insert, get}
use litesdb.Types.Schema.{TableVersion, activate}
use litesdb.Types.Observation.{Observation, ObservationEntry, validate_after}
use litesdb.Types.Value.{SeriesId, FieldId}
use litesdb.Wal.Tail.State.{TailTable, TailRow}
use litesdb.Wal.Tail.Apply.{
  activate_last, activated, push_row, apply_entry, apply_entries, or_default,
}
use litesdb.Wal.Tail.Invariant.{Numbered, Tiles, Clocked, StreamRows}

pub Tiles-snoc :
    (rows : List TailRow) (start end : ℕ) (row : TailRow)
    → Tiles start rows end
    → row.entry_start ≡ end
    → Tiles start (rows ++ (row ∷ [])) (end + row.entry_len)
Tiles-snoc [] start end row h e = (omega arith, omega arith)
Tiles-snoc (r ∷ rows) start end row (here, rest) e =
    (here, Tiles-snoc rows (start + r.entry_len) end row rest e)

-- A time after the last one.
abbrev pub After : Option ℤ → ℤ → Type 0
After none t = Unit {0}
After (some last) t = last <ℤ t

pub After-validate_after :
    (o : Observation) (last : Option ℤ) → validate_after o last ≡ ok tt → After last o.timestamp
unfolding validate_after
After-validate_after o none h = tt
After-validate_after o (some last) h = ground arith

After-last : (last : Option ℤ) (at t : ℤ) → last ≡ some at → After last t → at <ℤ t
After-last none at t e a = cc
After-last (some last) at t e a = let same : last ≡ at = cc in ground arith

pub Clocked-snoc :
    (rows : List TailRow) (last : Option ℤ) (row : TailRow)
    → Clocked rows last
    → After last row.timestamp
    → Clocked (rows ++ (row ∷ [])) (some row.timestamp)
Clocked-snoc [] last row h a = refl
Clocked-snoc (r ∷ []) last row h a = (After-last last r.timestamp row.timestamp h a, refl)
Clocked-snoc (r ∷ (next ∷ rows)) last row (here, rest) a =
    (here, Clocked-snoc (next ∷ rows) last row rest a)

activated_ok :
    (v : TableVersion) (t : ℤ)
    → (x : TableVersion) × (activated v t ≡ ok x) × (x.version_no ≡ v.version_no)
unfolding activate
activated_ok v t = elim (Bool-cases (is_some v.effective_from)) [
  | inl h ↦ (v, rw (h) refl, refl)
  | inr h ↦ (record v { effective_from = some t }, rw (h) refl, refl)
]

Numbered-cons :
    (n : ℕ) (v : TableVersion) (vs : List TableVersion)
    → v.version_no ≡ n
    → is_some v.effective_from ≡ true
    → Numbered (n + 1) vs
    → Numbered n (v ∷ vs)
Numbered-cons n v [] e a h = absurd h
Numbered-cons n v (w ∷ rest) e a h = (e, a, h)

pub Numbered-activate_last :
    (n : ℕ) (versions : List TableVersion) (t : ℤ)
    → Numbered n versions
    → (v : TableVersion) × (vs : List TableVersion) × (activate_last versions t ≡ ok (v, vs))
      × Numbered n vs
unfolding activate_last
Numbered-activate_last n [] t h = absurd h
Numbered-activate_last n (v ∷ []) t h =
    let (x, is, same) = activated_ok v t in (x, x ∷ [], rw (is) refl, rw (same) h)
Numbered-activate_last n (v ∷ (w ∷ rest)) t (here, active, later) =
    let (x, vs, is, num) = Numbered-activate_last (n + 1) (w ∷ rest) t later in
    (x, v ∷ vs, rw (is) refl, Numbered-cons n v vs here active num)

pub Numbered-snoc :
    (n : ℕ) (versions : List TableVersion) (previous v : TableVersion)
    → Numbered n versions
    → last? versions ≡ some previous
    → is_some previous.effective_from ≡ true
    → v.version_no ≡ previous.version_no + 1
    → Numbered n (versions ++ (v ∷ []))
Numbered-snoc n [] previous v h l a e = absurd h
Numbered-snoc n (p ∷ []) previous v h l a e = let same : p ≡ previous = cc in (h, cc, cc)
Numbered-snoc n (p ∷ (w ∷ rest)) previous v (here, active, later) l a e =
    (here, active, Numbered-snoc (n + 1) (w ∷ rest) previous v later l a e)

All-grow :
    (count more : ℕ) (rows : List ℕ)
    → count ≤ more
    → All (λ row. row < count) rows
    → All (λ row. row < more) rows
All-grow count more [] h a = tt
All-grow count more (r ∷ rows) h (x, a) = (omega arith, All-grow count more rows h a)

pub StreamRows-grow :
    (count more : ℕ) (m : Map (SeriesId × FieldId) (List ℕ))
    → count ≤ more
    → StreamRows count m
    → StreamRows more m
StreamRows-grow count more [] h s = tt
StreamRows-grow count more ((k, rows) ∷ m) h (here, rest) =
    (All-grow count more rows h here, StreamRows-grow count more m h rest)

All-snoc :
    (count row : ℕ) (rows : List ℕ)
    → row < count
    → All (λ row. row < count) rows
    → All (λ row. row < count) (rows ++ (row ∷ []))
All-snoc count row [] h a = (h, tt)
All-snoc count row (r ∷ rows) h (x, a) = (x, All-snoc count row rows h a)

StreamRows-get :
    (count : ℕ) (m : Map (SeriesId × FieldId) (List ℕ)) (k : SeriesId × FieldId)
    → StreamRows count m
    → All (λ row. row < count) (or_default (get k m))
unfolding get
StreamRows-get count [] k s = tt
StreamRows-get count ((j, rows) ∷ m) k (here, rest) = ground (arith, StreamRows-get count m k rest)

StreamRows-insert :
    (count : ℕ) (m : Map (SeriesId × FieldId) (List ℕ)) (k : SeriesId × FieldId) (rows : List ℕ)
    → StreamRows count m
    → All (λ row. row < count) rows
    → StreamRows count (insert k rows m)
unfolding insert
StreamRows-insert count [] k rows s a = (a, tt)
StreamRows-insert count ((j, other) ∷ m) k rows (here, rest) a =
    ground (arith, StreamRows-insert count m k rows rest)

pub StreamRows-apply_entries :
    (t : ℤ) (row count : ℕ) (list : List ObservationEntry) (state : TailTable)
    → row < count
    → StreamRows count state.per_stream
    → StreamRows count (apply_entries t row list state).per_stream
unfolding apply_entries apply_entry push_row
StreamRows-apply_entries t row count [] state h s = s
StreamRows-apply_entries t row count (entry ∷ rest) state h s =
    let pushed =
      StreamRows-insert count state.per_stream (entry.series, entry.field) _ s
        (All-snoc count row _ h
          (StreamRows-get count state.per_stream (entry.series, entry.field) s)) in
    StreamRows-apply_entries t row count rest (apply_entry t row entry state) h pushed
