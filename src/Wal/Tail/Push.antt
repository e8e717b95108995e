-- ===== src/Wal/Tail/Push.antt =====
-- A validated observation is always taken, and its table stays well formed.
use litesdb.Base.{ℕ, String, ◌+◌, ◌*◌, ◌≤◌, ◌<◌, ◌^◌, ◌≡◌, refl, arith, [], ◌∷◌, ◌++◌, length, some}
use litesdb.Base.{length-append, ok, >>=-eq-ok}
use litesdb.Base.Int.{checked_add, checked_mul, try_from}
use litesdb.Limits.{max_tail_index_bytes}
use litesdb.Types.Observation.{Observation, entries}
use litesdb.Wal.Tail.State.{TailTable, TailIndex, TailRow}
use litesdb.Wal.Tail.Validate.{estimate_row_bytes, estimate_with}
use litesdb.Wal.Tail.Apply.{apply_entries, push_observation, row_number}
use litesdb.Wal.Tail.Invariant.{IsTable}
use litesdb.Wal.Tail.Rows.{After, Tiles-snoc, Clocked-snoc, Numbered-activate_last, StreamRows-grow}
use litesdb.Wal.Tail.Rows.{StreamRows-apply_entries}

product_above : (n k : ℕ) → n ≤ n * (k + 4)
product_above n k = grind arith

pub estimate_row_bytes_inv :
    (row_size entry_size count increment : ℕ)
    → estimate_row_bytes row_size entry_size count ≡ ok increment
    → row_size + count ≤ increment
unfolding estimate_row_bytes checked_add checked_mul
estimate_row_bytes_inv row_size entry_size count increment h =
    ground (arith, product_above count entry_size)

-- The estimate grows with the rows and the entries, and stays in its limit.
pub estimate_with_inv :
    (row_size entry_size : ℕ) (tail : TailIndex) (o : Observation) (estimated : ℕ)
    → estimate_with row_size entry_size tail o ≡ ok estimated
    → (tail.estimated_bytes + row_size + length (entries o) ≤ estimated)
      × (estimated ≤ max_tail_index_bytes)
unfolding estimate_with checked_add
estimate_with_inv row_size entry_size tail o estimated h =
    let (increment, e, h₁) =
      >>=-eq-ok (estimate_row_bytes row_size entry_size (length (entries o))) _ h in
    let inv = estimate_row_bytes_inv row_size entry_size _ increment e in ground arith

row_number_ok : (limit : String) (n : ℕ) → n < 2 ^ 32 → row_number limit n ≡ ok n
unfolding try_from
row_number_ok limit n h = ground arith

pub IsTable-push_observation :
    (bytes more : ℕ) (state : TailTable) (o : Observation)
    → IsTable bytes state
    → After state.last_ts o.timestamp
    → bytes + 1 + length (entries o) ≤ more
    → more ≤ max_tail_index_bytes
    → (pushed : TailTable) × (push_observation state o ≡ ok pushed) × IsTable more pushed
unfolding push_observation
IsTable-push_observation bytes more state o is after grow small =
    let n : ℕ = length state.rows in
    let rows_small = is.few_rows in
    let entries_small = is.few_entries in
    let (v, vs, act, numbered) = Numbered-activate_last 1 state.versions o.timestamp is.numbered in
    let row : TailRow = record {
      timestamp = o.timestamp;
      version_no = v.version_no;
      entry_start = length state.entries;
      entry_len = length (entries o);
    } in
    let count : length (state.rows ++ (row ∷ [])) ≡ n + 1 = length-append state.rows (row ∷ []) in
    let total : length (state.entries ++ entries o) ≡ length state.entries + length (entries o) =
      length-append state.entries (entries o) in
    (
      record (apply_entries o.timestamp n (entries o) state) {
        versions = vs;
        entries = state.entries ++ entries o;
        last_ts = some o.timestamp;
        rows = state.rows ++ (row ∷ []);
      },
      rw
          (
            row_number_ok "tail_rows" (length state.rows) (omega arith),
            row_number_ok "tail_entries" (length state.entries) (omega arith),
            row_number_ok "tail_entries" (length (entries o)) (omega arith),
            act,
          )
          refl,
      record {
        numbered = numbered;
        tiled = rw (total) (Tiles-snoc state.rows 0 (length state.entries) row is.tiled refl);
        clocked = Clocked-snoc state.rows state.last_ts row is.clocked after;
        streams = rw (count) (
            StreamRows-apply_entries o.timestamp n (n + 1) (entries o) state (omega arith)
              (StreamRows-grow n (n + 1) state.per_stream (omega arith) is.streams));
        few_rows = omega arith;
        few_entries = omega arith;
      },
    )
