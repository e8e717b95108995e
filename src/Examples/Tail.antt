-- ===== src/Examples/Tail.antt =====
-- The tail index at concrete records.
use litesdb.Base.{ℕ, ◌≡◌, ◌≢◌, refl, [], ◌∷◌, ok, err, arith, some, corruption}
use litesdb.Base.Int.{pos, checked_add, checked_mul, try_from}
use litesdb.Base.Map.{get, insert, nat_ord}
use litesdb.Types.Value.{TableId, u_int, u_int_value}
use litesdb.Types.Schema.{VersionSpec, forever, initial, find_field, activate}
use litesdb.Types.Observation.{
  Observation, one, entries_of, validate_after, validate_schema, validate_entries,
}
use litesdb.Wal.Record.{append_observation, create_table}
use litesdb.Wal.Tail.State.{TailIndex, TailTable}
use litesdb.Wal.Tail.Validate.{
  validate, validate_body, validate_create, next_table, validate_observation,
}
use litesdb.Wal.Tail.Validate.{estimate_with, estimate_row_bytes}
use litesdb.Wal.Tail.Apply.{
  apply, apply_body, apply_create, created, apply_observation, push_observation,
}
use litesdb.Wal.Tail.Apply.{activate_last, apply_entries, apply_entry, push_row, unretire}
use litesdb.Wal.Tail.Invariant.{IsTail}
use litesdb.Wal.Tail.Step.{apply-validate, apply-IsTail}
use litesdb.Wal.Tail.Read.{HoldsLast, row_entries-apply}

abbrev pub spec : VersionSpec
spec = record { validity = forever; fields = record { field = 3; value_type = u_int } ∷ [] }

abbrev pub observation : Observation
observation = record {
  timestamp = pos 50;
  stored = one (record { series = 8; field = 3; value = u_int_value 21 });
}

abbrev pub empty_tail : TailIndex
empty_tail = record { tables = []; table_high_water = 0; next_seq = 7; estimated_bytes = 0 }

abbrev pub tail_with_table : TailIndex
tail_with_table = record {
  tables = (1, created spec) ∷ [];
  table_high_water = 1;
  next_seq = 8;
  estimated_bytes = 0;
}

pub empty_tail-IsTail : IsTail empty_tail
empty_tail-IsTail = record { sorted = tt; each = tt; bounded = omega arith }

validate-create : validate 24 24 empty_tail 7 (create_table 1 spec) ≡ ok tt
unfolding validate validate_body validate_create next_table checked_add get
validate-create = refl

pub apply-create : apply 24 24 empty_tail 7 (create_table 1 spec) ≡ ok tail_with_table
unfolding apply apply_body apply_create validate validate_body validate_create next_table
    checked_add get insert
apply-create = refl

-- A table that exists is not created again.
apply-create_again :
    apply 24 24 tail_with_table 8 (create_table 1 spec)
    ≡ err (corruption "WAL replay" "table id is reused or not continuous")
unfolding apply apply_body apply_create validate validate_body validate_create next_table
    checked_add get insert
apply-create_again = refl

apply-validate_example :
    (tail' : TailIndex) × (apply 24 24 empty_tail 7 (create_table 1 spec) ≡ ok tail')
    × IsTail tail'
    × (tail'.next_seq ≡ 8)
apply-validate_example =
    apply-validate 24 24 empty_tail 7 (create_table 1 spec) (omega arith) empty_tail-IsTail
      (omega arith) validate-create

apply-IsTail_example :
    (validate 24 24 empty_tail 7 (create_table 1 spec) ≡ ok tt)
    × IsTail tail_with_table
    × (◌≡◌ {A = ℕ} 7 7)
    × (◌≡◌ {A = ℕ} 8 8)
apply-IsTail_example =
    apply-IsTail 24 24 empty_tail 7 (create_table 1 spec) tail_with_table (omega arith)
      empty_tail-IsTail apply-create

-- The table with the observation in its first row.
abbrev pub observed_table : TailTable
observed_table = record {
  versions =
      record {
        version_no = 1;
        validity = forever;
        fields = record { field = 3; value_type = u_int } ∷ [];
        effective_from = some (pos 50);
      }
      ∷ [];
  rows = record { timestamp = pos 50; version_no = 1; entry_start = 0; entry_len = 1 } ∷ [];
  entries = record { series = 8; field = 3; value = u_int_value 21 } ∷ [];
  per_stream = ((8, 3), 0 ∷ []) ∷ [];
  retired_series = [];
  retired_fields = [];
  last_ts = some (pos 50);
}

abbrev pub observed_tail : TailIndex
observed_tail = record {
  tables = (1, observed_table) ∷ [];
  table_high_water = 1;
  next_seq = 9;
  estimated_bytes = 52;
}

pub apply-observation :
    apply 24 24 tail_with_table 8 (append_observation 1 observation) ≡ ok observed_tail
unfolding apply apply_body apply_observation validate validate_body validate_observation created
    initial get insert estimate_with estimate_row_bytes checked_add checked_mul try_from
    validate_after validate_schema validate_entries entries_of find_field push_observation
    activate_last activate apply_entries apply_entry push_row unretire
apply-observation = refl

row_entries-apply_example :
    ((state : TailTable) × (get 1 observed_tail.tables ≡ some state) × HoldsLast state observation)
    × ((other : TableId)
        → other ≢ 1
        → get other observed_tail.tables ≡ get other tail_with_table.tables)
row_entries-apply_example =
    row_entries-apply 24 24 tail_with_table 8 1 observation observed_tail apply-observation
