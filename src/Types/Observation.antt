-- ===== src/Types/Observation.antt =====
-- core/src/types/observation.rs: the rows that are written.
use litesdb.Base.{List, [], ◌∷◌, Bool, true, false, Option, none, some}
use litesdb.Base.{any_adjacent, not, Result, ok, ok_or, fail_if, ◌>>=◌, ◌>>◌}
use litesdb.Base.{invalid_argument}
use litesdb.Base.Int.{ℤ, leb_ℤ}
use litesdb.Base.Map.{key_lt, pair_ord}
use litesdb.Types.Value.{SeriesId, FieldId, CellValue, matches}
use litesdb.Types.Schema.{TableVersion, find_field}

pub record ObservationEntry : Type 0 where
  pub series : SeriesId
  pub field : FieldId
  pub value : CellValue

abbrev pub key : ObservationEntry → SeriesId × FieldId
key entry = (entry.series, entry.field)

pub data ObservationEntries : Type 0 where
  one : ObservationEntry → ObservationEntries
  many : List ObservationEntry → ObservationEntries

pub record Observation : Type 0 where
  pub timestamp : ℤ
  pub stored : ObservationEntries

unfoldable pub entries_of : ObservationEntries → List ObservationEntry
entries_of (one entry) = entry ∷ []
entries_of (many list) = list

-- `Observation::entries`
abbrev pub entries : Observation → List ObservationEntry
entries o = entries_of o.stored

-- `pair[0].key() >= pair[1].key()`
abbrev pub keys_unordered : ObservationEntry → ObservationEntry → Bool
keys_unordered a b = not (key_lt (key a) (key b))

unfoldable pub store_entries : List ObservationEntry → ObservationEntries
store_entries [] = many []
store_entries (entry ∷ []) = one entry
store_entries (entry ∷ (next ∷ rest)) = many (entry ∷ (next ∷ rest))

abbrev pub is_empty {ℓ} : {A : Type ℓ} → List A → Bool
is_empty [] = true
is_empty (x ∷ xs) = false

unfoldable pub new_observation : ℤ → List ObservationEntry → Result Observation
unfolding store_entries
new_observation timestamp list = do
  fail_if (is_empty list) (invalid_argument "entries" "observation must not be empty")
  fail_if (any_adjacent keys_unordered list)
      (invalid_argument "entries" "series and field keys must be strictly increasing")
  ok (record { timestamp = timestamp; stored = store_entries list })

unfoldable pub from_single : ℤ → ObservationEntry → Observation
from_single timestamp entry = record { timestamp = timestamp; stored = one entry }

unfoldable pub validate_after : Observation → Option ℤ → Result (Unit {0})
validate_after o none = ok tt
validate_after o (some previous) =
    fail_if (leb_ℤ o.timestamp previous)
      (invalid_argument "timestamp" "table clock must be strictly increasing")

unfoldable pub validate_entries : TableVersion → List ObservationEntry → Result (Unit {0})
unfolding find_field matches
validate_entries version [] = ok tt
validate_entries version (entry ∷ rest) = do
  found ←
      ok_or (find_field entry.field version.fields)
        (invalid_argument "entries" "field is absent from table version")
  fail_if (not (matches entry.value found.value_type))
      (invalid_argument "entries" "value does not match field type")
  validate_entries version rest

unfoldable pub validate_schema : Observation → TableVersion → Result (Unit {0})
unfolding validate_entries entries_of
validate_schema o version = validate_entries version (entries o)
