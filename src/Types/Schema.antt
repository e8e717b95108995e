-- ===== src/Types/Schema.antt =====
-- core/src/types/schema.rs: field schemas, version specifications and table versions.
use litesdb.Base.{
  ℕ, zero, suc, ◌+◌, ◌^◌, ◌<◌, ◌≡◌, refl, arith, List, [], ◌∷◌, Bool, Option, none, some,
}
use litesdb.Base.{ltb, leb, ◌==◌, if◌then◌else◌, any_adjacent, is_some, not, Result, ok, err, ok_or}
use litesdb.Base.{corruption, invalid_argument, resource_exhausted, map_err, fail_if, ◌>>=◌, ◌>>◌}
use litesdb.Base.Int.{ℤ}
use litesdb.Types.Value.{FieldId, ValueType, tag}

pub data Validity : Type 0 where
  duration_seconds : ℕ → Validity
  forever : Validity

-- `Validity::duration_seconds`: the seconds are a `NonZeroU32`.
unfoldable pub new_duration : ℕ → Result Validity
new_duration zero = err (invalid_argument "validity" "duration must be positive")
new_duration (suc n) = ok (duration_seconds (suc n))

unfoldable pub duration : Validity → Option ℕ
duration (duration_seconds seconds) = some seconds
duration forever = none

pub record FieldSchema : Type 0 where
  pub field : FieldId
  pub value_type : ValueType

pub record VersionSpec : Type 0 where
  pub validity : Validity
  pub fields : List FieldSchema

-- `pair[0].field() >= pair[1].field()`
abbrev pub fields_unordered : FieldSchema → FieldSchema → Bool
fields_unordered a b = leb b.field a.field

unfoldable pub new_spec : Validity → List FieldSchema → Result VersionSpec
new_spec validity fields =
    if any_adjacent fields_unordered fields
    then err (invalid_argument "fields" "field identifiers must be strictly increasing")
    else ok (record { validity = validity; fields = fields })

-- `binary_search_by_key` on strictly increasing fields, with the field at the index that it returns.
unfoldable pub find_field : FieldId → List FieldSchema → Option FieldSchema
find_field field [] = none
find_field field (schema ∷ rest) =
    if schema.field == field then some schema else find_field field rest

pub record TableVersion : Type 0 where
  pub version_no : ℕ
  pub validity : Validity
  pub fields : List FieldSchema
  pub effective_from : Option ℤ

-- One round of the loop of `validate_successor`.
unfoldable pub keeps_field : List FieldSchema → FieldSchema → Result (Unit {0})
unfolding find_field tag
keeps_field fields old = do
  found ←
      ok_or (find_field old.field fields)
        (invalid_argument "fields" "existing field cannot be removed")
  fail_if (not (tag found.value_type == tag old.value_type))
      (invalid_argument "fields" "existing field cannot change value type")

unfoldable pub keeps_fields : List FieldSchema → List FieldSchema → Result (Unit {0})
unfolding keeps_field
keeps_fields fields [] = ok tt
keeps_fields fields (old ∷ rest) = do keeps_field fields old; keeps_fields fields rest

unfoldable pub validate_successor : VersionSpec → TableVersion → Result (Unit {0})
unfolding keeps_fields
validate_successor spec previous = keeps_fields spec.fields previous.fields

-- `TableVersion::restore`
unfoldable pub restore_version : ℕ → Validity → List FieldSchema → Option ℤ → Result TableVersion
unfolding new_spec
restore_version version_no validity fields effective_from = do
  fail_if (version_no == 0) (corruption "table version" "version number starts at one")
  spec ←
      map_err (corruption "table version" "fields are not strictly ordered")
        (new_spec validity fields)
  ok (record {
    version_no = version_no;
    validity = spec.validity;
    fields = spec.fields;
    effective_from = effective_from;
  })

unfoldable pub initial : VersionSpec → TableVersion
initial spec = record {
  version_no = 1;
  validity = spec.validity;
  fields = spec.fields;
  effective_from = none;
}

unfoldable pub successor : TableVersion → VersionSpec → Result TableVersion
unfolding validate_successor
successor previous spec = do
  validate_successor spec previous
  fail_if (not (ltb (previous.version_no + 1) (2 ^ 32)))
      (resource_exhausted "table_version_no" 4_294_967_296 4_294_967_295)
  ok (record {
    version_no = previous.version_no + 1;
    validity = spec.validity;
    fields = spec.fields;
    effective_from = none;
  })

unfoldable pub activate : TableVersion → ℤ → Result TableVersion
activate version timestamp =
    if is_some version.effective_from
    then err (invalid_argument "table_version" "version is already active")
    else ok (record version { effective_from = some timestamp })

-- A validity of the types of the source.
abbrev pub IsValidity : Validity → Type 0
IsValidity (duration_seconds n) = (0 < n) × (n < 2 ^ 32)
IsValidity forever = Unit {0}

pub new_duration_ok : (n : ℕ) → 0 < n → new_duration n ≡ ok (duration_seconds n)
unfolding new_duration
new_duration_ok zero h = absurd (omega arith)
new_duration_ok (suc n) h = refl
