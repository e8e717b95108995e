-- ===== src/Manifest/Versions.antt =====
-- core/src/manifest/catalog_validate.rs: the checks of the versions of a table, and of a count.
use litesdb.Base.{
  ℕ, ◌+◌, ◌==◌, not, ltb, ◌||◌, List, [], ◌∷◌, Bool, true, false, Option, none, some,
}
use litesdb.Base.{length, String}
use litesdb.Base.{Result, ok, Error, ◌>>=◌, ◌>>◌, ok_or, fail_if, corruption, resource_exhausted}
use litesdb.Base.Int.{ℤ, ltb_ℤ, leb_ℤ, checked_add, try_from}
use litesdb.Limits.{max_logical_streams}
use litesdb.Types.Value.{tag}
use litesdb.Types.Schema.{TableVersion, FieldSchema, find_field}
use litesdb.Types.Observation.{is_empty}

abbrev pub in_table : String → Error
in_table reason = corruption "MANIFEST table" reason

abbrev pub in_manifest : String → Error
in_manifest reason = corruption "MANIFEST" reason

-- One round of the loop of `validate_field_compatibility`.
unfoldable pub keeps_old_field : List FieldSchema → FieldSchema → Result (Unit {0})
keeps_old_field fields old = do
  found ← ok_or (find_field old.field fields) (in_table "version removed a field")
  fail_if (not (tag found.value_type == tag old.value_type))
      (in_table "version changed a field type")

unfoldable pub keeps_old_fields : List FieldSchema → List FieldSchema → Result (Unit {0})
keeps_old_fields fields [] = ok tt
keeps_old_fields fields (old ∷ rest) = do keeps_old_field fields old; keeps_old_fields fields rest

unfoldable pub validate_field_compatibility : Option TableVersion → TableVersion → Result (Unit {0})
validate_field_compatibility none current = ok tt
validate_field_compatibility (some previous) current =
    keeps_old_fields current.fields previous.fields

-- The activation time of a version, with the last one before it.
unfoldable pub next_effective : Option ℤ → Option ℤ → Bool → Result (Option ℤ)
next_effective previous none is_last = do
  fail_if (not is_last) (in_table "only the latest version may be inactive")
  ok previous
next_effective none (some effective) is_last = ok (some effective)
next_effective (some prior) (some effective) is_last = do
  fail_if (leb_ℤ effective prior) (in_table "version activation times are not increasing")
  ok (some effective)

-- The loop over the versions: `index` of `count`, with the version before and the last
-- activation. The last activation is what it returns.
unfoldable pub validate_from :
    ℕ → ℕ → Option TableVersion → Option ℤ → List TableVersion → Result (Option ℤ)
validate_from count index before effective [] = ok effective
validate_from count index before effective (version ∷ rest) = do
  number ← ok_or (try_from 32 index) (in_table "version number overflow")
  expected ← ok_or (checked_add 32 number 1) (in_table "version number overflow")
  fail_if (not (version.version_no == expected)) (in_table "version numbers are not continuous")
  validate_field_compatibility before version
  effective' ← next_effective effective version.effective_from (index + 1 == count)
  validate_from count (index + 1) (some version) effective' rest

-- Whether the clock of a table contradicts the last activation.
unfoldable pub clock_contradicts : Option ℤ → Option ℤ → Bool
clock_contradicts none none = false
clock_contradicts none (some last) = true
clock_contradicts (some effective) none = true
clock_contradicts (some effective) (some last) = ltb_ℤ last effective

unfoldable pub validate_versions : Option ℤ → List TableVersion → Result (Unit {0})
validate_versions last_ts versions = do
  fail_if (is_empty versions || ltb max_logical_streams (length versions))
      (in_table "version count is invalid")
  effective ← validate_from (length versions) 0 none none versions
  fail_if (clock_contradicts effective last_ts)
      (in_table "table clock contradicts version activation")

unfoldable pub validate_count : String → ℕ → ℕ → Result (Unit {0})
validate_count name actual maximum =
    fail_if (ltb maximum actual) (resource_exhausted name actual maximum)
