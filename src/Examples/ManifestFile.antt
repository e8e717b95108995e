-- ===== src/Examples/ManifestFile.antt =====
-- The files of concrete manifests.
use litesdb.Base.{
  ℕ, zero, suc, ◌+◌, ◌<◌, ◌^◌, ◌≡◌, ap, refl, arith, List, [], ◌∷◌, ◌++◌, All, ok, err,
  resource_exhausted, length, any_adjacent, false,
}
use litesdb.Base.Int.{pos, checked_add, checked_mul}
use litesdb.Limits.{max_logical_streams}
use litesdb.Types.Schema.{restore_version, new_spec, duration}
use litesdb.Wal.Checkpoint.{new_checkpoint}
use litesdb.Manifest.Catalog.{TableCatalog, SeriesRetirement, series_unordered, new_unit_meta}
use litesdb.Manifest.Transition.{}
use litesdb.Manifest.Format.Encode.{
  encode_manifest, measure_body, measure_tables, measure_versions, add_size, add_items,
  option_width, encode_table,
}
use litesdb.Manifest.Format.Decode.{decode_manifest, decode_table}
use litesdb.Manifest.Format.Version.{IsVersion}
use litesdb.Manifest.Format.Table.{IsTyped, IsSeries}
use litesdb.Manifest.Format.RoundTrip.{IsStored}
use litesdb.Manifest.Format.File.{decode_manifest-encode_manifest}
use litesdb.Examples.Record.{checksum, checksum_small}
use litesdb.Manifest.Format.Retired.{decode_table-too_many}
use litesdb.Examples.Manifest.{
  version, table_with, catalog, stored, stored-IsManifest, table_with-IsCatalog,
}

version-IsVersion : IsVersion version
unfolding restore_version new_spec
version-IsVersion = record {
  no_small = omega arith;
  validity_is = tt;
  effective_is = (omega arith, omega arith);
  few_fields = omega arith;
  fields_small = (omega arith, tt);
  made = refl;
}

table_with-IsTyped :
    (retired : List SeriesRetirement)
    → length retired < 2 ^ 32
    → All IsSeries retired
    → any_adjacent series_unordered retired ≡ false
    → IsTyped (table_with retired)
table_with-IsTyped retired few are ordered = record {
  table_small = omega arith;
  last_is = (omega arith, omega arith);
  few_versions = omega arith;
  versions_are = (version-IsVersion, tt);
  series_countable = few;
  series_are = are;
  few_fields = omega arith;
  fields_are = tt;
  made = table_with-IsCatalog retired ordered;
}

catalog-IsTyped : IsTyped catalog
catalog-IsTyped =
    table_with-IsTyped catalog.retired_series (omega arith)
      ((omega arith, (omega arith, omega arith)), tt) refl

stored-IsStored : IsStored stored
unfolding restore_version new_spec new_unit_meta new_checkpoint
stored-IsStored = record {
  valid = stored-IsManifest;
  identity_is = record {
    generation_small = omega arith;
    units_small = omega arith;
    tables_small = omega arith;
    shard_small = omega arith;
    epoch_small = omega arith;
  };
  checkpoint_is = record {
    segment_small = omega arith;
    offset_small = omega arith;
    next_small = omega arith;
    made = refl;
  };
  floor_is = tt;
  heads_are = omega arith;
  tables_are = ((catalog-IsTyped, omega arith), tt);
  units_are = (
    record {
      id_small = omega arith;
      min_is = (omega arith, omega arith);
      max_is = (omega arith, omega arith);
      sections_small = omega arith;
      rows_small = omega arith;
      len_small = omega arith;
      crc_small = omega arith;
      made = refl;
    },
    tt,
  );
}

measured : measure_body stored ≡ ok 189
unfolding measure_body measure_tables measure_versions add_size add_items option_width checked_add
    checked_mul duration
measured = refl

decode_manifest-encode_manifest_example :
    (bytes : List ℕ) × (encode_manifest checksum stored ≡ ok bytes)
    × (length bytes ≡ 213)
    × (decode_manifest checksum bytes ≡ ok stored)
decode_manifest-encode_manifest_example =
    decode_manifest-encode_manifest checksum checksum_small stored 189 stored-IsStored measured
      (omega arith)

-- Retirements of the series from a first one on.
unfoldable up : ℕ → ℕ → List SeriesRetirement
up zero first = []
up (suc n) first = record { series = first; retire_ts = pos 58 } ∷ up n (suc first)

length-up : (n first : ℕ) → length (up n first) ≡ n
unfolding up
length-up zero first = refl
length-up (suc n) first = ap suc (length-up n (suc first))

up-IsSeries : (n first : ℕ) → first + n < 2 ^ 64 → All IsSeries (up n first)
unfolding up
up-IsSeries zero first h = tt
up-IsSeries (suc n) first h =
    ((omega arith, (omega arith, omega arith)), up-IsSeries n (suc first) (omega arith))

up-ordered : (n first : ℕ) → any_adjacent series_unordered (up n first) ≡ false
unfolding up
up-ordered zero first = refl
up-ordered (suc zero) first = refl
up-ordered (suc (suc n)) first = ground (arith, up-ordered (suc n) (suc first))

abbrev crowded : TableCatalog
crowded = table_with (up 300_000 1)

crowded-IsTyped : IsTyped crowded
crowded-IsTyped =
    table_with-IsTyped (up 300_000 1) (omega (arith, length-up 300_000 1))
      (up-IsSeries 300_000 1 (omega arith)) (up-ordered 300_000 1)

decode_table-too_many_example :
    (bytes : List ℕ) × (encode_table crowded ≡ ok bytes)
    × (decode_table (bytes ++ [])
        ≡ err (resource_exhausted "retired_series" (length (up 300_000 1)) max_logical_streams))
decode_table-too_many_example =
    decode_table-too_many crowded [] crowded-IsTyped (omega (arith, length-up 300_000 1))
