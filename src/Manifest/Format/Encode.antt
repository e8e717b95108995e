-- ===== src/Manifest/Format/Encode.antt =====
-- core/src/manifest/format.rs: writing a manifest. The checksum of crc32fast is a parameter. The
-- sizes are sums on the 64-bit `usize`.
use litesdb.Base.{
  ℕ, ◌+◌, ◌-◌, ◌^◌, ◌==◌, not, ltb, List, [], ◌∷◌, ◌++◌, Bool, Option, none, some, length, is_some,
  if◌then◌else◌, String,
}
use litesdb.Base.{Result, ok, Error, ◌>>=◌, ◌>>◌, ok_or, fail_if, resource_exhausted}
use litesdb.Base.Int.{ℤ, checked_add, checked_mul, try_from}
use litesdb.Base.Cursor.{put_u16, put_u32, put_u64, put_i64}
use litesdb.Base.Loops.{put_all, encode_each}
use litesdb.Types.Value.{tag}
use litesdb.Types.Schema.{Validity, FieldSchema, TableVersion, duration, duration_seconds, forever}
use litesdb.Manifest.Catalog.{Manifest, SeriesRetirement, FieldRetirement, TableCatalog, UnitMeta}
use litesdb.Manifest.Versions.{in_manifest}

abbrev pub manifest_header_bytes : ℕ
manifest_header_bytes = 24

-- `LSM1`
abbrev pub manifest_magic : List ℕ
manifest_magic = 0x4c ∷ 0x53 ∷ 0x4d ∷ 0x31 ∷ []

abbrev pub manifest_format_version : ℕ
manifest_format_version = 1

abbrev pub max_manifest_body_bytes : ℕ
max_manifest_body_bytes = 67_108_864

-- `Error::limit("manifest_body_bytes", ...)`
abbrev pub body_limit : ℕ → Error
body_limit actual = resource_exhausted "manifest_body_bytes" actual max_manifest_body_bytes

-- `BodySize::add` and `BodySize::add_items`
unfoldable pub add_size : ℕ → ℕ → Result ℕ
add_size size bytes = ok_or (checked_add 64 size bytes) (body_limit (2 ^ 64 - 1))

unfoldable pub add_items : ℕ → ℕ → ℕ → Result ℕ
add_items size count width = do
  bytes ← ok_or (checked_mul 64 count width) (body_limit (2 ^ 64 - 1))
  add_size size bytes

unfoldable pub option_width : Bool → ℕ
option_width present = if present then 9 else 1

-- The loop over the versions of a table.
unfoldable pub measure_versions : ℕ → List TableVersion → Result ℕ
measure_versions size [] = ok size
measure_versions size (version ∷ rest) = do
  s₁ ← add_size size 4
  s₂ ← add_size s₁ (if is_some (duration version.validity) then 5 else 1)
  s₃ ← add_size s₂ (option_width (is_some version.effective_from))
  s₄ ← add_size s₃ 4
  s₅ ← add_items s₄ (length version.fields) 3
  measure_versions s₅ rest

-- The loop over the tables.
unfoldable pub measure_tables : ℕ → List TableCatalog → Result ℕ
measure_tables size [] = ok size
measure_tables size (table ∷ rest) = do
  s₁ ← add_size size 4
  s₂ ← add_size s₁ (option_width (is_some table.last_ts))
  s₃ ← add_size s₂ 4
  s₄ ← measure_versions s₃ table.versions
  s₅ ← add_size s₄ 4
  s₆ ← add_items s₅ (length table.retired_series) 16
  s₇ ← add_size s₆ 4
  s₈ ← add_items s₇ (length table.retired_fields) 10
  measure_tables s₈ rest

unfoldable pub measure_body : Manifest → Result ℕ
measure_body m = do
  s₁ ← add_size 0 (24 + 36)
  s₂ ← add_size s₁ (option_width (is_some m.retention.floor))
  s₃ ← add_size s₂ (option_width (is_some m.retention.heads_generation))
  s₄ ← add_size s₃ 4
  s₅ ← measure_tables s₄ m.tables
  s₆ ← add_size s₅ 4
  add_items s₆ (length m.units) 49

-- What each function appends to its output.
unfoldable pub put_count : ℕ → String → Result (List ℕ)
put_count count name = do
  number ← ok_or (try_from 32 count) (resource_exhausted name (2 ^ 64 - 1) (2 ^ 32 - 1))
  ok (put_u32 number)

unfoldable pub put_option_i64 : Option ℤ → List ℕ
put_option_i64 none = 0 ∷ []
put_option_i64 (some value) = 1 ∷ put_i64 value

unfoldable pub put_option_u64 : Option ℕ → List ℕ
put_option_u64 none = 0 ∷ []
put_option_u64 (some value) = 1 ∷ put_u64 value

unfoldable pub put_validity : Validity → List ℕ
put_validity (duration_seconds seconds) = 0 ∷ put_u32 seconds
put_validity forever = 1 ∷ []

unfoldable pub put_field : FieldSchema → List ℕ
put_field field = put_u16 field.field ++ (tag field.value_type ∷ [])

unfoldable pub encode_version : TableVersion → Result (List ℕ)
encode_version version = do
  count ← put_count (length version.fields) "fields"
  ok (
      put_u32 version.version_no
      ++ (put_validity version.validity
          ++ (put_option_i64 version.effective_from
              ++ (count ++ put_all put_field version.fields))))

unfoldable pub put_series : SeriesRetirement → List ℕ
put_series retirement = put_u64 retirement.series ++ put_i64 retirement.retire_ts

unfoldable pub put_retired_field : FieldRetirement → List ℕ
put_retired_field retirement = put_u16 retirement.field ++ put_i64 retirement.retire_ts

unfoldable pub encode_table : TableCatalog → Result (List ℕ)
encode_table table = do
  version_count ← put_count (length table.versions) "table_versions"
  versions ← encode_each encode_version table.versions
  series_count ← put_count (length table.retired_series) "retired_series"
  field_count ← put_count (length table.retired_fields) "retired_fields"
  ok (
      put_u32 table.table
      ++ (put_option_i64 table.last_ts
          ++ (version_count
              ++ (versions
                  ++ (series_count
                      ++ (put_all put_series table.retired_series
                          ++ (field_count ++ put_all put_retired_field table.retired_fields)))))))

unfoldable pub put_unit : UnitMeta → List ℕ
put_unit unit =
    put_u64 unit.unit_id
    ++ (unit.level
        ∷ (put_i64 unit.min_ts
            ++ (put_i64 unit.max_ts
                ++ (put_u32 unit.section_count
                    ++ (put_u64 unit.total_rows
                        ++ (put_u64 unit.file_len ++ put_u32 unit.body_crc32))))))

unfoldable pub encode_body : Manifest → Result (List ℕ)
encode_body m = do
  table_count ← put_count (length m.tables) "tables"
  tables ← encode_each encode_table m.tables
  unit_count ← put_count (length m.units) "live_units"
  ok (
      put_u64 m.checkpoint.segment_first_seq
      ++ (put_u64 m.checkpoint.offset
          ++ (put_u64 m.checkpoint.next_seq
              ++ (put_u64 m.identity.unit_high_water
                  ++ (put_u32 m.identity.table_high_water
                      ++ (put_u64 m.identity.generation
                          ++ (put_u64 m.identity.shard_id
                              ++ (put_u64 m.identity.writer_epoch
                                  ++ (put_option_i64 m.retention.floor
                                      ++ (put_option_u64 m.retention.heads_generation
                                          ++ (table_count
                                              ++ (tables
                                                  ++ (unit_count
                                                      ++ put_all put_unit m.units)))))))))))))

module _ (hash : List ℕ → ℕ) where
  unfoldable pub manifest_file : ℕ → List ℕ → List ℕ
  manifest_file generation body =
      manifest_magic
      ++ (put_u16 manifest_format_version
          ++ (put_u16 0
              ++ (put_u64 generation ++ (put_u32 (length body) ++ (put_u32 (hash body) ++ body)))))

  -- `encode`: the body is measured, written and framed.
  unfoldable pub encode_manifest : Manifest → Result (List ℕ)
  encode_manifest m = do
    measured ← measure_body m
    fail_if (ltb max_manifest_body_bytes measured) (body_limit measured)
    body ← encode_body m
    fail_if (not (length body == measured)) (in_manifest "encoded body differs from measurement")
    body_len ← ok_or (try_from 32 (length body)) (body_limit (2 ^ 64 - 1))
    fail_if (ltb max_manifest_body_bytes body_len) (body_limit body_len)
    file_len ←
        ok_or (checked_add 64 (length body) manifest_header_bytes)
          (resource_exhausted "manifest_file_bytes" (2 ^ 64 - 1) (2 ^ 32 - 1))
    let bytes = manifest_file m.identity.generation body
    fail_if (not (length bytes == file_len))
        (in_manifest "encoded file differs from measured length")
    ok bytes
