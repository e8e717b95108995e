-- ===== src/Manifest/Format/Decode.antt =====
-- core/src/manifest/format_decode.rs: reading a manifest. A cursor is the list of the bytes that are
-- left; `usize` has 64 bits, so the conversions of a `u32` succeed.
use litesdb.Base.{ℕ, zero, suc, ◌+◌, ◌==◌, not, ltb, List, Option, none, some, length, String}
use litesdb.Base.{Result, ok, err, ◌>>=◌, ◌>>◌, ok_or, fail_if, map_err, resource_exhausted}
use litesdb.Base.Int.{ℤ, checked_mul}
use litesdb.Base.Cursor.{
  is_bytes, read_u8, read_u16, read_u32, read_u64, read_i64, read_at, tail_from, slice,
}
use litesdb.Base.Loops.{read_many}
use litesdb.Limits.{max_tables, max_live_units, max_logical_streams}
use litesdb.Types.Value.{ValueType, u_int, sq1, f32_bits}
use litesdb.Types.Schema.{
  Validity, FieldSchema, TableVersion, new_duration, forever, restore_version,
}
use litesdb.Wal.Checkpoint.{Checkpoint, new_checkpoint}
use litesdb.Manifest.Catalog.{
  Manifest, ManifestIdentity, SeriesRetirement, FieldRetirement, TableCatalog, UnitMeta,
  restore_table, restore_manifest, new_unit_meta,
}
use litesdb.Manifest.Format.Encode.{
  manifest_header_bytes, manifest_magic, manifest_format_version, max_manifest_body_bytes,
  body_limit,
}
use litesdb.Manifest.Versions.{in_manifest}

abbrev pub manifest_context : String
manifest_context = "MANIFEST"

-- `Cursor::read_count`
unfoldable pub read_count : ℕ → ℕ → String → List ℕ → Result (ℕ × List ℕ)
read_count maximum width name cursor = do
  (count, rest) ← read_u32 manifest_context cursor
  fail_if (ltb maximum count) (resource_exhausted name count maximum)
  needed ← ok_or (checked_mul 64 count width) (in_manifest "count byte size overflow")
  fail_if (ltb (length rest) needed) (in_manifest "count exceeds remaining body")
  ok (count, rest)

unfoldable pub tagged_i64 : ℕ → List ℕ → Result (Option ℤ × List ℕ)
tagged_i64 zero cursor = ok (none, cursor)
tagged_i64 (suc zero) cursor = do
  (value, rest) ← read_i64 manifest_context cursor
  ok (some value, rest)
tagged_i64 (suc (suc n)) cursor = err (in_manifest "unknown Option<i64> tag")

unfoldable pub read_option_i64 : List ℕ → Result (Option ℤ × List ℕ)
read_option_i64 cursor = read_u8 manifest_context cursor >>= λ (tag, rest). tagged_i64 tag rest

unfoldable pub tagged_u64 : ℕ → List ℕ → Result (Option ℕ × List ℕ)
tagged_u64 zero cursor = ok (none, cursor)
tagged_u64 (suc zero) cursor = do
  (value, rest) ← read_u64 manifest_context cursor
  ok (some value, rest)
tagged_u64 (suc (suc n)) cursor = err (in_manifest "unknown Option<u64> tag")

unfoldable pub read_option_u64 : List ℕ → Result (Option ℕ × List ℕ)
read_option_u64 cursor = read_u8 manifest_context cursor >>= λ (tag, rest). tagged_u64 tag rest

unfoldable pub decode_value_type : ℕ → Result ValueType
decode_value_type zero = ok u_int
decode_value_type (suc zero) = ok sq1
decode_value_type (suc (suc zero)) = ok f32_bits
decode_value_type (suc (suc (suc n))) = err (in_manifest "unknown value type tag")

unfoldable pub read_field : List ℕ → Result (FieldSchema × List ℕ)
read_field cursor = do
  (field, c₁) ← read_u16 manifest_context cursor
  (tag, c₂) ← read_u8 manifest_context c₁
  value_type ← decode_value_type tag
  ok (record { field = field; value_type = value_type }, c₂)

unfoldable pub tagged_validity : ℕ → List ℕ → Result (Validity × List ℕ)
tagged_validity zero cursor = do
  (seconds, rest) ← read_u32 manifest_context cursor
  validity ← map_err (in_manifest "finite validity is zero") (new_duration seconds)
  ok (validity, rest)
tagged_validity (suc zero) cursor = ok (forever, cursor)
tagged_validity (suc (suc n)) cursor = err (in_manifest "unknown validity tag")

unfoldable pub read_validity : List ℕ → Result (Validity × List ℕ)
read_validity cursor = read_u8 manifest_context cursor >>= λ (tag, rest). tagged_validity tag rest

unfoldable pub decode_version : List ℕ → Result (TableVersion × List ℕ)
decode_version cursor = do
  (version_no, c₁) ← read_u32 manifest_context cursor
  (validity, c₂) ← read_validity c₁
  (effective_from, c₃) ← read_option_i64 c₂
  (field_count, c₄) ← read_count max_logical_streams 3 "fields" c₃
  (fields, c₅) ← read_many read_field field_count c₄
  version ← restore_version version_no validity fields effective_from
  ok (version, c₅)

unfoldable pub read_series : List ℕ → Result (SeriesRetirement × List ℕ)
read_series cursor = do
  (series, c₁) ← read_u64 manifest_context cursor
  (retire_ts, c₂) ← read_i64 manifest_context c₁
  ok (record { series = series; retire_ts = retire_ts }, c₂)

unfoldable pub read_retired_field : List ℕ → Result (FieldRetirement × List ℕ)
read_retired_field cursor = do
  (field, c₁) ← read_u16 manifest_context cursor
  (retire_ts, c₂) ← read_i64 manifest_context c₁
  ok (record { field = field; retire_ts = retire_ts }, c₂)

unfoldable pub decode_table : List ℕ → Result (TableCatalog × List ℕ)
decode_table cursor = do
  (table, c₁) ← read_u32 manifest_context cursor
  (last_ts, c₂) ← read_option_i64 c₁
  (version_count, c₃) ← read_count max_logical_streams 10 "table_versions" c₂
  (versions, c₄) ← read_many decode_version version_count c₃
  (series_count, c₅) ← read_count max_logical_streams 16 "retired_series" c₄
  (retired_series, c₆) ← read_many read_series series_count c₅
  (field_count, c₇) ← read_count max_logical_streams 10 "retired_fields" c₆
  (retired_fields, c₈) ← read_many read_retired_field field_count c₇
  catalog ← restore_table table last_ts versions retired_series retired_fields
  ok (catalog, c₈)

unfoldable pub read_unit : List ℕ → Result (UnitMeta × List ℕ)
read_unit cursor = do
  (unit_id, c₁) ← read_u64 manifest_context cursor
  (level, c₂) ← read_u8 manifest_context c₁
  (min_ts, c₃) ← read_i64 manifest_context c₂
  (max_ts, c₄) ← read_i64 manifest_context c₃
  (section_count, c₅) ← read_u32 manifest_context c₄
  (total_rows, c₆) ← read_u64 manifest_context c₅
  (file_len, c₇) ← read_u64 manifest_context c₆
  (body_crc32, c₈) ← read_u32 manifest_context c₇
  unit ← new_unit_meta unit_id level min_ts max_ts section_count total_rows file_len body_crc32
  ok (unit, c₈)

unfoldable pub read_checkpoint : List ℕ → Result (Checkpoint × List ℕ)
read_checkpoint cursor = do
  (segment_first_seq, c₁) ← read_u64 manifest_context cursor
  (offset, c₂) ← read_u64 manifest_context c₁
  (next_seq, c₃) ← read_u64 manifest_context c₂
  checkpoint ← new_checkpoint segment_first_seq offset next_seq
  ok (checkpoint, c₃)

unfoldable pub read_identity : ℕ → List ℕ → Result (ManifestIdentity × List ℕ)
read_identity header_generation cursor = do
  (unit_high_water, c₁) ← read_u64 manifest_context cursor
  (table_high_water, c₂) ← read_u32 manifest_context c₁
  (body_generation, c₃) ← read_u64 manifest_context c₂
  fail_if (not (body_generation == header_generation))
      (in_manifest "header and body generations disagree")
  (shard_id, c₄) ← read_u64 manifest_context c₃
  (writer_epoch, c₅) ← read_u64 manifest_context c₄
  ok (
    record {
      generation = header_generation;
      unit_high_water = unit_high_water;
      table_high_water = table_high_water;
      shard_id = shard_id;
      writer_epoch = writer_epoch;
    },
    c₅,
  )

unfoldable pub decode_body : ℕ → List ℕ → Result Manifest
decode_body header_generation body = do
  (checkpoint, c₁) ← read_checkpoint body
  (identity, c₂) ← read_identity header_generation c₁
  (floor, c₃) ← read_option_i64 c₂
  (heads_generation, c₄) ← read_option_u64 c₃
  (table_count, c₅) ← read_count max_tables 17 "tables" c₄
  (tables, c₆) ← read_many decode_table table_count c₅
  (unit_count, c₇) ← read_count max_live_units 49 "live_units" c₆
  (units, c₈) ← read_many read_unit unit_count c₇
  fail_if (not (length c₈ == 0)) (in_manifest "trailing body bytes")
  restore_manifest identity checkpoint
      (record { floor = floor; heads_generation = heads_generation }) tables units

module _ (hash : List ℕ → ℕ) where
  -- `decode`
  unfoldable pub decode_manifest : List ℕ → Result Manifest
  decode_manifest bytes = do
    fail_if (ltb (length bytes) manifest_header_bytes) (in_manifest "truncated header")
    fail_if (not (is_bytes manifest_magic (slice 0 4 bytes))) (in_manifest "magic mismatch")
    version ← read_at (in_manifest "truncated u16") 2 4 bytes
    fail_if (not (version == manifest_format_version)) (in_manifest "format version mismatch")
    reserved ← read_at (in_manifest "truncated u16") 2 6 bytes
    fail_if (not (reserved == 0)) (in_manifest "reserved field is nonzero")
    generation ← read_at (in_manifest "truncated u64") 8 8 bytes
    body_len ← read_at (in_manifest "truncated u32") 4 16 bytes
    fail_if (ltb max_manifest_body_bytes body_len) (body_limit body_len)
    fail_if (not (length bytes == body_len + manifest_header_bytes))
        (in_manifest "file length mismatch")
    body ← ok_or (tail_from manifest_header_bytes bytes) (in_manifest "body is absent")
    stored ← read_at (in_manifest "truncated u32") 4 20 bytes
    fail_if (not (hash body == stored)) (in_manifest "body CRC32 mismatch")
    decode_body generation body
