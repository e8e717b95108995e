-- ===== src/Limits.antt =====
-- core/src/limits.rs: the resource limits of the engine.
use litesdb.Base.{ℕ, ◌≤◌, ◌≡◌, String, Result, ok, err, resource_exhausted, leb}
use litesdb.Base.{if◌then◌else◌, arith}

pub data Limit : Type 0 where
  wal_record_payload wal_segment_bytes wal_bytes seal_bytes seal_memory_bytes tables : Limit
  unit_sections section_rows unit_file_bytes logical_streams retention_heads live_units : Limit
  manifest_body_bytes aggregation_levels query_slots operation_memory_bytes open_files : Limit
  directory_cache_bytes tail_index_bytes threads stripped_binary_bytes idle_rss_bytes : Limit
  operation_rss_bytes recovery_rss_bytes : Limit

abbrev pub max_wal_record_payload : ℕ
max_wal_record_payload = 65_536

abbrev pub max_wal_bytes : ℕ
max_wal_bytes = 26_214_400

abbrev pub max_tables : ℕ
max_tables = 65_536

abbrev pub max_unit_sections : ℕ
max_unit_sections = 65_536

abbrev pub max_section_rows : ℕ
max_section_rows = 65_536

abbrev pub max_unit_file_bytes : ℕ
max_unit_file_bytes = 8_589_934_592

abbrev pub max_logical_streams : ℕ
max_logical_streams = 262_144

abbrev pub max_live_units : ℕ
max_live_units = 8_192

abbrev pub max_query_slots : ℕ
max_query_slots = 1_048_576

abbrev pub max_operation_memory_bytes : ℕ
max_operation_memory_bytes = 16_777_216

abbrev pub max_tail_index_bytes : ℕ
max_tail_index_bytes = 67_108_864

unfoldable pub name : Limit → String
name wal_record_payload = "wal_record_payload"
name wal_segment_bytes = "wal_segment_bytes"
name wal_bytes = "wal_bytes"
name seal_bytes = "seal_bytes"
name seal_memory_bytes = "seal_memory_bytes"
name tables = "tables"
name unit_sections = "unit_sections"
name section_rows = "section_rows"
name unit_file_bytes = "unit_file_bytes"
name logical_streams = "logical_streams"
name retention_heads = "retention_heads"
name live_units = "live_units"
name manifest_body_bytes = "manifest_body_bytes"
name aggregation_levels = "aggregation_levels"
name query_slots = "query_slots"
name operation_memory_bytes = "operation_memory_bytes"
name open_files = "open_files"
name directory_cache_bytes = "directory_cache_bytes"
name tail_index_bytes = "tail_index_bytes"
name threads = "threads"
name stripped_binary_bytes = "stripped_binary_bytes"
name idle_rss_bytes = "idle_rss_bytes"
name operation_rss_bytes = "operation_rss_bytes"
name recovery_rss_bytes = "recovery_rss_bytes"

unfoldable pub maximum : Limit → ℕ
maximum wal_record_payload = max_wal_record_payload
maximum wal_segment_bytes = 67_108_864
maximum wal_bytes = max_wal_bytes
maximum seal_bytes = max_wal_bytes
maximum seal_memory_bytes = 67_108_864
maximum tables = max_tables
maximum unit_sections = max_unit_sections
maximum section_rows = max_section_rows
maximum unit_file_bytes = max_unit_file_bytes
maximum logical_streams = max_logical_streams
maximum retention_heads = 262_144
maximum live_units = max_live_units
maximum manifest_body_bytes = 67_108_864
maximum aggregation_levels = 3
maximum query_slots = max_query_slots
maximum operation_memory_bytes = max_operation_memory_bytes
maximum open_files = 64
maximum directory_cache_bytes = 16_777_216
maximum tail_index_bytes = max_tail_index_bytes
maximum threads = 0
maximum stripped_binary_bytes = 2_097_152
maximum idle_rss_bytes = 2_097_152
maximum operation_rss_bytes = 16_777_216
maximum recovery_rss_bytes = 16_777_216

unfoldable pub ensure_at_most : Limit → ℕ → Result (Unit {0})
unfolding maximum
ensure_at_most limit actual =
    if leb actual (maximum limit)
    then ok tt
    else err (resource_exhausted (name limit) actual (maximum limit))

pub ensure_at_most_ok :
    (limit : Limit) (actual : ℕ) → actual ≤ maximum limit → ensure_at_most limit actual ≡ ok tt
unfolding ensure_at_most
ensure_at_most_ok limit actual h = ground arith

pub ensure_at_most_inv :
    (limit : Limit) (actual : ℕ) → ensure_at_most limit actual ≡ ok tt → actual ≤ maximum limit
unfolding ensure_at_most
ensure_at_most_inv limit actual h = ground arith
