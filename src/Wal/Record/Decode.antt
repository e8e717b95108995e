-- ===== src/Wal/Record/Decode.antt =====
-- core/src/wal/record_decode.rs: reading a record. The checksum is a parameter as in the encoder,
-- and the type of a field of a table is asked of the caller.
use litesdb.Base.{
  ℕ, zero, suc, ◌+◌, ◌==◌, not, ltb, ◌||◌, List, [], ◌∷◌, Bool, false, Option, none, some, length,
}
use litesdb.Base.{
  if◌then◌else◌, Result, ok, err, Error, ◌>>=◌, ◌>>◌, ok_or, fail_if, map_err, corruption, String,
}
use litesdb.Base.Int.{ℤ, checked_mul}
use litesdb.Base.Map.{key_lt, pair_ord}
use litesdb.Base.Cursor.{read_u8, read_u16, read_u32, read_u64, read_i64, read_at, tail_from}
use litesdb.Limits.{max_wal_record_payload, max_logical_streams}
use litesdb.Types.Value.{TableId, SeriesId, FieldId, CellValue, ValueType, u_int, sq1, f32_bits}
use litesdb.Types.Value.{u_int_value, sq1_value, f32_value, new_sq1}
use litesdb.Types.Schema.{Validity, VersionSpec, FieldSchema, new_duration, new_spec, forever}
use litesdb.Types.Observation.{Observation, ObservationEntry, from_single, new_observation}
use litesdb.Wal.Record.{RecordBody, append_observation, create_table, new_table_version, drop_table}
use litesdb.Wal.Record.{retire_series, retire_field}
use litesdb.Wal.Record.Encode.{record_header_bytes, record_crc}

pub record DecodedRecord : Type 0 where
  pub seq : ℕ
  pub body : RecordBody

abbrev pub in_payload : String → Error
in_payload reason = corruption "WAL payload" reason

abbrev pub in_record : String → Error
in_record reason = corruption "WAL record" reason

abbrev pub payload_context : String
payload_context = "WAL payload"

unfoldable pub validate_payload_len : ℕ → Result (Unit {0})
validate_payload_len payload_len =
    fail_if (payload_len == 0 || ltb max_wal_record_payload payload_len)
      (in_record "payload length is out of range")

abbrev pub read_prefix_u32 : List ℕ → Result ℕ
read_prefix_u32 bytes = read_at (in_record "truncated payload length") 4 0 bytes

-- On the 64-bit `usize` the sum does not overflow.
unfoldable pub framed_len : List ℕ → Result ℕ
framed_len prefix = do
  payload_len ← read_prefix_u32 prefix
  validate_payload_len payload_len
  ok (payload_len + record_header_bytes)

-- The product is checked on the 64-bit `usize`.
unfoldable pub preflight_count : ℕ → ℕ → ℕ → String → Result (Unit {0})
preflight_count remaining count width reason = do
  fail_if (ltb max_logical_streams count) (in_payload reason)
  needed ← ok_or (checked_mul 64 count width) (in_payload "count byte size overflow")
  fail_if (ltb remaining needed) (in_payload reason)

-- A cell whose tag says that it holds a value.
unfoldable pub decode_present : ValueType → List ℕ → Result (CellValue × List ℕ)
decode_present u_int cursor = do
  (v, rest) ← read_u64 payload_context cursor
  ok (u_int_value v, rest)
decode_present sq1 cursor = do
  (code, rest) ← read_u8 payload_context cursor
  c ← ok_or (new_sq1 code) (in_payload "SQ1 value uses null code")
  ok (sq1_value c, rest)
decode_present f32_bits cursor = do
  (bits, rest) ← read_u32 payload_context cursor
  ok (f32_value bits, rest)

unfoldable pub decode_tagged : ℕ → ValueType → List ℕ → Result (CellValue × List ℕ)
decode_tagged zero value_type cursor = ok (CellValue.null, cursor)
decode_tagged (suc zero) value_type cursor = decode_present value_type cursor
decode_tagged (suc (suc n)) value_type cursor = err (in_payload "unknown cell tag")

unfoldable pub decode_cell : List ℕ → ValueType → Result (CellValue × List ℕ)
decode_cell cursor value_type = do
  (tag, rest) ← read_u8 payload_context cursor
  decode_tagged tag value_type rest

unfoldable pub decode_value_type : ℕ → Result ValueType
decode_value_type zero = ok u_int
decode_value_type (suc zero) = ok sq1
decode_value_type (suc (suc zero)) = ok f32_bits
decode_value_type (suc (suc (suc n))) = err (in_payload "unknown value type tag")

-- `previous.is_some_and(|prior| prior >= key)`
abbrev pub not_after : Option (SeriesId × FieldId) → SeriesId × FieldId → Bool
not_after none key = false
not_after (some prior) key = not (key_lt prior key)

module _ (field_type : TableId → FieldId → Option ValueType) where
  unfoldable pub decode_observation_entry :
      TableId → List ℕ → Option (SeriesId × FieldId) → Result (ObservationEntry × List ℕ)
  decode_observation_entry table cursor previous = do
    (series, c₁) ← read_u64 payload_context cursor
    (field, c₂) ← read_u16 payload_context c₁
    fail_if (not_after previous (series, field)) (in_payload "entries are not strictly ordered")
    value_type ← ok_or (field_type table field) (in_payload "field is absent from schema")
    (value, c₃) ← decode_cell c₂ value_type
    ok (record { series = series; field = field; value = value }, c₃)

  -- The loop over the entries.
  unfoldable pub decode_entries :
      TableId → ℕ → List ℕ → Option (SeriesId × FieldId) → Result (List ObservationEntry × List ℕ)
  decode_entries table zero cursor previous = ok ([], cursor)
  decode_entries table (suc n) cursor previous = do
    (entry, c₁) ← decode_observation_entry table cursor previous
    (rest, c₂) ← decode_entries table n c₁ (some (entry.series, entry.field))
    ok (entry ∷ rest, c₂)

  unfoldable pub decode_single : TableId → ℤ → List ℕ → Result (Observation × List ℕ)
  decode_single table timestamp cursor = do
    (entry, rest) ← decode_observation_entry table cursor none
    ok (from_single timestamp entry, rest)

  unfoldable pub decode_many : TableId → ℤ → ℕ → List ℕ → Result (Observation × List ℕ)
  decode_many table timestamp entry_count cursor = do
    (entries, rest) ← decode_entries table entry_count cursor none
    observation ← map_err (in_payload "invalid observation") (new_observation timestamp entries)
    ok (observation, rest)

  unfoldable pub decode_observation : TableId → List ℕ → Result (RecordBody × List ℕ)
  decode_observation table cursor = do
    (timestamp, c₁) ← read_i64 payload_context cursor
    (entry_count, c₂) ← read_u32 payload_context c₁
    preflight_count (length c₂) entry_count 11 "entry count exceeds payload"
    (observation, c₃) ←
        if entry_count == 1
        then decode_single table timestamp c₂
        else decode_many table timestamp entry_count c₂
    ok (append_observation table observation, c₃)

unfoldable pub decode_duration : List ℕ → Result (Validity × List ℕ)
decode_duration cursor = do
  (seconds, rest) ← read_u32 payload_context cursor
  validity ← map_err (in_payload "invalid finite validity") (new_duration seconds)
  ok (validity, rest)

unfoldable pub tagged_validity : ℕ → List ℕ → Result (Validity × List ℕ)
tagged_validity zero cursor = decode_duration cursor
tagged_validity (suc zero) cursor = ok (forever, cursor)
tagged_validity (suc (suc n)) cursor = err (in_payload "unknown validity tag")

unfoldable pub decode_validity : List ℕ → Result (Validity × List ℕ)
decode_validity cursor = read_u8 payload_context cursor >>= λ (tag, rest). tagged_validity tag rest

unfoldable pub decode_fields : ℕ → List ℕ → Result (List FieldSchema × List ℕ)
decode_fields zero cursor = ok ([], cursor)
decode_fields (suc n) cursor = do
  (field, c₁) ← read_u16 payload_context cursor
  (tag, c₂) ← read_u8 payload_context c₁
  value_type ← decode_value_type tag
  (rest, c₃) ← decode_fields n c₂
  ok (record { field = field; value_type = value_type } ∷ rest, c₃)

-- `decode_spec` behind the validity.
unfoldable pub decode_spec_fields : Validity → List ℕ → Result (VersionSpec × List ℕ)
decode_spec_fields validity cursor = do
  (field_count, c₁) ← read_u32 payload_context cursor
  preflight_count (length c₁) field_count 3 "field count exceeds payload"
  (fields, c₂) ← decode_fields field_count c₁
  spec ← map_err (in_payload "fields are not strictly ordered") (new_spec validity fields)
  ok (spec, c₂)

unfoldable pub decode_spec : List ℕ → Result (VersionSpec × List ℕ)
decode_spec cursor = decode_validity cursor >>= λ (validity, rest). decode_spec_fields validity rest

unfoldable pub decode_retire_series : TableId → List ℕ → Result (RecordBody × List ℕ)
decode_retire_series table cursor = do
  (series, c₁) ← read_u64 payload_context cursor
  (retire_ts, c₂) ← read_i64 payload_context c₁
  ok (retire_series table series retire_ts, c₂)

unfoldable pub decode_retire_field : TableId → List ℕ → Result (RecordBody × List ℕ)
decode_retire_field table cursor = do
  (field, c₁) ← read_u16 payload_context cursor
  (retire_ts, c₂) ← read_i64 payload_context c₁
  ok (retire_field table field retire_ts, c₂)

unfoldable pub decode_with_spec : (VersionSpec → RecordBody) → List ℕ → Result (RecordBody × List ℕ)
decode_with_spec of cursor = decode_spec cursor >>= λ (spec, rest). ok (of spec, rest)

module _ (field_type : TableId → FieldId → Option ValueType) where
  -- `match record_type`
  unfoldable pub decode_kind : ℕ → TableId → List ℕ → Result (RecordBody × List ℕ)
  decode_kind record_type table cursor =
      if record_type == 1
      then decode_observation field_type table cursor
      else if record_type == 2
      then decode_with_spec (create_table table) cursor
      else if record_type == 3
      then decode_with_spec (new_table_version table) cursor
      else if record_type == 4
      then ok (drop_table table, cursor)
      else if record_type == 5
      then decode_retire_series table cursor
      else if record_type == 6
      then decode_retire_field table cursor
      else err (in_payload "unknown record type")

  unfoldable pub decode_payload : List ℕ → Result RecordBody
  decode_payload payload = do
    (record_type, c₁) ← read_u8 payload_context payload
    (table, c₂) ← read_u32 payload_context c₁
    (body, c₃) ← decode_kind record_type table c₂
    fail_if (not (length c₃ == 0)) (in_payload "trailing bytes")
    ok body

  unfoldable pub decode_inspected : List ℕ → ℕ → Result DecodedRecord
  decode_inspected bytes seq = do
    payload ← ok_or (tail_from record_header_bytes bytes) (in_record "payload is absent")
    body ← decode_payload payload
    ok (record { seq = seq; body = body })

module _ (crc : List ℕ → ℕ) where
  unfoldable pub inspect : List ℕ → Result ℕ
  inspect bytes = do
    fail_if (ltb (length bytes) record_header_bytes) (in_record "truncated frame header")
    frame_len ← framed_len bytes
    fail_if (not (length bytes == frame_len)) (in_record "frame length mismatch")
    payload_len ← read_prefix_u32 bytes
    seq ← read_at (in_record "truncated u64") 8 4 bytes
    stored_crc ← read_at (in_record "truncated u32") 4 12 bytes
    payload ← ok_or (tail_from record_header_bytes bytes) (in_record "payload is absent")
    fail_if (not (record_crc crc payload_len seq payload == stored_crc))
        (in_record "CRC32 mismatch")
    ok seq

module _ (crc : List ℕ → ℕ) (field_type : TableId → FieldId → Option ValueType) where
  unfoldable pub decode_record : List ℕ → ℕ → Result DecodedRecord
  decode_record bytes expected_seq = do
    seq ← inspect crc bytes
    fail_if (not (seq == expected_seq)) (in_record "sequence is not continuous")
    decode_inspected field_type bytes seq
