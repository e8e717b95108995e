-- ===== src/Wal/Record/Encode.antt =====
-- core/src/wal/record.rs: the bytes of a record. The checksum of crc32fast is a parameter: it takes
-- the bytes of all the updates of a hasher.
use litesdb.Base.{ℕ, ◌-◌, ◌^◌, ◌==◌, not, List, [], ◌∷◌, ◌++◌, none, some, length}
use litesdb.Base.{Result, ok, Error, ◌>>=◌, ◌>>◌, ok_or, fail_if, corruption, resource_exhausted}
use litesdb.Base.Int.{checked_add, checked_mul, try_from}
use litesdb.Base.Cursor.{put_u16, put_u32, put_u64, put_i64}
use litesdb.Limits.{wal_record_payload, ensure_at_most}
use litesdb.Types.Value.{CellValue, u_int_value, sq1_value, f32_value, tag}
use litesdb.Types.Schema.{Validity, VersionSpec, FieldSchema, duration_seconds, forever}
use litesdb.Types.Observation.{ObservationEntry, entries}
use litesdb.Wal.Record.{RecordBody, append_observation, create_table, new_table_version, drop_table}
use litesdb.Wal.Record.{retire_series, retire_field, record_type}

abbrev pub record_header_bytes : ℕ
record_header_bytes = 16

abbrev pub payload_limit : Error
payload_limit = resource_exhausted "wal_record_payload" (2 ^ 64 - 1) (2 ^ 32 - 1)

-- `checked_add` of this file, on `u32`.
unfoldable pub add_length : ℕ → ℕ → Result ℕ
add_length left right = ok_or (checked_add 32 left right) payload_limit

unfoldable pub value_len : CellValue → ℕ
value_len CellValue.null = 0
value_len (u_int_value v) = 8
value_len (sq1_value c) = 1
value_len (f32_value b) = 4

unfoldable pub validity_extra_len : Validity → ℕ
validity_extra_len (duration_seconds seconds) = 4
validity_extra_len forever = 0

-- The loop over the entries.
unfoldable pub measure_entries : ℕ → List ObservationEntry → Result ℕ
measure_entries total [] = ok total
measure_entries total (entry ∷ rest) = do
  with_key ← add_length total 11
  with_value ← add_length with_key (value_len entry.value)
  measure_entries with_value rest

unfoldable pub measure_spec : VersionSpec → Result ℕ
measure_spec spec = do
  fields ←
      ok_or (try_from 32 (length spec.fields))
        (resource_exhausted "logical_streams" (2 ^ 64 - 1) (2 ^ 32 - 1))
  fields_len ← ok_or (checked_mul 32 fields 3) payload_limit
  head ← add_length 10 (validity_extra_len spec.validity)
  add_length head fields_len

-- The length by the kind of the record.
unfoldable pub measure_body : RecordBody → Result ℕ
measure_body (append_observation table observation) = measure_entries 17 (entries observation)
measure_body (create_table table spec) = measure_spec spec
measure_body (new_table_version table spec) = measure_spec spec
measure_body (drop_table table) = ok 5
measure_body (retire_series table series retire_ts) = ok 21
measure_body (retire_field table field retire_ts) = ok 15

unfoldable pub measure_payload : RecordBody → Result ℕ
measure_payload body = do
  total ← measure_body body
  ensure_at_most wal_record_payload total
  ok total

unfoldable pub frame_len_from_payload : ℕ → Result ℕ
frame_len_from_payload payload_len =
    ok_or (checked_add 32 payload_len record_header_bytes)
      (resource_exhausted "wal_record_bytes" (2 ^ 64 - 1) (2 ^ 32 - 1))

unfoldable pub encoded_len : RecordBody → Result ℕ
encoded_len body = measure_payload body >>= frame_len_from_payload

-- What each function appends to its output.
unfoldable pub encode_cell : CellValue → List ℕ
encode_cell CellValue.null = 0 ∷ []
encode_cell (u_int_value v) = 1 ∷ put_u64 v
encode_cell (sq1_value c) = 1 ∷ c ∷ []
encode_cell (f32_value b) = 1 ∷ put_u32 b

unfoldable pub encode_entries : List ObservationEntry → List ℕ
encode_entries [] = []
encode_entries (entry ∷ rest) =
    put_u64 entry.series
    ++ (put_u16 entry.field ++ (encode_cell entry.value ++ encode_entries rest))

unfoldable pub encode_validity : Validity → List ℕ
encode_validity (duration_seconds seconds) = 0 ∷ put_u32 seconds
encode_validity forever = 1 ∷ []

unfoldable pub encode_fields : List FieldSchema → List ℕ
encode_fields [] = []
encode_fields (schema ∷ rest) = put_u16 schema.field ++ (tag schema.value_type ∷ encode_fields rest)

-- `u32::try_from(length).unwrap_or(u32::MAX)`
unfoldable pub count_or_max : ℕ → ℕ
count_or_max n = elim (try_from 32 n) [ none ↦ 2 ^ 32 - 1 | some count ↦ count ]

unfoldable pub encode_spec : VersionSpec → List ℕ
encode_spec spec =
    encode_validity spec.validity
    ++ (put_u32 (count_or_max (length spec.fields)) ++ encode_fields spec.fields)

-- `encode_payload` behind the type of the record.
unfoldable pub encode_body : RecordBody → List ℕ
encode_body (append_observation table observation) =
    put_u32 table
    ++ (put_i64 observation.timestamp
        ++ (put_u32 (count_or_max (length (entries observation)))
            ++ encode_entries (entries observation)))
encode_body (create_table table spec) = put_u32 table ++ encode_spec spec
encode_body (new_table_version table spec) = put_u32 table ++ encode_spec spec
encode_body (drop_table table) = put_u32 table
encode_body (retire_series table series retire_ts) =
    put_u32 table ++ (put_u64 series ++ put_i64 retire_ts)
encode_body (retire_field table field retire_ts) =
    put_u32 table ++ (put_u16 field ++ put_i64 retire_ts)

unfoldable pub encode_payload : RecordBody → List ℕ
encode_payload body = record_type body ∷ encode_body body

module _ (crc : List ℕ → ℕ) where
  unfoldable pub record_crc : ℕ → ℕ → List ℕ → ℕ
  record_crc payload_len seq payload = crc (put_u32 payload_len ++ (put_u64 seq ++ payload))

  unfoldable pub frame_of : ℕ → ℕ → List ℕ → List ℕ
  frame_of payload_len seq payload =
      put_u32 payload_len
      ++ (put_u64 seq ++ (put_u32 (record_crc payload_len seq payload) ++ payload))

  -- On the 64-bit `usize` the conversions of a `u32` succeed.
  unfoldable pub encode_record : ℕ → RecordBody → Result (List ℕ)
  encode_record seq body = do
    payload_len ← measure_payload body
    ensure_at_most wal_record_payload payload_len
    capacity ← frame_len_from_payload payload_len
    let payload = encode_payload body
    fail_if (not (length payload == payload_len))
        (corruption "WAL record" "encoded payload differs from measurement")
    let frame = frame_of payload_len seq payload
    fail_if (not (length frame == capacity))
        (corruption "WAL record" "encoded frame differs from measurement")
    ok frame
