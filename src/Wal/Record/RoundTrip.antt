-- ===== src/Wal/Record/RoundTrip.antt =====
-- The decoder of a record undoes the encoder.
use litesdb.Base.{
  ℕ, suc, ◌≤◌, ◌<◌, ◌^◌, ◌≡◌, refl, arith, List, [], ◌∷◌, ◌++◌, length, length-append, append-nil,
}
use litesdb.Base.{ok, Option}
use litesdb.Base.Int.{ℤ, IsI64}
use litesdb.Base.Cursor.{
  put_u16, put_u32, put_u64, put_i64, read_u8, read_le-to_le_bytes, read_i64-put_i64,
}
use litesdb.Base.Map.{pair_ord}
use litesdb.Types.Value.{TableId, FieldId, ValueType}
use litesdb.Types.Schema.{VersionSpec}
use litesdb.Types.Observation.{entries}
use litesdb.Wal.Record.{RecordBody, append_observation, create_table, new_table_version, drop_table}
use litesdb.Wal.Record.{retire_series, retire_field, record_type}
use litesdb.Wal.Record.Encode.{
  encode_entries, encode_fields, encode_validity, encode_spec, encode_body, encode_payload,
  count_or_max,
}
use litesdb.Wal.Record.Decode.{
  decode_with_spec, decode_retire_series, decode_retire_field, decode_kind, decode_payload,
  payload_context,
}
use litesdb.Wal.Record.Measure.{length-encode_fields}
use litesdb.Wal.Record.Body.{
  IsSpec, IsObservation, decode_spec-encode_spec, decode_observation-entries,
}

-- A record of the types of the source, with the values of an observation fitting its table.
abbrev pub IsBody : (TableId → FieldId → Option ValueType) → RecordBody → Type 0
IsBody field_type (append_observation table o) = (table < 2 ^ 32) × IsObservation field_type table o
IsBody field_type (create_table table spec) = (table < 2 ^ 32) × IsSpec spec
IsBody field_type (new_table_version table spec) = (table < 2 ^ 32) × IsSpec spec
IsBody field_type (drop_table table) = table < 2 ^ 32
IsBody field_type (retire_series table series t) = (table < 2 ^ 32) × (series < 2 ^ 64) × IsI64 t
IsBody field_type (retire_field table field t) = (table < 2 ^ 32) × (field < 2 ^ 16) × IsI64 t

fields_fit : (spec : VersionSpec) → length spec.fields ≤ length (encode_spec spec)
unfolding encode_spec
fields_fit spec = omega (
  arith,
  length-append (encode_validity spec.validity)
      (put_u32 (count_or_max (length spec.fields)) ++ encode_fields spec.fields),
  length-append (put_u32 (count_or_max (length spec.fields))) (encode_fields spec.fields),
  length-encode_fields spec.fields,
)

spec_part :
    (table : ℕ) (rest : List ℕ)
    → suc (length (put_u32 table ++ rest)) ≤ 2 ^ 16
    → length rest ≤ 2 ^ 16
spec_part table rest few = omega (arith, length-append (put_u32 table) rest)

entries_part :
    (table : ℕ) (t : ℤ) (count : ℕ) (rest : List ℕ)
    → suc (length (put_u32 table ++ (put_i64 t ++ (put_u32 count ++ rest)))) ≤ 2 ^ 16
    → length rest ≤ 2 ^ 16
entries_part table t count rest few = omega (
  arith,
  length-append (put_u32 table) (put_i64 t ++ (put_u32 count ++ rest)),
  length-append (put_i64 t) (put_u32 count ++ rest),
  length-append (put_u32 count) rest,
)

module _ (field_type : TableId → FieldId → Option ValueType) where
  -- A body behind the type of the record and the table.
  abbrev DecodesTo : ℕ → TableId → List ℕ → RecordBody → Type 0
  DecodesTo type table bytes body = decode_kind field_type type table bytes ≡ ok (body, [])

  payload_of_kind :
      (type table : ℕ) (rest : List ℕ) (body : RecordBody)
      → table < 2 ^ 32
      → DecodesTo type table rest body
      → decode_payload field_type (type ∷ (put_u32 table ++ rest)) ≡ ok body
  unfolding decode_payload read_u8
  payload_of_kind type table rest body h decoded =
      rw (read_le-to_le_bytes payload_context 4 table h rest, decoded) refl

  spec_kind :
      (of : VersionSpec → RecordBody) (spec : VersionSpec)
      → IsSpec spec
      → length (encode_spec spec) ≤ 2 ^ 16
      → decode_with_spec of (encode_spec spec) ≡ ok (of spec, [])
  unfolding decode_with_spec
  spec_kind of spec h few =
      let here = decode_spec-encode_spec spec [] h (omega (arith, fields_fit spec)) in
      let whole = rw append-nil at here in rw (whole) refl

  retire_series_kind :
      (table series : ℕ) (t : ℤ)
      → series < 2 ^ 64
      → IsI64 t
      → decode_retire_series table (put_u64 series ++ put_i64 t)
        ≡ ok (retire_series table series t, [])
  unfolding decode_retire_series
  retire_series_kind table series t hs ht =
      let last = rw append-nil at (read_i64-put_i64 payload_context t ht []) in
      rw (read_le-to_le_bytes payload_context 8 series hs (put_i64 t), last) refl

  retire_field_kind :
      (table field : ℕ) (t : ℤ)
      → field < 2 ^ 16
      → IsI64 t
      → decode_retire_field table (put_u16 field ++ put_i64 t) ≡ ok (retire_field table field t, [])
  unfolding decode_retire_field
  retire_field_kind table field t hf ht =
      let last = rw append-nil at (read_i64-put_i64 payload_context t ht []) in
      rw (read_le-to_le_bytes payload_context 2 field hf (put_i64 t), last) refl

  pub decode_payload-encode_payload :
      (body : RecordBody)
      → IsBody field_type body
      → length (encode_payload body) ≤ 2 ^ 16
      → decode_payload field_type (encode_payload body) ≡ ok body
  unfolding encode_payload encode_body record_type decode_kind
  decode_payload-encode_payload (append_observation table o) (h, valid) few =
      payload_of_kind 1 table _ (append_observation table o) h (
        decode_observation-entries field_type table o valid (
          entries_part table o.timestamp (count_or_max (length (entries o)))
            (encode_entries (entries o)) few))
  decode_payload-encode_payload (create_table table spec) (h, valid) few =
      payload_of_kind 2 table (encode_spec spec) (create_table table spec) h
        (spec_kind (create_table table) spec valid (spec_part table (encode_spec spec) few))
  decode_payload-encode_payload (new_table_version table spec) (h, valid) few =
      payload_of_kind 3 table (encode_spec spec) (new_table_version table spec) h
        (spec_kind (new_table_version table) spec valid (spec_part table (encode_spec spec) few))
  decode_payload-encode_payload (drop_table table) h few =
      let here = payload_of_kind 4 table [] (drop_table table) h refl in rw append-nil at here
  decode_payload-encode_payload (retire_series table series t) (h, hs, ht) few =
      payload_of_kind 5 table (put_u64 series ++ put_i64 t) (retire_series table series t) h
        (retire_series_kind table series t hs ht)
  decode_payload-encode_payload (retire_field table field t) (h, hf, ht) few =
      payload_of_kind 6 table (put_u16 field ++ put_i64 t) (retire_field table field t) h
        (retire_field_kind table field t hf ht)
