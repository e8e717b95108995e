-- ===== src/Wal/Record/Measure.antt =====
-- The measured length of a payload is the length of its bytes.
use litesdb.Base.{
  ℕ, ◌+◌, ◌*◌, ◌≤◌, ◌<◌, ◌^◌, ◌≡◌, arith, List, [], ◌∷◌, ◌++◌, length, length-append,
}
use litesdb.Base.{ok, >>=-eq-ok, ok_or, ok_or-eq_ok, some}
use litesdb.Base.Int.{checked_add, checked_mul, try_from}
use litesdb.Base.Bytes.{i64_bits, length-to_le_bytes}
use litesdb.Base.Cursor.{put_u16, put_u32, put_u64, put_i64}
use litesdb.Limits.{ensure_at_most, ensure_at_most_inv, maximum, wal_record_payload}
use litesdb.Types.Value.{CellValue, u_int_value, sq1_value, f32_value}
use litesdb.Types.Schema.{Validity, VersionSpec, FieldSchema, duration_seconds, forever}
use litesdb.Types.Observation.{ObservationEntry, entries}
use litesdb.Wal.Record.{RecordBody, append_observation, create_table, new_table_version, drop_table}
use litesdb.Wal.Record.{retire_series, retire_field}
use litesdb.Wal.Record.Encode.{
  add_length, value_len, validity_extra_len, measure_entries, measure_spec,
}
use litesdb.Wal.Record.Encode.{
  measure_body, measure_payload, encode_cell, encode_entries, encode_fields,
}
use litesdb.Wal.Record.Encode.{
  encode_validity, encode_spec, encode_body, encode_payload, count_or_max,
}

add_length_inv : (a b c : ℕ) → add_length a b ≡ ok c → c ≡ a + b
unfolding add_length checked_add
add_length_inv a b c h = ground arith

-- The lengths of the parts.
pub length-encode_cell : (v : CellValue) → length (encode_cell v) ≡ 1 + value_len v
unfolding encode_cell value_len
length-encode_cell CellValue.null = omega arith
length-encode_cell (u_int_value v) = omega (arith, length-to_le_bytes 8 v)
length-encode_cell (sq1_value c) = omega arith
length-encode_cell (f32_value b) = omega (arith, length-to_le_bytes 4 b)

entry_length :
    (e : ObservationEntry) (rest : List ℕ)
    → length (put_u64 e.series ++ (put_u16 e.field ++ (encode_cell e.value ++ rest)))
      ≡ 11 + value_len e.value + length rest
entry_length e rest = omega (
  arith,
  length-append (put_u64 e.series) (put_u16 e.field ++ (encode_cell e.value ++ rest)),
  length-append (put_u16 e.field) (encode_cell e.value ++ rest),
  length-append (encode_cell e.value) rest,
  length-encode_cell e.value,
  length-to_le_bytes 8 e.series,
  length-to_le_bytes 2 e.field,
)

pub length-encode_entries :
    (es : List ObservationEntry) → 11 * length es ≤ length (encode_entries es)
unfolding encode_entries
length-encode_entries [] = omega arith
length-encode_entries (e ∷ es) =
    omega (arith, length-encode_entries es, entry_length e (encode_entries es))

measure_entries_inv :
    (es : List ObservationEntry) (total n : ℕ)
    → measure_entries total es ≡ ok n
    → n ≡ total + length (encode_entries es)
unfolding measure_entries encode_entries
measure_entries_inv [] total n h = ground arith
measure_entries_inv (e ∷ es) total n h =
    let (a, first, h₁) = >>=-eq-ok (add_length total 11) _ h in
    let (b, second, h₂) = >>=-eq-ok (add_length a (value_len e.value)) _ h₁ in
    omega (
      arith,
      measure_entries_inv es b n h₂,
      add_length_inv total 11 a first,
      add_length_inv a (value_len e.value) b second,
      entry_length e (encode_entries es),
    )

pub length-encode_fields : (fs : List FieldSchema) → length (encode_fields fs) ≡ 3 * length fs
unfolding encode_fields
length-encode_fields [] = omega arith
length-encode_fields (f ∷ fs) = omega (
  arith,
  length-encode_fields fs,
  length-to_le_bytes 2 f.field,
  length-append (put_u16 f.field) (_ ∷ encode_fields fs),
)

length-encode_validity : (v : Validity) → length (encode_validity v) ≡ 1 + validity_extra_len v
unfolding encode_validity validity_extra_len
length-encode_validity (duration_seconds n) = omega (arith, length-to_le_bytes 4 n)
length-encode_validity forever = omega arith

try_from_inv : (n m : ℕ) → try_from 32 n ≡ some m → (m ≡ n) × (n < 2 ^ 32)
unfolding try_from
try_from_inv n m h = ground arith

times_three : (n m : ℕ) → checked_mul 32 n 3 ≡ some m → m ≡ n * 3
unfolding checked_mul
times_three n m h = ground arith

-- The length of `count_or_max` does not depend on the count.
spec_length :
    (spec : VersionSpec)
    → length (encode_spec spec) ≡ 5 + validity_extra_len spec.validity + 3 * length spec.fields
unfolding encode_spec
spec_length spec = omega (
  arith,
  length-append (encode_validity spec.validity)
      (put_u32 (count_or_max (length spec.fields)) ++ encode_fields spec.fields),
  length-append (put_u32 (count_or_max (length spec.fields))) (encode_fields spec.fields),
  length-to_le_bytes 4 (count_or_max (length spec.fields)),
  length-encode_validity spec.validity,
  length-encode_fields spec.fields,
)

measure_spec_inv :
    (spec : VersionSpec) (n : ℕ) → measure_spec spec ≡ ok n → n ≡ 5 + length (encode_spec spec)
unfolding measure_spec
measure_spec_inv spec n h =
    let (fields, e, h₁) = >>=-eq-ok (ok_or (try_from 32 (length spec.fields)) _) _ h in
    let (fields_len, e', h₂) = >>=-eq-ok (ok_or (checked_mul 32 fields 3) _) _ h₁ in
    let (head, e'', h₃) = >>=-eq-ok (add_length 10 (validity_extra_len spec.validity)) _ h₂ in
    let (same, small) = try_from_inv _ _ (ok_or-eq_ok _ _ e) in
    let triple = times_three _ _ (ok_or-eq_ok _ _ e') in
    let a = add_length_inv _ _ _ e'' in
    let b = add_length_inv _ _ _ h₃ in omega (arith, spec_length spec)

with_table : (table : ℕ) (rest : List ℕ) → length (put_u32 table ++ rest) ≡ 4 + length rest
with_table table rest =
    omega (arith, length-append (put_u32 table) rest, length-to_le_bytes 4 table)

measure_body_inv :
    (body : RecordBody) (n : ℕ) → measure_body body ≡ ok n → n ≡ length (encode_payload body)
unfolding measure_body encode_payload encode_body
measure_body_inv (append_observation table o) n h =
    let count = count_or_max (length (entries o)) in
    omega (
      arith,
      measure_entries_inv (entries o) 17 n h,
      with_table table (put_i64 o.timestamp ++ (put_u32 count ++ encode_entries (entries o))),
      length-append (put_i64 o.timestamp) (put_u32 count ++ encode_entries (entries o)),
      length-to_le_bytes 8 (i64_bits o.timestamp),
      with_table count (encode_entries (entries o)),
    )
measure_body_inv (create_table table spec) n h =
    omega (arith, measure_spec_inv spec n h, with_table table (encode_spec spec))
measure_body_inv (new_table_version table spec) n h =
    omega (arith, measure_spec_inv spec n h, with_table table (encode_spec spec))
measure_body_inv (drop_table table) n h =
    let e : ◌≡◌ {A = ℕ} 5 n = cc in omega (arith, length-to_le_bytes 4 table)
measure_body_inv (retire_series table series t) n h =
    let e : ◌≡◌ {A = ℕ} 21 n = cc in
    omega (
      arith,
      with_table table (put_u64 series ++ put_i64 t),
      length-append (put_u64 series) (put_i64 t),
      length-to_le_bytes 8 series,
      length-to_le_bytes 8 (i64_bits t),
    )
measure_body_inv (retire_field table field t) n h =
    let e : ◌≡◌ {A = ℕ} 15 n = cc in
    omega (
      arith,
      with_table table (put_u16 field ++ put_i64 t),
      length-append (put_u16 field) (put_i64 t),
      length-to_le_bytes 2 field,
      length-to_le_bytes 8 (i64_bits t),
    )

payload_is_long : (body : RecordBody) → 5 ≤ length (encode_payload body)
unfolding encode_payload encode_body
payload_is_long (append_observation table o) = omega (
  arith,
  with_table table (
      put_i64 o.timestamp
      ++ (put_u32 (count_or_max (length (entries o))) ++ encode_entries (entries o))),
)
payload_is_long (create_table table spec) = omega (arith, with_table table (encode_spec spec))
payload_is_long (new_table_version table spec) = omega (arith, with_table table (encode_spec spec))
payload_is_long (drop_table table) = omega (arith, length-to_le_bytes 4 table)
payload_is_long (retire_series table series t) =
    omega (arith, with_table table (put_u64 series ++ put_i64 t))
payload_is_long (retire_field table field t) =
    omega (arith, with_table table (put_u16 field ++ put_i64 t))

-- The measure is exact and within the limit of a payload.
pub measure_payload_inv :
    (body : RecordBody) (n : ℕ)
    → measure_payload body ≡ ok n
    → (length (encode_payload body) ≡ n) × (5 ≤ n) × (n ≤ maximum wal_record_payload)
unfolding measure_payload
measure_payload_inv body n h =
    let (total, e, h₁) = >>=-eq-ok (measure_body body) _ h in
    let (_, small, h₂) = >>=-eq-ok (ensure_at_most wal_record_payload total) _ h₁ in
    let same : total ≡ n = cc in
    let bound = ensure_at_most_inv wal_record_payload total small in
    let exact = measure_body_inv body total e in
    (omega arith, omega (arith, payload_is_long body), omega arith)
