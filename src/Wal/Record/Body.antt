-- ===== src/Wal/Record/Body.antt =====
-- The decoder of a payload undoes the encoder: specifications, observations and whole payloads.
use litesdb.Base.{
  ℕ, ◌*◌, ◌≤◌, ◌<◌, ◌^◌, ◌==◌, ◌≡◌, refl, arith, List, [], ◌∷◌, ◌++◌, length, length-append,
  append_assoc, append-nil,
}
use litesdb.Base.{ok, Option, none, false, All, if◌then◌else◌, String}
use litesdb.Base.Int.{ℤ, IsI64, checked_mul, try_from}
use litesdb.Base.Cursor.{put_u32, put_i64, read_u8, read_le-to_le_bytes, read_i64-put_i64}
use litesdb.Base.Map.{pair_ord}
use litesdb.Limits.{max_logical_streams}
use litesdb.Types.Value.{TableId, FieldId, ValueType}
use litesdb.Types.Schema.{
  IsValidity, new_duration_ok, Validity, VersionSpec, duration_seconds, forever, new_spec,
}
use litesdb.Types.Observation.{Observation, ObservationEntry, entries, new_observation, from_single}
use litesdb.Wal.Record.{append_observation}
use litesdb.Wal.Record.Encode.{
  encode_entries, encode_fields, encode_validity, encode_spec, count_or_max,
}
use litesdb.Wal.Record.Decode.{
  decode_single, decode_many, decode_observation, decode_duration, decode_validity, tagged_validity,
  decode_spec_fields, decode_spec, preflight_count, payload_context,
}
use litesdb.Wal.Record.Measure.{length-encode_entries, length-encode_fields}
use litesdb.Wal.Record.Payload.{
  IsEntry, KeysAfter-keys_unordered, decode_observation_entry_lem, decode_entries-encode_entries,
  decode_fields-encode_fields,
}

preflight_count_ok :
    (remaining count width : ℕ) (reason : String)
    → count ≤ max_logical_streams
    → count * width < 2 ^ 64
    → count * width ≤ remaining
    → preflight_count remaining count width reason ≡ ok tt
unfolding preflight_count checked_mul
preflight_count_ok remaining count width reason few small fits = ground arith

count_or_max_small : (n : ℕ) → n < 2 ^ 32 → count_or_max n ≡ n
unfolding count_or_max try_from
count_or_max_small n h = ground arith

-- A specification of the types of the source, as its constructor returns it.
abbrev pub IsSpec : VersionSpec → Type 0
IsSpec spec =
    IsValidity spec.validity
    × All (λ f. f.field < 2 ^ 16) spec.fields
    × (new_spec spec.validity spec.fields ≡ ok spec)

decode_spec_fields_lem :
    (spec : VersionSpec) (v : Validity) (rest : List ℕ)
    → All (λ f. f.field < 2 ^ 16) spec.fields
    → length spec.fields ≤ 2 ^ 16
    → new_spec v spec.fields ≡ ok spec
    → decode_spec_fields v
        (put_u32 (count_or_max (length spec.fields)) ++ (encode_fields spec.fields ++ rest))
      ≡ ok (spec, rest)
unfolding decode_spec_fields
decode_spec_fields_lem spec v rest typed few made =
    rw
      (
        count_or_max_small (length spec.fields) (omega arith),
        read_le-to_le_bytes payload_context 4 (length spec.fields) (omega arith)
            (encode_fields spec.fields ++ rest),
        preflight_count_ok (length (encode_fields spec.fields ++ rest)) (length spec.fields) 3
            "field count exceeds payload" (omega arith) (omega arith)
            (omega (
              arith,
              length-append (encode_fields spec.fields) rest,
              length-encode_fields spec.fields,
            )),
        decode_fields-encode_fields spec.fields rest typed,
        made,
      )
      refl

spec_assoc :
    (spec : VersionSpec) (rest : List ℕ)
    → encode_spec spec ++ rest
      ≡ encode_validity spec.validity
        ++ (put_u32 (count_or_max (length spec.fields)) ++ (encode_fields spec.fields ++ rest))
unfolding encode_spec
spec_assoc spec rest =
    rw
      (
        append_assoc (encode_validity spec.validity)
            (put_u32 (count_or_max (length spec.fields)) ++ encode_fields spec.fields) rest,
        append_assoc (put_u32 (count_or_max (length spec.fields))) (encode_fields spec.fields) rest,
      )
      refl

decode_validity-encode_validity :
    (v : Validity) (rest : List ℕ)
    → IsValidity v
    → decode_validity (encode_validity v ++ rest) ≡ ok (v, rest)
unfolding encode_validity read_u8 decode_validity tagged_validity decode_duration
decode_validity-encode_validity (duration_seconds n) rest (positive, small) =
    rw (read_le-to_le_bytes payload_context 4 n small rest, new_duration_ok n positive) refl
decode_validity-encode_validity forever rest h = refl

pub decode_spec-encode_spec :
    (spec : VersionSpec) (rest : List ℕ)
    → IsSpec spec
    → length spec.fields ≤ 2 ^ 16
    → decode_spec (encode_spec spec ++ rest) ≡ ok (spec, rest)
unfolding decode_spec
decode_spec-encode_spec spec rest (valid, typed, made) few =
    rw
      (
        spec_assoc spec rest,
        decode_validity-encode_validity spec.validity
            (put_u32 (count_or_max (length spec.fields)) ++ (encode_fields spec.fields ++ rest))
            valid,
        decode_spec_fields_lem spec spec.validity rest typed few made,
      )
      refl

-- An observation as its constructor returns it, whose entries fit the fields of the table.
abbrev pub IsObservation : (TableId → FieldId → Option ValueType) → TableId → Observation → Type 0
IsObservation field_type table o =
    IsI64 o.timestamp
    × All (IsEntry field_type table) (entries o)
    × (new_observation o.timestamp (entries o) ≡ ok o)

module _ (field_type : TableId → FieldId → Option ValueType) where
  single_lem :
      (table : TableId) (t : ℤ) (e : ObservationEntry) (o : Observation)
      → IsEntry field_type table e
      → new_observation t (e ∷ []) ≡ ok o
      → decode_single field_type table t (encode_entries (e ∷ [])) ≡ ok (o, [])
  unfolding decode_single encode_entries new_observation from_single
  single_lem table t e o h made =
      let here = decode_observation_entry_lem field_type table e none [] h refl in rw (here) cc

  many_lem :
      (table : TableId) (t : ℤ) (e : ObservationEntry) (es : List ObservationEntry)
      (o : Observation)
      → All (IsEntry field_type table) (e ∷ es)
      → new_observation t (e ∷ es) ≡ ok o
      → decode_many field_type table t (length (e ∷ es)) (encode_entries (e ∷ es)) ≡ ok (o, [])
  unfolding decode_many
  many_lem table t e es o h made =
      let ordered = KeysAfter-keys_unordered e es (unfold new_observation in ground arith) in
      let here =
        decode_entries-encode_entries field_type table (e ∷ es) none [] h (refl, ordered) in
      let whole = rw append-nil at here in rw (whole, made) refl

  observed_lem :
      (table : TableId) (t : ℤ) (es : List ObservationEntry) (o : Observation)
      → All (IsEntry field_type table) es
      → new_observation t es ≡ ok o
      → (if length es == 1
          then decode_single field_type table t (encode_entries es)
          else decode_many field_type table t (length es) (encode_entries es))
        ≡ ok (o, [])
  observed_lem table t [] o h made = unfold new_observation in cc
  observed_lem table t (e ∷ []) o (h, _) made = single_lem table t e o h made
  observed_lem table t (e ∷ (f ∷ es)) o h made =
      let more : (length (e ∷ (f ∷ es)) == 1) ≡ false = ground arith in
      rw (more) (many_lem table t e (f ∷ es) o h made)

  pub decode_observation-entries :
      (table : TableId) (o : Observation)
      → IsObservation field_type table o
      → length (encode_entries (entries o)) ≤ 2 ^ 16
      → decode_observation field_type table (
          put_i64 o.timestamp
          ++ (put_u32 (count_or_max (length (entries o))) ++ encode_entries (entries o)))
        ≡ ok (append_observation table o, [])
  unfolding decode_observation
  decode_observation-entries table o (clock, typed, made) few =
      let long = length-encode_entries (entries o) in
      rw
        (
          count_or_max_small (length (entries o)) (omega arith),
          read_i64-put_i64 payload_context o.timestamp clock
              (put_u32 (length (entries o)) ++ encode_entries (entries o)),
          read_le-to_le_bytes payload_context 4 (length (entries o)) (omega arith)
              (encode_entries (entries o)),
          preflight_count_ok (length (encode_entries (entries o))) (length (entries o)) 11
              "entry count exceeds payload" (omega arith) (omega arith) (omega arith),
          observed_lem table o.timestamp (entries o) o typed made,
        )
        refl
