-- ===== src/Wal/Record/Payload.antt =====
-- The decoder of a payload undoes the encoder.
use litesdb.Base.{ℕ, ◌<◌, ◌^◌, ◌==◌, ◌≡◌, refl, arith, List, [], ◌∷◌, ◌++◌, length, append_assoc}
use litesdb.Base.{ok, Option, some, false, any_adjacent, All}
use litesdb.Base.Cursor.{put_u16, put_u64, read_u8, read_le-to_le_bytes}
use litesdb.Base.Map.{pair_ord}
use litesdb.Types.Value.{
  TableId, FieldId, CellValue, ValueType, u_int, sq1, f32_bits, u_int_value, sq1_value, f32_value,
}
use litesdb.Types.Value.{HasType, new_sq1, tag}
use litesdb.Types.Schema.{FieldSchema}
use litesdb.Types.Observation.{ObservationEntry, keys_unordered}
use litesdb.Wal.Record.Encode.{encode_cell, encode_entries, encode_fields}
use litesdb.Wal.Record.Decode.{
  decode_present, decode_tagged, decode_cell, decode_value_type, not_after,
  decode_observation_entry, decode_entries, decode_fields, payload_context,
}

decode_cell-encode_cell :
    (t : ValueType) (v : CellValue) (rest : List ℕ)
    → HasType t v
    → decode_cell (encode_cell v ++ rest) t ≡ ok (v, rest)
unfolding decode_cell encode_cell decode_tagged decode_present read_u8 new_sq1
decode_cell-encode_cell u_int (u_int_value n) rest h =
    rw (read_le-to_le_bytes payload_context 8 n h rest) refl
decode_cell-encode_cell sq1 (sq1_value c) rest h =
    let some_code : (c == 255) ≡ false = ground arith in rw (some_code) refl
decode_cell-encode_cell f32_bits (f32_value b) rest h =
    rw (read_le-to_le_bytes payload_context 4 b h rest) refl
decode_cell-encode_cell u_int CellValue.null rest h = refl
decode_cell-encode_cell sq1 CellValue.null rest h = refl
decode_cell-encode_cell f32_bits CellValue.null rest h = refl
decode_cell-encode_cell _ _ rest h = absurd h

-- An entry of the types of the source, with a value of the type that its field has.
abbrev pub IsEntry : (TableId → FieldId → Option ValueType) → TableId → ObservationEntry → Type 0
IsEntry field_type table e =
    (e.series < 2 ^ 64)
    × (e.field < 2 ^ 16)
    × ((t : ValueType) × (field_type table e.field ≡ some t) × HasType t e.value)

abbrev pub KeysAfter : Option (ℕ × ℕ) → List ObservationEntry → Type 0
KeysAfter previous [] = Unit {0}
KeysAfter previous (e ∷ es) =
    (not_after previous (e.series, e.field) ≡ false) × KeysAfter (some (e.series, e.field)) es

module _ (field_type : TableId → FieldId → Option ValueType) where
  pub decode_observation_entry_lem :
      (table : TableId) (e : ObservationEntry) (previous : Option (ℕ × ℕ)) (rest : List ℕ)
      → IsEntry field_type table e
      → not_after previous (e.series, e.field) ≡ false
      → decode_observation_entry field_type table
          (put_u64 e.series ++ (put_u16 e.field ++ (encode_cell e.value ++ rest)))
          previous
        ≡ ok (e, rest)
  unfolding decode_observation_entry
  decode_observation_entry_lem table e previous rest (hs, hf, (t, known, typed)) after =
      rw
        (
          read_le-to_le_bytes payload_context 8 e.series hs
              (put_u16 e.field ++ (encode_cell e.value ++ rest)),
          read_le-to_le_bytes payload_context 2 e.field hf (encode_cell e.value ++ rest),
          after,
          known,
          decode_cell-encode_cell t e.value rest typed,
        )
        refl

  pub decode_entries-encode_entries :
      (table : TableId) (es : List ObservationEntry) (previous : Option (ℕ × ℕ)) (rest : List ℕ)
      → All (IsEntry field_type table) es
      → KeysAfter previous es
      → decode_entries field_type table (length es) (encode_entries es ++ rest) previous
        ≡ ok (es, rest)
  unfolding decode_entries encode_entries
  decode_entries-encode_entries table [] previous rest h k = refl
  decode_entries-encode_entries table (e ∷ es) previous rest (he, hes) (after, later) =
      rw
        (
          append_assoc (put_u64 e.series)
              (put_u16 e.field ++ (encode_cell e.value ++ encode_entries es)) rest,
          append_assoc (put_u16 e.field) (encode_cell e.value ++ encode_entries es) rest,
          append_assoc (encode_cell e.value) (encode_entries es) rest,
          decode_observation_entry_lem table e previous (encode_entries es ++ rest) he after,
          decode_entries-encode_entries table es (some (e.series, e.field)) rest hes later,
        )
        refl

-- Ordered entries are read in order.
pub KeysAfter-keys_unordered :
    (e : ObservationEntry) (es : List ObservationEntry)
    → any_adjacent keys_unordered (e ∷ es) ≡ false
    → KeysAfter (some (e.series, e.field)) es
KeysAfter-keys_unordered e [] h = tt
KeysAfter-keys_unordered e (f ∷ es) h = (ground arith, KeysAfter-keys_unordered f es (ground arith))

decode_value_type-tag : (t : ValueType) → decode_value_type (tag t) ≡ ok t
unfolding decode_value_type tag
decode_value_type-tag u_int = refl
decode_value_type-tag sq1 = refl
decode_value_type-tag f32_bits = refl

pub decode_fields-encode_fields :
    (fs : List FieldSchema) (rest : List ℕ)
    → All (λ f. f.field < 2 ^ 16) fs
    → decode_fields (length fs) (encode_fields fs ++ rest) ≡ ok (fs, rest)
unfolding decode_fields encode_fields read_u8
decode_fields-encode_fields [] rest h = refl
decode_fields-encode_fields (f ∷ fs) rest (hf, hfs) =
    rw
      (
        append_assoc (put_u16 f.field) (tag f.value_type ∷ encode_fields fs) rest,
        read_le-to_le_bytes payload_context 2 f.field hf
            ((tag f.value_type ∷ encode_fields fs) ++ rest),
        decode_value_type-tag f.value_type,
        decode_fields-encode_fields fs rest hfs,
      )
      refl
