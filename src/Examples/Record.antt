-- ===== src/Examples/Record.antt =====
-- The bytes of concrete records.
use litesdb.Base.{
  ℕ, ◌+◌, ◌<◌, ◌%◌, ◌^◌, ◌≡◌, refl, arith, List, [], ◌∷◌, ◌++◌, ok, err, IsErr, Option, some,
  length,
}
use litesdb.Base.Int.{pos, checked_add}
use litesdb.Types.Value.{TableId, FieldId, ValueType, u_int, u_int_value}
use litesdb.Types.Observation.{Observation, one, entries_of, new_observation, store_entries}
use litesdb.Base.Bytes.{to_le_bytes}
use litesdb.Limits.{ensure_at_most, maximum}
use litesdb.Wal.Record.{RecordBody, append_observation}
use litesdb.Wal.Record.Encode.{
  measure_payload, measure_entries, measure_body, add_length, value_len, encode_record, frame_of,
  record_crc,
}
use litesdb.Wal.Record.Decode.{decode_record, inspect, in_record}
use litesdb.Wal.Record.RoundTrip.{IsBody}
use litesdb.Wal.Record.Frame.{decode_record-encode_record, decode_record-other}
use litesdb.Wal.Record.Torn.{inspect-torn}

-- A checksum.
abbrev pub checksum : List ℕ → ℕ
checksum [] = 0
checksum (b ∷ bs) = (b + checksum bs) % 2 ^ 32

pub checksum_small : (bytes : List ℕ) → checksum bytes < 2 ^ 32
checksum_small [] = omega arith
checksum_small (b ∷ bs) = omega arith

abbrev pub observation : Observation
observation = record {
  timestamp = pos 50;
  stored = one (record { series = 8; field = 3; value = u_int_value 21 });
}

abbrev pub body : RecordBody
body = append_observation 1 observation

abbrev field_type : TableId → FieldId → Option ValueType
field_type table field = some u_int

body-IsBody : IsBody field_type body
unfolding entries_of new_observation store_entries
body-IsBody = (
  omega arith,
  ((omega arith, omega arith), ((omega arith, omega arith, (u_int, refl, omega arith)), tt), refl),
)

pub measured : measure_payload body ≡ ok 36
unfolding measure_payload measure_body measure_entries add_length value_len checked_add entries_of
    ensure_at_most maximum
measured = refl

decode_record-encode_record_example :
    (frame : List ℕ) × (encode_record checksum 7 body ≡ ok frame)
    × (length frame ≡ 52)
    × (decode_record checksum field_type frame 7 ≡ ok (record { seq = 7; body = body }))
decode_record-encode_record_example =
    decode_record-encode_record checksum checksum_small field_type 7 36 body (omega arith)
      body-IsBody measured

decode_record-other_example :
    (frame : List ℕ) × (encode_record checksum 7 body ≡ ok frame)
    × (decode_record checksum field_type frame 8 ≡ err (in_record "sequence is not continuous"))
decode_record-other_example =
    decode_record-other checksum checksum_small field_type 7 36 8 body (omega arith) measured
      (omega arith)

-- The frame of a payload of one byte, without that byte.
abbrev pub torn : List ℕ
torn = 1 ∷ 0 ∷ 0 ∷ 0 ∷ 7 ∷ 0 ∷ 0 ∷ 0 ∷ 0 ∷ 0 ∷ 0 ∷ 0 ∷ 17 ∷ 0 ∷ 0 ∷ 0 ∷ []

pub torn_split : frame_of checksum 1 7 (9 ∷ []) ≡ torn ++ (9 ∷ [])
unfolding frame_of record_crc to_le_bytes
torn_split = refl

inspect-torn_example : IsErr (inspect checksum torn)
inspect-torn_example =
    inspect-torn checksum checksum_small 1 7 (9 ∷ []) torn (9 ∷ []) refl (omega arith) (omega arith)
      torn_split (omega arith)
