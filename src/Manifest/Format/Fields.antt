-- ===== src/Manifest/Format/Fields.antt =====
-- core/src/manifest/format.rs and format_decode.rs: the parts of a manifest are read back.
use litesdb.Base.{
  ℕ, ◌*◌, ◌≤◌, ◌<◌, ◌^◌, ◌≡◌, refl, arith, ltb, List, [], ◌∷◌, ◌++◌, append_assoc, length, Option,
  none, some, String, true, false,
}
use litesdb.Base.{ok}
use litesdb.Base.Int.{ℤ, IsI64, checked_mul, try_from}
use litesdb.Base.Cursor.{
  put_u16, put_u32, put_u64, put_i64, read_u8, read_le-to_le_bytes, read_i64-put_i64,
}
use litesdb.Base.Loops.{ReadsBack}
use litesdb.Types.Value.{ValueType, u_int, sq1, f32_bits, tag}
use litesdb.Types.Schema.{
  IsValidity, new_duration_ok, Validity, FieldSchema, duration_seconds, forever,
}
use litesdb.Manifest.Catalog.{SeriesRetirement, FieldRetirement, UnitMeta, new_unit_meta}
use litesdb.Manifest.Format.Encode.{
  put_count, put_option_i64, put_option_u64, put_validity, put_field, put_series, put_retired_field,
  put_unit,
}
use litesdb.Manifest.Format.Decode.{
  manifest_context, read_count, tagged_i64, read_option_i64, tagged_u64, read_option_u64,
  decode_value_type, read_field, tagged_validity, read_validity, read_series, read_retired_field,
  read_unit,
}

abbrev pub IsOptionI64 : Option ℤ → Type 0
IsOptionI64 none = Unit {0}
IsOptionI64 (some v) = IsI64 v

abbrev pub IsOptionU64 : Option ℕ → Type 0
IsOptionU64 none = Unit {0}
IsOptionU64 (some v) = v < 2 ^ 64

pub put_count_ok :
    (count : ℕ) (name : String) → count < 2 ^ 32 → put_count count name ≡ ok (put_u32 count)
unfolding put_count try_from
put_count_ok count name h = let fits : ltb count (2 ^ 32) ≡ true = ground arith in rw fits refl

pub read_count-put_u32 :
    (maximum width : ℕ) (name : String) (count : ℕ) (rest : List ℕ)
    → count < 2 ^ 32
    → count ≤ maximum
    → count * width < 2 ^ 64
    → count * width ≤ length rest
    → read_count maximum width name (put_u32 count ++ rest) ≡ ok (count, rest)
unfolding read_count checked_mul
read_count-put_u32 maximum width name count rest small few room long =
    let a : ltb maximum count ≡ false = ground arith in
    let b : ltb (count * width) (2 ^ 64) ≡ true = ground arith in
    let c : ltb (length rest) (count * width) ≡ false = ground arith in
    rw (read_le-to_le_bytes manifest_context 4 count small rest, a, b, c) refl

pub read_option_i64-put_option_i64 :
    (value : Option ℤ) (rest : List ℕ)
    → IsOptionI64 value
    → read_option_i64 (put_option_i64 value ++ rest) ≡ ok (value, rest)
unfolding read_option_i64 put_option_i64 tagged_i64 read_u8
read_option_i64-put_option_i64 none rest h = refl
read_option_i64-put_option_i64 (some v) rest h =
    rw (read_i64-put_i64 manifest_context v h rest) refl

pub read_option_u64-put_option_u64 :
    (value : Option ℕ) (rest : List ℕ)
    → IsOptionU64 value
    → read_option_u64 (put_option_u64 value ++ rest) ≡ ok (value, rest)
unfolding read_option_u64 put_option_u64 tagged_u64 read_u8
read_option_u64-put_option_u64 none rest h = refl
read_option_u64-put_option_u64 (some v) rest h =
    rw (read_le-to_le_bytes manifest_context 8 v h rest) refl

pub read_validity-put_validity :
    (v : Validity) (rest : List ℕ)
    → IsValidity v
    → read_validity (put_validity v ++ rest) ≡ ok (v, rest)
unfolding read_validity put_validity tagged_validity read_u8
read_validity-put_validity (duration_seconds n) rest (positive, small) =
    rw (read_le-to_le_bytes manifest_context 4 n small rest, new_duration_ok n positive) refl
read_validity-put_validity forever rest h = refl

decode_value_type-tag : (t : ValueType) → decode_value_type (tag t) ≡ ok t
unfolding decode_value_type tag
decode_value_type-tag u_int = refl
decode_value_type-tag sq1 = refl
decode_value_type-tag f32_bits = refl

pub read_field-put_field : (f : FieldSchema) → f.field < 2 ^ 16 → ReadsBack read_field put_field f
unfolding read_field put_field read_u8
read_field-put_field f h rest =
    rw
      (
        append_assoc (put_u16 f.field) (tag f.value_type ∷ []) rest,
        read_le-to_le_bytes manifest_context 2 f.field h (tag f.value_type ∷ rest),
        decode_value_type-tag f.value_type,
      )
      refl

pub read_series-put_series :
    (r : SeriesRetirement)
    → r.series < 2 ^ 64
    → IsI64 r.retire_ts
    → ReadsBack read_series put_series r
unfolding read_series put_series
read_series-put_series r h g rest =
    rw
      (
        append_assoc (put_u64 r.series) (put_i64 r.retire_ts) rest,
        read_le-to_le_bytes manifest_context 8 r.series h (put_i64 r.retire_ts ++ rest),
        read_i64-put_i64 manifest_context r.retire_ts g rest,
      )
      refl

pub read_retired_field-put_retired_field :
    (r : FieldRetirement)
    → r.field < 2 ^ 16
    → IsI64 r.retire_ts
    → ReadsBack read_retired_field put_retired_field r
unfolding read_retired_field put_retired_field
read_retired_field-put_retired_field r h g rest =
    rw
      (
        append_assoc (put_u16 r.field) (put_i64 r.retire_ts) rest,
        read_le-to_le_bytes manifest_context 2 r.field h (put_i64 r.retire_ts ++ rest),
        read_i64-put_i64 manifest_context r.retire_ts g rest,
      )
      refl

-- A unit of the types of the source, as its constructor returns it.
pub record IsUnit (u : UnitMeta) : Type 0 where
  pub id_small : u.unit_id < 2 ^ 64
  pub min_is : IsI64 u.min_ts
  pub max_is : IsI64 u.max_ts
  pub sections_small : u.section_count < 2 ^ 32
  pub rows_small : u.total_rows < 2 ^ 64
  pub len_small : u.file_len < 2 ^ 64
  pub crc_small : u.body_crc32 < 2 ^ 32
  pub made :
      new_unit_meta u.unit_id u.level u.min_ts u.max_ts u.section_count u.total_rows u.file_len
        u.body_crc32
      ≡ ok u

unit_assoc :
    (a : List ℕ) (l : ℕ) (b c d e f g rest : List ℕ)
    → (a ++ (l ∷ (b ++ (c ++ (d ++ (e ++ (f ++ g))))))) ++ rest
      ≡ a ++ (l ∷ (b ++ (c ++ (d ++ (e ++ (f ++ (g ++ rest)))))))
unit_assoc a l b c d e f g rest = simp append_assoc

pub read_unit-put_unit : (u : UnitMeta) → IsUnit u → ReadsBack read_unit put_unit u
unfolding read_unit put_unit read_u8
read_unit-put_unit u is rest =
    let id = put_u64 u.unit_id in
    let b = put_i64 u.min_ts in
    let c = put_i64 u.max_ts in
    let d = put_u32 u.section_count in
    let e = put_u64 u.total_rows in
    let f = put_u64 u.file_len in
    let g = put_u32 u.body_crc32 in
    let c₆ = f ++ (g ++ rest) in
    let c₅ = e ++ c₆ in
    let c₄ = d ++ c₅ in
    rw
      (
        unit_assoc id u.level b c d e f g rest,
        read_le-to_le_bytes manifest_context 8 u.unit_id is.id_small (u.level ∷ (b ++ (c ++ c₄))),
        read_i64-put_i64 manifest_context u.min_ts is.min_is (c ++ c₄),
        read_i64-put_i64 manifest_context u.max_ts is.max_is c₄,
        read_le-to_le_bytes manifest_context 4 u.section_count is.sections_small c₅,
        read_le-to_le_bytes manifest_context 8 u.total_rows is.rows_small c₆,
        read_le-to_le_bytes manifest_context 8 u.file_len is.len_small (g ++ rest),
        read_le-to_le_bytes manifest_context 4 u.body_crc32 is.crc_small rest,
        is.made,
      )
      refl
