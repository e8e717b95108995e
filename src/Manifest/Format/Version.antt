-- ===== src/Manifest/Format/Version.antt =====
-- core/src/manifest/format.rs and format_decode.rs: the versions and tables of a manifest are
-- read back.
use litesdb.Base.{
  ℕ, ◌*◌, ◌≤◌, ◌<◌, ◌^◌, ◌≡◌, refl, arith, List, [], ◌∷◌, ◌++◌, append_assoc, length, length-append,
  All,
}
use litesdb.Base.{ok}
use litesdb.Base.Bytes.{length-to_le_bytes}
use litesdb.Base.Cursor.{put_u16, put_u32, read_le-to_le_bytes}
use litesdb.Base.Loops.{put_all, ReadsBack, read_many-put_all, length-put_all}
use litesdb.Limits.{max_logical_streams}
use litesdb.Types.Value.{tag}
use litesdb.Types.Schema.{IsValidity, FieldSchema, TableVersion, restore_version}
use litesdb.Manifest.Format.Encode.{put_option_i64, put_validity, put_field, encode_version}
use litesdb.Manifest.Format.Decode.{manifest_context, read_field, decode_version}
use litesdb.Manifest.Format.Fields.{
  IsOptionI64, put_count_ok, read_count-put_u32, read_option_i64-put_option_i64,
  read_validity-put_validity, read_field-put_field,
}

-- The bytes of a version whose fields can be counted.
abbrev pub version_bytes : TableVersion → List ℕ
version_bytes v =
    put_u32 v.version_no
    ++ (put_validity v.validity
        ++ (put_option_i64 v.effective_from
            ++ (put_u32 (length v.fields) ++ put_all put_field v.fields)))

-- A version of the types of the source, as its constructor returns it.
pub record IsVersion (v : TableVersion) : Type 0 where
  pub no_small : v.version_no < 2 ^ 32
  pub validity_is : IsValidity v.validity
  pub effective_is : IsOptionI64 v.effective_from
  pub few_fields : length v.fields ≤ max_logical_streams
  pub fields_small : All (λ f. f.field < 2 ^ 16) v.fields
  pub made : restore_version v.version_no v.validity v.fields v.effective_from ≡ ok v

pub encode_version_ok : (v : TableVersion) → IsVersion v → encode_version v ≡ ok (version_bytes v)
unfolding encode_version
encode_version_ok v is =
    rw (put_count_ok (length v.fields) "fields" (omega (arith, is.few_fields))) refl

pub length-put_field : (f : FieldSchema) → length (put_field f) ≡ 3
unfolding put_field
length-put_field f =
    omega
      (arith, length-append (put_u16 f.field) (tag f.value_type ∷ []), length-to_le_bytes 2 f.field)

fields_back :
    (fs : List FieldSchema)
    → All (λ f. f.field < 2 ^ 16) fs
    → All (ReadsBack read_field put_field) fs
fields_back [] h = tt
fields_back (f ∷ fs) (h, hs) = (read_field-put_field f h, fields_back fs hs)

version_assoc :
    (a b c d e rest : List ℕ)
    → (a ++ (b ++ (c ++ (d ++ e)))) ++ rest ≡ a ++ (b ++ (c ++ (d ++ (e ++ rest))))
version_assoc a b c d e rest = simp append_assoc

pub decode_version-version_bytes :
    (v : TableVersion) → IsVersion v → ReadsBack decode_version version_bytes v
unfolding decode_version
decode_version-version_bytes v is rest =
    let fields = put_all put_field v.fields in
    let c₄ = put_u32 (length v.fields) ++ (fields ++ rest) in
    let c₃ = put_option_i64 v.effective_from ++ c₄ in
    let long : length v.fields * 3 ≤ length (fields ++ rest) =
      omega
        (arith, length-append fields rest, length-put_all put_field 3 v.fields length-put_field) in
    rw
      (
        version_assoc (put_u32 v.version_no) (put_validity v.validity)
            (put_option_i64 v.effective_from) (put_u32 (length v.fields)) fields rest,
        read_le-to_le_bytes manifest_context 4 v.version_no is.no_small
            (put_validity v.validity ++ c₃),
        read_validity-put_validity v.validity c₃ is.validity_is,
        read_option_i64-put_option_i64 v.effective_from c₄ is.effective_is,
        read_count-put_u32 max_logical_streams 3 "fields" (length v.fields) (fields ++ rest)
            (omega (arith, is.few_fields)) is.few_fields (omega (arith, is.few_fields)) long,
        read_many-put_all read_field put_field v.fields rest (fields_back v.fields is.fields_small),
        is.made,
      )
      refl
