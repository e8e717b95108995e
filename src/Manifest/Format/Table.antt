-- ===== src/Manifest/Format/Table.antt =====
-- core/src/manifest/format.rs and format_decode.rs: the tables of a manifest are read back.
use litesdb.Base.{
  ℕ, ◌≤◌, ◌<◌, ◌^◌, ◌≡◌, refl, arith, List, [], ◌∷◌, ◌++◌, length, length-append, All,
}
use litesdb.Base.{ok}
use litesdb.Base.Int.{IsI64}
use litesdb.Base.Bytes.{i64_bits, length-to_le_bytes}
use litesdb.Base.Cursor.{put_u16, put_u32, put_u64, put_i64}
use litesdb.Base.Loops.{put_all, encode_each-put_all}
use litesdb.Limits.{max_logical_streams}
use litesdb.Types.Schema.{TableVersion}
use litesdb.Manifest.Catalog.{TableCatalog, SeriesRetirement, FieldRetirement}
use litesdb.Manifest.Tables.{IsCatalog}
use litesdb.Manifest.Format.Encode.{
  put_option_i64, put_series, put_retired_field, encode_version, encode_table,
}
use litesdb.Manifest.Format.Decode.{}
use litesdb.Manifest.Format.Fields.{IsOptionI64, put_count_ok}
use litesdb.Manifest.Format.Version.{IsVersion, version_bytes, encode_version_ok}

-- The bytes of a table whose parts can be counted.
abbrev pub table_bytes : TableCatalog → List ℕ
table_bytes t =
    put_u32 t.table
    ++ (put_option_i64 t.last_ts
        ++ (put_u32 (length t.versions)
            ++ (put_all version_bytes t.versions
                ++ (put_u32 (length t.retired_series)
                    ++ (put_all put_series t.retired_series
                        ++ (put_u32 (length t.retired_fields)
                            ++ put_all put_retired_field t.retired_fields))))))

abbrev pub IsSeries : SeriesRetirement → Type 0
IsSeries r = (r.series < 2 ^ 64) × IsI64 r.retire_ts

abbrev pub IsRetired : FieldRetirement → Type 0
IsRetired r = (r.field < 2 ^ 16) × IsI64 r.retire_ts

-- A table of the types of the source, as its constructor returns it.
pub record IsTyped (t : TableCatalog) : Type 0 where
  pub table_small : t.table < 2 ^ 32
  pub last_is : IsOptionI64 t.last_ts
  pub few_versions : length t.versions ≤ max_logical_streams
  pub versions_are : All IsVersion t.versions
  pub series_countable : length t.retired_series < 2 ^ 32
  pub series_are : All IsSeries t.retired_series
  pub few_fields : length t.retired_fields ≤ max_logical_streams
  pub fields_are : All IsRetired t.retired_fields
  pub made : IsCatalog t

versions_written :
    (vs : List TableVersion)
    → All IsVersion vs
    → All (λ v. encode_version v ≡ ok (version_bytes v)) vs
versions_written [] h = tt
versions_written (v ∷ vs) (h, hs) = (encode_version_ok v h, versions_written vs hs)

pub length-put_series : (r : SeriesRetirement) → length (put_series r) ≡ 16
unfolding put_series
length-put_series r = omega (
  arith,
  length-append (put_u64 r.series) (put_i64 r.retire_ts),
  length-to_le_bytes 8 r.series,
  length-to_le_bytes 8 (i64_bits r.retire_ts),
)

pub length-put_retired_field : (r : FieldRetirement) → length (put_retired_field r) ≡ 10
unfolding put_retired_field
length-put_retired_field r = omega (
  arith,
  length-append (put_u16 r.field) (put_i64 r.retire_ts),
  length-to_le_bytes 2 r.field,
  length-to_le_bytes 8 (i64_bits r.retire_ts),
)

pub encode_table_ok : (t : TableCatalog) → IsTyped t → encode_table t ≡ ok (table_bytes t)
unfolding encode_table
encode_table_ok t is =
    rw
      (
        put_count_ok (length t.versions) "table_versions" (omega (arith, is.few_versions)),
        encode_each-put_all encode_version version_bytes t.versions
            (versions_written t.versions is.versions_are),
        put_count_ok (length t.retired_series) "retired_series" is.series_countable,
        put_count_ok (length t.retired_fields) "retired_fields" (omega (arith, is.few_fields)),
      )
      refl
