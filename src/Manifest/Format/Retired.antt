-- ===== src/Manifest/Format/Retired.antt =====
-- core/src/manifest/format.rs and format_decode.rs: the tables of a manifest are read back, when their
-- retired series are not too many.
use litesdb.Base.{
  ℕ, ◌*◌, ◌≤◌, ◌<◌, ◌^◌, ◌≡◌, refl, arith, ltb, true, List, [], ◌∷◌, ◌++◌, append_assoc, length,
  length-append, All, Option, none, some, String,
}
use litesdb.Base.{err, resource_exhausted, ok, ◌>>=◌}
use litesdb.Base.Int.{ℤ}
use litesdb.Base.Bytes.{length-to_le_bytes}
use litesdb.Base.Cursor.{put_u32, read_le-to_le_bytes}
use litesdb.Base.Loops.{
  put_all, read_many, ReadsBack, read_many-put_all, length-put_all, put_all_wide,
}
use litesdb.Limits.{max_logical_streams}
use litesdb.Types.Schema.{TableVersion, Validity, duration_seconds, forever}
use litesdb.Manifest.Catalog.{TableCatalog, SeriesRetirement, FieldRetirement, restore_table}
use litesdb.Manifest.Format.Encode.{
  put_option_i64, put_validity, put_field, put_series, put_retired_field, encode_table,
}
use litesdb.Manifest.Format.Decode.{
  manifest_context, read_count, decode_version, read_series, read_retired_field, decode_table,
}
use litesdb.Manifest.Format.Fields.{
  read_count-put_u32, read_option_i64-put_option_i64, read_series-put_series,
  read_retired_field-put_retired_field,
}
use litesdb.Manifest.Format.Version.{IsVersion, version_bytes, decode_version-version_bytes}
use litesdb.Manifest.Format.Table.{
  IsSeries, IsRetired, IsTyped, table_bytes, encode_table_ok, length-put_series,
  length-put_retired_field,
}

versions_back :
    (vs : List TableVersion) → All IsVersion vs → All (ReadsBack decode_version version_bytes) vs
versions_back [] h = tt
versions_back (v ∷ vs) (h, hs) = (decode_version-version_bytes v h, versions_back vs hs)

series_back :
    (rs : List SeriesRetirement) → All IsSeries rs → All (ReadsBack read_series put_series) rs
series_back [] h = tt
series_back (r ∷ rs) ((h, g), hs) = (read_series-put_series r h g, series_back rs hs)

retired_back :
    (rs : List FieldRetirement)
    → All IsRetired rs
    → All (ReadsBack read_retired_field put_retired_field) rs
retired_back [] h = tt
retired_back (r ∷ rs) ((h, g), hs) =
    (read_retired_field-put_retired_field r h g, retired_back rs hs)

option_wide : (v : Option ℤ) → 1 ≤ length (put_option_i64 v)
unfolding put_option_i64
option_wide none = omega arith
option_wide (some v) = omega arith

validity_wide : (v : Validity) → 1 ≤ length (put_validity v)
unfolding put_validity
validity_wide (duration_seconds n) = omega arith
validity_wide forever = omega arith

version_wide : (v : TableVersion) → 10 ≤ length (version_bytes v)
version_wide v =
    let e = put_u32 (length v.fields) ++ put_all put_field v.fields in
    let d = put_option_i64 v.effective_from ++ e in
    let c = put_validity v.validity ++ d in
    omega (
      arith,
      length-append (put_u32 v.version_no) c,
      length-append (put_validity v.validity) d,
      length-append (put_option_i64 v.effective_from) e,
      length-append (put_u32 (length v.fields)) (put_all put_field v.fields),
      length-to_le_bytes 4 v.version_no,
      length-to_le_bytes 4 (length v.fields),
      option_wide v.effective_from,
      validity_wide v.validity,
    )

pub table_wide : (t : TableCatalog) → 17 ≤ length (table_bytes t)
table_wide t =
    let h = put_all put_retired_field t.retired_fields in
    let g = put_u32 (length t.retired_fields) ++ h in
    let f = put_all put_series t.retired_series ++ g in
    let e = put_u32 (length t.retired_series) ++ f in
    let d = put_all version_bytes t.versions ++ e in
    let c = put_u32 (length t.versions) ++ d in
    omega (
      arith,
      length-append (put_u32 t.table) (put_option_i64 t.last_ts ++ c),
      length-append (put_option_i64 t.last_ts) c,
      length-append (put_u32 (length t.versions)) d,
      length-append (put_all version_bytes t.versions) e,
      length-append (put_u32 (length t.retired_series)) f,
      length-append (put_all put_series t.retired_series) g,
      length-append (put_u32 (length t.retired_fields)) h,
      length-to_le_bytes 4 t.table,
      length-to_le_bytes 4 (length t.versions),
      length-to_le_bytes 4 (length t.retired_series),
      length-to_le_bytes 4 (length t.retired_fields),
      option_wide t.last_ts,
    )

table_assoc :
    (a b c d e f g h rest : List ℕ)
    → (a ++ (b ++ (c ++ (d ++ (e ++ (f ++ (g ++ h))))))) ++ rest
      ≡ a ++ (b ++ (c ++ (d ++ (e ++ (f ++ (g ++ (h ++ rest)))))))
table_assoc a b c d e f g h rest = simp append_assoc

-- What is left behind the versions of a table.
abbrev after_versions : TableCatalog → List ℕ → List ℕ
after_versions t rest =
    put_u32 (length t.retired_series)
    ++ (put_all put_series t.retired_series
        ++ (put_u32 (length t.retired_fields)
            ++ (put_all put_retired_field t.retired_fields ++ rest)))

versions_read :
    (t : TableCatalog) (rest : List ℕ)
    → IsTyped t
    → decode_table (table_bytes t ++ rest) ≡ (do
      (series_count, c₅) ←
          read_count max_logical_streams 16 "retired_series" (after_versions t rest)
      (retired_series, c₆) ← read_many read_series series_count c₅
      (field_count, c₇) ← read_count max_logical_streams 10 "retired_fields" c₆
      (retired_fields, c₈) ← read_many read_retired_field field_count c₇
      catalog ← restore_table t.table t.last_ts t.versions retired_series retired_fields
      ok (catalog, c₈))
unfolding decode_table
versions_read t rest is =
    let versions = put_all version_bytes t.versions in
    let c₃ = versions ++ after_versions t rest in
    let c₂ = put_u32 (length t.versions) ++ c₃ in
    let long : length t.versions * 10 ≤ length c₃ = omega (
      arith,
      length-append versions (after_versions t rest),
      put_all_wide version_bytes 10 t.versions version_wide,
    ) in
    rw
      (
        table_assoc (put_u32 t.table) (put_option_i64 t.last_ts) (put_u32 (length t.versions))
            versions (put_u32 (length t.retired_series)) (put_all put_series t.retired_series)
            (put_u32 (length t.retired_fields)) (put_all put_retired_field t.retired_fields) rest,
        read_le-to_le_bytes manifest_context 4 t.table is.table_small
            (put_option_i64 t.last_ts ++ c₂),
        read_option_i64-put_option_i64 t.last_ts c₂ is.last_is,
        read_count-put_u32 max_logical_streams 10 "table_versions" (length t.versions) c₃
            (omega (arith, is.few_versions)) is.few_versions (omega (arith, is.few_versions)) long,
        read_many-put_all decode_version version_bytes t.versions (after_versions t rest)
            (versions_back t.versions is.versions_are),
      )
      refl

pub decode_table-table_bytes :
    (t : TableCatalog)
    → IsTyped t
    → length t.retired_series ≤ max_logical_streams
    → ReadsBack decode_table table_bytes t
decode_table-table_bytes t is few rest =
    let fields = put_all put_retired_field t.retired_fields in
    let series = put_all put_series t.retired_series in
    let c₆ = put_u32 (length t.retired_fields) ++ (fields ++ rest) in
    let long_series : length t.retired_series * 16 ≤ length (series ++ c₆) = omega (
      arith,
      length-append series c₆,
      length-put_all put_series 16 t.retired_series length-put_series,
    ) in
    let long_fields : length t.retired_fields * 10 ≤ length (fields ++ rest) = omega (
      arith,
      length-append fields rest,
      length-put_all put_retired_field 10 t.retired_fields length-put_retired_field,
    ) in
    rw
      (
        versions_read t rest is,
        read_count-put_u32 max_logical_streams 16 "retired_series" (length t.retired_series)
            (series ++ c₆) is.series_countable few (omega arith) long_series,
        read_many-put_all read_series put_series t.retired_series c₆
            (series_back t.retired_series is.series_are),
        read_count-put_u32 max_logical_streams 10 "retired_fields" (length t.retired_fields)
            (fields ++ rest) (omega (arith, is.few_fields)) is.few_fields
            (omega (arith, is.few_fields)) long_fields,
        read_many-put_all read_retired_field put_retired_field t.retired_fields rest
            (retired_back t.retired_fields is.fields_are),
        is.made,
      )
      refl

too_many :
    (maximum width : ℕ) (name : String) (count : ℕ) (rest : List ℕ)
    → count < 2 ^ 32
    → maximum < count
    → read_count maximum width name (put_u32 count ++ rest)
      ≡ err (resource_exhausted name count maximum)
unfolding read_count
too_many maximum width name count rest small many =
    let a : ltb maximum count ≡ true = ground arith in
    rw (read_le-to_le_bytes manifest_context 4 count small rest, a) refl

-- Retired series can be written and not read: a table of the types of the source that its
-- constructor made is encoded when its retired series can be counted by a `u32`, but when they are
-- more than the limit of streams, decoding its bytes fails with the error of that limit, whatever
-- follows.
pub decode_table-too_many :
    (t : TableCatalog) (rest : List ℕ)
    → IsTyped t
    → max_logical_streams < length t.retired_series
    → (bytes : List ℕ) × (encode_table t ≡ ok bytes)
      × (decode_table (bytes ++ rest)
          ≡ err (resource_exhausted "retired_series" (length t.retired_series) max_logical_streams))
decode_table-too_many t rest is many = (
  table_bytes t,
  encode_table_ok t is,
  rw
      (
        versions_read t rest is,
        too_many max_logical_streams 16 "retired_series" (length t.retired_series)
            (put_all put_series t.retired_series
              ++ (put_u32 (length t.retired_fields)
                  ++ (put_all put_retired_field t.retired_fields ++ rest)))
            is.series_countable many,
      )
      refl,
)
