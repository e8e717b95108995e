-- ===== src/Manifest/Format/Lengths.antt =====
-- core/src/manifest/format.rs: the lengths of the parts of a manifest.
use litesdb.Base.{
  ℕ, ◌+◌, ◌*◌, ◌≡◌, refl, arith, List, ◌∷◌, ◌++◌, length, length-append, Option, none, some,
  is_some, if◌then◌else◌,
}
use litesdb.Base.{ok, >>=-eq-ok, ok_or, ok_or-eq_ok}
use litesdb.Base.Int.{ℤ, checked_add, checked_mul}
use litesdb.Base.Bytes.{i64_bits, length-to_le_bytes}
use litesdb.Base.Cursor.{put_u32, put_u64, put_i64}
use litesdb.Base.Loops.{put_all, length-put_all}
use litesdb.Types.Schema.{TableVersion, Validity, duration, duration_seconds, forever}
use litesdb.Manifest.Catalog.{Manifest, TableCatalog, UnitMeta}
use litesdb.Manifest.Format.Encode.{
  add_size, add_items, option_width, put_option_i64, put_option_u64, put_validity, put_field,
  put_series, put_retired_field, put_unit,
}
use litesdb.Manifest.Format.Version.{version_bytes, length-put_field}
use litesdb.Manifest.Format.Table.{table_bytes, length-put_series, length-put_retired_field}

-- The bytes of a body whose parts can be counted.
abbrev pub body_bytes : Manifest → List ℕ
body_bytes m =
    put_u64 m.checkpoint.segment_first_seq
    ++ (put_u64 m.checkpoint.offset
        ++ (put_u64 m.checkpoint.next_seq
            ++ (put_u64 m.identity.unit_high_water
                ++ (put_u32 m.identity.table_high_water
                    ++ (put_u64 m.identity.generation
                        ++ (put_u64 m.identity.shard_id
                            ++ (put_u64 m.identity.writer_epoch
                                ++ (put_option_i64 m.retention.floor
                                    ++ (put_option_u64 m.retention.heads_generation
                                        ++ (put_u32 (length m.tables)
                                            ++ (put_all table_bytes m.tables
                                                ++ (put_u32 (length m.units)
                                                    ++ put_all put_unit m.units))))))))))))

pub add_size_inv : (a b : ℕ) {c : ℕ} → add_size a b ≡ ok c → c ≡ a + b
unfolding add_size checked_add
add_size_inv a b h = ground arith

pub times_of : (a b : ℕ) {c : ℕ} → checked_mul 64 a b ≡ some c → c ≡ a * b
unfolding checked_mul
times_of a b h = ground arith

pub add_items_inv :
    (size count width : ℕ) {n : ℕ} → add_items size count width ≡ ok n → n ≡ size + count * width
unfolding add_items
add_items_inv size count width h =
    let (bytes, b, h₁) = >>=-eq-ok (ok_or (checked_mul 64 count width) _) _ h in
    omega (arith, times_of count width (ok_or-eq_ok _ _ b), add_size_inv size bytes h₁)

pub length-put_option_i64 : (v : Option ℤ) → length (put_option_i64 v) ≡ option_width (is_some v)
unfolding put_option_i64 option_width
length-put_option_i64 none = refl
length-put_option_i64 (some v) = omega (arith, length-to_le_bytes 8 (i64_bits v))

pub length-put_option_u64 : (v : Option ℕ) → length (put_option_u64 v) ≡ option_width (is_some v)
unfolding put_option_u64 option_width
length-put_option_u64 none = refl
length-put_option_u64 (some v) = omega (arith, length-to_le_bytes 8 v)

pub length-put_validity :
    (v : Validity) → length (put_validity v) ≡ (if is_some (duration v) then 5 else 1)
unfolding put_validity duration
length-put_validity (duration_seconds n) = omega (arith, length-to_le_bytes 4 n)
length-put_validity forever = refl

pub length-put_unit : (u : UnitMeta) → length (put_unit u) ≡ 49
unfolding put_unit
length-put_unit u =
    let f = put_u64 u.file_len ++ put_u32 u.body_crc32 in
    let e = put_u64 u.total_rows ++ f in
    let d = put_u32 u.section_count ++ e in
    let c = put_i64 u.max_ts ++ d in
    let b = put_i64 u.min_ts ++ c in
    omega (
      arith,
      length-append (put_u64 u.unit_id) (u.level ∷ b),
      length-append (put_i64 u.min_ts) c,
      length-append (put_i64 u.max_ts) d,
      length-append (put_u32 u.section_count) e,
      length-append (put_u64 u.total_rows) f,
      length-append (put_u64 u.file_len) (put_u32 u.body_crc32),
      length-to_le_bytes 8 u.unit_id,
      length-to_le_bytes 8 (i64_bits u.min_ts),
      length-to_le_bytes 8 (i64_bits u.max_ts),
      length-to_le_bytes 4 u.section_count,
      length-to_le_bytes 8 u.total_rows,
      length-to_le_bytes 8 u.file_len,
      length-to_le_bytes 4 u.body_crc32,
    )

pub with_u32 : (v : ℕ) (rest : List ℕ) → length (put_u32 v ++ rest) ≡ 4 + length rest
with_u32 v rest = omega (arith, length-append (put_u32 v) rest, length-to_le_bytes 4 v)

pub with_u64 : (v : ℕ) (rest : List ℕ) → length (put_u64 v ++ rest) ≡ 8 + length rest
with_u64 v rest = omega (arith, length-append (put_u64 v) rest, length-to_le_bytes 8 v)

pub version_length :
    (v : TableVersion)
    → length (version_bytes v)
      ≡ 8
        + (if is_some (duration v.validity) then 5 else 1)
        + option_width (is_some v.effective_from)
        + length v.fields * 3
version_length v =
    let fields = put_all put_field v.fields in
    let d = put_u32 (length v.fields) ++ fields in
    let c = put_option_i64 v.effective_from ++ d in
    omega (
      arith,
      with_u32 v.version_no (put_validity v.validity ++ c),
      length-append (put_validity v.validity) c,
      length-append (put_option_i64 v.effective_from) d,
      with_u32 (length v.fields) fields,
      length-put_all put_field 3 v.fields length-put_field,
      length-put_validity v.validity,
      length-put_option_i64 v.effective_from,
    )

pub table_length :
    (t : TableCatalog)
    → length (table_bytes t)
      ≡ 16
        + option_width (is_some t.last_ts)
        + length (put_all version_bytes t.versions)
        + length t.retired_series * 16
        + length t.retired_fields * 10
table_length t =
    let h = put_all put_retired_field t.retired_fields in
    let g = put_u32 (length t.retired_fields) ++ h in
    let f = put_all put_series t.retired_series ++ g in
    let e = put_u32 (length t.retired_series) ++ f in
    let d = put_all version_bytes t.versions ++ e in
    let c = put_u32 (length t.versions) ++ d in
    omega (
      arith,
      with_u32 t.table (put_option_i64 t.last_ts ++ c),
      length-append (put_option_i64 t.last_ts) c,
      with_u32 (length t.versions) d,
      length-append (put_all version_bytes t.versions) e,
      with_u32 (length t.retired_series) f,
      length-append (put_all put_series t.retired_series) g,
      with_u32 (length t.retired_fields) h,
      length-put_all put_series 16 t.retired_series length-put_series,
      length-put_all put_retired_field 10 t.retired_fields length-put_retired_field,
      length-put_option_i64 t.last_ts,
    )

pub body_length :
    (m : Manifest)
    → length (body_bytes m)
      ≡ 68
        + option_width (is_some m.retention.floor)
        + option_width (is_some m.retention.heads_generation)
        + length (put_all table_bytes m.tables)
        + length m.units * 49
body_length m =
    let c = m.checkpoint in
    let i = m.identity in
    let r₁₂ = put_u32 (length m.units) ++ put_all put_unit m.units in
    let r₁₁ = put_all table_bytes m.tables ++ r₁₂ in
    let r₁₀ = put_u32 (length m.tables) ++ r₁₁ in
    let r₉ = put_option_u64 m.retention.heads_generation ++ r₁₀ in
    let r₈ = put_option_i64 m.retention.floor ++ r₉ in
    let r₇ = put_u64 i.writer_epoch ++ r₈ in
    let r₆ = put_u64 i.shard_id ++ r₇ in
    let r₅ = put_u64 i.generation ++ r₆ in
    let r₄ = put_u32 i.table_high_water ++ r₅ in
    let r₃ = put_u64 i.unit_high_water ++ r₄ in
    let r₂ = put_u64 c.next_seq ++ r₃ in
    let r₁ = put_u64 c.offset ++ r₂ in
    omega (
      arith,
      with_u64 c.segment_first_seq r₁,
      with_u64 c.offset r₂,
      with_u64 c.next_seq r₃,
      with_u64 i.unit_high_water r₄,
      with_u32 i.table_high_water r₅,
      with_u64 i.generation r₆,
      with_u64 i.shard_id r₇,
      with_u64 i.writer_epoch r₈,
      length-append (put_option_i64 m.retention.floor) r₉,
      length-append (put_option_u64 m.retention.heads_generation) r₁₀,
      with_u32 (length m.tables) r₁₁,
      length-append (put_all table_bytes m.tables) r₁₂,
      with_u32 (length m.units) (put_all put_unit m.units),
      length-put_option_i64 m.retention.floor,
      length-put_option_u64 m.retention.heads_generation,
      length-put_all put_unit 49 m.units length-put_unit,
    )
