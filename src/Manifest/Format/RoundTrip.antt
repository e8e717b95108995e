-- ===== src/Manifest/Format/RoundTrip.antt =====
-- core/src/manifest/format.rs and format_decode.rs: the body of a manifest is read back.
use litesdb.Base.{
  ℕ, ◌*◌, ◌≤◌, ◌<◌, ◌^◌, ◌==◌, not, ◌≡◌, refl, arith, false, List, [], ◌∷◌, ◌++◌, append-nil,
  length, length-append, All,
}
use litesdb.Base.{ok}
use litesdb.Base.Cursor.{put_u32, put_u64, read_le-to_le_bytes}
use litesdb.Base.Loops.{
  put_all, encode_each-put_all, ReadsBack, read_many-put_all, length-put_all, put_all_wide,
}
use litesdb.Limits.{max_tables, max_live_units, max_logical_streams}
use litesdb.Wal.Checkpoint.{Checkpoint, new_checkpoint}
use litesdb.Manifest.Catalog.{Manifest, ManifestIdentity, TableCatalog, UnitMeta}
use litesdb.Manifest.Valid.{IsManifest}
use litesdb.Manifest.Restore.{restore_manifest_ok}
use litesdb.Manifest.Format.Encode.{
  put_option_i64, put_option_u64, put_unit, encode_table, encode_body,
}
use litesdb.Manifest.Format.Decode.{
  manifest_context, decode_table, read_unit, read_checkpoint, read_identity, decode_body,
}
use litesdb.Manifest.Format.Fields.{
  IsOptionI64, IsOptionU64, IsUnit, put_count_ok, read_count-put_u32,
  read_option_i64-put_option_i64, read_option_u64-put_option_u64, read_unit-put_unit,
}
use litesdb.Manifest.Format.Table.{IsTyped, table_bytes, encode_table_ok}
use litesdb.Manifest.Format.Retired.{table_wide, decode_table-table_bytes}
use litesdb.Manifest.Format.Lengths.{body_bytes, length-put_unit}

abbrev pub IsReadable : TableCatalog → Type 0
IsReadable t = IsTyped t × (length t.retired_series ≤ max_logical_streams)

pub record IsIdentity (i : ManifestIdentity) : Type 0 where
  pub generation_small : i.generation < 2 ^ 64
  pub units_small : i.unit_high_water < 2 ^ 64
  pub tables_small : i.table_high_water < 2 ^ 32
  pub shard_small : i.shard_id < 2 ^ 64
  pub epoch_small : i.writer_epoch < 2 ^ 64

pub record IsCheckpoint (c : Checkpoint) : Type 0 where
  pub segment_small : c.segment_first_seq < 2 ^ 64
  pub offset_small : c.offset < 2 ^ 64
  pub next_small : c.next_seq < 2 ^ 64
  pub made : new_checkpoint c.segment_first_seq c.offset c.next_seq ≡ ok c

-- A well-formed manifest of the types of the source, with parts that their constructors made and
-- no more retired series in a table than can be read.
pub record IsStored (m : Manifest) : Type 0 where
  pub valid : IsManifest m
  pub identity_is : IsIdentity m.identity
  pub checkpoint_is : IsCheckpoint m.checkpoint
  pub floor_is : IsOptionI64 m.retention.floor
  pub heads_are : IsOptionU64 m.retention.heads_generation
  pub tables_are : All IsReadable m.tables
  pub units_are : All IsUnit m.units

tables_written :
    (ts : List TableCatalog) → All IsReadable ts → All (λ t. encode_table t ≡ ok (table_bytes t)) ts
tables_written [] h = tt
tables_written (t ∷ ts) ((h, few), hs) = (encode_table_ok t h, tables_written ts hs)

tables_back :
    (ts : List TableCatalog) → All IsReadable ts → All (ReadsBack decode_table table_bytes) ts
tables_back [] h = tt
tables_back (t ∷ ts) ((h, few), hs) = (decode_table-table_bytes t h few, tables_back ts hs)

units_back : (us : List UnitMeta) → All IsUnit us → All (ReadsBack read_unit put_unit) us
units_back [] h = tt
units_back (u ∷ us) (h, hs) = (read_unit-put_unit u h, units_back us hs)

pub encode_body_ok : (m : Manifest) → IsStored m → encode_body m ≡ ok (body_bytes m)
unfolding encode_body
encode_body_ok m is =
    rw
      (
        put_count_ok (length m.tables) "tables" (omega (arith, is.valid.few_tables)),
        encode_each-put_all encode_table table_bytes m.tables
            (tables_written m.tables is.tables_are),
        put_count_ok (length m.units) "live_units" (omega (arith, is.valid.few_units)),
      )
      refl

read_checkpoint-put_u64 :
    (c : Checkpoint) (rest : List ℕ)
    → IsCheckpoint c
    → read_checkpoint
        (put_u64 c.segment_first_seq ++ (put_u64 c.offset ++ (put_u64 c.next_seq ++ rest)))
      ≡ ok (c, rest)
unfolding read_checkpoint
read_checkpoint-put_u64 c rest is =
    rw
      (
        read_le-to_le_bytes manifest_context 8 c.segment_first_seq is.segment_small
            (put_u64 c.offset ++ (put_u64 c.next_seq ++ rest)),
        read_le-to_le_bytes manifest_context 8 c.offset is.offset_small
            (put_u64 c.next_seq ++ rest),
        read_le-to_le_bytes manifest_context 8 c.next_seq is.next_small rest,
        is.made,
      )
      refl

read_identity-put_u64 :
    (i : ManifestIdentity) (rest : List ℕ)
    → IsIdentity i
    → read_identity i.generation (
        put_u64 i.unit_high_water
        ++ (put_u32 i.table_high_water
            ++ (put_u64 i.generation ++ (put_u64 i.shard_id ++ (put_u64 i.writer_epoch ++ rest)))))
      ≡ ok (i, rest)
unfolding read_identity
read_identity-put_u64 i rest is =
    let c₄ = put_u64 i.writer_epoch ++ rest in
    let c₃ = put_u64 i.shard_id ++ c₄ in
    let c₂ = put_u64 i.generation ++ c₃ in
    let same : not (i.generation == i.generation) ≡ false = ground arith in
    rw
      (
        read_le-to_le_bytes manifest_context 8 i.unit_high_water is.units_small
            (put_u32 i.table_high_water ++ c₂),
        read_le-to_le_bytes manifest_context 4 i.table_high_water is.tables_small c₂,
        read_le-to_le_bytes manifest_context 8 i.generation is.generation_small c₃,
        same,
        read_le-to_le_bytes manifest_context 8 i.shard_id is.shard_small c₄,
        read_le-to_le_bytes manifest_context 8 i.writer_epoch is.epoch_small rest,
      )
      refl

pub decode_body-body_bytes :
    (m : Manifest) → IsStored m → decode_body m.identity.generation (body_bytes m) ≡ ok m
unfolding decode_body
decode_body-body_bytes m is =
    let c = m.checkpoint in
    let i = m.identity in
    let tables = put_all table_bytes m.tables in
    let units = put_all put_unit m.units in
    let c₆ = put_u32 (length m.units) ++ units in
    let c₅ = tables ++ c₆ in
    let c₄ = put_u32 (length m.tables) ++ c₅ in
    let c₃ = put_option_u64 m.retention.heads_generation ++ c₄ in
    let c₂ = put_option_i64 m.retention.floor ++ c₃ in
    let c₁ =
      put_u64 i.unit_high_water
      ++ (put_u32 i.table_high_water
          ++ (put_u64 i.generation ++ (put_u64 i.shard_id ++ (put_u64 i.writer_epoch ++ c₂)))) in
    let few_tables = is.valid.few_tables in
    let few_units = is.valid.few_units in
    let long_tables : length m.tables * 17 ≤ length c₅ =
      omega (arith, length-append tables c₆, put_all_wide table_bytes 17 m.tables table_wide) in
    let long_units : length m.units * 49 ≤ length units =
      omega (arith, length-put_all put_unit 49 m.units length-put_unit) in
    let back = read_many-put_all read_unit put_unit m.units [] (units_back m.units is.units_are) in
    rw
      (
        read_checkpoint-put_u64 c c₁ is.checkpoint_is,
        read_identity-put_u64 i c₂ is.identity_is,
        read_option_i64-put_option_i64 m.retention.floor c₃ is.floor_is,
        read_option_u64-put_option_u64 m.retention.heads_generation c₄ is.heads_are,
        read_count-put_u32 max_tables 17 "tables" (length m.tables) c₅ (omega arith) few_tables
            (omega arith) long_tables,
        read_many-put_all decode_table table_bytes m.tables c₆ (tables_back m.tables is.tables_are),
        read_count-put_u32 max_live_units 49 "live_units" (length m.units) units (omega arith)
            few_units (omega arith) long_units,
        rw append-nil at back,
        restore_manifest_ok m is.valid,
      )
      refl
