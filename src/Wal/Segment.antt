-- ===== src/Wal/Segment.antt =====
-- core/src/wal/segment.rs: the header of a segment of the log. Names of files are not modelled.
use litesdb.Base.{
  ℕ, ◌≤◌, ◌<◌, ◌^◌, ◌==◌, not, ltb, ◌≡◌, ◌↔◌, refl, sym, arith, true, false, List, [], ◌∷◌, ◌++◌,
  append_assoc, append-nil, length, length-append,
}
use litesdb.Base.{Result, ok, Error, ◌>>=◌, ◌>>◌, fail_if, corruption, String}
use litesdb.Base.Bytes.{to_le_bytes, from_le_bytes, length-to_le_bytes}
use litesdb.Base.Cursor.{
  is_bytes, eqb_bytes, put_u16, put_u64, read_at, read_at-to_le_bytes, slice, split_exact,
  tail_from,
}
use litesdb.Wal.Checkpoint.{segment_header_bytes}

pub record SegmentHeader : Type 0 where
  pub first_seq : ℕ
  pub shard_id : ℕ
  pub writer_epoch : ℕ

abbrev in_segment : String → Error
in_segment reason = corruption "WAL segment" reason

-- `LSW1`
abbrev segment_magic : List ℕ
segment_magic = 0x4c ∷ 0x53 ∷ 0x57 ∷ 0x31 ∷ []

-- The two bytes that are not written are zero.
unfoldable pub encode_header : SegmentHeader → List ℕ
encode_header header =
    segment_magic
    ++ (put_u16 1
        ++ (0
            ∷ 0
            ∷ (put_u64 header.first_seq
                ++ (put_u64 header.shard_id ++ put_u64 header.writer_epoch))))

unfoldable pub read_header : List ℕ → Result SegmentHeader
read_header bytes = do
  first_seq ← read_at (in_segment "truncated u64") 8 8 bytes
  shard_id ← read_at (in_segment "truncated u64") 8 16 bytes
  writer_epoch ← read_at (in_segment "truncated u64") 8 24 bytes
  ok (record { first_seq = first_seq; shard_id = shard_id; writer_epoch = writer_epoch })

unfoldable pub decode_header : List ℕ → ℕ → ℕ → ℕ → Result SegmentHeader
decode_header bytes name_first_seq expected_shard_id maximum_writer_epoch = do
  fail_if (not (length bytes == segment_header_bytes)) (in_segment "header length is not 32")
  fail_if (not (is_bytes segment_magic (slice 0 4 bytes))) (in_segment "magic mismatch")
  version ← read_at (in_segment "truncated u16") 2 4 bytes
  fail_if (not (version == 1)) (in_segment "format version mismatch")
  reserved ← read_at (in_segment "truncated u16") 2 6 bytes
  fail_if (not (reserved == 0)) (in_segment "reserved field is nonzero")
  header ← read_header bytes
  fail_if (not (header.first_seq == name_first_seq))
      (in_segment "header sequence differs from file name")
  fail_if (not (header.shard_id == expected_shard_id)) (in_segment "shard identity mismatch")
  fail_if (ltb maximum_writer_epoch header.writer_epoch)
      (in_segment "writer epoch exceeds MANIFEST epoch")
  ok header

-- A header of the types of the source.
pub record IsHeader (header : SegmentHeader) : Type 0 where
  pub first_small : header.first_seq < 2 ^ 64
  pub shard_small : header.shard_id < 2 ^ 64
  pub epoch_small : header.writer_epoch < 2 ^ 64

-- The bytes before the sequence number.
abbrev prelude : List ℕ
prelude = segment_magic ++ (put_u16 1 ++ (0 ∷ 0 ∷ []))

length-prelude : length prelude ≡ 8
unfolding to_le_bytes
length-prelude = refl

header_parts :
    (header : SegmentHeader)
    → encode_header header
      ≡ prelude
        ++ (put_u64 header.first_seq ++ (put_u64 header.shard_id ++ put_u64 header.writer_epoch))
unfolding encode_header to_le_bytes
header_parts header = refl

length-encode_header :
    (header : SegmentHeader) → length (encode_header header) ≡ segment_header_bytes
length-encode_header h =
    let e = put_u64 h.writer_epoch in
    let d = put_u64 h.shard_id ++ e in
    rw (header_parts h) (
      omega (
        arith,
        length-prelude,
        length-append prelude (put_u64 h.first_seq ++ d),
        length-append (put_u64 h.first_seq) d,
        length-append (put_u64 h.shard_id) e,
        length-to_le_bytes 8 h.first_seq,
        length-to_le_bytes 8 h.shard_id,
        length-to_le_bytes 8 h.writer_epoch,
      ))

read_prelude :
    (header : SegmentHeader)
    → (is_bytes segment_magic (slice 0 4 (encode_header header)) ≡ true)
      × (read_at (in_segment "truncated u16") 2 4 (encode_header header) ≡ ok 1)
      × (read_at (in_segment "truncated u16") 2 6 (encode_header header) ≡ ok 0)
unfolding encode_header to_le_bytes is_bytes eqb_bytes slice tail_from split_exact read_at
    from_le_bytes
read_prelude header = (refl, refl, refl)

read_header-encode_header :
    (header : SegmentHeader) → IsHeader header → read_header (encode_header header) ≡ ok header
unfolding read_header
read_header-encode_header h is =
    let e = in_segment "truncated u64" in
    let a = put_u64 h.first_seq in
    let b = put_u64 h.shard_id in
    let c = put_u64 h.writer_epoch in
    let whole = header_parts h in
    let first =
      read_at-to_le_bytes e 8 8 h.first_seq prelude (b ++ c) is.first_small length-prelude in
    let long : length (prelude ++ a) ≡ 16 =
      omega (arith, length-prelude, length-append prelude a, length-to_le_bytes 8 h.first_seq) in
    let shard = read_at-to_le_bytes e 8 16 h.shard_id (prelude ++ a) c is.shard_small long in
    let longer : length ((prelude ++ a) ++ b) ≡ 24 =
      omega (arith, length-append (prelude ++ a) b, length-to_le_bytes 8 h.shard_id) in
    let epoch =
      read_at-to_le_bytes e 8 24 h.writer_epoch ((prelude ++ a) ++ b) [] is.epoch_small longer in
    let at_first : read_at e 8 8 (encode_header h) ≡ ok h.first_seq = rw whole first in
    let at_shard : read_at e 8 16 (encode_header h) ≡ ok h.shard_id =
      rw (whole, sym (append_assoc prelude a (b ++ c))) shard in
    let at_epoch : read_at e 8 24 (encode_header h) ≡ ok h.writer_epoch =
      rw (whole, sym (append_assoc prelude a (b ++ c)), sym (append_assoc (prelude ++ a) b c))
        (rw append-nil at epoch) in
    rw (at_first, at_shard, at_epoch) refl

-- What the identity tests say of a header that was read.
abbrev pub Fits : SegmentHeader → ℕ → ℕ → ℕ → Type 0
Fits header name_first_seq expected_shard_id maximum_writer_epoch =
    (header.first_seq ≡ name_first_seq)
    × (header.shard_id ≡ expected_shard_id)
    × (header.writer_epoch ≤ maximum_writer_epoch)

identity_iff :
    (header : SegmentHeader) (name shard epoch : ℕ)
    → ((do
      fail_if (not (header.first_seq == name)) (in_segment "header sequence differs from file name")
      fail_if (not (header.shard_id == shard)) (in_segment "shard identity mismatch")
      fail_if (ltb epoch header.writer_epoch) (in_segment "writer epoch exceeds MANIFEST epoch")
      ok header)
        ≡ ok header)
      ↔ Fits header name shard epoch
identity_iff header name shard epoch = ground arith

-- A written header is accepted just where it belongs: a header of the types of the source is
-- encoded in 32 bytes, and decoding them gives the header exactly when the sequence number is that
-- of the name, the shard is the expected one and the writer epoch is at most that of the manifest.
pub decode_header-encode_header :
    (header : SegmentHeader) (name_first_seq expected_shard_id maximum_writer_epoch : ℕ)
    → IsHeader header
    → (length (encode_header header) ≡ segment_header_bytes)
      × ((decode_header (encode_header header) name_first_seq expected_shard_id maximum_writer_epoch
            ≡ ok header)
          ↔ Fits header name_first_seq expected_shard_id maximum_writer_epoch)
unfolding decode_header
decode_header-encode_header header name shard epoch is =
    let long = length-encode_header header in
    let (magic, version, reserved) = read_prelude header in
    let exact : not (length (encode_header header) == segment_header_bytes) ≡ false =
      ground (arith, long) in
    (
      long,
      rw (exact, magic, version, reserved, read_header-encode_header header is)
          (identity_iff header name shard epoch),
    )
