-- ===== src/Manifest/Format/File.antt =====
-- core/src/manifest/format.rs and format_decode.rs: the file of a manifest is read back.
use litesdb.Base.{
  ℕ, ◌+◌, ◌≤◌, ◌<◌, ◌^◌, ◌==◌, not, ◌≡◌, refl, sym, ◌∙◌, arith, true, false, ltb, List, ◌++◌,
  append_assoc, length, length-append, some,
}
use litesdb.Base.{ok}
use litesdb.Base.Int.{checked_add, try_from}
use litesdb.Base.Bytes.{to_le_bytes, from_le_bytes, length-to_le_bytes}
use litesdb.Base.Cursor.{
  is_bytes, eqb_bytes, put_u16, put_u32, put_u64, read_at, read_at-to_le_bytes, slice, split_exact,
  tail_from, tail_from-append,
}
use litesdb.Manifest.Catalog.{Manifest}
use litesdb.Manifest.Format.Encode.{
  manifest_header_bytes, manifest_magic, manifest_format_version, max_manifest_body_bytes,
  measure_body, manifest_file, encode_manifest,
}
use litesdb.Manifest.Format.Decode.{decode_body, decode_manifest}
use litesdb.Manifest.Format.Measure.{measure_body_inv}
use litesdb.Manifest.Format.RoundTrip.{IsStored, encode_body_ok, decode_body-body_bytes}
use litesdb.Manifest.Versions.{in_manifest}
use litesdb.Manifest.Format.Lengths.{body_bytes}

-- The bytes before the generation.
abbrev prelude : List ℕ
prelude = manifest_magic ++ (put_u16 manifest_format_version ++ put_u16 0)

length-prelude : length prelude ≡ 8
unfolding to_le_bytes
length-prelude = refl

three_assoc : (a b c d : List ℕ) → ((a ++ b) ++ c) ++ d ≡ a ++ (b ++ (c ++ d))
three_assoc a b c d = simp append_assoc

module _ (hash : List ℕ → ℕ) (hash_small : (bytes : List ℕ) → hash bytes < 2 ^ 32) where
  length-manifest_file :
      (generation : ℕ) (body : List ℕ)
      → length (manifest_file hash generation body) ≡ manifest_header_bytes + length body
  unfolding manifest_file
  length-manifest_file generation body =
      let d = put_u32 (hash body) ++ body in
      let c = put_u32 (length body) ++ d in
      let b = put_u64 generation ++ c in
      omega (
        arith,
        length-append (put_u16 1) (put_u16 0 ++ b),
        length-append (put_u16 0) b,
        length-append (put_u64 generation) c,
        length-append (put_u32 (length body)) d,
        length-append (put_u32 (hash body)) body,
        length-to_le_bytes 2 1,
        length-to_le_bytes 2 0,
        length-to_le_bytes 8 generation,
        length-to_le_bytes 4 (length body),
        length-to_le_bytes 4 (hash body),
      )

  file_parts :
      (generation : ℕ) (body : List ℕ)
      → manifest_file hash generation body
        ≡ prelude
          ++ (put_u64 generation ++ (put_u32 (length body) ++ (put_u32 (hash body) ++ body)))
  unfolding manifest_file to_le_bytes
  file_parts generation body = refl

  read_prelude :
      (generation : ℕ) (body : List ℕ)
      → (is_bytes manifest_magic (slice 0 4 (manifest_file hash generation body)) ≡ true)
        × (read_at (in_manifest "truncated u16") 2 4 (manifest_file hash generation body) ≡ ok 1)
        × (read_at (in_manifest "truncated u16") 2 6 (manifest_file hash generation body) ≡ ok 0)
  unfolding manifest_file to_le_bytes is_bytes eqb_bytes slice tail_from split_exact read_at
      from_le_bytes
  read_prelude generation body = (refl, refl, refl)

  read_generation :
      (generation : ℕ) (body : List ℕ)
      → generation < 2 ^ 64
      → read_at (in_manifest "truncated u64") 8 8 (manifest_file hash generation body)
        ≡ ok generation
  read_generation generation body h =
      let back = put_u32 (length body) ++ (put_u32 (hash body) ++ body) in
      rw (file_parts generation body) (
        read_at-to_le_bytes (in_manifest "truncated u64") 8 8 generation prelude back h
          length-prelude)

  read_length :
      (generation : ℕ) (body : List ℕ)
      → length body < 2 ^ 32
      → read_at (in_manifest "truncated u32") 4 16 (manifest_file hash generation body)
        ≡ ok (length body)
  read_length generation body h =
      let g = put_u64 generation in
      let back = put_u32 (hash body) ++ body in
      rw (file_parts generation body, sym (append_assoc prelude g (put_u32 (length body) ++ back)))
        (read_at-to_le_bytes (in_manifest "truncated u32") 4 16 (length body) (prelude ++ g) back h
          (omega (arith, length-prelude, length-append prelude g, length-to_le_bytes 8 generation)))

  read_hash :
      (generation : ℕ) (body : List ℕ)
      → read_at (in_manifest "truncated u32") 4 20 (manifest_file hash generation body)
        ≡ ok (hash body)
  read_hash generation body =
      let g = put_u64 generation in
      let n = put_u32 (length body) in
      rw (file_parts generation body, sym (three_assoc prelude g n (put_u32 (hash body) ++ body)))
        (read_at-to_le_bytes (in_manifest "truncated u32") 4 20 (hash body) ((prelude ++ g) ++ n)
          body (hash_small body)
          (omega (
            arith,
            length-append (prelude ++ g) n,
            length-prelude,
            length-append prelude g,
            length-to_le_bytes 8 generation,
            length-to_le_bytes 4 (length body),
          )))

  read_body :
      (generation : ℕ) (body : List ℕ)
      → tail_from manifest_header_bytes (manifest_file hash generation body) ≡ some body
  read_body generation body =
      let g = put_u64 generation in
      let n = put_u32 (length body) in
      let h = put_u32 (hash body) in
      rw
        (
          file_parts generation body,
          sym (three_assoc prelude g n (h ++ body)),
          sym (append_assoc ((prelude ++ g) ++ n) h body),
        )
        (tail_from-append manifest_header_bytes (((prelude ++ g) ++ n) ++ h) body (
          omega (
            arith,
            length-append ((prelude ++ g) ++ n) h,
            length-append (prelude ++ g) n,
            length-prelude,
            length-append prelude g,
            length-to_le_bytes 8 generation,
            length-to_le_bytes 4 (length body),
            length-to_le_bytes 4 (hash body),
          )))

  decode_manifest-manifest_file :
      (generation : ℕ) (body : List ℕ)
      → generation < 2 ^ 64
      → length body ≤ max_manifest_body_bytes
      → decode_manifest hash (manifest_file hash generation body) ≡ decode_body generation body
  unfolding decode_manifest
  decode_manifest-manifest_file generation body small fits =
      let long = length-manifest_file generation body in
      let (magic, version, reserved) = read_prelude generation body in
      let whole : ltb (length (manifest_file hash generation body)) manifest_header_bytes ≡ false =
        ground (arith, long) in
      let small_body : ltb max_manifest_body_bytes (length body) ≡ false = ground arith in
      let exact : not
            (length (manifest_file hash generation body) == length body + manifest_header_bytes)
          ≡ false =
        ground (arith, long) in
      let sums : not (hash body == hash body) ≡ false = ground arith in
      rw
        (
          whole,
          magic,
          version,
          reserved,
          read_generation generation body small,
          read_length generation body (omega arith),
          small_body,
          exact,
          read_body generation body,
          read_hash generation body,
          sums,
        )
        refl

  encode_manifest_ok :
      (m : Manifest) (n : ℕ)
      → IsStored m
      → measure_body m ≡ ok n
      → n ≤ max_manifest_body_bytes
      → encode_manifest hash m ≡ ok (manifest_file hash m.identity.generation (body_bytes m))
  unfolding encode_manifest try_from checked_add
  encode_manifest_ok m n is h small =
      let long = measure_body_inv m h in
      let file = length-manifest_file m.identity.generation (body_bytes m) in
      let a : ltb max_manifest_body_bytes n ≡ false = ground arith in
      let b : not (length (body_bytes m) == n) ≡ false = ground arith in
      let c : ltb (length (body_bytes m)) (2 ^ 32) ≡ true = ground arith in
      let d : ltb max_manifest_body_bytes (length (body_bytes m)) ≡ false = ground arith in
      let e : ltb (length (body_bytes m) + manifest_header_bytes) (2 ^ 64) ≡ true = ground arith in
      let f : not (
            length (manifest_file hash m.identity.generation (body_bytes m))
            == length (body_bytes m) + manifest_header_bytes)
          ≡ false =
        ground (arith, file) in
      rw (h, a, encode_body_ok m is, b, c, d, e, f) refl

  -- A manifest survives its file: when the checksum is a `u32`, the manifest is of the types of the
  -- source and well formed, its parts are as their constructors make them, no table has more
  -- retired series than can be read, and its body measures no more than its limit, then encoding
  -- succeeds with a file of the measured length and its header, and decoding the file gives back
  -- the manifest.
  pub decode_manifest-encode_manifest :
      (m : Manifest) (n : ℕ)
      → IsStored m
      → measure_body m ≡ ok n
      → n ≤ max_manifest_body_bytes
      → (bytes : List ℕ) × (encode_manifest hash m ≡ ok bytes)
        × (length bytes ≡ n + manifest_header_bytes)
        × (decode_manifest hash bytes ≡ ok m)
  decode_manifest-encode_manifest m n is h small =
      let long = measure_body_inv m h in
      (
        manifest_file hash m.identity.generation (body_bytes m),
        encode_manifest_ok m n is h small,
        omega (arith, length-manifest_file m.identity.generation (body_bytes m)),
        decode_manifest-manifest_file m.identity.generation (body_bytes m)
              is.identity_is.generation_small (omega arith)
            ∙ decode_body-body_bytes m is,
      )
