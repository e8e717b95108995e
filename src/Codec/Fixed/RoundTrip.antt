-- ===== src/Codec/Fixed/RoundTrip.antt =====
-- A column through `encode` and `decode` of core/src/codec/fixed.rs and fixed_decode.rs.
use litesdb.Base.{==_refl}
use litesdb.Base.{ℕ, ◌+◌, ◌/◌, ◌<◌, ◌^◌, ◌≡◌, refl, sym, arith, false, not, ◌&&◌}
use litesdb.Base.{List, [], ◌++◌, ap, ◌∙◌, length, ok}
use litesdb.Base.{append_assoc, length-append, inl, inr, Bool-cases}
use litesdb.Base.{ltb, if◌then◌else◌, ◌==◌, ==_iff}
use litesdb.Base.Cursor.{slice, slice-append}
use litesdb.Limits.{ensure_at_most_ok, section_rows, maximum}
use litesdb.Types.Value.{CellValue}
use litesdb.Codec.Bitmap.Marks.{marked, marked_beyond}
use litesdb.Codec.Bitmap.Check.{validate_bits-Holds}
use litesdb.Codec.Fixed.{FixedKind, u_int_kind, sq1_kind, f32_kind, is_u_int, FixedPlan, header_len}
use litesdb.Codec.Fixed.{measure, encode, plan_width}
use litesdb.Codec.Fixed.{minimum_uint_width, kind_width}
use litesdb.Codec.Fixed.Decode.{decode, read_bitmap, read_width, validate_null_bitmap, fixed_texts}
use litesdb.Codec.Fixed.Measure.{is_null, count_nulls, count_nulls-le}
use litesdb.Codec.Fixed.Measure.{raise_all, raise_all-lt}
use litesdb.Codec.Fixed.Measure.{minimum_uint_width_lem}
use litesdb.Codec.Fixed.Write.{all_values}
use litesdb.Codec.Fixed.Read.{NullBits, read_facts-all_values}
use litesdb.Codec.Fixed.Plan.{
  bitmap_bytes, total_len, fixed_plan, measure-fixed_plan, null_bitmap_len-ok, fixed_len-total_len,
}
use litesdb.Codec.Fixed.Column.{
  header, length-header, width_of, column_bytes, IsBitmap, IsColumn, fitting, width-le,
  length-column, encoded,
}

read_width-header :
    (kind : FixedKind) (top : ℕ) (back : List ℕ)
    → top < 2 ^ 64
    → read_width kind (header kind (plan_width kind top) ++ back) ≡ ok (plan_width kind top)
unfolding read_width
read_width-header u_int_kind top back h = (minimum_uint_width_lem top h).2
read_width-header sq1_kind top back h = unfold kind_width in refl
read_width-header f32_kind top back h = unfold kind_width in refl

not_minimal :
    (kind : FixedKind) (top : ℕ)
    → (is_u_int kind && not (plan_width kind top == minimum_uint_width top)) ≡ false
not_minimal u_int_kind top = rw (==_refl (minimum_uint_width top)) refl
not_minimal sq1_kind top = refl
not_minimal f32_kind top = refl

module _ (kind : FixedKind) (facts : List CellValue) (is : IsColumn kind facts) where
  abbrev rows : ℕ
  rows = length facts

  abbrev nulls : ℕ
  nulls = count_nulls facts

  abbrev width : ℕ
  width = width_of kind facts

  null_check :
      (bitmap : List ℕ)
      → IsBitmap facts bitmap
      → (if nulls == 0 then ok tt else validate_null_bitmap bitmap rows nulls) ≡ ok tt
  unfolding validate_null_bitmap
  null_check bitmap is_bitmap = elim (Bool-cases (nulls == 0)) [
    | inl none_null ↦ rw (none_null) refl
    | inr some_null ↦ rw (some_null) (
        validate_bits-Holds fixed_texts rows bitmap (marked is_null facts) nulls is.small
          is_bitmap.marks (marked_beyond is_null facts) (is_bitmap.size ∙ rw (some_null) refl))
  ]

  -- The checks of the decoder, on the bytes of the column.
  read_bitmap-column :
      (bitmap : List ℕ)
      → IsBitmap facts bitmap
      → read_bitmap kind (column_bytes kind facts bitmap) rows nulls ≡ ok (width, bitmap)
  unfolding read_bitmap
  read_bitmap-column bitmap is_bitmap =
      let some_rows : (rows == 0) ≡ false = ground arith in
      let fewer : ltb rows nulls ≡ false = ground (arith, count_nulls-le facts) in
      rw
        (
          some_rows,
          ensure_at_most_ok section_rows rows (unfold maximum in is.small),
          fewer,
          read_width-header kind (raise_all 0 facts) (bitmap ++ all_values width facts)
              (raise_all-lt kind 0 facts is.typed (omega arith)),
          fixed_len-total_len kind width rows nulls is.small (width-le kind facts is),
          length-column kind facts is bitmap is_bitmap,
          ==_refl (total_len kind width rows nulls),
          null_bitmap_len-ok rows nulls is.small,
          slice-append (header_len kind) (bitmap_bytes rows nulls) (header kind width) bitmap
              (all_values width facts) (length-header kind width) is_bitmap.size,
          null_check bitmap is_bitmap,
        )
        refl

  null_bits :
      (bitmap : List ℕ) → IsBitmap facts bitmap → NullBits (not (nulls == 0)) bitmap [] facts
  null_bits bitmap is_bitmap = elim (Bool-cases (nulls == 0)) [
    | inl none_null ↦ rw (none_null) ((==_iff _ _).0 none_null)
    | inr some_null ↦
        let size : length bitmap ≡ (rows + 7) / 8 = is_bitmap.size ∙ rw (some_null) refl in
        rw (some_null) (omega (arith, size), is_bitmap.marks.bits)
  ]

  decode-column :
      (bitmap : List ℕ)
      → IsBitmap facts bitmap
      → decode kind (column_bytes kind facts bitmap) rows nulls ≡ ok facts
  unfolding decode
  decode-column bitmap is_bitmap =
      let front : List ℕ = header kind width ++ bitmap in
      let place : length front ≡ header_len kind + length bitmap =
        length-append (header kind width) bitmap
        ∙ ap (λ (n : ℕ). n + length bitmap) (length-header kind width) in
      let facts_back =
        read_facts-all_values kind width (not (nulls == 0)) bitmap [] facts
          (column_bytes kind facts bitmap) front 0 (fitting kind facts is)
          (null_bits bitmap is_bitmap)
          (sym (append_assoc (header kind width) bitmap (all_values width facts))) in
      rw
        (
          read_bitmap-column bitmap is_bitmap,
          ← place,
          facts_back,
          ==_refl (length (column_bytes kind facts bitmap)),
          not_minimal kind (raise_all 0 facts),
        )
        refl

-- The plan of a column restores it.
pub decode-encode_plan :
    (kind : FixedKind) (facts : List CellValue) (slice : List ℕ)
    → IsColumn kind facts
    → length slice ≡ (fixed_plan kind facts).byte_len
    → (bytes : List ℕ) × (encode facts (fixed_plan kind facts) slice ≡ ok bytes)
      × (decode kind bytes (length facts) (count_nulls facts) ≡ ok facts)
decode-encode_plan kind facts slice is size =
    let (bitmap, all, is_bitmap) = encoded kind facts is slice size in
    (column_bytes kind facts bitmap, all, decode-column kind facts is bitmap is_bitmap)

-- Every column that a section can hold survives the fixed codec: for one to 65,536 nulls and
-- values of the kind, `measure` returns a plan with their counts, `encode` succeeds with it on any
-- slice of the plan's length, and `decode` of what it wrote, with the plan's counts, is the column.
pub decode-encode_column :
    (kind : FixedKind) (facts : List CellValue)
    → IsColumn kind facts
    → (p : FixedPlan) × (measure facts kind ≡ ok p)
      × (p.fact_count ≡ length facts)
      × (p.null_count ≡ count_nulls facts)
      × ((slice : List ℕ)
          → length slice ≡ p.byte_len
          → (bytes : List ℕ) × (encode facts p slice ≡ ok bytes)
            × (decode kind bytes p.fact_count p.null_count ≡ ok facts))
decode-encode_column kind facts is = (
  fixed_plan kind facts,
  measure-fixed_plan kind facts is.typed is.present is.small,
  refl,
  refl,
  λ slice size. decode-encode_plan kind facts slice is size,
)
