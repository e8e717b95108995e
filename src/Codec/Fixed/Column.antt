-- ===== src/Codec/Fixed/Column.antt =====
-- Encoding a fixed column: its bytes are the header, the bitmap of its nulls and its values.
use litesdb.Base.{ℕ, zero, suc, ◌+◌, ◌-◌, ◌*◌, ◌≤◌, ◌<◌, ◌≡◌, refl, sym, arith, true}
use litesdb.Base.{List, [], ◌∷◌, ◌++◌, All, ap, ◌∙◌, length, Result, ok}
use litesdb.Base.{append-nil, length-append, inl, inr, Bool-cases, replicate}
use litesdb.Base.{length-replicate, if◌then◌else◌, ◌==◌, ==_iff}
use litesdb.Base.Cursor.{slice}
use litesdb.Types.Value.{CellValue}
use litesdb.Codec.Bitmap.Marks.{Holds, marked}
use litesdb.Codec.Fixed.{FixedKind, u_int_kind, sq1_kind, f32_kind, is_u_int, FixedPlan, header_len}
use litesdb.Codec.Fixed.{encode, write_header, fixed_plan_eq, plan_width, write_facts}
use litesdb.Codec.Fixed.Values.{around-append, value_bytes, length-value_bytes}
use litesdb.Codec.Fixed.Measure.{is_null, count_nulls, count_nulls-le, Fitting, IsFact, fits_all}
use litesdb.Codec.Fixed.Measure.{raise_all, raise_all-lt}
use litesdb.Codec.Fixed.Measure.{null_fits, value_fits}
use litesdb.Codec.Fixed.Write.{all_values, write_facts-layout, Roomy, state_eq}
use litesdb.Codec.Bitmap.Rows.{Holds-zeros}
use litesdb.Codec.Fixed.Plan.{
  bitmap_bytes, total_len, fixed_plan, measure-fixed_plan, null_bitmap_len-ok, plan_width-le,
}

-- The header of a column: its width, where that varies.
abbrev pub header : FixedKind → ℕ → List ℕ
header u_int_kind width = width ∷ []
header sq1_kind width = []
header f32_kind width = []

pub length-header : (kind : FixedKind) (width : ℕ) → length (header kind width) ≡ header_len kind
length-header u_int_kind width = refl
length-header sq1_kind width = refl
length-header f32_kind width = refl

one_more : (n width a b : ℕ) → a ≡ width → b ≡ n * width → a + b ≡ suc n * width
one_more n width a b p q = grind arith

length-all_values :
    (kind : FixedKind) (width : ℕ) (facts : List CellValue)
    → All (Fitting kind width) facts
    → length (all_values width facts) ≡ (length facts - count_nulls facts) * width
unfolding all_values
length-all_values kind width [] h = omega arith
length-all_values kind width (_ ∷ facts) (null_fits, hs) =
    let less : suc (length facts) - (1 + count_nulls facts) ≡ length facts - count_nulls facts =
      omega arith in
    length-all_values kind width facts hs ∙ ap (λ (n : ℕ). n * width) (sym less)
length-all_values kind width (_ ∷ facts) (value_fits fact present fits, hs) =
    let less : suc (length facts) - (0 + count_nulls facts)
        ≡ suc (length facts - count_nulls facts) =
      omega (arith, count_nulls-le facts) in
    length-append (value_bytes width fact) (all_values width facts)
    ∙ rw (present, less)
        (one_more (length facts - count_nulls facts) width _ _
          (length-value_bytes kind width fact fits) (length-all_values kind width facts hs))

pub fixed_plan_eq_refl : (p : FixedPlan) → fixed_plan_eq p p ≡ true
fixed_plan_eq_refl p = ground arith

replicate-add : (a b : ℕ) → replicate {A = ℕ} (a + b) 0 ≡ replicate a 0 ++ replicate b 0
replicate-add zero b = let start : 0 + b ≡ b = omega arith in rw (start) refl
replicate-add (suc a) b =
    let next : suc a + b ≡ suc (a + b) = omega arith in
    rw (next) (ap (λ bs. 0 ∷ bs) (replicate-add a b))

-- The zeros that the loop starts on, by the parts of the layout.
zeros_parts :
    (len a b c : ℕ)
    → len ≡ a + (b + c)
    → replicate {A = ℕ} len 0 ≡ replicate a 0 ++ (replicate b 0 ++ replicate c 0)
zeros_parts len a b c h = rw (h, replicate-add a (b + c), replicate-add b c) refl

abbrev start_header : FixedKind → ℕ → List ℕ → Result (List ℕ × ℕ)
start_header kind width zeros =
    if is_u_int kind then write_header (zeros, 0) width else ok (zeros, 0)

start_header-header :
    (kind : FixedKind) (width : ℕ) (rest : List ℕ)
    → start_header kind width (replicate (header_len kind) 0 ++ rest)
      ≡ ok (header kind width ++ rest, length (header kind width))
unfolding write_header
start_header-header u_int_kind width rest = rw (around-append [] (0 ∷ []) rest) refl
start_header-header sq1_kind width rest = refl
start_header-header f32_kind width rest = refl

abbrev pub width_of : FixedKind → List CellValue → ℕ
width_of kind facts = plan_width kind (raise_all 0 facts)

-- The bytes of a column with a bitmap.
abbrev pub column_bytes : FixedKind → List CellValue → List ℕ → List ℕ
column_bytes kind facts bitmap =
    header kind (width_of kind facts) ++ (bitmap ++ all_values (width_of kind facts) facts)

-- The bitmap of a column.
pub record IsBitmap (facts : List CellValue) (bitmap : List ℕ) : Type 0 where
  pub size : length bitmap ≡ bitmap_bytes (length facts) (count_nulls facts)
  pub marks : Holds bitmap (marked is_null facts) (count_nulls facts)

-- A column that a section can hold.
pub record IsColumn (kind : FixedKind) (facts : List CellValue) : Type 0 where
  pub typed : All (IsFact kind) facts
  pub present : 0 < length facts
  pub small : length facts ≤ 65_536

module _ (kind : FixedKind) (facts : List CellValue) (is : IsColumn kind facts) where
  abbrev rows : ℕ
  rows = length facts

  abbrev nulls : ℕ
  nulls = count_nulls facts

  abbrev width : ℕ
  width = width_of kind facts

  pub fitting : All (Fitting kind width) facts
  fitting =
      fits_all kind 0 (raise_all 0 facts) facts is.typed (omega arith)
        (raise_all-lt kind 0 facts is.typed (omega arith))

  pub width-le : width ≤ 8
  width-le =
      plan_width-le kind (raise_all 0 facts) (raise_all-lt kind 0 facts is.typed (omega arith))

  roomy : Roomy [] facts (replicate (bitmap_bytes rows nulls) 0)
  roomy = elim (Bool-cases (nulls == 0)) [
    | inl none_null ↦ inl ((==_iff _ _).0 none_null)
    | inr some_null ↦
        inr (rw (length-replicate {A = ℕ} (bitmap_bytes rows nulls) 0, some_null) (omega arith))
  ]

  written :
      (bitmap : List ℕ) × (write_facts kind width (length (header kind width)) 0 facts (
        header kind width
            ++ (replicate (bitmap_bytes rows nulls) 0 ++ replicate ((rows - nulls) * width) 0),
        length (header kind width) + bitmap_bytes rows nulls,
      )
        ≡ ok (column_bytes kind facts bitmap, length (column_bytes kind facts bitmap)))
      × IsBitmap facts bitmap
  written =
      let (bitmap, all, same, marks) =
        write_facts-layout kind width [] facts (header kind width)
          (replicate (bitmap_bytes rows nulls) 0) [] (replicate ((rows - nulls) * width) 0) fitting
          (Holds-zeros is_null (bitmap_bytes rows nulls)) roomy
          (length-replicate {A = ℕ} ((rows - nulls) * width) 0
            ∙ sym (length-all_values kind width facts fitting)) in
      let values : List ℕ = all_values width facts in
      let zeros = length-replicate {A = ℕ} (bitmap_bytes rows nulls) 0 in
      let size =
        length-append (header kind width) (bitmap ++ values)
        ∙ ap (λ (n : ℕ). length (header kind width) + n) (length-append bitmap values) in
      (
        bitmap,
        ap (write_facts kind width (length (header kind width)) 0 facts)
              (state_eq refl (omega (arith, zeros)))
            ∙ all
            ∙ ap (λ s. ok s) (state_eq (simp append-nil) (sym size)),
        record { size = same ∙ zeros; marks = marks },
      )

  pub length-column :
      (bitmap : List ℕ)
      → IsBitmap facts bitmap
      → length (column_bytes kind facts bitmap) ≡ total_len kind width rows nulls
  length-column bitmap is_bitmap = omega (
    arith,
    length-append (header kind width) (bitmap ++ all_values width facts),
    length-append bitmap (all_values width facts),
    length-all_values kind width facts fitting,
    length-header kind width,
    is_bitmap.size,
  )

  -- Encoding a column into a slice of its plan's length.
  pub encoded :
      (slice : List ℕ)
      → length slice ≡ total_len kind width rows nulls
      → (bitmap : List ℕ) × (encode facts (fixed_plan kind facts) slice
          ≡ ok (column_bytes kind facts bitmap))
        × IsBitmap facts bitmap
  unfolding encode
  encoded slice size =
      let (bitmap, all, is_bitmap) = written in
      let zeros =
        zeros_parts (length slice) (header_len kind) (bitmap_bytes rows nulls)
          ((rows - nulls) * width) (omega (arith, size)) in
      let end = length-column bitmap is_bitmap in
      (
        bitmap,
        rw
            (
              measure-fixed_plan kind facts is.typed is.present is.small,
              fixed_plan_eq_refl (fixed_plan kind facts),
              zeros,
              start_header-header kind width
                  (replicate (bitmap_bytes rows nulls) 0 ++ replicate ((rows - nulls) * width) 0),
              null_bitmap_len-ok rows nulls is.small,
              all,
            )
            (ground (arith, size, end)),
        is_bitmap,
      )
