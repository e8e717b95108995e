-- ===== src/Codec/Fixed/Sound.antt =====
-- What the decoder of core/src/codec/fixed_decode.rs accepts.
use litesdb.Base.{ℕ, ◌+◌, ◌-◌, ◌*◌, ◌≤◌, ◌<◌, ◌≡◌, refl, sym, arith, Bool, true, ◌&&◌}
use litesdb.Base.{false, not, List, [], ◌∷◌, All, ap, ◌∙◌, length, ok}
use litesdb.Base.{if◌then◌else◌, ◌==◌, ==_iff, subst}
use litesdb.Base.{>>=-eq-ok, ok-injective, ok_or, ok_or-eq_ok, fail_if, fail_if-eq_ok}
use litesdb.Base.Cursor.{slice}
use litesdb.Types.Value.{CellValue}
use litesdb.Codec.Bitmap.Marks.{IsByte}
use litesdb.Codec.Fixed.{FixedKind, u_int_kind, sq1_kind, f32_kind, kind_width, plan_width}
use litesdb.Codec.Fixed.{FixedPlan, header_len, fixed_len, null_bitmap_len, is_u_int, measure}
use litesdb.Codec.Fixed.{minimum_uint_width}
use litesdb.Codec.Fixed.Decode.{read_facts, decode}
use litesdb.Codec.Fixed.Decode.{read_width, read_bitmap}
use litesdb.Codec.Fixed.Measure.{count_nulls, raise_all}
use litesdb.Limits.{ensure_at_most, ensure_at_most_inv, section_rows, maximum}
use litesdb.Codec.Fixed.Plan.{bitmap_bytes, total_len, fixed_len-total_len, null_bitmap_len-ok}
use litesdb.Codec.Fixed.Plan.{measure-fixed_plan, fixed_plan}
use litesdb.Codec.Fixed.Column.{IsColumn}
use litesdb.Codec.Fixed.Parts.{slice-IsPart}
use litesdb.Codec.Fixed.Parsed.{AreRead, read_facts-AreRead}
use litesdb.Codec.Fixed.Decode.{validate_null_bitmap}
use litesdb.Base.{ltb, ◌/◌}
use native.Mathlib.Nat.{mul-div_cancel}

-- A width that is read is the plan's, unless it has to be compared with the least one.
read_width_inv :
    (kind : FixedKind) (bytes : List ℕ) (width : ℕ)
    → read_width kind bytes ≡ ok width
    → (0 < width)
      × (width ≤ 8)
      × ((top : ℕ)
          → (is_u_int kind && not (width == minimum_uint_width top)) ≡ false
          → width ≡ plan_width kind top)
unfolding read_width kind_width
read_width_inv u_int_kind [] width e = cc
read_width_inv u_int_kind (b ∷ bs) width e = (ground arith, ground arith, λ top h. ground arith)
read_width_inv sq1_kind bytes width e = (ground arith, ground arith, λ top h. ground arith)
read_width_inv f32_kind bytes width e = (ground arith, ground arith, λ top h. ground arith)

is_true_of : (b : Bool) → not b ≡ false → b ≡ true
is_true_of true h = refl
is_true_of false h = sym h

-- What the checks before the facts say.
record IsFront (kind : FixedKind) (bytes : List ℕ) (rows nulls width : ℕ) (bitmap : List ℕ)
    : Type 0 where
  present : 0 < rows
  small : rows ≤ 65_536
  fewer : nulls ≤ rows
  read : read_width kind bytes ≡ ok width
  whole : length bytes ≡ total_len kind width rows nulls
  map_size : length bitmap ≡ bitmap_bytes rows nulls

read_bitmap-IsFront :
    (kind : FixedKind) (bytes : List ℕ) (rows nulls width : ℕ) (bitmap : List ℕ)
    → All IsByte bytes
    → read_bitmap kind bytes rows nulls ≡ ok (width, bitmap)
    → IsFront kind bytes rows nulls width bitmap
unfolding read_bitmap
read_bitmap-IsFront kind bytes rows nulls width bitmap h e =
    let (_, some_rows, e₁) = >>=-eq-ok (fail_if (rows == 0) _) _ e in
    let (_, small, e₂) = >>=-eq-ok (ensure_at_most section_rows rows) _ e₁ in
    let (_, fewer, e₃) = >>=-eq-ok (fail_if (ltb rows nulls) _) _ e₂ in
    let (width', read, e₄) = >>=-eq-ok (read_width kind bytes) _ e₃ in
    let (size, sized, e₅) = >>=-eq-ok (fixed_len kind width' rows nulls (rows - nulls)) _ e₄ in
    let (_, whole, e₆) = >>=-eq-ok (fail_if (not (length bytes == size)) _) _ e₅ in
    let (map_size, measured, e₇) = >>=-eq-ok (null_bitmap_len rows nulls) _ e₆ in
    let (bitmap', found, e₈) = >>=-eq-ok (ok_or (slice (header_len kind) map_size bytes) _) _ e₇ in
    let (_, _, e₉) =
      >>=-eq-ok (if nulls == 0 then ok tt else validate_null_bitmap bitmap' rows nulls) _ e₈ in
    let same : ◌≡◌ {A = ℕ × List ℕ} (width', bitmap') (width, bitmap) = ok-injective e₉ in
    let same_width : width' ≡ width = cc in
    let same_map : bitmap' ≡ bitmap = cc in
    let limit : rows ≤ 65_536 = unfold maximum in ensure_at_most_inv section_rows rows small in
    let narrow = (read_width_inv kind bytes width' read).1 in
    let is_size : total_len kind width' rows nulls ≡ size =
      ok-injective (sym (fixed_len-total_len kind width' rows nulls limit narrow) ∙ sized) in
    let is_map : bitmap_bytes rows nulls ≡ map_size =
      ok-injective (sym (null_bitmap_len-ok rows nulls limit) ∙ measured) in
    let same_size : length bytes ≡ size =
      (==_iff _ _).0 (is_true_of (length bytes == size) (fail_if-eq_ok _ _ whole)) in
    rw (← same_width, ← same_map)
      (record {
        present = ground (arith, fail_if-eq_ok _ _ some_rows);
        small = limit;
        fewer = ground (arith, fail_if-eq_ok _ _ fewer);
        read = read;
        whole = same_size ∙ sym is_size;
        map_size =
            (slice-IsPart (header_len kind) map_size bytes bitmap' h (ok_or-eq_ok _ _ found)).0
            ∙ sym is_map;
      })

same_count :
    (width rows nulls counted : ℕ)
    → 0 < width
    → nulls ≤ rows
    → (rows - nulls) * width + counted * width ≡ rows * width
    → counted ≡ nulls
same_count width rows nulls counted positive fewer e =
    let split : rows ≡ (rows - nulls) + nulls = omega arith in
    let parts : rows * width ≡ ((rows - nulls) + nulls) * width = ap (λ (n : ℕ). n * width) split in
    let same : counted * width ≡ nulls * width = omega (arith, e, parts) in
    sym (mul-div_cancel counted positive)
    ∙ ap (λ (n : ℕ). n / width) same
    ∙ mul-div_cancel nulls positive

-- A column of expected counts that is measured at the length of the bytes.
abbrev pub IsDecoded : FixedKind → List ℕ → ℕ → ℕ → List CellValue → Type 0
IsDecoded kind bytes rows nulls facts =
    IsColumn kind facts
    × (length facts ≡ rows)
    × (count_nulls facts ≡ nulls)
    × ((p : FixedPlan) × (measure facts kind ≡ ok p)
        × (p.fact_count ≡ rows)
        × (p.null_count ≡ nulls)
        × (p.byte_len ≡ length bytes))

read-IsDecoded :
    (kind : FixedKind) (bytes bitmap : List ℕ) (rows nulls width : ℕ) (facts : List CellValue)
    (top : ℕ)
    → IsFront kind bytes rows nulls width bitmap
    → AreRead kind width rows (header_len kind + length bitmap) 0 facts (length bytes) top
    → (is_u_int kind && not (width == minimum_uint_width top)) ≡ false
    → IsDecoded kind bytes rows nulls facts
read-IsDecoded kind bytes bitmap rows nulls width facts top front all least =
    let (positive, narrow, minimal) = read_width_inv kind bytes width front.read in
    let is_width : width ≡ plan_width kind (raise_all 0 facts) =
      minimal top least ∙ ap (plan_width kind) all.raised in
    let counted : count_nulls facts ≡ nulls =
      same_count width rows nulls (count_nulls facts) positive front.fewer
        (omega (arith, all.moved, front.whole, front.map_size)) in
    let column : IsColumn kind facts = record {
      typed = all.typed;
      present = omega (arith, all.size, front.present);
      small = omega (arith, all.size, front.small);
    } in
    let measured = measure-fixed_plan kind facts column.typed column.present column.small in
    let again : (fixed_plan kind facts).byte_len ≡ length bytes =
      rw (← is_width, all.size, counted) (sym front.whole) in
    (column, all.size, counted, (fixed_plan kind facts, measured, all.size, counted, again))

-- What any bytes decode to: when `decode` accepts them, the facts are a column of the kind that
-- fits a section, with as many facts and nulls as were expected, and measuring the column gives a
-- plan with these counts and with the length of the bytes.
pub decode-IsColumn :
    (kind : FixedKind) (bytes : List ℕ) (rows nulls : ℕ) (facts : List CellValue)
    → All IsByte bytes
    → decode kind bytes rows nulls ≡ ok facts
    → IsDecoded kind bytes rows nulls facts
unfolding decode
decode-IsColumn kind bytes rows nulls facts h e =
    let ((width, bitmap), checked, e₁) = >>=-eq-ok (read_bitmap kind bytes rows nulls) _ e in
    let start = header_len kind + length bitmap in
    let ((facts', end, top), read, e₂) =
      >>=-eq-ok (read_facts kind width (not (nulls == 0)) bitmap bytes rows 0 (start, 0)) _ e₁ in
    let (_, used, e₃) = >>=-eq-ok (fail_if (not (end == length bytes)) _) _ e₂ in
    let (_, least, e₄) =
      >>=-eq-ok (fail_if (is_u_int kind && not (width == minimum_uint_width top)) _) _ e₃ in
    let is_end : end ≡ length bytes =
      (==_iff _ _).0 (is_true_of (end == length bytes) (fail_if-eq_ok _ _ used)) in
    let all =
      read_facts-AreRead kind width (not (nulls == 0)) bitmap bytes rows 0 start 0 facts' end top h
        read in
    subst (IsDecoded kind bytes rows nulls) (ok-injective e₄) (
      read-IsDecoded kind bytes bitmap rows nulls width facts' top
        (read_bitmap-IsFront kind bytes rows nulls width bitmap h checked)
        (subst (λ n. AreRead kind width rows start 0 facts' n top) is_end all)
        (fail_if-eq_ok _ _ least))
