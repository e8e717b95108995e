-- ===== src/Codec/Fixed/Parsed.antt =====
-- The facts that the loop of core/src/codec/fixed_decode.rs reads.
use litesdb.Base.{ℕ, zero, suc, ◌+◌, ◌*◌, ◌^◌, ◌≤◌, ◌<◌, ◌≡◌, refl, sym, arith, Bool, true}
use litesdb.Base.{false, List, [], ◌∷◌, All, ap, ◌∙◌, length, ok}
use litesdb.Base.{if◌then◌else◌, Bool-cases, inl, inr, subst}
use litesdb.Base.{Result, ◌>>=◌, >>=-eq-ok, ok-injective, ok_or, ok_or-eq_ok}
use litesdb.Base.Bytes.{from_le_bytes}
use litesdb.Base.Cursor.{slice}
use litesdb.Types.Value.{CellValue, null, u_int_value, sq1_value, f32_value, new_sq1}
use litesdb.Codec.Bitmap.Marks.{IsByte}
use litesdb.Codec.Fixed.{FixedKind, u_int_kind, sq1_kind, f32_kind}
use litesdb.Codec.Fixed.Decode.{value_of, read_value, read_fact, read_facts, raise, bitmap_bit}
use litesdb.Codec.Fixed.Measure.{IsFact, null_fact, u_int_fact, sq1_fact, f32_fact, is_null}
use litesdb.Codec.Fixed.Measure.{count_nulls, raise_all}
use litesdb.Codec.Fixed.Parts.{IsPart, slice-IsPart, from_le_bytes-lt, power-le}

-- A value of a kind.
value_of-IsFact :
    (kind : FixedKind) (width : ℕ) (source : List ℕ) (v : CellValue)
    → IsPart width source
    → value_of kind width source ≡ ok v
    → IsFact kind v × (is_null v ≡ false)
unfolding value_of new_sq1
value_of-IsFact u_int_kind width source v (size, h) e =
    let small : width ≤ 8 = ground arith in
    let is : u_int_value (from_le_bytes source) ≡ v = ground arith in
    let low : from_le_bytes source < 256 ^ length source = from_le_bytes-lt source h in
    let high : 256 ^ length source ≤ 2 ^ 64 = power-le (length source) (omega arith) in
    rw (← is) (u_int_fact (from_le_bytes source) (omega arith), refl)
value_of-IsFact sq1_kind width [] v (size, h) e = cc
value_of-IsFact sq1_kind width (b ∷ bs) v (size, (hb, h)) e =
    let small : b < 255 = ground arith in
    let is : sq1_value b ≡ v = ground arith in rw (← is) (sq1_fact b small, refl)
value_of-IsFact f32_kind width source v (size, h) e =
    let four : length source ≡ 4 = ground arith in
    let is : f32_value (from_le_bytes source) ≡ v = ground arith in
    let low : from_le_bytes source < 256 ^ 4 =
      subst (λ n. from_le_bytes source < 256 ^ n) four (from_le_bytes-lt source h) in
    rw (← is) (f32_fact (from_le_bytes source) (omega arith), refl)

-- A fact that is read, with the offset and the maximum behind it.
record IsRead (kind : FixedKind) (width offset maximum : ℕ) (fact : CellValue) (end highest : ℕ)
    : Type 0 where
  typed : IsFact kind fact
  moved : end ≡ offset + (if is_null fact then 0 else width)
  raised : highest ≡ raise fact maximum

read_value-IsRead :
    (kind : FixedKind) (width : ℕ) (bytes : List ℕ) (offset maximum : ℕ) (v : CellValue) (end : ℕ)
    → All IsByte bytes
    → read_value kind width bytes offset ≡ ok (v, end)
    → IsRead kind width offset maximum v end (raise v maximum)
unfolding read_value
read_value-IsRead kind width bytes offset maximum v end h e =
    let (source, found, e₁) = >>=-eq-ok (ok_or (slice offset width bytes) _) _ e in
    let (v', is, e₂) = >>=-eq-ok (value_of kind width source) _ e₁ in
    let same : ◌≡◌ {A = CellValue × ℕ} (v', offset + width) (v, end) = ok-injective e₂ in
    let same_v : v' ≡ v = cc in
    let same_end : offset + width ≡ end = cc in
    let part = slice-IsPart offset width bytes source h (ok_or-eq_ok _ _ found) in
    let (typed, some_value) =
      value_of-IsFact kind width source v part (is ∙ ap (λ u. ok u) same_v) in
    record { typed = typed; moved = rw (some_value) (sym same_end); raised = refl }

read_fact-IsRead :
    (kind : FixedKind) (width : ℕ) (has_nulls : Bool) (bitmap bytes : List ℕ)
    (index offset maximum : ℕ) (fact : CellValue) (end highest : ℕ)
    → All IsByte bytes
    → read_fact kind width has_nulls bitmap bytes index (offset, maximum) ≡ ok (fact, end, highest)
    → IsRead kind width offset maximum fact end highest
unfolding read_fact
read_fact-IsRead kind width has_nulls bitmap bytes index offset maximum fact end highest h e =
    let (bit, _, e₁) = >>=-eq-ok (if has_nulls then bitmap_bit bitmap index else ok false) _ e in
    of_bit bit e₁
  where
    of_bit :
        (bit : Bool)
        → if◌then◌else◌ {A = Result (CellValue × ℕ × ℕ)} bit (ok (null, offset, maximum)) (
            read_value kind width bytes offset >>= λ (value, offset').
            ok (value, offset', raise value maximum))
          ≡ ok (fact, end, highest)
        → IsRead kind width offset maximum fact end highest
    of_bit true e =
        let same : ◌≡◌ {A = CellValue × ℕ × ℕ} (null, offset, maximum) (fact, end, highest) =
          ok-injective e in
        let same_fact : null ≡ fact = cc in
        let same_end : offset ≡ end = cc in
        let same_top : maximum ≡ highest = cc in
        rw (← same_fact, ← same_end, ← same_top)
          (record { typed = null_fact kind; moved = omega arith; raised = refl })
    of_bit false e =
        let ((value, offset'), read, done) = >>=-eq-ok (read_value kind width bytes offset) _ e in
        let same : ◌≡◌ {A = CellValue × ℕ × ℕ} (value, offset', raise value maximum)
            (fact, end, highest) =
          ok-injective done in
        let same_fact : value ≡ fact = cc in
        let same_end : offset' ≡ end = cc in
        let same_top : raise value maximum ≡ highest = cc in
        rw (← same_fact, ← same_end, ← same_top)
          (read_value-IsRead kind width bytes offset maximum value offset' h read)

-- The facts that are read, with the offset and the maximum behind them.
pub record AreRead (kind : FixedKind) (width rounds offset maximum : ℕ) (facts : List CellValue)
    (end highest : ℕ) : Type 0 where
  pub typed : All (IsFact kind) facts
  pub size : length facts ≡ rounds
  pub moved : end + count_nulls facts * width ≡ offset + rounds * width
  pub raised : highest ≡ raise_all maximum facts

moved_on :
    (fact : CellValue) (width offset offset' end rounds nulls : ℕ)
    → offset' ≡ offset + (if is_null fact then 0 else width)
    → end + nulls * width ≡ offset' + rounds * width
    → end + ((if is_null fact then 1 else 0) + nulls) * width ≡ offset + suc rounds * width
moved_on fact width offset offset' end rounds nulls one rest = elim (Bool-cases (is_null fact)) [
  | inl no_value ↦
      let here : offset' ≡ offset = one ∙ rw (no_value) (omega arith) in
      rw (no_value) (omega (arith, here, rest))
  | inr some_value ↦
      let here : offset' ≡ offset + width = one ∙ rw (some_value) refl in
      rw (some_value) (omega (arith, here, rest))
]

pub read_facts-AreRead :
    (kind : FixedKind) (width : ℕ) (has_nulls : Bool) (bitmap bytes : List ℕ)
    (rounds index offset maximum : ℕ) (facts : List CellValue) (end highest : ℕ)
    → All IsByte bytes
    → read_facts kind width has_nulls bitmap bytes rounds index (offset, maximum)
      ≡ ok (facts, end, highest)
    → AreRead kind width rounds offset maximum facts end highest
unfolding read_facts
read_facts-AreRead kind width has_nulls bitmap bytes zero index offset maximum facts end highest h
      e =
    let same : ◌≡◌ {A = List CellValue × ℕ × ℕ} ([], offset, maximum) (facts, end, highest) =
      ok-injective e in
    let same_facts : [] ≡ facts = cc in
    let same_end : offset ≡ end = cc in
    let same_top : maximum ≡ highest = cc in
    rw (← same_facts, ← same_end, ← same_top)
      (record { typed = tt; size = refl; moved = omega arith; raised = refl })
read_facts-AreRead kind width has_nulls bitmap bytes (suc rounds) index offset maximum facts end
      highest h e =
    let ((fact, offset', maximum'), read, e₁) =
      >>=-eq-ok (read_fact kind width has_nulls bitmap bytes index (offset, maximum)) _ e in
    let ((facts', end', highest'), later, e₂) =
      >>=-eq-ok
        (read_facts kind width has_nulls bitmap bytes rounds (index + 1) (offset', maximum')) _
        e₁ in
    let same : ◌≡◌ {A = List CellValue × ℕ × ℕ} (fact ∷ facts', end', highest')
        (facts, end, highest) =
      ok-injective e₂ in
    let same_facts : fact ∷ facts' ≡ facts = cc in
    let same_end : end' ≡ end = cc in
    let same_top : highest' ≡ highest = cc in
    let one =
      read_fact-IsRead kind width has_nulls bitmap bytes index offset maximum fact offset' maximum'
        h read in
    let rest =
      read_facts-AreRead kind width has_nulls bitmap bytes rounds (index + 1) offset' maximum'
        facts' end' highest' h later in
    rw (← same_facts, ← same_end, ← same_top)
      (record {
        typed = (one.typed, rest.typed);
        size = ap suc rest.size;
        moved =
            moved_on fact width offset offset' end' rounds (count_nulls facts') one.moved
              rest.moved;
        raised = rest.raised ∙ ap (λ m. raise_all m facts') one.raised;
      })
