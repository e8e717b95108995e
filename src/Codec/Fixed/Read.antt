-- ===== src/Codec/Fixed/Read.antt =====
-- Reading the facts of a fixed column back from its bitmap and its values.
use litesdb.Base.{ℕ, ◌+◌, ◌*◌, ◌/◌, ◌≤◌, ◌<◌, ◌≡◌, refl, sym, arith, Bool, true, false}
use litesdb.Base.{some, List, [], ◌∷◌, ◌++◌, All, ap, ◌∙◌, length, Result, ok}
use litesdb.Base.{append_assoc, append-nil, length-append, get_elem?-append_length}
use litesdb.Base.{if◌then◌else◌}
use litesdb.Base.Cursor.{slice-append}
use litesdb.Types.Value.{CellValue, null, u_int_value, sq1_value, f32_value}
use litesdb.Codec.Bitmap.{test_bit}
use litesdb.Codec.Bitmap.Marks.{marked}
use litesdb.Codec.Fixed.{FixedKind}
use litesdb.Codec.Fixed.Decode.{bitmap_bit, read_value, read_fact, read_facts, raise}
use litesdb.Codec.Fixed.Values.{FitsWidth, value_bytes, length-value_bytes, value_of-value_bytes}
use litesdb.Codec.Fixed.Measure.{is_null, count_nulls, Fitting, null_fits, value_fits, raise_all}
use litesdb.Codec.Fixed.Write.{all_values}

-- The bitmap of the nulls of a column, if it has one.
abbrev pub NullBits : Bool → List ℕ → List CellValue → List CellValue → Type 0
NullBits true bitmap done facts =
    (length (done ++ facts) ≤ length bitmap * 8)
    × ((i : ℕ)
        → i / 8 < length bitmap
        → test_bit bitmap i ≡ some (marked is_null (done ++ facts) i))
NullBits false bitmap done facts = count_nulls facts ≡ 0

abbrev null_flag : Bool → List ℕ → ℕ → Result Bool
null_flag has_nulls bitmap index = if has_nulls then bitmap_bit bitmap index else ok false

null_flag-is_null :
    (has_nulls : Bool) (bitmap : List ℕ) (done facts : List CellValue) (fact : CellValue)
    → NullBits has_nulls bitmap done (fact ∷ facts)
    → null_flag has_nulls bitmap (length done) ≡ ok (is_null fact)
unfolding bitmap_bit
null_flag-is_null true bitmap done facts fact (room, bits) =
    let size = length-append done (fact ∷ facts) in
    rw (bits (length done) (omega (arith, size)), get_elem?-append_length done fact facts) refl
null_flag-is_null false bitmap done facts null no_null = absurd (omega arith)
null_flag-is_null false bitmap done facts (u_int_value v) no_null = refl
null_flag-is_null false bitmap done facts (sq1_value c) no_null = refl
null_flag-is_null false bitmap done facts (f32_value b) no_null = refl

NullBits-next :
    (has_nulls : Bool) (bitmap : List ℕ) (done facts : List CellValue) (fact : CellValue)
    → NullBits has_nulls bitmap done (fact ∷ facts)
    → NullBits has_nulls bitmap (done ++ (fact ∷ [])) facts
NullBits-next true bitmap done facts fact bits = rw (append_assoc done (fact ∷ []) facts) bits
NullBits-next false bitmap done facts fact no_null = omega arith

read_fact-null :
    (kind : FixedKind) (width : ℕ) (has_nulls : Bool) (bitmap bytes : List ℕ)
    (index offset maximum : ℕ)
    → null_flag has_nulls bitmap index ≡ ok true
    → read_fact kind width has_nulls bitmap bytes index (offset, maximum)
      ≡ ok (null, offset, maximum)
unfolding read_fact
read_fact-null kind width has_nulls bitmap bytes index offset maximum flag = rw (flag) refl

read_fact-value :
    (kind : FixedKind) (width : ℕ) (has_nulls : Bool) (bitmap front back : List ℕ)
    (index maximum : ℕ) (fact : CellValue)
    → FitsWidth kind width fact
    → null_flag has_nulls bitmap index ≡ ok false
    → read_fact kind width has_nulls bitmap
        (front ++ (value_bytes width fact ++ back))
        index
        (length front, maximum)
      ≡ ok (fact, length front + width, raise fact maximum)
unfolding read_fact read_value
read_fact-value kind width has_nulls bitmap front back index maximum fact fits flag =
    rw
      (
        flag,
        slice-append (length front) width front (value_bytes width fact) back refl
            (length-value_bytes kind width fact fits),
        value_of-value_bytes kind width fact fits,
      )
      refl

read_facts-next :
    (kind : FixedKind) (width : ℕ) (has_nulls : Bool) (bitmap bytes : List ℕ)
    (done : List CellValue) (fact : CellValue) (facts : List CellValue) (state : ℕ × ℕ)
    (offset maximum end top : ℕ)
    → read_fact kind width has_nulls bitmap bytes (length done) state ≡ ok (fact, offset, maximum)
    → read_facts kind width has_nulls bitmap bytes
        (length facts)
        (length (done ++ (fact ∷ [])))
        (offset, maximum)
      ≡ ok (facts, end, top)
    → read_facts kind width has_nulls bitmap bytes (length (fact ∷ facts)) (length done) state
      ≡ ok (fact ∷ facts, end, top)
unfolding read_facts
read_facts-next kind width has_nulls bitmap bytes done fact facts state offset maximum end top one
      rest =
    let size : length (done ++ (fact ∷ [])) ≡ length done + 1 = length-append done (fact ∷ []) in
    rw (one, ← size, rest) refl

-- The facts behind those that are done, from bytes that end with their values.
pub read_facts-all_values :
    (kind : FixedKind) (width : ℕ) (has_nulls : Bool) (bitmap : List ℕ)
    (done facts : List CellValue) (bytes before : List ℕ) (maximum : ℕ)
    → All (Fitting kind width) facts
    → NullBits has_nulls bitmap done facts
    → bytes ≡ before ++ all_values width facts
    → read_facts kind width has_nulls bitmap bytes
        (length facts)
        (length done)
        (length before, maximum)
      ≡ ok (facts, length bytes, raise_all maximum facts)
read_facts-all_values kind width has_nulls bitmap done [] bytes before maximum h bits e =
    unfold read_facts all_values in rw (e, append-nil before) refl
read_facts-all_values kind width has_nulls bitmap done (_ ∷ facts) bytes before maximum
      (null_fits, hs) bits e =
    let flag = null_flag-is_null has_nulls bitmap done facts null bits in
    read_facts-next kind width has_nulls bitmap bytes done null facts (length before, maximum)
      (length before) maximum (length bytes) (raise_all maximum facts)
      (read_fact-null kind width has_nulls bitmap bytes (length done) (length before) maximum flag)
      (read_facts-all_values kind width has_nulls bitmap (done ++ (null ∷ [])) facts bytes before
        maximum hs (NullBits-next has_nulls bitmap done facts null bits)
        (unfold all_values value_bytes in e))
read_facts-all_values kind width has_nulls bitmap done (_ ∷ facts) bytes before maximum
      (value_fits fact present fits, hs) bits e =
    let flag = null_flag-is_null has_nulls bitmap done facts fact bits in
    let whole : bytes ≡ before ++ (value_bytes width fact ++ all_values width facts) =
      unfold all_values in e in
    let one =
      read_fact-value kind width has_nulls bitmap before (all_values width facts) (length done)
        maximum fact fits (flag ∙ ap (λ b. ok b) present) in
    let moved : length (before ++ value_bytes width fact) ≡ length before + width =
      length-append before (value_bytes width fact)
      ∙ ap (λ (n : ℕ). length before + n) (length-value_bytes kind width fact fits) in
    let later =
      read_facts-all_values kind width has_nulls bitmap (done ++ (fact ∷ [])) facts bytes
        (before ++ value_bytes width fact) (raise fact maximum) hs
        (NullBits-next has_nulls bitmap done facts fact bits)
        (whole ∙ sym (append_assoc before (value_bytes width fact) (all_values width facts))) in
    read_facts-next kind width has_nulls bitmap bytes done fact facts (length before, maximum)
      (length before + width) (raise fact maximum) (length bytes)
      (raise_all (raise fact maximum) facts) (rw (whole) one) (rw (moved) at later)
