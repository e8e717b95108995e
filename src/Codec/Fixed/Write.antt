-- ===== src/Codec/Fixed/Write.antt =====
-- Writing the facts of a fixed column: its bitmap fills behind the header, and the values behind it.
use litesdb.Base.{ℕ, ◌+◌, ◌*◌, ◌/◌, ◌≤◌, ◌<◌, ◌≡◌, refl, sym, arith}
use litesdb.Base.{List, [], ◌∷◌, ◌++◌, All, ap, ◌∙◌, length, ok, Error}
use litesdb.Base.{append_assoc, append-nil, length-append, split_at, ◌⊎◌, inl, inr, corruption}
use litesdb.Types.Value.{CellValue, null}
use litesdb.Codec.Bitmap.{set_bit}
use litesdb.Codec.Bitmap.Marks.{Holds, marked}
use litesdb.Codec.Fixed.{FixedKind, write_value, write_fact, write_facts}
use litesdb.Codec.Fixed.Values.{
  FitsWidth, u_int_fits, sq1_fits, f32_fits, value_bytes, length-value_bytes,
}
use litesdb.Codec.Fixed.Values.{write_value-value_bytes}
use litesdb.Codec.Fixed.Measure.{is_null, count_nulls, Fitting, null_fits, value_fits}
use litesdb.Codec.Bitmap.Rows.{Holds-mark, Holds-unmarked}
use litesdb.Codec.Bitmap.Inside.{set_bit-inside}

-- The bytes of the values of a column.
unfoldable pub all_values : ℕ → List CellValue → List ℕ
unfolding value_bytes
all_values width [] = []
all_values width (fact ∷ facts) = value_bytes width fact ++ all_values width facts

write_fact-value :
    (kind : FixedKind) (width start index : ℕ) (fact : CellValue) (state : List ℕ × ℕ)
    → FitsWidth kind width fact
    → write_fact kind width start index fact state ≡ write_value fact kind width state
unfolding write_fact
write_fact-value _ _ start index _ state (u_int_fits width v h small) = refl
write_fact-value _ _ start index _ state (sq1_fits width c h e) = refl
write_fact-value _ _ start index _ state (f32_fits width b h e) = refl

-- The slice while the facts are written, and the offset of the next value.
abbrev layout : List ℕ → List ℕ → List ℕ → List ℕ → List ℕ × ℕ
layout header bitmap written room =
    (header ++ (bitmap ++ (written ++ room)), length header + (length bitmap + length written))

pub state_eq : {a b : List ℕ} {n m : ℕ} → a ≡ b → n ≡ m → ◌≡◌ {A = List ℕ × ℕ} (a, n) (b, m)
state_eq p q = cc

pub regroup :
    (header bitmap written back : List ℕ)
    → header ++ (bitmap ++ (written ++ back)) ≡ (header ++ (bitmap ++ written)) ++ back
regroup header bitmap written back = simp append_assoc

pub regroup_behind :
    (header bitmap written value room : List ℕ)
    → (header ++ (bitmap ++ written)) ++ (value ++ room)
      ≡ header ++ (bitmap ++ ((written ++ value) ++ room))
regroup_behind header bitmap written value room = simp append_assoc

write_value-layout :
    (kind : FixedKind) (width : ℕ) (fact : CellValue) (header bitmap written target room : List ℕ)
    → FitsWidth kind width fact
    → length target ≡ width
    → write_value fact kind width (layout header bitmap written (target ++ room))
      ≡ ok (layout header bitmap (written ++ value_bytes width fact) room)
write_value-layout kind width fact header bitmap written target room h size =
    let before : List ℕ = header ++ (bitmap ++ written) in
    let place : length before ≡ length header + (length bitmap + length written) =
      length-append header (bitmap ++ written)
      ∙ ap (λ (n : ℕ). length header + n) (length-append bitmap written) in
    let wide = length-value_bytes kind width fact h in
    ap (write_value fact kind width)
      (state_eq (regroup header bitmap written (target ++ room)) (sym place))
    ∙ write_value-value_bytes kind width fact before target room h size
    ∙ ap (λ s. ok s)
        (state_eq (regroup_behind header bitmap written (value_bytes width fact) room)
          (omega (arith, place, wide, length-append written (value_bytes width fact))))

abbrev index_error : Error
index_error = corruption "fixed" "bitmap offset outside output"

write_null-layout :
    (kind : FixedKind) (width index : ℕ) (header bitmap written room out : List ℕ)
    → set_bit index_error 0 index bitmap ≡ ok out
    → length out ≡ length bitmap
    → write_fact kind width (length header) index null (layout header bitmap written room)
      ≡ ok (layout header out written room)
unfolding write_fact
write_null-layout kind width index header bitmap written room out set same =
    rw (set_bit-inside index_error header bitmap (written ++ room) out index set, same) refl

-- A bitmap is there when one of the facts is null.
abbrev pub Roomy : List CellValue → List CellValue → List ℕ → Type 0
Roomy done facts bitmap = (count_nulls facts ≡ 0) ⊎ (length done + length facts ≤ length bitmap * 8)

Roomy-next :
    (done facts : List CellValue) (fact : CellValue) (bitmap bitmap' : List ℕ)
    → Roomy done (fact ∷ facts) bitmap
    → length bitmap' ≡ length bitmap
    → Roomy (done ++ (fact ∷ [])) facts bitmap'
Roomy-next done facts fact bitmap bitmap' (inl no_null) same = inl (omega arith)
Roomy-next done facts fact bitmap bitmap' (inr room) same =
    inr (omega (arith, length-append done (fact ∷ [])))

null_room :
    (done facts : List CellValue) (bitmap : List ℕ)
    → Roomy done (null ∷ facts) bitmap
    → length done / 8 < length bitmap
null_room done facts bitmap (inl no_null) = absurd (omega arith)
null_room done facts bitmap (inr room) = omega arith

-- What the loop over the facts leaves.
abbrev Filled :
    FixedKind → ℕ → List CellValue → List CellValue → List ℕ → List ℕ → List ℕ → List ℕ → Type 0
Filled kind width done facts header bitmap written room =
    (out : List ℕ) × (write_facts kind width (length header) (length done) facts
        (layout header bitmap written room)
      ≡ ok (layout header out (written ++ all_values width facts) []))
    × (length out ≡ length bitmap)
    × Holds out (marked is_null (done ++ facts)) (count_nulls (done ++ facts))

-- A first fact that has been written.
Filled-next :
    (kind : FixedKind) (width : ℕ) (done facts : List CellValue) (fact : CellValue)
    (header bitmap bitmap' written room room' : List ℕ)
    → write_fact kind width (length header) (length done) fact (layout header bitmap written room)
      ≡ ok (layout header bitmap' (written ++ value_bytes width fact) room')
    → length bitmap' ≡ length bitmap
    → Filled kind width
        (done ++ (fact ∷ []))
        facts
        header
        bitmap'
        (written ++ value_bytes width fact)
        room'
    → Filled kind width done (fact ∷ facts) header bitmap written room
unfolding write_facts all_values
Filled-next kind width done facts fact header bitmap bitmap' written room room' one same rest =
    let (out, all, same', is) = rest in
    let size : length (done ++ (fact ∷ [])) ≡ length done + 1 = length-append done (fact ∷ []) in
    (
      out,
      rw (one, ← size, ← append_assoc written (value_bytes width fact) (all_values width facts))
          all,
      same' ∙ same,
      rw (append_assoc done (fact ∷ []) facts) at is,
    )

empty_room : (room : List ℕ) → length room ≡ 0 → room ≡ []
empty_room [] h = refl
empty_room (b ∷ bs) h = absurd (omega arith)

-- The loop over the facts, from any place on: the values go behind those that are written, into room of
-- their length, and the bitmap marks the nulls.
pub write_facts-layout :
    (kind : FixedKind) (width : ℕ) (done facts : List CellValue)
    (header bitmap written room : List ℕ)
    → All (Fitting kind width) facts
    → Holds bitmap (marked is_null done) (count_nulls done)
    → Roomy done facts bitmap
    → length room ≡ length (all_values width facts)
    → Filled kind width done facts header bitmap written room
write_facts-layout kind width done [] header bitmap written room h is space size = (
  bitmap,
  unfold write_facts all_values in
      rw (empty_room room (unfold all_values in size)) (simp append-nil),
  refl,
  rw (append-nil done) is,
)
write_facts-layout kind width done (_ ∷ facts) header bitmap written room (null_fits, hs) is space
      size =
    let (bitmap', set, same, is') =
      Holds-mark index_error is_null done null bitmap is (null_room done facts bitmap space) in
    Filled-next kind width done facts null header bitmap bitmap' written room room
      (write_null-layout kind width (length done) header bitmap written room bitmap' set same
        ∙ unfold value_bytes in simp append-nil)
      same
      (write_facts-layout kind width (done ++ (null ∷ [])) facts header bitmap'
        (written ++ value_bytes width null) room hs is'
        (Roomy-next done facts null bitmap bitmap' space same)
        (unfold all_values value_bytes in size))
write_facts-layout kind width done (_ ∷ facts) header bitmap written room
      (value_fits fact present fits, hs) is space size =
    let wide = length-value_bytes kind width fact fits in
    let (target, room', e, e₁, e₂) = split_at width (length (all_values width facts)) room (
      size
      ∙ unfold all_values in
        (length-append (value_bytes width fact) (all_values width facts)
          ∙ ap (λ (n : ℕ). n + length (all_values width facts)) wide)) in
    Filled-next kind width done facts fact header bitmap bitmap written room room'
      (write_fact-value kind width (length header) (length done) fact _ fits
        ∙ rw (e) (write_value-layout kind width fact header bitmap written target room' fits e₁))
      refl
      (write_facts-layout kind width (done ++ (fact ∷ [])) facts header bitmap
        (written ++ value_bytes width fact) room' hs
        (Holds-unmarked index_error is_null done fact bitmap is present)
        (Roomy-next done facts fact bitmap bitmap space refl) e₂)
