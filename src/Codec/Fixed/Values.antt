-- ===== src/Codec/Fixed/Values.antt =====
-- The bytes of one value of a fixed column.
use litesdb.Base.{ℕ, zero, suc, ◌+◌, ◌-◌, ◌/◌, ◌%◌, ◌^◌, ◌≤◌, ◌<◌, ◌≡◌, refl, sym, arith}
use litesdb.Base.{some, List, [], ◌∷◌, ◌++◌, ap, ◌∙◌, length, ok}
use litesdb.Base.{replicate}
use litesdb.Base.Bytes.{to_le_bytes, length-to_le_bytes, from_le_bytes-to_le_bytes}
use litesdb.Base.Cursor.{split_exact-append}
use litesdb.Types.Value.{CellValue, null, u_int_value, sq1_value, f32_value, new_sq1}
use litesdb.Codec.Fixed.{FixedKind, u_int_kind, sq1_kind, f32_kind}
use litesdb.Codec.Fixed.{value_source, write_value, around, kind_width}
use litesdb.Codec.Fixed.Decode.{value_of}

-- A width of the source.
abbrev pub IsWidth : ℕ → Type 0
IsWidth width = (kind_width u_int_kind (some width) ≡ ok width) × (0 < width) × (width ≤ 8)

-- A value of a kind that fits a width, and not null.
pub data FitsWidth : FixedKind → ℕ → CellValue → Type 0 where
  u_int_fits :
      (width v : ℕ) → v < 256 ^ width → width ≤ 8 → FitsWidth u_int_kind width (u_int_value v)
  sq1_fits : (width c : ℕ) → c < 255 → width ≡ 1 → FitsWidth sq1_kind width (sq1_value c)
  f32_fits : (width b : ℕ) → b < 2 ^ 32 → width ≡ 4 → FitsWidth f32_kind width (f32_value b)

unfoldable pub value_bytes : ℕ → CellValue → List ℕ
value_bytes width null = []
value_bytes width (u_int_value v) = to_le_bytes width v
value_bytes width (sq1_value c) = c ∷ []
value_bytes width (f32_value b) = to_le_bytes 4 b

to_le_bytes-front :
    (n m v : ℕ) → (rest : List ℕ) × (to_le_bytes (n + m) v ≡ to_le_bytes n v ++ rest)
unfolding to_le_bytes
to_le_bytes-front zero m v = (to_le_bytes m v, ap (λ (k : ℕ). to_le_bytes k v) (omega arith))
to_le_bytes-front (suc n) m v =
    let (rest, e) = to_le_bytes-front n m (v / 256) in
    let size : suc n + m ≡ suc (n + m) = omega arith in
    (rest, rw (size, to_le_bytes) (ap (λ bs. v % 256 ∷ bs) e))

pub length-value_bytes :
    (kind : FixedKind) (width : ℕ) (fact : CellValue)
    → FitsWidth kind width fact
    → length (value_bytes width fact) ≡ width
unfolding value_bytes
length-value_bytes _ _ _ (u_int_fits width v h small) = length-to_le_bytes width v
length-value_bytes _ _ _ (sq1_fits width c h e) = sym e
length-value_bytes _ _ _ (f32_fits width b h e) = length-to_le_bytes 4 b ∙ sym e

-- The bytes that are written of a value.
abbrev Sourced : FixedKind → ℕ → CellValue → Type 0
Sourced kind width fact =
    (source : List ℕ) × (others : List ℕ) × (value_source kind width fact ≡ ok (source, width))
    × (source ≡ value_bytes width fact ++ others)

value_source-value_bytes :
    (kind : FixedKind) (width : ℕ) (fact : CellValue)
    → FitsWidth kind width fact
    → Sourced kind width fact
unfolding value_source value_bytes
value_source-value_bytes _ _ _ (u_int_fits width v h small) =
    let (rest, e) = to_le_bytes-front width (8 - width) v in
    let size : 8 ≡ width + (8 - width) = omega arith in
    (_, rest, refl, ap (λ (k : ℕ). to_le_bytes k v) size ∙ e)
value_source-value_bytes _ _ _ (sq1_fits width c h e) = (_, replicate 7 0, rw (e) refl, refl)
value_source-value_bytes _ _ _ (f32_fits width b h e) = (_, replicate 4 0, rw (e) refl, refl)

pub around-append :
    (front target rest : List ℕ)
    → around (length front) (length target) (front ++ (target ++ rest)) ≡ some (front, rest)
unfolding around
around-append front target rest =
    rw
      (
        split_exact-append (length front) front (target ++ rest) refl,
        split_exact-append (length target) target rest refl,
      )
      refl

-- A value is written over as many bytes at its offset.
pub write_value-value_bytes :
    (kind : FixedKind) (width : ℕ) (fact : CellValue) (front target rest : List ℕ)
    → FitsWidth kind width fact
    → length target ≡ width
    → write_value fact kind width (front ++ (target ++ rest), length front)
      ≡ ok (front ++ (value_bytes width fact ++ rest), length front + width)
unfolding write_value
write_value-value_bytes kind width fact front target rest h size =
    let (source, others, is, e) = value_source-value_bytes kind width fact h in
    let room : around (length front) width (front ++ (target ++ rest)) ≡ some (front, rest) =
      ap (λ (w : ℕ). around (length front) w (front ++ (target ++ rest))) (sym size)
      ∙ around-append front target rest in
    rw
      (
        is,
        room,
        e,
        split_exact-append width (value_bytes width fact) others
            (length-value_bytes kind width fact h),
      )
      refl

-- The bytes of a value are read as it.
pub value_of-value_bytes :
    (kind : FixedKind) (width : ℕ) (fact : CellValue)
    → FitsWidth kind width fact
    → value_of kind width (value_bytes width fact) ≡ ok fact
unfolding value_of value_bytes new_sq1
value_of-value_bytes _ _ _ (u_int_fits width v h small) =
    rw (from_le_bytes-to_le_bytes width v h) (ground arith)
value_of-value_bytes _ _ _ (sq1_fits width c h e) = ground arith
value_of-value_bytes _ _ _ (f32_fits width b h e) =
    rw (length-to_le_bytes 4 b, from_le_bytes-to_le_bytes 4 b (omega arith)) refl
