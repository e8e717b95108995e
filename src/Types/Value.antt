-- ===== src/Types/Value.antt =====
-- core/src/types/mod.rs and value.rs: identifiers, value types and cells. The newtypes `TableId`,
-- `SeriesId`, `FieldId`, `F32Bits` and `Sq1` are the numbers that they hold.
use litesdb.Base.{ℕ, Bool, true, Option, none, some, ◌==◌, if◌then◌else◌, ◌<◌, ◌^◌}

abbrev pub TableId : Type 0
TableId = ℕ

abbrev pub SeriesId : Type 0
SeriesId = ℕ

abbrev pub FieldId : Type 0
FieldId = ℕ

pub record StreamKey : Type 0 where
  pub table : TableId
  pub series : SeriesId
  pub field : FieldId

pub data ValueType : Type 0 where
  u_int sq1 f32_bits : ValueType

unfoldable pub tag : ValueType → ℕ
tag u_int = 0
tag sq1 = 1
tag f32_bits = 2

pub data CellValue : Type 0 where
  null : CellValue
  u_int_value : ℕ → CellValue
  sq1_value : ℕ → CellValue
  f32_value : ℕ → CellValue

-- `Sq1::new`: the code 255 stands for null.
unfoldable pub new_sq1 : ℕ → Option ℕ
new_sq1 code = if code == 255 then none else some code

-- `CellValue::sq1`
unfoldable pub sq1_cell : ℕ → CellValue
unfolding new_sq1
sq1_cell code = elim (new_sq1 code) [ some value ↦ sq1_value value | none ↦ null ]

unfoldable pub value_type : CellValue → Option ValueType
value_type null = none
value_type (u_int_value _) = some u_int
value_type (sq1_value _) = some sq1
value_type (f32_value _) = some f32_bits

unfoldable pub matches : CellValue → ValueType → Bool
unfolding value_type tag
matches value expected = elim (value_type value) [
  | none ↦ true
  | some actual ↦ tag actual == tag expected
]

-- The widths of the types: `u64`, the codes below 255, and `u32`.
abbrev pub IsCell : CellValue → Type 0
IsCell null = Unit
IsCell (u_int_value v) = v < 2 ^ 64
IsCell (sq1_value c) = c < 255
IsCell (f32_value b) = b < 2 ^ 32

-- A value of a column: null, or of the type of the field and of its width.
abbrev pub HasType : ValueType → CellValue → Type 0
HasType value_type null = Unit {0}
HasType u_int (u_int_value n) = n < 2 ^ 64
HasType sq1 (sq1_value c) = c < 255
HasType f32_bits (f32_value b) = b < 2 ^ 32
HasType _ _ = ⊥
