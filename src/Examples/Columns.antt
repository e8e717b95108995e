-- ===== src/Examples/Columns.antt =====
-- The encodings of columns at concrete inputs.
use litesdb.Base.{ℕ, ◌≡◌, ◌≤◌, ◌*◌, refl, List, [], ◌∷◌, ok, some, arith, length, get_elem?, last?}
use litesdb.Base.Int.{ℤ, pos, negsuc}
use litesdb.Types.Value.{CellValue, null, u_int_value, sq1_value, sq1}
use litesdb.Codec.Timestamp as Timestamp
use litesdb.Codec.Timestamp.{TimestampPlan, plan_len, encoding_tag}
use litesdb.Codec.Timestamp.Symbols.{Increasing}
use litesdb.Codec.Timestamp.RoundTrip.{decode-encode_section}
use litesdb.Codec.Timestamp.Sound.{decode-Increasing}
use litesdb.Codec.Presence as Presence
use litesdb.Codec.Presence.{
  FactShape, absent, value, PresencePlan, DecodedPresence, presence_tag, is_fact,
}
use litesdb.Codec.Presence.{is_fact_at}
use litesdb.Codec.Presence.RoundTrip.{decode-encode_presence, shape_at}
use litesdb.Codec.Bitmap.Marks.{count_marked}
use litesdb.Codec.Fixed as Fixed
use litesdb.Codec.Fixed.{FixedPlan, u_int_kind}
use litesdb.Codec.Fixed.Decode as FixedDecode
use litesdb.Codec.Fixed.Measure.{count_nulls, null_fact, u_int_fact}
use litesdb.Codec.Fixed.RoundTrip.{decode-encode_column}
use litesdb.Codec.Fixed.Sound.{decode-IsColumn, IsDecoded}
use litesdb.Codec.Selector as Selector
use litesdb.Codec.Selector.{Selection, selected_len, value_tag}
use litesdb.Codec.Selector.RoundTrip.{decode-encode_selected}
use litesdb.Limits.{ensure_at_most}
use litesdb.Base.Int.{checked_add, checked_mul}
use litesdb.Base.Cursor.{split_exact, slice, tail_from}
use litesdb.Base.Bytes.{i64_from_bits, from_le_bytes}
use litesdb.Codec.Bitmap.{has}

abbrev minutes : List ℤ
minutes = negsuc 59 ∷ (pos 0 ∷ (pos 60 ∷ []))

decode-encode_section_example :
    (p : TimestampPlan) × (Timestamp.select minutes ≡ ok p)
    × (p.row_count ≡ length minutes)
    × (plan_len p ≤ length minutes * 8)
    × ((slice : List ℕ)
        → length slice ≡ plan_len p
        → (bytes : List ℕ) × (Timestamp.encode minutes p slice ≡ ok bytes)
          × (Timestamp.decode (encoding_tag p.encoding) bytes p.row_count (negsuc 59) (pos 60)
              ≡ ok minutes))
decode-encode_section_example =
    decode-encode_section (negsuc 59) (pos 0 ∷ (pos 60 ∷ [])) (pos 60)
      (record { typed = omega arith; small = omega arith; ordered = omega arith }) refl

abbrev two_bytes : List ℕ
two_bytes = 1 ∷ 0 ∷ 0 ∷ 0 ∷ 0 ∷ 0 ∷ 0 ∷ 0 ∷ 5 ∷ 0 ∷ 0 ∷ 0 ∷ 0 ∷ 0 ∷ 0 ∷ 0 ∷ []

decode-two_bytes : Timestamp.decode 0 two_bytes 2 (pos 1) (pos 5) ≡ ok (pos 1 ∷ (pos 5 ∷ []))
unfolding Timestamp.decode ensure_at_most checked_mul split_exact i64_from_bits from_le_bytes
decode-two_bytes = refl

decode-Increasing_example :
    (1 ≤ 2)
    × (2 ≤ 65_536)
    × (length (pos 1 ∷ (pos 5 ∷ [])) ≡ 2)
    × Increasing (pos 1 ∷ (pos 5 ∷ []))
    × (get_elem? (pos 1 ∷ (pos 5 ∷ [])) 0 ≡ some (pos 1))
    × (last? (pos 1 ∷ (pos 5 ∷ [])) ≡ some (pos 5))
decode-Increasing_example =
    decode-Increasing 0 two_bytes 2 (pos 1) (pos 5) (pos 1 ∷ (pos 5 ∷ [])) decode-two_bytes

abbrev shapes : List FactShape
shapes = value ∷ (absent ∷ (FactShape.null ∷ []))

decode-encode_presence_example :
    (p : PresencePlan) × (Presence.measure shapes ≡ ok p)
    × (p.fact_count ≡ count_marked is_fact shapes)
    × ((slice : List ℕ)
        → length slice ≡ p.byte_len
        → (bytes : List ℕ) × (Presence.encode shapes p slice ≡ ok bytes)
          × (d : DecodedPresence) × (Presence.decode
                (presence_tag p.encoding)
                (length shapes)
                p.fact_count
                bytes
              ≡ ok d)
          × ((i : ℕ) → is_fact_at d i ≡ shape_at shapes i))
decode-encode_presence_example = decode-encode_presence shapes (omega arith) (omega arith)

abbrev cells : List CellValue
cells = u_int_value 300 ∷ (null ∷ (u_int_value 7 ∷ []))

decode-encode_column_example :
    (p : FixedPlan) × (Fixed.measure cells u_int_kind ≡ ok p)
    × (p.fact_count ≡ length cells)
    × (p.null_count ≡ count_nulls cells)
    × ((slice : List ℕ)
        → length slice ≡ p.byte_len
        → (bytes : List ℕ) × (Fixed.encode cells p slice ≡ ok bytes)
          × (FixedDecode.decode u_int_kind bytes p.fact_count p.null_count ≡ ok cells))
decode-encode_column_example = decode-encode_column u_int_kind cells (record {
  typed = (u_int_fact 300 (omega arith), (null_fact u_int_kind, (u_int_fact 7 (omega arith), tt)));
  present = omega arith;
  small = omega arith;
})

abbrev codes : List CellValue
codes = sq1_value 17 ∷ (sq1_value 17 ∷ (null ∷ (sq1_value 254 ∷ [])))

decode-encode_selected_example :
    (s : Selection) × (Selector.select codes sq1 ≡ ok s)
    × (selected_len s.encoding s.fixed_plan s.nvr_plan ≤ s.fixed_plan.byte_len)
    × ((slice : List ℕ)
        → length slice ≡ selected_len s.encoding s.fixed_plan s.nvr_plan
        → (bytes : List ℕ) × (Selector.encode codes sq1 s slice ≡ ok bytes)
          × (Selector.decode sq1 (value_tag s.encoding) bytes (length codes) (count_nulls codes)
              ≡ ok codes))
decode-encode_selected_example =
    decode-encode_selected sq1 (sq1_value 17) (sq1_value 17 ∷ (null ∷ (sq1_value 254 ∷ [])))
      (omega arith) (omega arith)

-- The rows 0 and 2 have a fact.
decode-shapes :
    Presence.decode 1 3 2 (5 ∷ [])
    ≡ ok (record { row_count = 3; encoding = Presence.bitmap; bytes = 5 ∷ [] })
unfolding Presence.decode ensure_at_most checked_add
decode-shapes = refl

-- The width 2, the bitmap of the second row, and the values.
decode-cells : FixedDecode.decode u_int_kind (2 ∷ 2 ∷ 44 ∷ 1 ∷ 7 ∷ 0 ∷ []) 3 1 ≡ ok cells
unfolding FixedDecode.decode ensure_at_most checked_add checked_mul slice tail_from split_exact has
    from_le_bytes
decode-cells = refl

decode-IsColumn_example : IsDecoded u_int_kind (2 ∷ 2 ∷ 44 ∷ 1 ∷ 7 ∷ 0 ∷ []) 3 1 cells
decode-IsColumn_example =
    decode-IsColumn u_int_kind (2 ∷ 2 ∷ 44 ∷ 1 ∷ 7 ∷ 0 ∷ []) 3 1 cells (omega arith) decode-cells
