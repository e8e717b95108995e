-- ===== src/Codec/Presence/RoundTrip.antt =====
-- The shapes of a column's facts through core/src/codec/presence.rs and back.
use litesdb.Base.{ℕ, zero, suc, ◌+◌, ◌/◌, ◌≤◌, ◌<◌, ◌≡◌, refl, sym, arith, Bool, true, false}
use litesdb.Base.{Option, none, some, List, [], ◌∷◌, ap, ◌∙◌, length, get_elem?, ok, leb}
use litesdb.Base.{◌==◌, if◌then◌else◌, Bool-cases, inl, inr, ==_iff, replicate, corruption, leb→le}
use mathlib.Core.Option
use litesdb.Base.Int.{checked_add, try_from}
use litesdb.Limits.{ensure_at_most, ensure_at_most_ok, section_rows, maximum}
use litesdb.Codec.Bitmap.Marks.{Holds, marked, count_marked, marked_beyond}
use litesdb.Codec.Bitmap.Check.{bitmap_len-ok, validate_bits-Holds}
use litesdb.Codec.Presence.{FactShape, is_fact, PresenceEncoding, all_fact, bitmap, presence_tag}
use litesdb.Codec.Presence.{
  presence_from_tag, PresencePlan, DecodedPresence, is_fact_at, count_facts,
}
use litesdb.Codec.Presence.{
  measure, presence_plan_eq, encode, decode, validate_bitmap, presence_texts,
}
use litesdb.Codec.Presence.{presence_encoding, presence_len, fill_rows}
use litesdb.Codec.Bitmap.Rows.{Holds-mark_rows}

count_marked-le : (ss : List FactShape) → count_marked is_fact ss ≤ length ss
count_marked-le [] = omega arith
count_marked-le (s ∷ ss) = ground (arith, count_marked-le ss)

count_facts-count_marked :
    (start : ℕ) (ss : List FactShape)
    → start + length ss ≤ 65_536
    → count_facts start ss ≡ ok (start + count_marked is_fact ss)
unfolding count_facts checked_add
count_facts-count_marked start [] h = ap (λ t. ok t) (omega arith)
count_facts-count_marked start (s ∷ ss) h = ground (
  arith,
  count_facts-count_marked (start + 1) ss (omega arith),
  count_facts-count_marked start ss (omega arith),
)

-- With as many facts as rows, every row has one.
all_marked :
    (ss : List FactShape) (i : ℕ)
    → count_marked is_fact ss ≡ length ss
    → i < length ss
    → marked is_fact ss i ≡ true
all_marked [] i h lt = absurd (omega arith)
all_marked (s ∷ ss) zero h lt = ground (arith, count_marked-le ss)
all_marked (s ∷ ss) (suc i) h lt =
    all_marked ss i (ground (arith, count_marked-le ss)) (omega arith)

-- The plan of the shapes.
abbrev pub presence_plan : List FactShape → PresencePlan
presence_plan ss = record {
  encoding = presence_encoding (count_marked is_fact ss) (length ss);
  byte_len = if count_marked is_fact ss == length ss then 0 else (length ss + 7) / 8;
  fact_count = count_marked is_fact ss;
}

rows_fit : (n : ℕ) → n ≤ 65_536 → try_from 32 n ≡ some n
unfolding try_from
rows_fit n h = ground arith

measure-presence_plan :
    (ss : List FactShape) → 0 < length ss → length ss ≤ 65_536 → measure ss ≡ ok (presence_plan ss)
unfolding measure
measure-presence_plan ss pos small =
    let counted = count_facts-count_marked 0 ss (omega arith) in
    let start : 0 + count_marked is_fact ss ≡ count_marked is_fact ss = omega arith in
    let some_rows : (length ss == 0) ≡ false = ground arith in
    let rows = rows_fit (length ss) small in
    let limit = ensure_at_most_ok section_rows (length ss) (unfold maximum in small) in
    elim (Bool-cases (count_marked is_fact ss == length ss)) [
      | inl all ↦ rw (some_rows, rows, limit, counted, start, all) refl
      | inr part ↦
          rw
            (
              some_rows,
              rows,
              limit,
              counted,
              start,
              part,
              presence_len,
              bitmap_len-ok "presence" (length ss) small,
            )
            refl
    ]

presence_plan_eq_refl : (p : PresencePlan) → presence_plan_eq p p ≡ true
unfolding presence_plan_eq
presence_plan_eq_refl p = ground arith

from_tag-presence_tag : (e : PresenceEncoding) → presence_from_tag (presence_tag e) ≡ ok e
unfolding presence_from_tag presence_tag
from_tag-presence_tag all_fact = refl
from_tag-presence_tag bitmap = refl

-- Whether the row of an index has a fact, if there is such a row.
abbrev pub shape_at : List FactShape → ℕ → Option Bool
shape_at ss i = Option.map is_fact (get_elem? ss i)

shape_at-marked :
    (ss : List FactShape) (i : ℕ) → i < length ss → shape_at ss i ≡ some (marked is_fact ss i)
shape_at-marked [] i h = absurd (omega arith)
shape_at-marked (s ∷ ss) zero h = refl
shape_at-marked (s ∷ ss) (suc i) h = shape_at-marked ss i (omega arith)

shape_at-beyond : (ss : List FactShape) (i : ℕ) → length ss ≤ i → shape_at ss i ≡ none
shape_at-beyond [] i h = refl
shape_at-beyond (s ∷ ss) zero h = absurd (omega arith)
shape_at-beyond (s ∷ ss) (suc i) h = shape_at-beyond ss i (omega arith)

-- Bytes that an encoding restores the shapes from.
abbrev Restores : List FactShape → PresencePlan → List ℕ → Type 0
Restores ss p bytes =
    (d : DecodedPresence) × (decode (presence_tag p.encoding) (length ss) p.fact_count bytes ≡ ok d)
    × ((i : ℕ) → is_fact_at d i ≡ shape_at ss i)

is_fact_at-shape_at :
    (ss : List FactShape) (d : DecodedPresence)
    → d.row_count ≡ length ss
    → ((i : ℕ) → i < length ss → is_fact_at d i ≡ some (marked is_fact ss i))
    → (i : ℕ) → is_fact_at d i ≡ shape_at ss i
is_fact_at-shape_at ss d rows inside i = elim (Bool-cases (leb d.row_count i)) [
  | inl out ↦
      unfold is_fact_at in rw (out, shape_at-beyond ss i (omega (arith, leb→le _ _ out))) refl
  | inr more ↦ let lt : i < length ss = ground arith in inside i lt ∙ sym (shape_at-marked ss i lt)
]

Restores-all :
    (ss : List FactShape)
    → 0 < length ss
    → length ss ≤ 65_536
    → (count_marked is_fact ss == length ss) ≡ true
    → Restores ss (presence_plan ss) []
Restores-all ss pos small all =
    let same : count_marked is_fact ss ≡ length ss = (==_iff _ _).0 all in
    let d : DecodedPresence = record { row_count = length ss; encoding = all_fact; bytes = [] } in
    (
      d,
      unfold decode ensure_at_most in rw (all, from_tag-presence_tag all_fact) (ground arith),
      is_fact_at-shape_at ss d refl
          (λ i lt. unfold is_fact_at in rw (all_marked ss i same lt) (ground arith)),
    )

Restores-bitmap :
    (ss : List FactShape) (bytes : List ℕ)
    → 0 < length ss
    → length ss ≤ 65_536
    → (count_marked is_fact ss == length ss) ≡ false
    → length bytes ≡ (length ss + 7) / 8
    → Holds bytes (marked is_fact ss) (count_marked is_fact ss)
    → Restores ss (presence_plan ss) bytes
Restores-bitmap ss bytes pos small part size is =
    let d : DecodedPresence = record { row_count = length ss; encoding = bitmap; bytes = bytes } in
    let valid =
      validate_bits-Holds presence_texts (length ss) bytes (marked is_fact ss)
        (count_marked is_fact ss) small is (marked_beyond is_fact ss) size in
    (
      d,
      unfold decode ensure_at_most validate_bitmap in
          rw (part, from_tag-presence_tag bitmap, valid) (ground (arith, count_marked-le ss)),
      is_fact_at-shape_at ss d refl
          (λ i lt. unfold is_fact_at in rw (is.bits i (omega arith)) (ground arith)),
    )

encode-fill_rows :
    (ss : List FactShape) (p : PresencePlan) (slice : List ℕ)
    → measure ss ≡ ok p
    → length slice ≡ p.byte_len
    → encode ss p slice ≡ fill_rows p.encoding ss (replicate p.byte_len 0)
unfolding encode
encode-fill_rows ss p slice measured size =
    rw (measured, presence_plan_eq_refl p, size) (ground arith)

restores :
    (ss : List FactShape)
    → 0 < length ss
    → length ss ≤ 65_536
    → (bytes : List ℕ) × (fill_rows
          (presence_plan ss).encoding
          ss
          (replicate (presence_plan ss).byte_len 0)
        ≡ ok bytes)
      × Restores ss (presence_plan ss) bytes
restores ss pos small = elim (Bool-cases (count_marked is_fact ss == length ss)) [
  | inl all ↦ ([], rw (all) refl, Restores-all ss pos small all)
  | inr part ↦
      let (bytes, marks, size, is) =
        Holds-mark_rows (corruption "presence" "bitmap offset out of bounds") is_fact ss
          ((length ss + 7) / 8) (omega arith) in
      (bytes, rw (part) marks, Restores-bitmap ss bytes pos small part size is)
]

-- Which rows have a fact survives: for one to 65,536 rows, `measure` returns a plan with the number of
-- facts, `encode` succeeds with it on any slice of the plan's length, `decode` accepts what was
-- written, with the plan's tag and count, and `is_fact` says of every row what it had, and of any
-- other index that there is no such row.
pub decode-encode_presence :
    (ss : List FactShape)
    → 0 < length ss
    → length ss ≤ 65_536
    → (p : PresencePlan) × (measure ss ≡ ok p)
      × (p.fact_count ≡ count_marked is_fact ss)
      × ((slice : List ℕ)
          → length slice ≡ p.byte_len
          → (bytes : List ℕ) × (encode ss p slice ≡ ok bytes)
            × (d : DecodedPresence) × (decode
                  (presence_tag p.encoding)
                  (length ss)
                  p.fact_count
                  bytes
                ≡ ok d)
            × ((i : ℕ) → is_fact_at d i ≡ shape_at ss i))
decode-encode_presence ss pos small = (
  presence_plan ss,
  measure-presence_plan ss pos small,
  refl,
  λ slice size.
      let (bytes, filled, back) = restores ss pos small in
      (
        bytes,
        encode-fill_rows ss (presence_plan ss) slice (measure-presence_plan ss pos small) size
            ∙ filled,
        back.0,
        back.1,
        back.2,
      ),
)
