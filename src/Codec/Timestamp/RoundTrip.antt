-- ===== src/Codec/Timestamp/RoundTrip.antt =====
-- A section's timestamps through core/src/codec/timestamp.rs and back.
use litesdb.Base.{ℕ, ◌*◌, ◌≤◌, ◌≡◌, refl, arith, List, ◌∷◌, All, Bool, true, false}
use litesdb.Base.{Option, none, some, ok, ◌∙◌, length, last?, ltb}
use litesdb.Base.{append-nil, Bool-cases, inl, inr, ltb→lt}
use litesdb.Base.Int.{ℤ, eqb_ℤ}
use litesdb.Base.Cursor.{put_i64}
use litesdb.Base.Loops.{put_all}
use litesdb.Limits.{ensure_at_most}
use litesdb.Codec.Nvr.Token.{NvrSymbol, NvrPlan, timestamps}
use litesdb.Codec.Nvr.Runs.{IsSymbol}
use litesdb.Codec.Nvr.Write.{encoding}
use litesdb.Codec.Diff2.{new_diff2_encoder, timestamp_kind}
use litesdb.Codec.Stream.{Taken}
use litesdb.Codec.Stream.Passes.{
  option_plan_eq_refl, symbols_plan, plan_of, finish_encoder-encode_all,
}
use litesdb.Codec.Timestamp.{select, encode, decode, TimestampPlan, TimestampEncoding, fixed, nvr}
use litesdb.Codec.Timestamp.{validate_row_count, choose_encoding, observe_timestamp}
use litesdb.Codec.Timestamp.{encode_nvr, encoding_tag, plan_len, chosen_len, validate_decoded}
use litesdb.Codec.Timestamp.{timestamp_plan_eq, encoding_from_tag, encode_as, decode_as}
use litesdb.Codec.Timestamp.Fixed.{encode_fixed-put_all, decode_fixed-put_all}
use litesdb.Codec.Timestamp.Symbols.{
  disordered-Increasing, IsSection, planned, predicted, select-planned, decode_nvr-encoding,
}

timestamp_plan_eq_refl : (p : TimestampPlan) → timestamp_plan_eq p p ≡ true
unfolding timestamp_plan_eq
timestamp_plan_eq_refl p = rw (option_plan_eq_refl p.nvr_plan) (ground arith)

encode-encode_as :
    (ts : List ℤ) (p : TimestampPlan) (slice : List ℕ)
    → select ts ≡ ok p
    → length slice ≡ plan_len p
    → encode ts p slice ≡ encode_as p.encoding ts p slice
unfolding encode
encode-encode_as ts p slice selected size = rw (selected, timestamp_plan_eq_refl p) (ground arith)

eqb_ℤ_refl : (t : ℤ) → eqb_ℤ t t ≡ true
eqb_ℤ_refl t = ground arith

from_tag-tag : (e : TimestampEncoding) → encoding_from_tag (encoding_tag e) ≡ ok e
unfolding encoding_from_tag encoding_tag
from_tag-tag fixed = refl
from_tag-tag nvr = refl

decode-decode_as :
    (e : TimestampEncoding) (bytes : List ℕ) (t latest : ℤ) (ts : List ℤ)
    → IsSection t ts
    → last? (t ∷ ts) ≡ some latest
    → decode_as e bytes (length (t ∷ ts)) ≡ ok (t ∷ ts)
    → decode (encoding_tag e) bytes (length (t ∷ ts)) t latest ≡ ok (t ∷ ts)
unfolding decode validate_decoded validate_row_count ensure_at_most
decode-decode_as e bytes t latest ts is end back =
    rw
      (
        from_tag-tag e,
        back,
        end,
        eqb_ℤ_refl t,
        eqb_ℤ_refl latest,
        disordered-Increasing (t ∷ ts) is.ordered,
      )
      (ground arith)

encode_nvr-encoding :
    (t : ℤ) (ts : List ℤ) (ys : List NvrSymbol) (p : TimestampPlan) (slice : List ℕ)
    → IsSection t ts
    → Taken observe_timestamp (new_diff2_encoder timestamp_kind) (t ∷ ts) ys true
    → All (IsSymbol timestamps) ys
    → p.nvr_plan ≡ some (symbols_plan ys)
    → length slice ≡ length (encoding ys)
    → encode_nvr (t ∷ ts) p slice ≡ ok (encoding ys)
unfolding encode_nvr
encode_nvr-encoding t ts ys p slice is trace h has size =
    let (e, all, done) =
      finish_encoder-encode_all observe_timestamp timestamps "timestamp selector"
        (new_diff2_encoder timestamp_kind) t ts ys slice trace h is.small size in
    rw (has, all, done, append-nil (encoding ys), size) (ground arith)

-- What a plan of an encoding promises.
abbrev Restores : ℤ → List ℤ → ℤ → TimestampPlan → Type 0
Restores t ts latest p =
    (slice : List ℕ)
    → length slice ≡ plan_len p
    → (bytes : List ℕ) × (encode (t ∷ ts) p slice ≡ ok bytes)
      × (decode (encoding_tag p.encoding) bytes p.row_count t latest ≡ ok (t ∷ ts))

Restores-fixed :
    (t : ℤ) (ts : List ℤ) (latest : ℤ) (p : TimestampPlan)
    → IsSection t ts
    → last? (t ∷ ts) ≡ some latest
    → select (t ∷ ts) ≡ ok p
    → p.encoding ≡ fixed
    → p.row_count ≡ length (t ∷ ts)
    → p.fixed_len ≡ length (t ∷ ts) * 8
    → Restores t ts latest p
Restores-fixed t ts latest p is end selected enc rows len slice size =
    let whole : length slice ≡ length (t ∷ ts) * 8 =
      size ∙ rw (enc, len) (unfold chosen_len in refl) in
    (
      put_all put_i64 (t ∷ ts),
      encode-encode_as (t ∷ ts) p slice selected size
          ∙ rw (enc) (encode_fixed-put_all (t ∷ ts) slice whole),
      rw (rows, enc)
          (decode-decode_as fixed (put_all put_i64 (t ∷ ts)) t latest ts is end
            (decode_fixed-put_all (t ∷ ts) is.typed is.small)),
    )

Restores-nvr :
    (t : ℤ) (ts : List ℤ) (latest : ℤ) (ys : List NvrSymbol) (p : TimestampPlan)
    → IsSection t ts
    → last? (t ∷ ts) ≡ some latest
    → select (t ∷ ts) ≡ ok p
    → Taken observe_timestamp (new_diff2_encoder timestamp_kind) (t ∷ ts) ys true
    → All (IsSymbol timestamps) ys
    → p.encoding ≡ nvr
    → p.row_count ≡ length (t ∷ ts)
    → p.nvr_plan ≡ some (symbols_plan ys)
    → Restores t ts latest p
unfolding encode_nvr
Restores-nvr t ts latest ys p is end selected trace h enc rows has slice size =
    let whole : length slice ≡ length (encoding ys) =
      size ∙ rw (enc, has) (unfold chosen_len in refl) in
    (
      encoding ys,
      encode-encode_as (t ∷ ts) p slice selected size
          ∙ rw (enc) (encode_nvr-encoding t ts ys p slice is trace h has whole),
      rw (rows, enc)
          (decode-decode_as nvr (encoding ys) t latest ts is end
            (decode_nvr-encoding t ts ys is trace h)),
    )

Restores-selected :
    (t : ℤ) (ts : List ℤ) (latest : ℤ) (ys : List NvrSymbol) (whole : Bool)
    → IsSection t ts
    → last? (t ∷ ts) ≡ some latest
    → select (t ∷ ts) ≡ ok (planned (plan_of whole ys) (length (t ∷ ts)))
    → Taken observe_timestamp (new_diff2_encoder timestamp_kind) (t ∷ ts) ys whole
    → All (IsSymbol timestamps) ys
    → Restores t ts latest (planned (plan_of whole ys) (length (t ∷ ts)))
unfolding choose_encoding
Restores-selected t ts latest ys false is end selected trace h =
    Restores-fixed t ts latest _ is end selected refl refl refl
Restores-selected t ts latest ys true is end selected trace h =
    elim (Bool-cases (ltb (length (encoding ys)) (length (t ∷ ts) * 8))) [
      | inl less ↦
          Restores-nvr t ts latest ys (planned (some (symbols_plan ys)) (length (t ∷ ts))) is end
            selected trace h (rw (less) refl) refl refl
      | inr more ↦
          Restores-fixed t ts latest (planned (some (symbols_plan ys)) (length (t ∷ ts))) is end
            selected (rw (more) refl) refl refl
    ]

plan_len-planned : (plan : Option NvrPlan) (rows : ℕ) → plan_len (planned plan rows) ≤ rows * 8
unfolding choose_encoding chosen_len
plan_len-planned none rows = omega arith
plan_len-planned (some plan) rows = elim (Bool-cases (ltb plan.byte_len (rows * 8))) [
  | inl less ↦ rw (less, chosen_len) (omega (arith, ltb→lt _ _ less))
  | inr more ↦ rw (more, chosen_len) (omega arith)
]

-- Every section's timestamps survive: for one to 65,536 `i64` timestamps in strictly increasing order,
-- `select` returns a plan of at most eight bytes for each timestamp, `encode` succeeds with that plan on
-- any slice of the plan's length, and `decode` of what it wrote, with the plan's tag and count and
-- with the first and the last timestamp, is the timestamps.
pub decode-encode_section :
    (t : ℤ) (ts : List ℤ) (latest : ℤ)
    → IsSection t ts
    → last? (t ∷ ts) ≡ some latest
    → (p : TimestampPlan) × (select (t ∷ ts) ≡ ok p)
      × (p.row_count ≡ length (t ∷ ts))
      × (plan_len p ≤ length (t ∷ ts) * 8)
      × ((slice : List ℕ)
          → length slice ≡ plan_len p
          → (bytes : List ℕ) × (encode (t ∷ ts) p slice ≡ ok bytes)
            × (decode (encoding_tag p.encoding) bytes p.row_count t latest ≡ ok (t ∷ ts)))
decode-encode_section t ts latest is end =
    let (ys, whole, trace, h) = predicted t ts in
    let selected = select-planned t ts ys whole is trace h in
    (
      planned (plan_of whole ys) (length (t ∷ ts)),
      selected,
      refl,
      plan_len-planned (plan_of whole ys) (length (t ∷ ts)),
      Restores-selected t ts latest ys whole is end selected trace h,
    )
