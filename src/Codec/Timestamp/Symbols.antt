-- ===== src/Codec/Timestamp/Symbols.antt =====
-- The predictor on the timestamps of a section: what it selects, and what its symbols decode to.
use litesdb.Base.{ℕ, ◌*◌, ◌≤◌, ◌≡◌, refl, arith, List, [], ◌∷◌, All, Bool, true, false}
use litesdb.Base.{Option, none, some, ok, >>=-eq-ok, length, map}
use litesdb.Base.Int.{◌<ℤ◌, ℤ, IsI64, checked_mul, try_from}
use litesdb.Limits.{ensure_at_most}
use litesdb.Codec.Nvr.Token.{NvrSymbol, value, NvrPlan, timestamps}
use litesdb.Codec.Nvr.Runs.{IsSymbol, count_nulls}
use litesdb.Codec.Nvr.RoundTrip.{decode-encoding}
use litesdb.Codec.Nvr.Write.{encoding}
use litesdb.Codec.Diff2.{Diff2Value, Diff2Decoder, decode_symbol, input_value, timestamp_kind}
use litesdb.Codec.Diff2.{new_diff2_encoder, new_diff2_decoder, DecodedDiff2}
use litesdb.Codec.Diff2.RoundTrip.{decode_symbols, decode_symbols-observe_values, IsTyped, decoded}
use litesdb.Codec.Diff2.Streams.{Admissible, take_up, observe_values-Taken, TakenUp}
use litesdb.Codec.Stream.{Taken, length-Taken, counts_disagree}
use litesdb.Codec.Stream.Passes.{plan_of, finish_option-offer_all}
use litesdb.Codec.Timestamp.{select, TimestampPlan}
use litesdb.Codec.Timestamp.{validate_source, disordered, choose_encoding}
use litesdb.Codec.Timestamp.{observe_timestamp, decode_all, decode_nvr}

abbrev pub Increasing : List ℤ → Type 0
Increasing [] = Unit {0}
Increasing (a ∷ []) = Unit {0}
Increasing (a ∷ (b ∷ ts)) = (a <ℤ b) × Increasing (b ∷ ts)

pub disordered-Increasing : (ts : List ℤ) → Increasing ts → disordered ts ≡ false
disordered-Increasing [] h = refl
disordered-Increasing (a ∷ []) h = refl
disordered-Increasing (a ∷ (b ∷ ts)) (lt, h) = ground (arith, disordered-Increasing (b ∷ ts) h)

pub Increasing-of : (ts : List ℤ) → disordered ts ≡ false → Increasing ts
Increasing-of [] h = tt
Increasing-of (a ∷ []) h = tt
Increasing-of (a ∷ (b ∷ ts)) h = (ground arith, Increasing-of (b ∷ ts) (ground arith))

-- The timestamps of a section: at least one and at most 65,536, each an `i64`, in strictly increasing
-- order.
pub record IsSection (t : ℤ) (ts : List ℤ) : Type 0 where
  pub typed : All IsI64 (t ∷ ts)
  pub small : length (t ∷ ts) ≤ 65_536
  pub ordered : Increasing (t ∷ ts)

all-Admissible : (ts : List ℤ) → All (λ t. Admissible timestamp_kind (Diff2Value.timestamp t)) ts
unfolding input_value
all-Admissible [] = tt
all-Admissible (t ∷ ts) = ((some t, refl), all-Admissible ts)

no_nulls : (ys : List NvrSymbol) → All (IsSymbol timestamps) ys → count_nulls ys ≡ 0
unfolding count_nulls
no_nulls [] h = refl
no_nulls (NvrSymbol.null ∷ ys) (h, hs) = cc
no_nulls (value v ∷ ys) (h, hs) = omega (arith, no_nulls ys hs)

validate_source_ok :
    (t : ℤ) (ts : List ℤ) → IsSection t ts → validate_source (t ∷ ts) ≡ ok (length (t ∷ ts))
unfolding validate_source ensure_at_most try_from
validate_source_ok t ts is = rw (disordered-Increasing (t ∷ ts) is.ordered) (ground arith)

pub fixed_len_ok : (n : ℕ) → n ≤ 65_536 → checked_mul 32 n 8 ≡ some (n * 8)
unfolding checked_mul
fixed_len_ok n h = ground arith

counts_agree :
    (ys : List NvrSymbol) (whole : Bool) (rows : ℕ)
    → (whole ≡ true → length ys ≡ rows)
    → count_nulls ys ≡ 0
    → counts_disagree (plan_of whole ys) rows 0 ≡ false
counts_agree ys false rows eq none_null = refl
counts_agree ys true rows eq none_null = ground (arith, eq refl)

abbrev pub planned : Option NvrPlan → ℕ → TimestampPlan
planned plan rows = record {
  encoding = choose_encoding plan (rows * 8);
  fixed_len = rows * 8;
  nvr_plan = plan;
  row_count = rows;
}

-- What the predictor does on a section.
abbrev pub Predicted : ℤ → List ℤ → Type 0
Predicted t ts =
    TakenUp Diff2Value.timestamp timestamp_kind (new_diff2_encoder timestamp_kind) (t ∷ ts)

pub predicted : (t : ℤ) (ts : List ℤ) → Predicted t ts
unfolding new_diff2_encoder
predicted t ts =
    take_up Diff2Value.timestamp timestamp_kind none none (t ∷ ts) (all-Admissible (t ∷ ts))

pub select-planned :
    (t : ℤ) (ts : List ℤ) (ys : List NvrSymbol) (whole : Bool)
    → IsSection t ts
    → Taken observe_timestamp (new_diff2_encoder timestamp_kind) (t ∷ ts) ys whole
    → All (IsSymbol timestamps) ys
    → select (t ∷ ts) ≡ ok (planned (plan_of whole ys) (length (t ∷ ts)))
unfolding select
select-planned t ts ys whole is trace h =
    let (s', m, offered, done) =
      finish_option-offer_all observe_timestamp timestamps (new_diff2_encoder timestamp_kind) t ts
        ys whole trace h is.small in
    let (_, eq) = length-Taken observe_timestamp _ (t ∷ ts) ys whole trace in
    rw
      (
        validate_source_ok t ts is,
        fixed_len_ok (length (t ∷ ts)) is.small,
        offered,
        done,
        counts_agree ys whole (length (t ∷ ts)) eq (no_nulls ys h),
      )
      refl

IsTyped-values : (ts : List ℤ) → All IsI64 ts → All IsTyped (map Diff2Value.timestamp ts)
IsTyped-values [] h = tt
IsTyped-values (t ∷ ts) (h, hs) = (h, IsTyped-values ts hs)

decode_all-decode_symbols :
    (d : Diff2Decoder) (ss : List NvrSymbol) (ts : List ℤ)
    → decode_symbols d ss ≡ ok (map decoded (map Diff2Value.timestamp ts))
    → decode_all d ss ≡ ok ts
unfolding decode_symbols decode_all decoded
decode_all-decode_symbols d [] [] h = refl
decode_all-decode_symbols d [] (t ∷ ts) h = cc
decode_all-decode_symbols d (s ∷ ss) [] h =
    let ((d', out), first, h₁) = >>=-eq-ok (decode_symbol d s) _ h in
    let (rest, others, same) = >>=-eq-ok (decode_symbols d' ss) _ h₁ in cc
decode_all-decode_symbols d (s ∷ ss) (t ∷ ts) h =
    let ((d', out), first, h₁) = >>=-eq-ok (decode_symbol d s) _ h in
    let (rest, others, same) = >>=-eq-ok (decode_symbols d' ss) _ h₁ in
    let here : decode_symbol d s ≡ ok (d', DecodedDiff2.timestamp t) = cc in
    let later : decode_symbols d' ss ≡ ok (map decoded (map Diff2Value.timestamp ts)) = cc in
    rw (here, decode_all-decode_symbols d' ss ts later) refl

-- The symbols of a section are decoded to its timestamps.
pub decode_nvr-encoding :
    (t : ℤ) (ts : List ℤ) (ys : List NvrSymbol)
    → IsSection t ts
    → Taken observe_timestamp (new_diff2_encoder timestamp_kind) (t ∷ ts) ys true
    → All (IsSymbol timestamps) ys
    → decode_nvr (encoding ys) (length (t ∷ ts)) ≡ ok (t ∷ ts)
unfolding decode_nvr
decode_nvr-encoding t ts [] is trace h =
    absurd (omega (arith, (length-Taken observe_timestamp _ (t ∷ ts) [] true trace).1 refl))
decode_nvr-encoding t ts (y ∷ ys) is trace h =
    let rows = (length-Taken observe_timestamp _ (t ∷ ts) (y ∷ ys) true trace).1 refl in
    let nulls = no_nulls (y ∷ ys) h in
    let small : length (y ∷ ys) ≤ 65_536 = omega (arith, is.small) in
    let back =
      decode_symbols-observe_values timestamp_kind (map Diff2Value.timestamp (t ∷ ts)) (y ∷ ys) tt
        (IsTyped-values (t ∷ ts) is.typed)
        (observe_values-Taken Diff2Value.timestamp _ (t ∷ ts) (y ∷ ys) trace) in
    rw
      (
        ← rows,
        ← nulls,
        decode-encoding timestamps y ys h small,
        decode_all-decode_symbols (new_diff2_decoder timestamp_kind) (y ∷ ys) (t ∷ ts) back,
      )
      refl
