-- ===== src/Codec/Selector/RoundTrip.antt =====
-- A column through core/src/codec/selector.rs and back.
use litesdb.Base.{==_refl}
use litesdb.Base.{ℕ, ◌≤◌, ◌≡◌, refl, arith, Bool, true, false, Option, none, some, List, [], ◌∷◌}
use litesdb.Base.{All, ap, ◌∙◌, length, ok, Bool-cases, inl, inr, ltb}
use litesdb.Base.{append-nil, ltb→lt}
use litesdb.Types.Value.{CellValue, ValueType, HasType}
use litesdb.Codec.Nvr.Token.{NvrSymbol, NvrPlan, values}
use litesdb.Codec.Nvr.Runs.{IsSymbol}
use litesdb.Codec.Nvr.Write.{encoding}
use litesdb.Codec.Nvr.RoundTrip.{decode-encoding}
use litesdb.Codec.Stream.{Taken, length-Taken}
use litesdb.Codec.Stream.Passes.{symbols_plan, plan_of, finish_encoder-encode_all}
use litesdb.Codec.Fixed.{
  FixedMeasurer, FixedPlan, kind_of_type, observe_facts, observe_fixed, finish_fixed,
}
use litesdb.Codec.Fixed.{new_fixed_measurer}
use litesdb.Codec.Fixed as Fixed
use litesdb.Codec.Fixed.Measure.{count_nulls}
use litesdb.Codec.Fixed.RoundTrip.{decode-encode_plan}
use litesdb.Codec.Selector.{Selection, ValueEncoding, fixed, nvr, value_tag, selected_len}
use litesdb.Codec.Selector.{observe_fact, new_predictor, new_reconstructor, reconstruct_all}
use litesdb.Codec.Selector.{select, choose, selection_eq, encode, encode_as, encode_nvr}
use litesdb.Codec.Selector.{decode, decode_as}
use litesdb.Codec.Selector.Symbols.{count_nulls-Taken}
use litesdb.Codec.Selector.Decoded.{code_column}
use litesdb.Codec.Stream.Passes.{option_plan_eq_refl}
use litesdb.Codec.Fixed.Plan.{fixed_plan}
use litesdb.Codec.Fixed.Column.{fixed_plan_eq_refl}
use litesdb.Codec.Selector.Selected.{selection, is_column, select-selection}

selection_eq_refl : (s : Selection) → selection_eq s s ≡ true
unfolding selection_eq
selection_eq_refl s =
    rw
      (
        ==_refl (value_tag s.encoding),
        fixed_plan_eq_refl s.fixed_plan,
        option_plan_eq_refl s.nvr_plan,
      )
      refl

module _ (t : ValueType) (x : CellValue) (xs : List CellValue) (typed : All (HasType t) (x ∷ xs))
    (small : length (x ∷ xs) ≤ 65_536) where
  abbrev facts : List CellValue
  facts = x ∷ xs

  -- What a selection promises.
  abbrev Restores : Selection → Type 0
  Restores s =
      (slice : List ℕ)
      → length slice ≡ selected_len s.encoding s.fixed_plan s.nvr_plan
      → (bytes : List ℕ) × (encode facts t s slice ≡ ok bytes)
        × (decode t (value_tag s.encoding) bytes (length facts) (count_nulls facts) ≡ ok facts)

  encode_as_fixed :
      (s : Selection) (slice bytes : List ℕ)
      → s.encoding ≡ fixed
      → s.fixed_plan ≡ fixed_plan (kind_of_type t) facts
      → Fixed.encode facts (fixed_plan (kind_of_type t) facts) slice ≡ ok bytes
      → encode_as s.encoding facts t s slice ≡ ok bytes
  encode_as_fixed s slice bytes enc plan written =
      ap (λ e. encode_as e facts t s slice) enc
      ∙ ap (λ p. Fixed.encode facts p slice) plan
      ∙ written

  encode_as_nvr :
      (s : Selection) (slice : List ℕ) (ys : List NvrSymbol)
      → s.encoding ≡ nvr
      → s.nvr_plan ≡ some (symbols_plan ys)
      → length slice ≡ length (encoding ys)
      → Taken observe_fact (new_predictor t) facts ys true
      → All (IsSymbol values) ys
      → encode_as s.encoding facts t s slice ≡ ok (encoding ys)
  unfolding encode_nvr
  encode_as_nvr s slice ys enc plan size trace h =
      let (e, all, done) =
        finish_encoder-encode_all observe_fact values "selector" (new_predictor t) x xs ys slice
          trace h small size in
      ap (λ e. encode_as e facts t s slice) enc
      ∙ rw (plan, size, ==_refl (length (encoding ys)), all, done, append-nil (encoding ys))
          (ground arith)

  decode_symbols_back :
      (ys : List NvrSymbol)
      → Taken observe_fact (new_predictor t) facts ys true
      → All (IsSymbol values) ys
      → reconstruct_all (new_reconstructor t) ys ≡ ok facts
      → decode_as nvr t (encoding ys) (length facts) (count_nulls facts) ≡ ok facts
  decode_symbols_back [] trace h back =
      absurd
        (omega (arith, (length-Taken observe_fact (new_predictor t) facts [] true trace).1 refl))
  decode_symbols_back (y ∷ ys) trace h back =
      let rows = (length-Taken observe_fact (new_predictor t) facts (y ∷ ys) true trace).1 refl in
      let nulls = count_nulls-Taken (new_predictor t) facts (y ∷ ys) trace in
      rw (← rows, ← nulls, decode-encoding values y ys h (omega (arith, rows)), back) refl

  encode-encode_as :
      (s : Selection) (slice : List ℕ)
      → select facts t ≡ ok s
      → encode facts t s slice ≡ encode_as s.encoding facts t s slice
  unfolding encode
  encode-encode_as s slice selected = rw (selected, selection_eq_refl s) refl

  decode-decode_as :
      (s : Selection) (e : ValueEncoding) (bytes : List ℕ)
      → s.encoding ≡ e
      → decode_as e t bytes (length facts) (count_nulls facts) ≡ ok facts
      → decode t (value_tag s.encoding) bytes (length facts) (count_nulls facts) ≡ ok facts
  unfolding decode value_tag
  decode-decode_as s fixed bytes enc back = rw (enc) back
  decode-decode_as s nvr bytes enc back = rw (enc) back

  Restores-fixed :
      (s : Selection)
      → select facts t ≡ ok s
      → s.encoding ≡ fixed
      → s.fixed_plan ≡ fixed_plan (kind_of_type t) facts
      → Restores s
  Restores-fixed s selected enc plan slice size =
      let kind = kind_of_type t in
      let whole : length slice ≡ (fixed_plan kind facts).byte_len =
        size ∙ rw (enc, plan) (unfold selected_len in refl) in
      let (bytes, written, back) =
        decode-encode_plan kind facts slice (is_column t x xs typed small) whole in
      (
        bytes,
        encode-encode_as s slice selected ∙ encode_as_fixed s slice bytes enc plan written,
        decode-decode_as s fixed bytes enc back,
      )

  Restores-nvr :
      (s : Selection) (ys : List NvrSymbol)
      → select facts t ≡ ok s
      → Taken observe_fact (new_predictor t) facts ys true
      → All (IsSymbol values) ys
      → reconstruct_all (new_reconstructor t) ys ≡ ok facts
      → s.encoding ≡ nvr
      → s.nvr_plan ≡ some (symbols_plan ys)
      → Restores s
  Restores-nvr s ys selected trace h back enc plan slice size =
      let whole : length slice ≡ length (encoding ys) =
        size ∙ rw (enc, plan) (unfold selected_len in refl) in
      (
        encoding ys,
        encode-encode_as s slice selected ∙ encode_as_nvr s slice ys enc plan whole trace h,
        decode-decode_as s nvr (encoding ys) enc (decode_symbols_back ys trace h back),
      )

  Restores-selected :
      (ys : List NvrSymbol) (whole : Bool)
      → Taken observe_fact (new_predictor t) facts ys whole
      → All (IsSymbol values) ys
      → (whole ≡ true → reconstruct_all (new_reconstructor t) ys ≡ ok facts)
      → select facts t ≡ ok (selection t facts (plan_of whole ys))
      → Restores (selection t facts (plan_of whole ys))
  Restores-selected ys false trace h back selected =
      Restores-fixed (selection t facts none) selected refl refl
  Restores-selected ys true trace h back selected =
      let s : Selection = selection t facts (some (symbols_plan ys)) in
      elim (Bool-cases (ltb (length (encoding ys)) s.fixed_plan.byte_len)) [
        | inl less ↦
            Restores-nvr (selection t facts (some (symbols_plan ys))) ys selected trace h
              (back refl) (rw (less) refl) refl
        | inr more ↦
            Restores-fixed (selection t facts (some (symbols_plan ys))) selected (rw (more) refl)
              refl
      ]

  selected_len-selection :
      (plan : Option NvrPlan)
      → selected_len
          (choose (fixed_plan (kind_of_type t) facts) plan)
          (fixed_plan (kind_of_type t) facts)
          plan
        ≤ (fixed_plan (kind_of_type t) facts).byte_len
  unfolding selected_len
  selected_len-selection none = omega arith
  selected_len-selection (some plan) =
      elim (Bool-cases (ltb plan.byte_len (fixed_plan (kind_of_type t) facts).byte_len)) [
        | inl less ↦ rw (less, selected_len) (omega (arith, ltb→lt _ _ less))
        | inr more ↦ rw (more, selected_len) (omega arith)
      ]

-- Every column survives the choice of its encoding: for one to 65,536 nulls and values of the
-- column's type, `select` returns a selection of at most the bytes of the fixed plan, `encode`
-- succeeds with it on any slice of the selection's length, and `decode` of what it wrote, with
-- the selection's tag and the counts of the facts and of the nulls, is the column.
pub decode-encode_selected :
    (t : ValueType) (x : CellValue) (xs : List CellValue)
    → All (HasType t) (x ∷ xs)
    → length (x ∷ xs) ≤ 65_536
    → (s : Selection) × (select (x ∷ xs) t ≡ ok s)
      × (selected_len s.encoding s.fixed_plan s.nvr_plan ≤ s.fixed_plan.byte_len)
      × ((slice : List ℕ)
          → length slice ≡ selected_len s.encoding s.fixed_plan s.nvr_plan
          → (bytes : List ℕ) × (encode (x ∷ xs) t s slice ≡ ok bytes)
            × (decode t (value_tag s.encoding) bytes (length (x ∷ xs)) (count_nulls (x ∷ xs))
                ≡ ok (x ∷ xs)))
decode-encode_selected t x xs typed small =
    let (ys, whole, trace, h, back) = code_column t (x ∷ xs) typed in
    let selected = select-selection t x xs typed small ys whole trace h in
    (
      selection t (x ∷ xs) (plan_of whole ys),
      selected,
      selected_len-selection t x xs typed small (plan_of whole ys),
      Restores-selected t x xs typed small ys whole trace h back selected,
    )
