-- ===== src/Codec/Selector/Selected.antt =====
-- What `select` of core/src/codec/selector.rs chooses for a column.
use litesdb.Base.{==_refl}
use litesdb.Base.{◌≤◌, ◌≡◌, refl, arith, Bool, true, false, Option, some, List, [], ◌∷◌}
use litesdb.Base.{All, length, ok, >>=-eq-ok}
use litesdb.Types.Value.{CellValue, ValueType, HasType}
use litesdb.Codec.Nvr.Token.{NvrSymbol, NvrPlan, values}
use litesdb.Codec.Nvr.Encode.{new_measurer, NvrMeasurer}
use litesdb.Codec.Nvr.Runs.{IsSymbol}
use litesdb.Codec.Stream.{Taken, length-Taken, offer, offer_all, counts_disagree}
use litesdb.Codec.Stream.Passes.{plan_of, finish_option-offer_all}
use litesdb.Codec.Fixed.{
  FixedMeasurer, FixedPlan, kind_of_type, observe_facts, observe_fixed, finish_fixed,
}
use litesdb.Codec.Fixed.{new_fixed_measurer}
use litesdb.Codec.Fixed as Fixed
use litesdb.Codec.Fixed.Measure.{IsFact, IsFact-HasType, count_nulls}
use litesdb.Codec.Selector.{Selection}
use litesdb.Codec.Selector.{Predictor, observe_fact, new_predictor}
use litesdb.Codec.Selector.{select_facts, select, choose}
use litesdb.Codec.Selector.Symbols.{count_nulls-Taken}
use litesdb.Codec.Fixed.Plan.{fixed_plan, measure-fixed_plan}
use litesdb.Codec.Fixed.Column.{IsColumn}

all_facts :
    (t : ValueType) (xs : List CellValue) → All (HasType t) xs → All (IsFact (kind_of_type t)) xs
all_facts t [] h = tt
all_facts t (x ∷ xs) (hx, h) = (IsFact-HasType t x hx, all_facts t xs h)

-- The loop is the two loops side by side.
select_facts-both :
    (m m' : FixedMeasurer) (state : Predictor × Option NvrMeasurer) (p : Predictor)
    (measurer : Option NvrMeasurer) (xs : List CellValue)
    → observe_facts m xs ≡ ok m'
    → offer_all observe_fact state xs ≡ ok (p, measurer)
    → select_facts m state xs ≡ ok (m', p, measurer)
unfolding select_facts observe_facts offer_all
select_facts-both m m' state p measurer [] h g = cc
select_facts-both m m' state p measurer (x ∷ xs) h g =
    let (m₁, one, rest) = >>=-eq-ok (observe_fixed m x) _ h in
    let (state₁, two, rest') = >>=-eq-ok (offer observe_fact state x) _ g in
    rw (one, two) (select_facts-both m₁ m' state₁ p measurer xs rest rest')

-- The selection for a column.
abbrev pub selection : ValueType → List CellValue → Option NvrPlan → Selection
selection t facts plan = record {
  encoding = choose (fixed_plan (kind_of_type t) facts) plan;
  fixed_plan = fixed_plan (kind_of_type t) facts;
  nvr_plan = plan;
}

module _ (t : ValueType) (x : CellValue) (xs : List CellValue) (typed : All (HasType t) (x ∷ xs))
    (small : length (x ∷ xs) ≤ 65_536) where
  abbrev facts : List CellValue
  facts = x ∷ xs

  pub is_column : IsColumn (kind_of_type t) facts
  is_column = record { typed = all_facts t facts typed; present = omega arith; small = small }

  counts_agree :
      (ys : List NvrSymbol) (whole : Bool)
      → Taken observe_fact (new_predictor t) facts ys whole
      → counts_disagree (plan_of whole ys) (length facts) (count_nulls facts) ≡ false
  counts_agree ys false trace = refl
  counts_agree ys true trace =
      let rows = (length-Taken observe_fact (new_predictor t) facts ys true trace).1 refl in
      let nulls = count_nulls-Taken (new_predictor t) facts ys trace in
      rw (rows, nulls, ==_refl (length facts), ==_refl (count_nulls facts)) refl

  pub select-selection :
      (ys : List NvrSymbol) (whole : Bool)
      → Taken observe_fact (new_predictor t) facts ys whole
      → All (IsSymbol values) ys
      → select facts t ≡ ok (selection t facts (plan_of whole ys))
  unfolding select
  select-selection ys whole trace h =
      let kind = kind_of_type t in
      let (m, all, done) =
        >>=-eq-ok (observe_facts (new_fixed_measurer kind) facts) finish_fixed
          {u = fixed_plan kind facts}
          (unfold Fixed.measure in
            measure-fixed_plan kind facts is_column.typed is_column.present small) in
      let (p, measurer, offered, finished) =
        finish_option-offer_all observe_fact values (new_predictor t) x xs ys whole trace h small in
      rw
        (
          select_facts-both (new_fixed_measurer kind) m
              (new_predictor t, some (new_measurer values)) p measurer facts all offered,
          done,
          finished,
          counts_agree ys whole trace,
        )
        refl
