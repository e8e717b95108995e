-- ===== src/Types/Sq1.antt =====
-- core/src/types/sq1.rs: the 255 code points of SQ1 and the fixed-point values that they stand for.
use litesdb.Base.{ℕ, zero, suc, ◌+◌, ◌-◌, ◌*◌, ◌≤◌, ◌<◌, ◌≡◌, List, [], ◌∷◌, leb, get_elem?}
use litesdb.Base.{if◌then◌else◌, none, some, arith, ap}

-- The body of the loop of `build_fp4`.
unfoldable pub fp4_entry : ℕ → ℕ
fp4_entry code =
    if leb code 50
    then code * 1_000
    else if leb code 78
    then 50_000 + (code - 50) * 2_500
    else 120_000 + (code - 78) * 5_000

-- The loop: the entries of `index` and of the `left` indices behind it.
fp4_from : ℕ → ℕ → List ℕ
unfolding fp4_entry
fp4_from zero index = []
fp4_from (suc left) index = fp4_entry index ∷ fp4_from left (index + 1)

unfoldable pub build_fp4 : List ℕ
unfolding fp4_from
build_fp4 = fp4_from 255 0

-- Indexing past the table panics; no `Sq1` holds such a code.
unfoldable pub fp4 : ℕ → ℕ
unfolding build_fp4
fp4 code = elim (get_elem? build_fp4 code) [ some value ↦ value | none ↦ 0 ]

get_elem?-fp4_from :
    (left index i : ℕ) → i < left → get_elem? (fp4_from left index) i ≡ some (fp4_entry (index + i))
unfolding fp4_from
get_elem?-fp4_from zero index i h = elim h [ ]
get_elem?-fp4_from (suc left) index zero h =
    let e : index ≡ index + 0 = omega arith in ap (λ c. some (fp4_entry c)) e
get_elem?-fp4_from (suc left) index (suc i) h =
    ground (arith, get_elem?-fp4_from left (index + 1) i)

pub fp4-entry : (code : ℕ) → code < 255 → fp4 code ≡ fp4_entry code
unfolding fp4
fp4-entry code h = ground (arith, get_elem?-fp4_from 255 0 code)

-- A greater SQ1 code stands for a strictly greater fixed-point value, and none passes 1,000,000.
pub fp4_order : (a b : ℕ) → a < b → b < 255 → (fp4 a < fp4 b) × (fp4 b ≤ 1_000_000)
unfolding fp4_entry
fp4_order a b p q = ground (arith, fp4-entry a, fp4-entry b)
