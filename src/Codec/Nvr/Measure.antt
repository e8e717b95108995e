-- ===== src/Codec/Nvr/Measure.antt =====
-- Measuring and encoding, for every list of symbols that a section can hold: both succeed, and the
-- slice that is written is the bytes of the runs.
use litesdb.Base.{ℕ, zero, suc, ◌+◌, ◌*◌, ◌/◌, ◌≤◌, ◌<◌, ◌≡◌, refl, ◌∙◌}
use litesdb.Base.{List, [], ◌∷◌, ◌++◌, append-nil, length, length-append, All, Result, ok}
use litesdb.Base.{◌>>=◌, Option, none, some, arith}
use litesdb.Codec.Nvr.Token.{NvrState, NvrSymbol, NvrMode, NvrPlan, Token, finish_nvr_state}
use litesdb.Codec.Nvr.Encode.{
  NvrMeasurer, add_token, add_completed, observe_measurer, observe_all_measurer,
}
use litesdb.Codec.Nvr.Encode.{finish_measurer, measure}
use litesdb.Codec.Nvr.Bytes.{IsToken, token_bytes, token_len-token_bytes, groups}
use litesdb.Codec.Nvr.Runs.{merged, token_of_symbol, option_list, runs, all_bytes, count_nulls}
use litesdb.Codec.Nvr.Runs.{IsSymbol, Fits, Fits-IsToken, state, nulls_of, observe_state_first}
use litesdb.Codec.Nvr.Runs.{
  observe_state_next, Fits-merged, Fits-first, merged_completed, nulls_of-le, symbol_runs,
}

length-groups : (k r : ℕ) → length (groups k r) ≤ k
unfolding groups
length-groups zero r = omega arith
length-groups (suc k) r = ground (arith, length-groups k (r / 128))

pub length-token_bytes : (t : Token) → length (token_bytes t) ≤ 10
unfolding token_bytes
length-token_bytes t = ground (arith, length-groups 9)

pub add_token_lem :
    (s : NvrState) (len : ℕ) (t : Token)
    → IsToken t
    → len < 1_000_000
    → add_token (record { state = s; byte_len = len }) t
      ≡ ok (record { state = s; byte_len = len + length (token_bytes t) })
unfolding add_token
add_token_lem s len t h hl = ground (arith, token_len-token_bytes t, length-token_bytes t)

pub add_completed_lem :
    (s : NvrState) (len : ℕ) (completed : Option Token)
    → ((c : Token) → completed ≡ some c → IsToken c)
    → len < 1_000_000
    → (add_completed (record { state = s; byte_len = len }) completed
        ≡ ok (record { state = s; byte_len = len + length (all_bytes (option_list completed)) }))
      × (length (all_bytes (option_list completed)) ≤ 10)
unfolding all_bytes
add_completed_lem s len none h hl = ground arith
add_completed_lem s len (some c) h hl =
    rw append-nil (add_token_lem s len c (h c refl) hl, length-token_bytes c)

pub length-all_bytes-append :
    (ts us : List Token)
    → length (all_bytes (ts ++ us)) ≡ length (all_bytes ts) + length (all_bytes us)
unfolding all_bytes
length-all_bytes-append [] us = omega arith
length-all_bytes-append (t ∷ ts) us = omega (
  arith,
  length-append (token_bytes t) (all_bytes ts),
  length-append (token_bytes t) (all_bytes (ts ++ us)),
  length-all_bytes-append ts us,
)

-- The rest of measuring, from a pending token on.
abbrev measure_rest : NvrMeasurer → List NvrSymbol → Result NvrPlan
measure_rest m xs = observe_all_measurer m xs >>= finish_measurer

abbrev measurer : NvrState → ℕ → NvrMeasurer
measurer s len = record { state = s; byte_len = len }

abbrev pub plan : ℕ → ℕ → ℕ → NvrPlan
plan len facts nulls = record { byte_len = len; fact_count = facts; null_count = nulls }

plan_eq_parts :
    {a b c a' b' c' : ℕ} → a ≡ a' → b ≡ b' → c ≡ c' → ok (plan a b c) ≡ ok (plan a' b' c')
plan_eq_parts p q r = cc

measure_rest-cons :
    (m m' : NvrMeasurer) (x : NvrSymbol) (xs : List NvrSymbol)
    → observe_measurer m x ≡ ok m'
    → measure_rest m (x ∷ xs) ≡ measure_rest m' xs
unfolding observe_all_measurer
measure_rest-cons m m' x xs e = rw e

measurer_step :
    (mode : NvrMode) (p : Token) (n k len : ℕ) (x : NvrSymbol)
    → IsSymbol mode x
    → Fits n p
    → k ≤ n
    → n < 65_536
    → len < 1_000_000
    → observe_measurer (measurer (state mode (some p) n k) len) x ≡ (
        let (q, completed) = merged (some p) (token_of_symbol x) in
        ok (
          measurer
            (state mode (some q) (n + 1) (k + nulls_of x))
            (len + length (all_bytes (option_list completed)))))
unfolding observe_measurer
measurer_step mode p n k len x h f hk hn hl =
    rw (observe_state_next mode p n k x h f hk hn)
      (add_completed_lem _ len (merged (some p) (token_of_symbol x)).1
        (merged_completed p n x f (omega arith)) hl).0

measure_rest-runs :
    (mode : NvrMode) (p : Token) (n k len : ℕ) (xs : List NvrSymbol)
    → All (IsSymbol mode) xs
    → Fits n p
    → k ≤ n
    → n + length xs ≤ 65_536
    → len ≤ 10 * n
    → measure_rest (measurer (state mode (some p) n k) len) xs
      ≡ ok (plan (len + length (all_bytes (runs p xs))) (n + length xs) (k + count_nulls xs))
unfolding observe_all_measurer finish_measurer runs all_bytes count_nulls finish_nvr_state
measure_rest-runs mode p n k len [] h f hk hn hl =
    rw
      (
        add_token_lem (state mode (some p) n k) len p (Fits-IsToken n p (omega arith) f)
            (omega arith),
        append-nil,
      )
      (plan_eq_parts refl (omega arith) (omega arith))
measure_rest-runs mode p n k len (x ∷ xs) (hx, hxs) f hk hn hl =
    let q : Token = (merged (some p) (token_of_symbol x)).0 in
    let completed : Option Token = (merged (some p) (token_of_symbol x)).1 in
    let more : ℕ = length (all_bytes (option_list completed)) in
    let bound : more ≤ 10 =
      (add_completed_lem (state mode (some p) n k) len completed
        (merged_completed p n x f (omega arith)) (omega arith)).1 in
    measure_rest-cons _ _ x xs (measurer_step mode p n k len x hx f hk (omega arith) (omega arith))
    ∙ measure_rest-runs mode q (n + 1) (k + nulls_of x) (len + more) xs hxs
        (Fits-merged mode p n x hx f) (omega (arith, nulls_of-le x)) (omega arith) (omega arith)
    ∙ plan_eq_parts (omega (arith, length-all_bytes-append (option_list completed) (runs q xs)))
        (omega arith) (omega arith)

-- Measuring succeeds on every list of symbols that a section can hold, and counts the bytes of the
-- runs, the symbols and the nulls.
pub measure-runs :
    (mode : NvrMode) (x : NvrSymbol) (xs : List NvrSymbol)
    → All (IsSymbol mode) (x ∷ xs)
    → length (x ∷ xs) ≤ 65_536
    → measure (x ∷ xs) mode
      ≡ ok (
          plan (length (all_bytes (symbol_runs (x ∷ xs)))) (length (x ∷ xs)) (count_nulls (x ∷ xs)))
unfolding measure symbol_runs
measure-runs mode x xs (hx, hxs) h =
    measure_rest-cons _ (measurer (state mode (some (token_of_symbol x)) 1 (nulls_of x)) 0) x xs
      (unfold observe_measurer in rw (observe_state_first mode x hx))
    ∙ measure_rest-runs mode (token_of_symbol x) 1 (nulls_of x) 0 xs hxs (Fits-first mode x hx)
        (nulls_of-le x) (omega arith) (omega arith)
    ∙ plan_eq_parts (omega arith) (omega arith) (unfold count_nulls in refl)
