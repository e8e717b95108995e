-- ===== src/Codec/Nvr/Runs.antt =====
-- The tokens that a list of symbols stands for, and the run-length state in terms of them.
use litesdb.Base.{ℕ, zero, suc, ◌+◌, ◌≤◌, ◌<◌, ◌^◌, ◌≡◌, refl, sym, ap, ◌∙◌}
use litesdb.Base.{List, [], ◌∷◌, ◌++◌, append-nil, append_assoc, replicate, ok}
use litesdb.Base.{true, false, Option, none, some, if◌then◌else◌, arith}
use native.Mathlib.Numerals.{add-one}
use litesdb.Limits.{ensure_at_most}
use litesdb.Codec.Nvr.Token.{NvrSymbol, null, value, NvrMode, values, timestamps, allows_null}
use litesdb.Codec.Nvr.Token.{Token, lit, zero_run, null_run, NvrState, observe_state, repeats_run}
use litesdb.Codec.Nvr.Token.{is_null}
use litesdb.Codec.Nvr.Decode.{expand}
use litesdb.Codec.Nvr.Bytes.{IsToken, token_bytes}

abbrev pub token_of_symbol : NvrSymbol → Token
token_of_symbol null = null_run 1
token_of_symbol (value zero) = zero_run 1
token_of_symbol (value (suc v)) = lit (suc v)

-- The token that is pending after one more, and the one that is complete.
abbrev pub merged : Option Token → Token → Token × Option Token
merged none next = (next, none)
merged (some (zero_run n)) (zero_run _) = (zero_run (n + 1), none)
merged (some (null_run n)) (null_run _) = (null_run (n + 1), none)
merged (some previous) next = (next, some previous)

abbrev pub option_list {ℓ} : {A : Type ℓ} → Option A → List A
option_list none = []
option_list (some a) = a ∷ []

-- The tokens of symbols that follow a pending token.
unfoldable pub runs : Token → List NvrSymbol → List Token
runs p [] = p ∷ []
runs p (x ∷ xs) =
    let (q, completed) = merged (some p) (token_of_symbol x) in option_list completed ++ runs q xs

unfoldable pub all_bytes : List Token → List ℕ
all_bytes [] = []
all_bytes (t ∷ ts) = token_bytes t ++ all_bytes ts

unfoldable pub expand_all : List Token → List NvrSymbol
expand_all [] = []
expand_all (t ∷ ts) = expand t ++ expand_all ts

unfoldable pub count_nulls : List NvrSymbol → ℕ
count_nulls [] = 0
count_nulls (x ∷ xs) = (if is_null x then 1 else 0) + count_nulls xs

-- What an encoding can hold: nulls in the mode that allows them, and `u64` values.
abbrev pub IsSymbol : NvrMode → NvrSymbol → Type 0
IsSymbol mode null = allows_null mode ≡ true
IsSymbol mode (value v) = v < 2 ^ 64

-- A pending token after `n` symbols.
abbrev pub Fits : ℕ → Token → Type 0
Fits n (lit v) = (0 < v) × (v < 2 ^ 64)
Fits n (zero_run c) = (0 < c) × (c ≤ n)
Fits n (null_run c) = (0 < c) × (c ≤ n)

pub Fits-IsToken : (n : ℕ) (t : Token) → n ≤ 65_536 → Fits n t → IsToken t
Fits-IsToken n (lit v) h f = f
Fits-IsToken n (zero_run c) h f = omega arith
Fits-IsToken n (null_run c) h f = omega arith

abbrev pub state : NvrMode → Option Token → ℕ → ℕ → NvrState
state mode pending facts nulls = record {
  mode = mode;
  pending = pending;
  fact_count = facts;
  null_count = nulls;
}

abbrev pub nulls_of : NvrSymbol → ℕ
nulls_of x = if is_null x then 1 else 0

pub nulls_of-le : (x : NvrSymbol) → nulls_of x ≤ 1
nulls_of-le x = ground arith

-- The tokens of a list of symbols.
unfoldable pub symbol_runs : List NvrSymbol → List Token
unfolding runs
symbol_runs [] = []
symbol_runs (x ∷ xs) = runs (token_of_symbol x) xs

-- One symbol, from the start and behind a pending token.
pub observe_state_first :
    (mode : NvrMode) (x : NvrSymbol)
    → IsSymbol mode x
    → observe_state (state mode none 0 0) x
      ≡ ok (state mode (some (token_of_symbol x)) 1 (nulls_of x), none)
unfolding observe_state ensure_at_most
observe_state_first values null h = refl
observe_state_first timestamps null h = cc
observe_state_first mode (value zero) h = refl
observe_state_first mode (value (suc v)) h = refl

pub observe_state_next :
    (mode : NvrMode) (p : Token) (n k : ℕ) (x : NvrSymbol)
    → IsSymbol mode x
    → Fits n p
    → k ≤ n
    → n < 65_536
    → observe_state (state mode (some p) n k) x ≡ (
        let (q, completed) = merged (some p) (token_of_symbol x) in
        ok (state mode (some q) (n + 1) (k + nulls_of x), completed))
unfolding observe_state ensure_at_most
observe_state_next mode (lit v) n k null h f hk hn = ground arith
observe_state_next mode (lit v) n k (value zero) h f hk hn = ground arith
observe_state_next mode (lit v) n k (value (suc w)) h f hk hn = ground arith
observe_state_next mode (zero_run c) n k null h f hk hn = ground arith
observe_state_next mode (zero_run c) n k (value zero) h f hk hn = ground arith
observe_state_next mode (zero_run c) n k (value (suc w)) h f hk hn = ground arith
observe_state_next mode (null_run c) n k null h f hk hn = ground arith
observe_state_next mode (null_run c) n k (value zero) h f hk hn = ground arith
observe_state_next mode (null_run c) n k (value (suc w)) h f hk hn = ground arith

pub Fits-first : (mode : NvrMode) (x : NvrSymbol) → IsSymbol mode x → Fits 1 (token_of_symbol x)
Fits-first mode null h = omega arith
Fits-first mode (value zero) h = omega arith
Fits-first mode (value (suc v)) h = omega arith

pub Fits-merged :
    (mode : NvrMode) (p : Token) (n : ℕ) (x : NvrSymbol)
    → IsSymbol mode x
    → Fits n p
    → Fits (n + 1) (merged (some p) (token_of_symbol x)).0
Fits-merged mode p n x h f = ground arith

replicate_one_more {ℓ} :
    {A : Type ℓ} (n : ℕ) (a : A) (rest : List A)
    → replicate (suc n) a ++ rest ≡ replicate n a ++ (a ∷ rest)
replicate_one_more zero a rest = refl
replicate_one_more (suc n) a rest = ap (λ t. a ∷ t) (replicate_one_more n a rest)

replicate-add_one {ℓ} :
    {A : Type ℓ} (n : ℕ) (a : A) (rest : List A)
    → replicate (n + 1) a ++ rest ≡ replicate n a ++ (a ∷ rest)
replicate-add_one n a rest = rw add-one (replicate_one_more n a rest)

expand_all-append : (ts us : List Token) → expand_all (ts ++ us) ≡ expand_all ts ++ expand_all us
unfolding expand_all
expand_all-append [] us = refl
expand_all-append (t ∷ ts) us =
    rw (expand_all-append ts us) (sym (append_assoc (expand t) (expand_all ts) (expand_all us)))

expand-merged :
    (p : Token) (x : NvrSymbol) (xs : List NvrSymbol)
    → expand_all (option_list (merged (some p) (token_of_symbol x)).1)
        ++ (expand (merged (some p) (token_of_symbol x)).0 ++ xs)
      ≡ expand p ++ (x ∷ xs)
unfolding expand_all expand
expand-merged (lit v) null xs = refl
expand-merged (lit v) (value zero) xs = refl
expand-merged (lit v) (value (suc w)) xs = refl
expand-merged (zero_run c) null xs = rw append-nil
expand-merged (zero_run c) (value zero) xs = replicate-add_one c (value 0) xs
expand-merged (zero_run c) (value (suc w)) xs = rw append-nil
expand-merged (null_run c) null xs = replicate-add_one c null xs
expand-merged (null_run c) (value zero) xs = rw append-nil
expand-merged (null_run c) (value (suc w)) xs = rw append-nil

-- Expanding the tokens of `xs` behind `p` gives the symbols of `p` and then `xs`.
pub expand_all-runs : (p : Token) (xs : List NvrSymbol) → expand_all (runs p xs) ≡ expand p ++ xs
unfolding runs expand_all
expand_all-runs p [] = refl
expand_all-runs p (x ∷ xs) =
    expand_all-append (option_list (merged (some p) (token_of_symbol x)).1) _
    ∙ rw (expand_all-runs (merged (some p) (token_of_symbol x)).0 xs) (expand-merged p x xs)

-- No run stands beside one of its kind, behind `previous` and within the list.
abbrev pub Chained : Option Token → List Token → Type 0
Chained previous [] = Unit
Chained previous (t ∷ ts) = (repeats_run t previous ≡ false) × Chained (some t) ts

runs_Chained_step :
    (p q : Token) (completed previous : Option Token) (ts : List Token)
    → repeats_run p previous ≡ false
    → (completed ≡ none → repeats_run q previous ≡ false)
    → ((c : Token) → completed ≡ some c → (c ≡ p) × (repeats_run q (some c) ≡ false))
    → ((before : Option Token) → repeats_run q before ≡ false → Chained before ts)
    → Chained previous (option_list completed ++ ts)
runs_Chained_step p q none previous ts h same new tail = tail previous (same refl)
runs_Chained_step p q (some c) previous ts h same new tail =
    let (is, fresh) = new c refl in (rw is h, tail (some c) fresh)

merged_same :
    (p : Token) (x : NvrSymbol) (previous : Option Token)
    → repeats_run p previous ≡ false
    → (merged (some p) (token_of_symbol x)).1 ≡ none
    → repeats_run (merged (some p) (token_of_symbol x)).0 previous ≡ false
merged_same p x previous h e = ground arith

pub merged_new :
    (p : Token) (x : NvrSymbol) (c : Token)
    → (merged (some p) (token_of_symbol x)).1 ≡ some c
    → (c ≡ p) × (repeats_run (merged (some p) (token_of_symbol x)).0 (some c) ≡ false)
merged_new p x c e = ground arith

pub merged_completed :
    (p : Token) (n : ℕ) (x : NvrSymbol)
    → Fits n p
    → n ≤ 65_536
    → (c : Token) → (merged (some p) (token_of_symbol x)).1 ≡ some c
    → IsToken c
merged_completed p n x f h c e = rw ((merged_new p x c e).0) (Fits-IsToken n p h f)

pub runs-Chained :
    (p : Token) (xs : List NvrSymbol) (previous : Option Token)
    → repeats_run p previous ≡ false
    → Chained previous (runs p xs)
unfolding runs
runs-Chained p [] previous h = (h, tt)
runs-Chained p (x ∷ xs) previous h =
    let q = (merged (some p) (token_of_symbol x)).0 in
    runs_Chained_step p q (merged (some p) (token_of_symbol x)).1 previous (runs q xs) h
      (merged_same p x previous h) (merged_new p x) (λ before g. runs-Chained q xs before g)
