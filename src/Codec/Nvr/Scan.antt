-- ===== src/Codec/Nvr/Scan.antt =====
-- The loop of `scan_tokens` over the bytes of a list of tokens.
use litesdb.Base.{ℕ, zero, suc, ◌+◌, ◌≤◌, ◌≡◌, refl, ◌∙◌}
use litesdb.Base.{
  List, [], ◌∷◌, ◌++◌, length, length-append, length-replicate, All, Result, ok, replicate,
}
use litesdb.Base.{false, not, ◌&&◌, Option, none, some, arith}
use litesdb.Codec.Nvr.Token.{
  NvrSymbol, null, value, NvrMode, allows_null, Token, lit, zero_run, null_run,
}
use litesdb.Codec.Nvr.Token.{repeats_run}
use litesdb.Codec.Nvr.Decode.{scan_token, scan_loop, ScanState, is_null_run, expand}
use litesdb.Codec.Nvr.Bytes.{IsToken, token_bytes}
use litesdb.Codec.Nvr.Parse.{parse_token-token_bytes}
use litesdb.Codec.Nvr.Runs.{IsSymbol, Fits, Fits-IsToken, Fits-merged, merged, option_list}
use litesdb.Codec.Nvr.Runs.{
  token_of_symbol, runs, all_bytes, expand_all, count_nulls, Chained, merged_new,
}

abbrev pub token_facts : Token → ℕ
token_facts (lit v) = 1
token_facts (zero_run c) = c
token_facts (null_run c) = c

abbrev pub token_nulls : Token → ℕ
token_nulls (null_run c) = c
token_nulls _ = 0

unfoldable pub all_facts : List Token → ℕ
all_facts [] = 0
all_facts (t ∷ ts) = token_facts t + all_facts ts

unfoldable pub all_nulls : List Token → ℕ
all_nulls [] = 0
all_nulls (t ∷ ts) = token_nulls t + all_nulls ts

-- What the decoder asks of a token by itself.
abbrev pub Readable : NvrMode → Token → Type 0
Readable mode t = Fits 65_536 t × ((is_null_run t && not (allows_null mode)) ≡ false)

abbrev pub next_state : ScanState → Token → ScanState
next_state s t = record {
  facts = s.facts + token_facts t;
  nulls = s.nulls + token_nulls t;
  previous = some t;
}

pub scan_token_lem :
    (mode : NvrMode) (maximum : ℕ) (s : ScanState) (t : Token)
    → Readable mode t
    → repeats_run t s.previous ≡ false
    → s.facts + token_facts t ≤ maximum
    → s.nulls ≤ s.facts
    → maximum ≤ 65_536
    → scan_token mode maximum s t ≡ ok (next_state s t)
unfolding scan_token
scan_token_lem mode maximum s (lit v) (f, a) r h hn hm = ground arith
scan_token_lem mode maximum s (zero_run c) (f, a) r h hn hm = rw r (ground arith)
scan_token_lem mode maximum s (null_run c) (f, a) r h hn hm = rw (r, a) (ground arith)

token_nulls-le : (t : Token) → token_nulls t ≤ token_facts t
token_nulls-le t = ground arith

pub one_round :
    (t : Token) (ts : List Token) → length (all_bytes ts) + 1 ≤ length (all_bytes (t ∷ ts))
unfolding all_bytes token_bytes
one_round t ts = omega (arith, length-append (token_bytes t) (all_bytes ts))

module _ {ℓ} {E : Type ℓ} (emit : Token → E → Result E) (collect : Token → E → E)
    (emits : (t : Token) (e : E) → emit t e ≡ ok (collect t e)) where
  unfoldable pub collect_all : List Token → E → E
  collect_all [] e = e
  collect_all (t ∷ ts) e = collect_all ts (collect t e)

  scan_loop_step :
      (fuel : ℕ) (mode : NvrMode) (maximum : ℕ) (t : Token) (rest : List ℕ) (s s' : ScanState)
      (e : E)
      → IsToken t
      → scan_token mode maximum s t ≡ ok s'
      → scan_loop emit (suc fuel) mode maximum (token_bytes t ++ rest) s e
        ≡ scan_loop emit fuel mode maximum rest s' (collect t e)
  unfolding scan_loop token_bytes
  scan_loop_step fuel mode maximum t rest s s' e h step =
      rw (parse_token-token_bytes t rest h, step, emits t e)

  pub scan_loop-tokens :
      (ts : List Token) (fuel : ℕ) (mode : NvrMode) (maximum : ℕ) (s : ScanState) (e : E)
      → All (Readable mode) ts
      → Chained s.previous ts
      → s.facts + all_facts ts ≤ maximum
      → s.nulls ≤ s.facts
      → maximum ≤ 65_536
      → length (all_bytes ts) ≤ fuel
      → (s' : ScanState) × (scan_loop emit fuel mode maximum (all_bytes ts) s e
          ≡ ok (s', collect_all ts e))
        × (s'.facts ≡ s.facts + all_facts ts)
        × (s'.nulls ≡ s.nulls + all_nulls ts)
  unfolding collect_all all_facts all_nulls all_bytes
  scan_loop-tokens [] fuel mode maximum s e h c hf hn hm fits =
      (s, unfold scan_loop in refl, omega arith, omega arith)
  scan_loop-tokens (t ∷ ts) zero mode maximum s e h c hf hn hm fits =
      absurd (omega (arith, one_round t ts))
  scan_loop-tokens (t ∷ ts) (suc fuel) mode maximum s e ((f, a), h) (fresh, c) hf hn hm fits =
      let step = scan_token_lem mode maximum s t (f, a) fresh (omega arith) hn hm in
      let (s', loop, facts, nulls) =
        scan_loop-tokens ts fuel mode maximum (next_state s t) (collect t e) h c (omega arith)
          (omega (arith, token_nulls-le t)) hm (omega (arith, one_round t ts)) in
      (
        s',
        scan_loop_step fuel mode maximum t (all_bytes ts) s (next_state s t) e
              (Fits-IsToken 65_536 t (omega arith) f) step
            ∙ loop,
        omega arith,
        omega arith,
      )

-- The tokens of symbols are readable.
Fits-mono : (n m : ℕ) (t : Token) → n ≤ m → Fits n t → Fits m t
Fits-mono n m t h f = ground arith

pub allowed_first :
    (mode : NvrMode) (x : NvrSymbol)
    → IsSymbol mode x
    → (is_null_run (token_of_symbol x) && not (allows_null mode)) ≡ false
allowed_first mode x h = ground arith

allowed-merged :
    (mode : NvrMode) (p : Token) (x : NvrSymbol)
    → IsSymbol mode x
    → (is_null_run p && not (allows_null mode)) ≡ false
    → (is_null_run (merged (some p) (token_of_symbol x)).0 && not (allows_null mode)) ≡ false
allowed-merged mode p x h a = ground arith

Readable-option :
    (mode : NvrMode) (p : Token) (completed : Option Token) (ts : List Token)
    → Readable mode p
    → ((c : Token) → completed ≡ some c → c ≡ p)
    → All (Readable mode) ts
    → All (Readable mode) (option_list completed ++ ts)
Readable-option mode p none ts h is hs = hs
Readable-option mode p (some c) ts h is hs = rw (is c refl) (h, hs)

pub runs-Readable :
    (mode : NvrMode) (p : Token) (n : ℕ) (xs : List NvrSymbol)
    → All (IsSymbol mode) xs
    → Fits n p
    → (is_null_run p && not (allows_null mode)) ≡ false
    → n + length xs ≤ 65_536
    → All (Readable mode) (runs p xs)
unfolding runs
runs-Readable mode p n [] h f a small = ((Fits-mono n 65_536 p (omega arith) f, a), tt)
runs-Readable mode p n (x ∷ xs) (hx, hxs) f a small =
    Readable-option mode p (merged (some p) (token_of_symbol x)).1
      (runs (merged (some p) (token_of_symbol x)).0 xs) (Fits-mono n 65_536 p (omega arith) f, a)
      (λ c e. (merged_new p x c e).0)
      (runs-Readable mode (merged (some p) (token_of_symbol x)).0 (n + 1) xs hxs
        (Fits-merged mode p n x hx f) (allowed-merged mode p x hx a) (omega arith))

-- How many symbols and nulls the tokens stand for.
count_nulls-append :
    (xs ys : List NvrSymbol) → count_nulls (xs ++ ys) ≡ count_nulls xs + count_nulls ys
unfolding count_nulls
count_nulls-append [] ys = omega arith
count_nulls-append (x ∷ xs) ys = omega (arith, count_nulls-append xs ys)

count_nulls-replicate_null : (n : ℕ) → count_nulls (replicate n null) ≡ n
unfolding count_nulls
count_nulls-replicate_null zero = refl
count_nulls-replicate_null (suc n) = omega (arith, count_nulls-replicate_null n)

count_nulls-replicate_zero : (n : ℕ) → count_nulls (replicate n (value 0)) ≡ 0
unfolding count_nulls
count_nulls-replicate_zero zero = refl
count_nulls-replicate_zero (suc n) = omega (arith, count_nulls-replicate_zero n)

expand_counts :
    (t : Token) → (length (expand t) ≡ token_facts t) × (count_nulls (expand t) ≡ token_nulls t)
unfolding expand
expand_counts (lit v) = (refl, unfold count_nulls in refl)
expand_counts (zero_run c) = (length-replicate c (value 0), count_nulls-replicate_zero c)
expand_counts (null_run c) = (length-replicate c null, count_nulls-replicate_null c)

pub expand_all_counts :
    (ts : List Token)
    → (length (expand_all ts) ≡ all_facts ts) × (count_nulls (expand_all ts) ≡ all_nulls ts)
unfolding expand_all all_facts all_nulls
expand_all_counts [] = (refl, unfold count_nulls in refl)
expand_all_counts (t ∷ ts) =
    let (facts, nulls) = expand_counts t in
    let (facts', nulls') = expand_all_counts ts in
    (
      omega (arith, length-append (expand t) (expand_all ts)),
      omega (arith, count_nulls-append (expand t) (expand_all ts)),
    )
