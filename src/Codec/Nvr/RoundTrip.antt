-- ===== src/Codec/Nvr/RoundTrip.antt =====
-- `decode` gives back the symbols that `encode` was given.
use litesdb.Base.{ℕ, zero, suc, ◌≤◌, ◌<◌, ◌≡◌, refl, sym, ap, ◌∙◌, List, [], ◌∷◌, ◌++◌, length}
use litesdb.Base.{append-nil, append_assoc, All, Result, ok, none, some, arith}
use litesdb.Base.{false}
use litesdb.Limits.{ensure_at_most}
use litesdb.Codec.Nvr.Token.{NvrSymbol, null, value, NvrMode, NvrPlan, Token, lit, zero_run}
use litesdb.Codec.Nvr.Token.{null_run, repeats_run}
use litesdb.Codec.Nvr.Encode.{encode, measure}
use litesdb.Codec.Nvr.Decode.{
  decode, scan_tokens, scan_loop, append_token, emit_nothing, expand, ScanState,
}
use litesdb.Codec.Nvr.Runs.{IsSymbol, runs, all_bytes, expand_all, count_nulls, Chained}
use litesdb.Codec.Nvr.Runs.{
  runs-Chained, expand_all-runs, token_of_symbol, Fits-first, merged, option_list,
}
use litesdb.Codec.Nvr.Measure.{plan, measure-runs, length-all_bytes-append}
use litesdb.Codec.Nvr.Write.{encoding, encode-encoding}
use litesdb.Codec.Nvr.Scan.{
  Readable, all_facts, all_nulls, collect_all, scan_loop-tokens, runs-Readable,
}
use litesdb.Codec.Nvr.Scan.{expand_all_counts, allowed_first, one_round}

abbrev append_expanded : Token → List NvrSymbol → List NvrSymbol
append_expanded t out = out ++ expand t

append_emits : (t : Token) (out : List NvrSymbol) → append_token t out ≡ ok (append_expanded t out)
unfolding append_token
append_emits t out = refl

collect_all-expand_all :
    (ts : List Token) (out : List NvrSymbol)
    → collect_all append_token append_expanded append_emits ts out ≡ out ++ expand_all ts
unfolding collect_all expand_all
collect_all-expand_all [] out = sym (append-nil out)
collect_all-expand_all (t ∷ ts) out =
    collect_all-expand_all ts (out ++ expand t) ∙ append_assoc out (expand t) (expand_all ts)

abbrev start : ScanState
start = record { facts = 0; nulls = 0; previous = none }

module _ {ℓ} {E : Type ℓ} (emit : Token → E → Result E) where
  scan_tokens_nonempty :
      (bytes : List ℕ) (mode : NvrMode) (maximum : ℕ) (e : E)
      → 0 < length bytes
      → scan_tokens emit bytes mode maximum e
        ≡ scan_loop emit (length bytes) mode maximum bytes start e
  unfolding scan_tokens
  scan_tokens_nonempty [] mode maximum e h = absurd (omega arith)
  scan_tokens_nonempty (b ∷ bs) mode maximum e h = refl

runs_nonempty : (p : Token) (xs : List NvrSymbol) → 0 < length (all_bytes (runs p xs))
unfolding runs
runs_nonempty p [] = omega (arith, one_round p [])
runs_nonempty p (x ∷ xs) =
    let (q, completed) = merged (some p) (token_of_symbol x) in
    omega (arith, length-all_bytes-append (option_list completed) (runs q xs), runs_nonempty q xs)

-- Both passes of `decode` over the bytes of readable tokens.
decode-tokens :
    (mode : NvrMode) (ts : List Token) (facts nulls : ℕ)
    → All (Readable mode) ts
    → Chained none ts
    → all_facts ts ≡ facts
    → all_nulls ts ≡ nulls
    → 0 < facts
    → facts ≤ 65_536
    → nulls ≤ facts
    → 0 < length (all_bytes ts)
    → decode (all_bytes ts) mode facts nulls ≡ ok (expand_all ts)
unfolding decode ensure_at_most
decode-tokens mode ts facts nulls h c hf hn pos small le some_bytes =
    let (s₁, e₁, f₁, n₁) =
      scan_loop-tokens emit_nothing (λ t u. u) (λ t u. refl) ts (length (all_bytes ts)) mode facts
        start tt h c (omega arith) (omega arith) small (omega arith) in
    let (s₂, e₂, f₂, n₂) =
      scan_loop-tokens append_token append_expanded append_emits ts (length (all_bytes ts)) mode
        facts start [] h c (omega arith) (omega arith) small (omega arith) in
    let out = collect_all-expand_all ts [] in
    let (size, _) = expand_all_counts ts in
    rw
      (
        scan_tokens_nonempty emit_nothing (all_bytes ts) mode facts tt some_bytes,
        e₁,
        scan_tokens_nonempty append_token (all_bytes ts) mode facts [] some_bytes,
        e₂,
        out,
      )
      (ground (arith, f₁, n₁, size))

count_nulls-le : (xs : List NvrSymbol) → count_nulls xs ≤ length xs
unfolding count_nulls
count_nulls-le [] = omega arith
count_nulls-le (x ∷ xs) = ground (arith, count_nulls-le xs)

expand_first : (x : NvrSymbol) → expand (token_of_symbol x) ≡ x ∷ []
unfolding expand
expand_first null = refl
expand_first (value zero) = refl
expand_first (value (suc v)) = refl

alone : (t : Token) → repeats_run t none ≡ false
alone (lit v) = refl
alone (zero_run c) = refl
alone (null_run c) = refl

-- The tokens of a list of symbols expand to it.
expand_all-symbol_runs :
    (mode : NvrMode) (x : NvrSymbol) (xs : List NvrSymbol)
    → expand_all (runs (token_of_symbol x) xs) ≡ x ∷ xs
expand_all-symbol_runs mode x xs =
    expand_all-runs (token_of_symbol x) xs ∙ ap (λ t. t ++ xs) (expand_first x)

-- Decoding the bytes of a list of symbols.
pub decode-encoding :
    (mode : NvrMode) (x : NvrSymbol) (xs : List NvrSymbol)
    → All (IsSymbol mode) (x ∷ xs)
    → length (x ∷ xs) ≤ 65_536
    → decode (encoding (x ∷ xs)) mode (length (x ∷ xs)) (count_nulls (x ∷ xs)) ≡ ok (x ∷ xs)
unfolding encoding
decode-encoding mode x xs (hx, hxs) small =
    let t : Token = token_of_symbol x in
    let back = expand_all-symbol_runs mode x xs in
    let (facts, nulls) = expand_all_counts (runs t xs) in
    decode-tokens mode (runs t xs) (length (x ∷ xs)) (count_nulls (x ∷ xs))
      (runs-Readable mode t 1 xs hxs (Fits-first mode x hx) (allowed_first mode x hx) (omega arith))
      (runs-Chained t xs none (alone t)) (sym facts ∙ ap length back)
      (sym nulls ∙ ap count_nulls back) (omega arith) small (count_nulls-le (x ∷ xs))
      (runs_nonempty t xs)
    ∙ ap ok back

-- The symbols that the NVR codec can hold survive it: for every nonempty list of at most 65,536
-- `u64` values and nulls, with nulls only in the mode for values, `measure` returns a plan with the
-- number of symbols and of nulls, `encode` succeeds with that plan on any slice of the plan's
-- length, and `decode` of what it wrote, with the plan's counts, is the list.
pub decode-encode :
    (mode : NvrMode) (x : NvrSymbol) (xs : List NvrSymbol)
    → All (IsSymbol mode) (x ∷ xs)
    → length (x ∷ xs) ≤ 65_536
    → (p : NvrPlan) × (measure (x ∷ xs) mode ≡ ok p)
      × (p.fact_count ≡ length (x ∷ xs))
      × (p.null_count ≡ count_nulls (x ∷ xs))
      × ((slice : List ℕ)
          → length slice ≡ p.byte_len
          → (bytes : List ℕ) × (encode (x ∷ xs) mode p slice ≡ ok bytes)
            × (decode bytes mode p.fact_count p.null_count ≡ ok (x ∷ xs)))
decode-encode mode x xs h small = (
  plan (length (encoding (x ∷ xs))) (length (x ∷ xs)) (count_nulls (x ∷ xs)),
  unfold encoding in measure-runs mode x xs h small,
  refl,
  refl,
  λ slice e. (
    encoding (x ∷ xs),
    encode-encoding mode x xs slice h small e,
    decode-encoding mode x xs h small,
  ),
)
