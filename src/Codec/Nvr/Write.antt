-- ===== src/Codec/Nvr/Write.antt =====
-- Encoding, for every list of symbols that a section can hold: it succeeds, and the slice that is
-- written is the bytes of the runs.
use litesdb.Base.{ℕ, ◌+◌, ◌*◌, ◌≤◌, ◌<◌, ◌≡◌, refl, sym, ap, ◌∙◌}
use litesdb.Base.{
  List, [], ◌∷◌, ◌++◌, append-nil, append_assoc, >>=-eq-ok, length, length-append, All, Result, ok,
  split_at,
}
use litesdb.Base.{◌>>=◌, Option, none, some, arith}
use litesdb.Codec.Nvr.Token.{
  NvrState, new_state, NvrSymbol, NvrMode, NvrPlan, Token, finish_nvr_state,
}
use litesdb.Codec.Nvr.Encode.{
  NvrEncoder, Output, write_completed, observe_encoder, observe_all_encoder,
}
use litesdb.Codec.Nvr.Encode.{finish_encoder, new_encoder, encode}
use litesdb.Codec.Nvr.Bytes.{IsToken, token_bytes, write_token-token_bytes, output}
use litesdb.Codec.Nvr.Runs.{merged, token_of_symbol, option_list, runs, all_bytes, count_nulls}
use litesdb.Codec.Nvr.Runs.{
  IsSymbol, Fits, Fits-first, Fits-IsToken, state, nulls_of, observe_state_first,
}
use litesdb.Codec.Nvr.Runs.{
  observe_state_next, Fits-merged, merged_completed, nulls_of-le, symbol_runs,
}
use litesdb.Codec.Nvr.Measure.{plan, length-token_bytes, length-all_bytes-append, measure-runs}
use litesdb.Codec.Nvr.Encode.{measure}

abbrev encode_rest : NvrEncoder → List NvrSymbol → Result (NvrPlan × Output)
encode_rest e xs = observe_all_encoder e xs >>= finish_encoder

abbrev encoder : NvrState → Output → NvrEncoder
encoder s o = record { state = s; output = o }

write_completed_lem :
    (completed : Option Token) (written mid back : List ℕ)
    → ((c : Token) → completed ≡ some c → IsToken c)
    → length mid ≡ length (all_bytes (option_list completed))
    → write_completed completed (output written (mid ++ back))
      ≡ ok (output (written ++ all_bytes (option_list completed)) back)
unfolding all_bytes
write_completed_lem none written [] back h e = rw append-nil
write_completed_lem none written (x ∷ mid) back h e = absurd (omega arith)
write_completed_lem (some c) written mid back h e =
    rw append-nil (write_token-token_bytes c written mid back (h c refl) (rw append-nil at e))

encode_rest-cons :
    (e e' : NvrEncoder) (x : NvrSymbol) (xs : List NvrSymbol)
    → observe_encoder e x ≡ ok e'
    → encode_rest e (x ∷ xs) ≡ encode_rest e' xs
unfolding observe_all_encoder
encode_rest-cons e e' x xs h = rw h

encoder_step :
    (mode : NvrMode) (p : Token) (n k : ℕ) (x : NvrSymbol) (written mid back : List ℕ)
    → IsSymbol mode x
    → Fits n p
    → k ≤ n
    → n < 65_536
    → length mid ≡ length (all_bytes (option_list (merged (some p) (token_of_symbol x)).1))
    → observe_encoder (encoder (state mode (some p) n k) (output written (mid ++ back))) x ≡ (
        let (q, completed) = merged (some p) (token_of_symbol x) in
        ok (
          encoder
            (state mode (some q) (n + 1) (k + nulls_of x))
            (output (written ++ all_bytes (option_list completed)) back)))
unfolding observe_encoder
encoder_step mode p n k x written mid back h f hk hn e = rw (
  observe_state_next mode p n k x h f hk hn,
  write_completed_lem (merged (some p) (token_of_symbol x)).1 written mid back
      (merged_completed p n x f (omega arith)) e,
)

all_bytes-append : (ts us : List Token) → all_bytes (ts ++ us) ≡ all_bytes ts ++ all_bytes us
unfolding all_bytes
all_bytes-append [] us = refl
all_bytes-append (t ∷ ts) us =
    rw (all_bytes-append ts us) (sym (append_assoc (token_bytes t) (all_bytes ts) (all_bytes us)))

abbrev pub encoded : List ℕ → List ℕ → ℕ → ℕ → Result (NvrPlan × Output)
encoded w back facts nulls = ok (plan (length w) facts nulls, output w back)

written_eq :
    {w w' : List ℕ} {a b a' b' : ℕ} (back : List ℕ)
    → w ≡ w'
    → a ≡ a'
    → b ≡ b'
    → encoded w back a b ≡ encoded w' back a' b'
written_eq back p q r = cc

shorter :
    (written bytes now later mid : List ℕ)
    → mid ≡ now ++ later
    → length now ≡ length bytes
    → length written + length mid < 1_000_000
    → length (written ++ bytes) + length later < 1_000_000
shorter written bytes now later mid e e₁ h =
    omega (arith, length-append written bytes, length-append now later, ap length e)

encode_rest-runs :
    (mode : NvrMode) (p : Token) (n k : ℕ) (xs : List NvrSymbol) (written mid back : List ℕ)
    → All (IsSymbol mode) xs
    → Fits n p
    → k ≤ n
    → n + length xs ≤ 65_536
    → length mid ≡ length (all_bytes (runs p xs))
    → length written + length mid < 1_000_000
    → encode_rest (encoder (state mode (some p) n k) (output written (mid ++ back))) xs
      ≡ encoded (written ++ all_bytes (runs p xs)) back (n + length xs) (k + count_nulls xs)
unfolding observe_all_encoder finish_encoder runs all_bytes count_nulls finish_nvr_state
encode_rest-runs mode p n k [] written mid back h f hk hn e small =
    let e' : length mid ≡ length (token_bytes p) = rw append-nil at e in
    rw
      (write_token-token_bytes p written mid back (Fits-IsToken n p (omega arith) f) e', append-nil)
      (ground (arith, length-append written (token_bytes p)))
encode_rest-runs mode p n k (x ∷ xs) written mid back (hx, hxs) f hk hn e small =
    let q : Token = (merged (some p) (token_of_symbol x)).0 in
    let completed : List Token = option_list (merged (some p) (token_of_symbol x)).1 in
    let (now, later, e', e₁, e₂) =
      split_at (length (all_bytes completed)) (length (all_bytes (runs q xs))) mid
        (e ∙ length-all_bytes-append completed (runs q xs)) in
    rw (e', append_assoc now later back)
      (encode_rest-cons _ _ x xs
          (encoder_step mode p n k x written now (later ++ back) hx f hk (omega arith) e₁)
        ∙ encode_rest-runs mode q (n + 1) (k + nulls_of x) xs (written ++ all_bytes completed) later
            back hxs (Fits-merged mode p n x hx f) (omega (arith, nulls_of-le x)) (omega arith) e₂
            (shorter written (all_bytes completed) now later mid e' e₁ small)
        ∙ written_eq back
            (append_assoc written (all_bytes completed) (all_bytes (runs q xs))
              ∙ ap (λ t. written ++ t) (sym (all_bytes-append completed (runs q xs))))
            (omega arith) (omega arith))

-- The bytes of a list of symbols.
unfoldable pub encoding : List NvrSymbol → List ℕ
unfolding symbol_runs all_bytes
encoding xs = all_bytes (symbol_runs xs)

pub encode_rest_first :
    (mode : NvrMode) (x : NvrSymbol) (xs : List NvrSymbol) (slice : List ℕ)
    → All (IsSymbol mode) (x ∷ xs)
    → length (x ∷ xs) ≤ 65_536
    → length slice ≡ length (encoding (x ∷ xs))
    → length slice < 1_000_000
    → encode_rest (new_encoder mode slice) (x ∷ xs)
      ≡ encoded (encoding (x ∷ xs)) [] (length (x ∷ xs)) (count_nulls (x ∷ xs))
unfolding encoding new_encoder
encode_rest_first mode x xs slice (hx, hxs) h e small =
    let t : Token = token_of_symbol x in
    encode_rest-cons (new_encoder mode slice)
      (encoder (state mode (some t) 1 (nulls_of x)) (output [] slice)) x xs
      (unfold observe_encoder new_state in rw (observe_state_first mode x hx))
    ∙ (rw (append-nil slice) at (
        encode_rest-runs mode t 1 (nulls_of x) xs [] slice [] hxs (Fits-first mode x hx)
          (nulls_of-le x) (omega arith) e (omega arith)))
    ∙ written_eq [] refl (omega arith) (unfold count_nulls in refl)

length-option : (completed : Option Token) → length (all_bytes (option_list completed)) ≤ 10
unfolding all_bytes
length-option none = omega arith
length-option (some c) = rw append-nil (length-token_bytes c)

-- `encode` in terms of its two passes.
encode_by_rest :
    (xs : List NvrSymbol) (mode : NvrMode) (bytes slice : List ℕ) (facts nulls : ℕ)
    → measure xs mode ≡ ok (plan (length bytes) facts nulls)
    → encode_rest (new_encoder mode slice) xs ≡ encoded bytes [] facts nulls
    → length slice ≡ length bytes
    → encode xs mode (plan (length bytes) facts nulls) slice ≡ ok bytes
unfolding encode
encode_by_rest xs mode bytes slice facts nulls m r e =
    let (e', p, q) = >>=-eq-ok (observe_all_encoder (new_encoder mode slice) xs) finish_encoder r in
    rw (m, p) (ground (arith, q, append-nil bytes))

length-runs-le :
    (p : Token) (xs : List NvrSymbol) → length (all_bytes (runs p xs)) ≤ 10 * (length xs + 1)
unfolding runs all_bytes
length-runs-le p [] = rw append-nil (omega (arith, length-token_bytes p))
length-runs-le p (x ∷ xs) =
    let q : Token = (merged (some p) (token_of_symbol x)).0 in
    let completed : Option Token = (merged (some p) (token_of_symbol x)).1 in
    omega (
      arith,
      length-all_bytes-append (option_list completed) (runs q xs),
      length-option completed,
      length-runs-le q xs,
    )

-- A list of symbols takes at most ten bytes for each.
pub length-encoding-le : (xs : List NvrSymbol) → length (encoding xs) ≤ 10 * length xs
unfolding encoding
length-encoding-le [] = omega arith
length-encoding-le (x ∷ xs) = omega (arith, length-runs-le (token_of_symbol x) xs)

-- `encode` succeeds on the plan that `measure` returns, with a slice of the measured length.
pub encode-encoding :
    (mode : NvrMode) (x : NvrSymbol) (xs : List NvrSymbol) (slice : List ℕ)
    → All (IsSymbol mode) (x ∷ xs)
    → length (x ∷ xs) ≤ 65_536
    → length slice ≡ length (encoding (x ∷ xs))
    → encode
        (x ∷ xs)
        mode
        (plan (length (encoding (x ∷ xs))) (length (x ∷ xs)) (count_nulls (x ∷ xs)))
        slice
      ≡ ok (encoding (x ∷ xs))
encode-encoding mode x xs slice h n e =
    encode_by_rest (x ∷ xs) mode (encoding (x ∷ xs)) slice (length (x ∷ xs)) (count_nulls (x ∷ xs))
      (unfold encoding in measure-runs mode x xs h n)
      (encode_rest_first mode x xs slice h n e (omega (arith, length-encoding-le (x ∷ xs)))) e
