-- ===== src/Codec/Timestamp/Sound.antt =====
-- What the decoder of core/src/codec/timestamp.rs accepts.
use litesdb.Base.{ℕ, ◌≤◌, ◌≡◌, sym, arith, List, [], ◌∷◌, Option, none, some, ok}
use litesdb.Base.{>>=-eq-ok, length, get_elem?, last?, ok-injective, ◌∙◌, ap, true, suc, subst}
use litesdb.Base.Int.{ℤ, eq_of_parts}
use litesdb.Limits.{ensure_at_most}
use litesdb.Codec.Nvr.Token.{NvrSymbol, NvrMode, timestamps}
use litesdb.Codec.Nvr.Decode as Nvr
use litesdb.Codec.Diff2.{Diff2Decoder, decode_symbol}
use litesdb.Codec.Timestamp.{decode, decode_as, decode_nvr, decode_all, timestamp_of}
use litesdb.Codec.Timestamp.{validate_decoded, validate_row_count, is_timestamp}
use litesdb.Codec.Timestamp.{TimestampEncoding, fixed, nvr, encoding_from_tag}
use litesdb.Codec.Timestamp.Fixed.{length-decode_fixed}
use litesdb.Codec.Timestamp.Symbols.{Increasing, Increasing-of}

length-Nvr-decode :
    (bytes : List ℕ) (mode : NvrMode) (facts nulls : ℕ) {ss : List NvrSymbol}
    → Nvr.decode bytes mode facts nulls ≡ ok ss
    → length ss ≡ facts
unfolding Nvr.decode
length-Nvr-decode bytes mode facts nulls h = ground arith

length-decode_all :
    (d : Diff2Decoder) (ss : List NvrSymbol) (ts : List ℤ)
    → decode_all d ss ≡ ok ts
    → length ts ≡ length ss
unfolding decode_all
length-decode_all d [] ts h = ap length (sym (ok-injective h))
length-decode_all d (s ∷ ss) ts h =
    let ((d', out), first, h₁) = >>=-eq-ok (decode_symbol d s) _ h in
    let (t, here, h₂) = >>=-eq-ok (timestamp_of out) _ h₁ in
    let (rest, later, same) = >>=-eq-ok (decode_all d' ss) _ h₂ in
    ap length (sym (ok-injective same)) ∙ ap suc (length-decode_all d' ss rest later)

length-decode_as :
    (e : TimestampEncoding) (bytes : List ℕ) (rows : ℕ) (ts : List ℤ)
    → decode_as e bytes rows ≡ ok ts
    → length ts ≡ rows
unfolding decode_nvr
length-decode_as fixed bytes rows ts h = length-decode_fixed bytes rows h
length-decode_as nvr bytes rows ts h =
    let (ss, read, all) = >>=-eq-ok (Nvr.decode bytes timestamps rows 0) _ h in
    length-decode_all _ ss ts all ∙ length-Nvr-decode bytes timestamps rows 0 read

is_timestamp-eq_some : (t : ℤ) (o : Option ℤ) → is_timestamp t o ≡ true → o ≡ some t
is_timestamp-eq_some t none h = cc
is_timestamp-eq_some t (some u) h = ap (λ v. some v) (eq_of_parts u t (ground arith))

validate_decoded_inv :
    (ts : List ℤ) (low high : ℤ)
    → validate_decoded ts low high ≡ ok tt
    → (get_elem? ts 0 ≡ some low) × (last? ts ≡ some high) × Increasing ts
unfolding validate_decoded
validate_decoded_inv ts low high h = (
  is_timestamp-eq_some low (get_elem? ts 0) (ground arith),
  is_timestamp-eq_some high (last? ts) (ground arith),
  Increasing-of ts (ground arith),
)

-- What any bytes decode to: when `decode` accepts them, there is one timestamp for each of the
-- rows, which are between 1 and 65,536, the timestamps are strictly increasing, and they go
-- from the expected minimum to the expected maximum.
pub decode-Increasing :
    (tag : ℕ) (bytes : List ℕ) (rows : ℕ) (low high : ℤ) (ts : List ℤ)
    → decode tag bytes rows low high ≡ ok ts
    → (1 ≤ rows)
      × (rows ≤ 65_536)
      × (length ts ≡ rows)
      × Increasing ts
      × (get_elem? ts 0 ≡ some low)
      × (last? ts ≡ some high)
unfolding decode validate_row_count
decode-Increasing tag bytes rows low high ts h =
    let (_, counted, h₁) = >>=-eq-ok (validate_row_count rows) _ h in
    let (e, tagged, h₂) = >>=-eq-ok (encoding_from_tag tag) _ h₁ in
    let (found, read, h₃) = >>=-eq-ok (decode_as e bytes rows) _ h₂ in
    let (_, valid, same) = >>=-eq-ok (validate_decoded found low high) _ h₃ in
    let is_found : found ≡ ts = ok-injective same in
    let (first, end, increasing) =
      validate_decoded_inv ts low high
        (subst (λ l. validate_decoded l low high ≡ ok tt) is_found valid) in
    (
      ground arith,
      unfold ensure_at_most in ground arith,
      ap length (sym is_found) ∙ length-decode_as e bytes rows found read,
      increasing,
      first,
      end,
    )
