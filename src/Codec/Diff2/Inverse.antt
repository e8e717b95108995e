-- ===== src/Codec/Diff2/Inverse.antt =====
-- The decoder undoes the encoder.
use litesdb.Base.{ℕ, ◌+◌, ◌*◌, ◌^◌, ◌<◌, ◌≤◌, ◌≡◌, refl, arith}
use litesdb.Base.{Bool, true, Option, none, some, ok}
use litesdb.Base.Bits.{low_bit}
use litesdb.Base.Int.{ℤ, pos, negsuc, ◌+ℤ◌, ◌-ℤ◌, pos_part, neg_part, IsI64, IsI128, int_laws}
use litesdb.Base.Int.{checked_sub_i128, checked_add_i128, fits_i128}
use litesdb.Codec.Diff2.{Diff2Kind, unsigned_kind, timestamp_kind}
use litesdb.Codec.Diff2.{Diff2Encoder, Diff2Decoder, zigzag, unzigzag}
use litesdb.Codec.Diff2.{
  first_code, first_value, predict, add_prediction, validate_domain, then_some,
}
use litesdb.Codec.Diff2.{encode_value, decode_value}

-- `unzigzag` undoes `zigzag`, and what `zigzag` takes is small.
pub unzigzag-zigzag :
    (v : ℤ) (code : ℕ)
    → zigzag v ≡ some code
    → (unzigzag code ≡ ok v) × (code < 2 ^ 64) × (pos_part v ≤ 2 ^ 63) × (neg_part v ≤ 2 ^ 63)
unfolding zigzag unzigzag
unzigzag-zigzag (pos n) code h = ground (arith, low_bit (n * 2))
unzigzag-zigzag (negsuc n) code h = ground (arith, low_bit (n * 2 + 1))

checked_sub_inv : (a b c : ℤ) → checked_sub_i128 a b ≡ some c → (c ≡ a -ℤ b) × IsI128 c
unfolding checked_sub_i128
checked_sub_inv a b c h = ground arith

fits_i128_of : (a : ℤ) → IsI128 a → fits_i128 a ≡ true
fits_i128_of a h = ground arith

sum_back : (a b : ℤ) → a +ℤ (b -ℤ a) ≡ b
sum_back a b = omega int_laws

checked_add_back : (a b : ℤ) → IsI128 b → checked_add_i128 a (b -ℤ a) ≡ some b
unfolding checked_add_i128
checked_add_back a b h = rw (sum_back, fits_i128_of b h)

add-sub :
    (v previous d : ℤ)
    → IsI128 v
    → checked_sub_i128 v previous ≡ some d
    → checked_add_i128 previous d ≡ some v
add-sub v previous d h sub =
    let (is, small) = checked_sub_inv v previous d sub in rw (is) (checked_add_back previous v h)

-- The values of a kind.
abbrev pub InDomain : Diff2Kind → ℤ → Type 0
InDomain (unsigned_kind maximum) v = (neg_part v ≡ 0) × (pos_part v ≤ maximum) × (maximum < 2 ^ 64)
InDomain timestamp_kind v = IsI64 v

InDomain-IsI128 : (kind : Diff2Kind) (v : ℤ) → InDomain kind v → IsI128 v
InDomain-IsI128 (unsigned_kind maximum) v h = omega arith
InDomain-IsI128 timestamp_kind v h = omega arith

validate_domain_ok : (kind : Diff2Kind) (v : ℤ) → InDomain kind v → validate_domain kind v ≡ ok tt
unfolding validate_domain
validate_domain_ok (unsigned_kind maximum) v h = ground arith
validate_domain_ok timestamp_kind v h = ground arith

first_value-first_code :
    (kind : Diff2Kind) (v : ℤ) (code : ℕ)
    → InDomain kind v
    → first_code kind v ≡ some code
    → first_value kind code ≡ ok v
unfolding first_code first_value
first_value-first_code (unsigned_kind maximum) (pos n) code h e = ground arith
first_value-first_code (unsigned_kind maximum) (negsuc n) code h e = cc
first_value-first_code timestamp_kind v code h e = (unzigzag-zigzag v code e).0

add_prediction-predict :
    (delta predicted : ℤ) (previous : Option ℤ)
    → IsI128 delta
    → predict delta previous ≡ some predicted
    → add_prediction previous predicted ≡ ok delta
add_prediction-predict delta predicted none h e = unfold predict add_prediction in cc
add_prediction-predict delta predicted (some d) h e =
    let (is, small) = checked_sub_inv delta d predicted (unfold predict in e) in
    unfold add_prediction in rw (is, checked_add_back d delta h) refl

pub then_some-eq_some {ℓ κ} :
    {A : Type ℓ} {B : Type κ} (o : Option A) (f : A → Option B) {b : B}
    → then_some o f ≡ some b
    → (a : A) × (o ≡ some a) × (f a ≡ some b)
then_some-eq_some none f h = cc
then_some-eq_some (some a) f h = (a, refl, h)

abbrev pub encoder : Diff2Kind → Option ℤ → Option ℤ → Bool → Diff2Encoder
encoder kind previous delta available = record {
  kind = kind;
  previous_value = previous;
  previous_delta = delta;
  available = available;
}

abbrev pub decoder : Diff2Kind → Option ℤ → Option ℤ → Diff2Decoder
decoder kind previous delta = record {
  kind = kind;
  previous_value = previous;
  previous_delta = delta;
}

first_value_next :
    (kind : Diff2Kind) (delta : Option ℤ) (v : ℤ) (code : ℕ)
    → InDomain kind v
    → first_code kind v ≡ some code
    → decode_value (decoder kind none delta) code ≡ ok (v, delta)
unfolding decode_value
first_value_next kind delta v code h first =
    rw (first_value-first_code kind v code h first, validate_domain_ok kind v h) refl

next_value :
    (kind : Diff2Kind) (previous : ℤ) (delta : Option ℤ) (v d p : ℤ) (code : ℕ)
    → InDomain kind v
    → checked_sub_i128 v previous ≡ some d
    → predict d delta ≡ some p
    → zigzag p ≡ some code
    → decode_value (decoder kind (some previous) delta) code ≡ ok (v, some d)
unfolding decode_value
next_value kind previous delta v d p code h sub guess zig =
    let (is, small) = checked_sub_inv v previous d sub in
    rw
      (
        (unzigzag-zigzag p code zig).0,
        add_prediction-predict d p delta small guess,
        add-sub v previous d (InDomain-IsI128 kind v h) sub,
        validate_domain_ok kind v h,
      )
      refl

-- The code of a value, read by a decoder in the state of the encoder, is the value.
pub decode_value-encode_value :
    (kind : Diff2Kind) (previous delta : Option ℤ) (v : ℤ) {code : ℕ} {kept : Option ℤ}
    → InDomain kind v
    → encode_value (encoder kind previous delta true) v ≡ some (code, kept)
    → decode_value (decoder kind previous delta) code ≡ ok (v, kept)
unfolding encode_value
decode_value-encode_value kind none delta v h e =
    let (c, first, same) = then_some-eq_some (first_code kind v) _ e in
    let back = first_value_next kind delta v c h first in cc
decode_value-encode_value kind (some previous) delta v h e =
    let (d, sub, e₁) = then_some-eq_some (checked_sub_i128 v previous) _ e in
    let (p, guess, e₂) = then_some-eq_some (predict d delta) _ e₁ in
    let (c, zig, same) = then_some-eq_some (zigzag p) _ e₂ in
    let back = next_value kind previous delta v d p c h sub guess zig in cc
