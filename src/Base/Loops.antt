-- ===== src/Base/Loops.antt =====
-- Loops that write or read one item after another.
use Prim.Native.Nat.{ℕ, zero, suc, ◌*◌, ◌≤◌}
use mathlib.Core.Path.{◌≡◌, refl}
use mathlib.Core.List.{List, [], ◌∷◌, ◌++◌, append_assoc}
use native.Mathlib.Omega.{arith}
use litesdb.Base.Lists.{length, All, length-append}
use litesdb.Base.Outcome.{Result, ok, ◌>>=◌}

module _ {ℓ} {A : Type ℓ} where
  -- `for item in items { write(item, output) }`
  unfoldable pub put_all : (A → List ℕ) → List A → List ℕ
  put_all put [] = []
  put_all put (x ∷ xs) = put x ++ put_all put xs

  -- `for item in items { write(item, output)?; }`
  unfoldable pub encode_each : (A → Result (List ℕ)) → List A → Result (List ℕ)
  encode_each encode [] = ok []
  encode_each encode (x ∷ xs) = do
    bytes ← encode x
    rest ← encode_each encode xs
    ok (bytes ++ rest)

  -- `for _ in 0..n { items.push(read(cursor)?); }`
  unfoldable pub read_many : (List ℕ → Result (A × List ℕ)) → ℕ → List ℕ → Result (List A × List ℕ)
  read_many read zero cursor = ok ([], cursor)
  read_many read (suc n) cursor = do
    (x, c₁) ← read cursor
    (xs, c₂) ← read_many read n c₁
    ok (x ∷ xs, c₂)

  pub encode_each-put_all :
      (encode : A → Result (List ℕ)) (put : A → List ℕ) (xs : List A)
      → All (λ x. encode x ≡ ok (put x)) xs
      → encode_each encode xs ≡ ok (put_all put xs)
  unfolding encode_each put_all
  encode_each-put_all encode put [] h = refl
  encode_each-put_all encode put (x ∷ xs) (h, hs) =
      rw (h, encode_each-put_all encode put xs hs) refl

  -- `read` undoes `put` on the item, whatever follows.
  abbrev pub ReadsBack : (List ℕ → Result (A × List ℕ)) → (A → List ℕ) → A → Type ℓ
  ReadsBack read put x = (rest : List ℕ) → read (put x ++ rest) ≡ ok (x, rest)

  pub read_many-put_all :
      (read : List ℕ → Result (A × List ℕ)) (put : A → List ℕ) (xs : List A) (rest : List ℕ)
      → All (ReadsBack read put) xs
      → read_many read (length xs) (put_all put xs ++ rest) ≡ ok (xs, rest)
  unfolding read_many put_all
  read_many-put_all read put [] rest h = refl
  read_many-put_all read put (x ∷ xs) rest (h, hs) =
      rw
        (
          append_assoc (put x) (put_all put xs) rest,
          h (put_all put xs ++ rest),
          read_many-put_all read put xs rest hs,
        )
        refl

  pub length-put_all :
      (put : A → List ℕ) (width : ℕ) (xs : List A)
      → ((x : A) → length (put x) ≡ width)
      → length (put_all put xs) ≡ length xs * width
  unfolding put_all
  length-put_all put width [] h = omega arith
  length-put_all put width (x ∷ xs) h =
      ground (arith, length-append (put x) (put_all put xs), h x, length-put_all put width xs h)

  pub put_all_wide :
      (put : A → List ℕ) (width : ℕ) (xs : List A)
      → ((x : A) → width ≤ length (put x))
      → length xs * width ≤ length (put_all put xs)
  unfolding put_all
  put_all_wide put width [] h = omega arith
  put_all_wide put width (x ∷ xs) h =
      ground (arith, length-append (put x) (put_all put xs), h x, put_all_wide put width xs h)
