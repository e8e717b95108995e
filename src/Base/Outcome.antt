-- ===== src/Base/Outcome.antt =====
-- core/src/error.rs: the error type, and `Result` with its `?`.
use Prim.Native.Nat.{ℕ}
use Prim.Native.String.{String}
use mathlib.Core.Path.{◌≡◌, refl}
use mathlib.Core.Bool.{Bool, true, false}
use mathlib.Core.Option.{Option, none, some}
use mathlib.Core.Logic.{◌⊎◌, inl, inr}
use mathlib.Core.List.{List, [], ◌∷◌, map}
use litesdb.Base.Lists.{All}

pub data ErrorKind : Type 0 where
  corruption_kind resource_exhausted_kind invalid_argument_kind unsupported_kind : ErrorKind
  poisoned_kind io_kind : ErrorKind

-- The detail structs are written in place. The text of an `io` error is that of the system.
pub data Error : Type 0 where
  corruption : String → String → Error
  resource_exhausted : String → ℕ → ℕ → Error
  invalid_argument : String → String → Error
  unsupported : String → String → Error
  poisoned : Error
  io : String → Error

unfoldable pub kind : Error → ErrorKind
kind (corruption context reason) = corruption_kind
kind (resource_exhausted name actual maximum) = resource_exhausted_kind
kind (invalid_argument argument reason) = invalid_argument_kind
kind (unsupported operation reason) = unsupported_kind
kind poisoned = poisoned_kind
kind (io text) = io_kind

pub data Result {ℓ} (T : Type ℓ) : Type ℓ where
  err : Error → Result T
  ok : T → Result T

-- `?`
module _ {ℓ κ} {T : Type ℓ} {U : Type κ} where
  infixl 6 ◌>>=◌
  abbrev pub ◌>>=◌ : Result T → (T → Result U) → Result U
  err failure >>= next = err failure
  ok t >>= next = next t

  pub >>=-eq-ok :
      (first : Result T) (next : T → Result U) {u : U}
      → (first >>= next) ≡ ok u
      → (t : T) × (first ≡ ok t) × (next t ≡ ok u)
  >>=-eq-ok (err failure) next e = cc
  >>=-eq-ok (ok t) next e = (t, refl, e)

-- `step()?;`
infixl 6 ◌>>◌
abbrev pub ◌>>◌ {ℓ} : {U : Type ℓ} → Result (Unit {0}) → Result U → Result U
first >> rest = first >>= λ _. rest

-- `if condition { return Err(e) }`
abbrev pub fail_if : Bool → Error → Result (Unit {0})
fail_if true e = err e
fail_if false e = ok tt

-- `ok_or_else`
abbrev pub ok_or {ℓ} : {A : Type ℓ} → Option A → Error → Result A
ok_or none e = err e
ok_or (some a) e = ok a

-- `map_err(|_| e)`
abbrev pub map_err {ℓ} : {A : Type ℓ} → Error → Result A → Result A
map_err e (ok a) = ok a
map_err e (err _) = err e

-- `is_ok`
abbrev pub is_ok {ℓ} : {A : Type ℓ} → Result A → Bool
is_ok (ok a) = true
is_ok (err e) = false

abbrev pub IsErr {ℓ} : {A : Type ℓ} → Result A → Type ℓ
IsErr {A = A} r = (e : Error) × (r ≡ err e)

-- `iter().map(f).collect::<Result<Vec<_>>>()`
unfoldable pub traverse {ℓ κ} :
    {A : Type ℓ} {B : Type κ} → (A → Result B) → List A → Result (List B)
traverse f [] = ok []
traverse f (x ∷ xs) = do y ← f x; ys ← traverse f xs; ok (y ∷ ys)

pub Result-cases {ℓ} :
    {A : Type ℓ} (r : Result A) → ((e : Error) × (r ≡ err e)) ⊎ ((a : A) × (r ≡ ok a))
Result-cases (err e) = inl (e, refl)
Result-cases (ok a) = inr (a, refl)

-- What a passed step says.
pub ok_or-eq_ok {ℓ} :
    {A : Type ℓ} (o : Option A) (e : Error) {a : A} → ok_or o e ≡ ok a → o ≡ some a
ok_or-eq_ok none e h = cc
ok_or-eq_ok (some x) e h = cc

pub fail_if-eq_ok : (b : Bool) (e : Error) {u : Unit {0}} → fail_if b e ≡ ok u → b ≡ false
fail_if-eq_ok true e h = cc
fail_if-eq_ok false e h = refl

pub map_err-eq_ok {ℓ} :
    {A : Type ℓ} (e : Error) (r : Result A) {a : A} → map_err e r ≡ ok a → r ≡ ok a
map_err-eq_ok e (err f) h = cc
map_err-eq_ok e (ok x) h = cc

pub is_ok-eq_ok {ℓ} : {A : Type ℓ} (r : Result A) → is_ok r ≡ true → (a : A) × (r ≡ ok a)
is_ok-eq_ok (err f) h = cc
is_ok-eq_ok (ok a) h = (a, refl)

pub ok-injective {ℓ} : {A : Type ℓ} {a b : A} → ok a ≡ ok b → a ≡ b
ok-injective h = cc

-- A step whose continuation fails on every result.
pub >>=-IsErr {ℓ κ} :
    {T : Type ℓ} {U : Type κ} (first : Result T) (step : T → Result U) (e : Error)
    → ((t : T) → step t ≡ err e)
    → IsErr (first >>= step)
>>=-IsErr (err failure) step e h = (failure, refl)
>>=-IsErr (ok t) step e h = (e, h t)

pub traverse-map {ℓ κ} :
    {A : Type ℓ} {B : Type κ} (f : A → Result B) (g : B → A) (xs : List B)
    → All (λ x. f (g x) ≡ ok x) xs
    → traverse f (map g xs) ≡ ok xs
unfolding traverse
traverse-map f g [] h = refl
traverse-map f g (x ∷ xs) (h, hs) = rw (h, traverse-map f g xs hs) refl
