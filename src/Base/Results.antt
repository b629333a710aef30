-- ===== src/Base/Results.antt =====
-- Exceptions as values, and actions: a function of the state that returns or throws, and leaves a
-- state in both cases, as an awaited call does.
use Prim.Native.String.{String}
use mathlib.Core.Path.{◌≡◌, refl}
use mathlib.Core.Logic.{◌⊎◌, inl, inr}

-- `because p e` is `new Error(`${p}: ${e.message}`)`; `prisma m` is what a database call throws.
pub data Error : Type 0 where
  message : String → Error
  prisma : String → Error
  because : String → Error → Error

pub data Result {ℓ} (A : Type ℓ) : Type ℓ where
  ok : A → Result A
  err : Error → Result A

abbrev pub Act : Type 0 → Type 0 → Type 0
Act S A = S → Result A × S

module _ {S : Type 0} where
  abbrev pub pure : {A : Type 0} → A → Act S A
  pure a s = (ok a, s)

  abbrev pub throw : {A : Type 0} → Error → Act S A
  throw e s = (err e, s)

  -- How a bind goes on from the outcome of its first part.
  abbrev pub continue : {A B : Type 0} → (A → Act S B) → Result A × S → Result B × S
  continue f (ok a, s) = f a s
  continue f (err e, s) = (err e, s)

  infixl 5 ◌>>=◌ ◌>>◌
  abbrev pub ◌>>=◌ : {A B : Type 0} → Act S A → (A → Act S B) → Act S B
  ◌>>=◌ m f s = continue f (m s)

  abbrev pub ◌>>◌ : {A B : Type 0} → Act S A → Act S B → Act S B
  m >> k = m >>= λ _. k

  abbrev pub handle : {A : Type 0} → (Error → Act S A) → Result A × S → Result A × S
  handle h (ok a, s) = (ok a, s)
  handle h (err e, s) = h e s

  -- try { m } catch (e) { h e }
  abbrev pub catch : {A : Type 0} → Act S A → (Error → Act S A) → Act S A
  catch m h s = handle h (m s)

pub ok-injective {ℓ} : {A : Type ℓ} {a b : A} → ok a ≡ ok b → a ≡ b
ok-injective e = cc

pub Result-cases {ℓ} :
    {A : Type ℓ} (r : Result A) → ((a : A) × (r ≡ ok a)) ⊎ ((e : Error) × (r ≡ err e))
Result-cases (ok a) = inl (a, refl)
Result-cases (err e) = inr (e, refl)

module _ {S : Type 0} where
  abbrev pub get : Act S S
  get s = (ok s, s)

  abbrev pub put : S → Act S (Unit {0})
  put s' s = (ok tt, s')

  -- A computation that may throw and changes nothing.
  abbrev pub lift : {A : Type 0} → Result A → Act S A
  lift r s = (r, s)
