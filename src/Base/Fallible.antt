-- ===== src/Base/Fallible.antt =====
-- Fallible code: what it answers is a value or an error.
use mathlib.Core.Path.{◌≡◌, refl, subst, ap}
use mathlib.Core.Logic.{◌⊎◌, inl, inr}
use mathlib.Core.Bool.{Bool, true, false}
use mathlib.Core.Option.{Option, none, some}

pub data Result {ℓ} (E : Type ℓ) (A : Type ℓ) : Type ℓ where
  ok : A → Result E A
  err : E → Result E A

module _ {ℓ} {E A : Type ℓ} where
  pub Result-cases : (r : Result E A) → ((a : A) × (r ≡ ok a)) ⊎ ((e : E) × (r ≡ err e))
  Result-cases (err e) = inr (e, refl)
  Result-cases (ok a) = inl (a, refl)

  -- The value of a pointer, or an error where it is nil.
  abbrev pub or_err : Option A → E → Result E A
  or_err (some a) failure = ok a
  or_err none failure = err failure

  pub or_err-ok : (o : Option A) (failure : E) {a : A} → or_err o failure ≡ ok a → o ≡ some a
  or_err-ok (some a) failure known = cc
  or_err-ok none failure known = absurd (cc)

  -- Every error that a computation can answer satisfies `Q`.
  abbrev pub Errs : (E → Type 0) → Result E A → Type 0
  Errs Q (err e) = Q e
  Errs Q (ok a) = Unit

  abbrev err_or : E → Result E A → E
  err_or other (err e) = e
  err_or other (ok a) = other

  pub Errs-eq : (Q : E → Type 0) (r : Result E A) {e : E} → Errs Q r → r ≡ err e → Q e
  Errs-eq Q (err x) q same = subst Q (ap (err_or x) same) q
  Errs-eq Q (ok a) q same = absurd (cc)

-- An early return with an error, unless the test holds.
abbrev pub guard : {E : Type 0} → Bool → E → Result E (Unit {0})
guard passed failure = elim passed [ false ↦ err failure | true ↦ ok tt ]

pub guard-true : {E : Type 0} (b : Bool) (e : E) {x : Unit {0}} → guard b e ≡ ok x → b ≡ true
guard-true true e h = refl
guard-true false e h = cc

pub guard-Errs : {E : Type 0} (Q : E → Type 0) (b : Bool) (e : E) → Q e → Errs Q (guard b e)
guard-Errs Q false e q = q
guard-Errs Q true e q = tt

module _ {ℓ} {E A B : Type ℓ} where
  infixl 5 ◌>>=◌ ◌>>◌
  abbrev pub ◌>>=◌ : Result E A → (A → Result E B) → Result E B
  err failure >>= next = err failure
  ok value >>= next = next value

  abbrev pub ◌>>◌ : Result E A → Result E B → Result E B
  first >> second = first >>= (λ ignored. second)

  pub >>=-Errs :
      (Q : E → Type 0) (r : Result E A) (next : A → Result E B)
      → Errs Q r
      → ((a : A) → Errs Q (next a))
      → Errs Q (r >>= next)
  >>=-Errs Q (err e) next here later = here
  >>=-Errs Q (ok a) next here later = later a

  -- A chain that has succeeded succeeded in both of its parts.
  pub >>=-eq-ok :
      (r : Result E A) (next : A → Result E B) {answer : B}
      → (r >>= next) ≡ ok answer
      → (value : A) × (r ≡ ok value) × (next value ≡ ok answer)
  >>=-eq-ok (err failure) next done = cc
  >>=-eq-ok (ok value) next done = (value, refl, done)
