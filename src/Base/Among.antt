-- ===== src/Base/Among.antt =====
-- The elements of a list.
use mathlib.Core.Path.{◌≡◌, refl, ap, ◌∙◌}
use mathlib.Core.Logic.{◌⊎◌, inl, inr}
use mathlib.Core.Bool.{Bool, true}
use mathlib.Core.List.{List, [], ◌∷◌, ◌++◌}
use mathlib.Core.Option.{some}
use native.Mathlib.Omega.{arith}
use unit_management.Base.Tests.{Bool-cases}
use unit_management.Base.Lists.{find?, map_if}

module _ {A : Type 0} where
  -- One of the elements is `x`.
  abbrev pub Among : List A → A → Type 0
  Among [] x = ⊥
  Among (y ∷ ys) x = (y ≡ x) ⊎ Among ys x

  pub Among-find? : (p : A → Bool) (xs : List A) {x : A} → find? p xs ≡ some x → Among xs x
  Among-find? p [] h = absurd (cc)
  Among-find? p (y ∷ ys) h = elim (Bool-cases (p y)) [
    | inl here ↦ inl (ground arith)
    | inr later ↦ inr (Among-find? p ys (ground arith))
  ]

  pub Among-last : (xs : List A) (x : A) → Among (xs ++ x ∷ []) x
  Among-last [] x = inl refl
  Among-last (y ∷ ys) x = inr (Among-last ys x)

  -- What a row that meets the test becomes is among the rows after a change.
  pub Among-map_if :
      (p : A → Bool) (f : A → A) (xs : List A) {x : A}
      → p x ≡ true
      → Among xs x
      → Among (map_if p f xs) (f x)
  Among-map_if p f [] t h = h
  Among-map_if p f (y ∷ ys) {x} t (inl same) =
      let here : p y ≡ true = ap p same ∙ t in rw here (inl (ap f same))
  Among-map_if p f (y ∷ ys) t (inr h) = inr (Among-map_if p f ys t h)
