-- ===== src/Base/LastN.antt =====
-- The last elements of a list, as many as a bound allows.
use Prim.Native.Nat.{ℕ, suc, ◌-◌, ◌≤◌}
use mathlib.Core.Path.{◌≡◌, refl}
use mathlib.Core.Logic.{inl, inr}
use mathlib.Core.List.{List, [], ◌∷◌, ◌++◌}
use native.Mathlib.Omega.{arith}
use unit_management.Base.Tests.{ltb, if◌then◌else◌, Bool-cases}
use unit_management.Base.Lists.{length, drop, length-append}

none_left : (n : ℕ) → 0 - n ≡ 0
none_left n = omega arith

module _ {A : Type 0} where
  -- The last `n` elements.
  unfoldable pub last_n : ℕ → List A → List A
  last_n n [] = []
  last_n n (t ∷ ts) = if ltb (length ts) n then t ∷ ts else last_n n ts

  pub last_n_all : (n : ℕ) (ts : List A) → length ts ≤ n → last_n n ts ≡ ts
  unfolding last_n
  last_n_all n [] h = refl
  last_n_all n (t ∷ ts) h = ground arith

  last_n-drop : (n : ℕ) (ts : List A) → last_n n ts ≡ drop (length ts - n) ts
  unfolding last_n
  last_n-drop n [] = rw (none_left n) refl
  last_n-drop n (t ∷ ts) = elim (Bool-cases (ltb (length ts) n)) [
    | inl short ↦ let e : suc (length ts) - n ≡ 0 = ground arith in rw (short, e) refl
    | inr long ↦
        let e : suc (length ts) - n ≡ suc (length ts - n) = ground arith in
        rw (long, e) (last_n-drop n ts)
  ]

  pub last_n-last_n-append :
      (n : ℕ) (ts : List A) (t : A) → last_n n (last_n n ts ++ t ∷ []) ≡ last_n n (ts ++ t ∷ [])
  unfolding last_n
  last_n-last_n-append n [] t = refl
  last_n-last_n-append n (u ∷ ts) t =
      ground (arith, last_n-last_n-append n ts t, length-append ts (t ∷ []))

  pub length-last_n : (n : ℕ) (ts : List A) → (ltb (length (last_n n ts)) n) ≡ ltb (length ts) n
  unfolding last_n
  length-last_n n [] = refl
  length-last_n n (t ∷ ts) = ground (arith, length-last_n n ts)

  pub length-last_n-le : (n : ℕ) (ts : List A) → length (last_n n ts) ≤ n
  unfolding last_n
  length-last_n-le n [] = omega arith
  length-last_n-le n (t ∷ ts) = ground (arith, length-last_n-le n ts)

  -- A slice from the front that is taken only if the list is too long.
  pub slice-eq-last_n :
      (n : ℕ) (ts : List A)
      → (if ltb n (length ts) then drop (length ts - n) ts else ts) ≡ last_n n ts
  slice-eq-last_n n ts = ground (arith, last_n-drop n ts, last_n_all n ts)
