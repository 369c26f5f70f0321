-- ===== src/Base/Lists.antt =====
-- Lists measured by native numbers, and the list operations that the components share.
use Prim.Native.Nat.{ℕ, zero, suc, ◌+◌, ◌-◌, ◌≤◌}
use mathlib.Core.Path.{◌≡◌, refl}
use mathlib.Core.Bool.{Bool, true, false, ◌&&◌, ◌||◌}
use mathlib.Core.List.{List, [], ◌∷◌, ◌++◌}
use mathlib.Core.Option.{Option, none, some}
use native.Mathlib.Omega.{arith}
use mathlib.Core.Path.{subst}
use mathlib.Core.Logic.{inl, inr}
use unit_management.Base.Tests.{if◌then◌else◌, is_some, Bool-cases}

module _ {ℓ} {A : Type ℓ} where
  abbrev pub length : List A → ℕ
  length [] = 0
  length (x ∷ xs) = suc (length xs)

  abbrev pub drop : ℕ → List A → List A
  drop zero xs = xs
  drop (suc n) [] = []
  drop (suc n) (x ∷ xs) = drop n xs

  abbrev pub take : ℕ → List A → List A
  take zero xs = []
  take (suc n) [] = []
  take (suc n) (x ∷ xs) = x ∷ take n xs

  -- `filter` by a Boolean test, which runs in a test.
  abbrev pub keep_if : (A → Bool) → List A → List A
  keep_if p [] = []
  keep_if p (x ∷ xs) = if p x then x ∷ keep_if p xs else keep_if p xs

  -- The first element that passes a test.
  abbrev pub find? : (A → Bool) → List A → Option A
  find? p [] = none
  find? p (x ∷ xs) = if p x then some x else find? p xs

  -- The elements that pass a test, changed in place.
  abbrev pub map_if : (A → Bool) → (A → A) → List A → List A
  map_if p f [] = []
  map_if p f (x ∷ xs) = (if p x then f x else x) ∷ map_if p f xs

  abbrev pub any : (A → Bool) → List A → Bool
  any p [] = false
  any p (x ∷ xs) = p x || any p xs

  abbrev pub all : (A → Bool) → List A → Bool
  all p [] = true
  all p (x ∷ xs) = p x && all p xs

  abbrev pub All {κ} : (A → Type κ) → List A → Type κ
  All P [] = Unit
  All P (x ∷ xs) = P x × All P xs

  pub length-append : (xs ys : List A) → length (xs ++ ys) ≡ length xs + length ys
  length-append [] ys = omega arith
  length-append (x ∷ xs) ys = omega (arith, length-append xs ys)

  pub length-drop : (n : ℕ) (xs : List A) → length (drop n xs) ≡ length xs - n
  length-drop zero xs = omega arith
  length-drop (suc n) [] = omega arith
  length-drop (suc n) (x ∷ xs) = omega (arith, length-drop n xs)

  pub length-keep_if-le : (p : A → Bool) (xs : List A) → length (keep_if p xs) ≤ length xs
  length-keep_if-le p [] = omega arith
  length-keep_if-le p (x ∷ xs) = ground (arith, length-keep_if-le p xs)

  -- How many elements pass a test.
  abbrev pub count_if : (A → Bool) → List A → ℕ
  count_if p [] = 0
  count_if p (x ∷ xs) = if p x then suc (count_if p xs) else count_if p xs

  pub length-keep_if : (p : A → Bool) (xs : List A) → length (keep_if p xs) ≡ count_if p xs
  length-keep_if p [] = refl
  length-keep_if p (x ∷ xs) = ground (arith, length-keep_if p xs)

  -- Reading after an update in place: of a key that the update may hit, and of another.
  pub find?-map_if :
      (p : A → Bool) (f : A → A) (xs : List A) {x : A}
      → ((y : A) → p y ≡ true → p (f y) ≡ true)
      → find? p xs ≡ some x
      → find? p (map_if p f xs) ≡ some (f x)
  find?-map_if p f [] keep h = cc
  find?-map_if p f (x ∷ xs) {x = y} keep h =
      ground (arith, keep x, find?-map_if p f xs {x = y} keep)

  pub find?-map_if_ne :
      (p q : A → Bool) (f : A → A) (xs : List A)
      → ((y : A) → p y ≡ true → (q y ≡ false) × (q (f y) ≡ false))
      → find? q (map_if p f xs) ≡ find? q xs
  find?-map_if_ne p q f [] apart = refl
  find?-map_if_ne p q f (x ∷ xs) apart = ground (arith, apart x, find?-map_if_ne p q f xs apart)

  pub find?-append_none :
      (p : A → Bool) (xs : List A) (y : A)
      → find? p (xs ++ y ∷ [])
        ≡ (if is_some (find? p xs) then find? p xs else if p y then some y else none)
  find?-append_none p [] y = refl
  find?-append_none p (x ∷ xs) y = ground (arith, find?-append_none p xs y)

  -- What a found element satisfies.
  pub find?-holds : (p : A → Bool) (xs : List A) {x : A} → find? p xs ≡ some x → p x ≡ true
  find?-holds p [] h = cc
  find?-holds p (x ∷ xs) {x = y} h = ground (arith, find?-holds p xs {x = y})

  pub find?-keep_if_ne :
      (p q : A → Bool) (xs : List A)
      → ((y : A) → p y ≡ false → q y ≡ false)
      → find? q (keep_if p xs) ≡ find? q xs
  find?-keep_if_ne p q [] apart = refl
  find?-keep_if_ne p q (x ∷ xs) apart = ground (arith, apart x, find?-keep_if_ne p q xs apart)

  pub All-append {κ} :
      (P : A → Type κ) (front zs : List A) → All P front → All P zs → All P (front ++ zs)
  All-append P [] zs first second = second
  All-append P (y ∷ rest) zs (head, tail) second = (head, All-append P rest zs tail second)

  pub All-keep_if {κ} :
      (P : A → Type κ) (p : A → Bool) (xs : List A) → All P xs → All P (keep_if p xs)
  All-keep_if P p [] h = tt
  All-keep_if P p (x ∷ xs) (h, hs) = elim (Bool-cases (p x)) [
    | inl e ↦ rw e (h, All-keep_if P p xs hs)
    | inr e ↦ rw e (All-keep_if P p xs hs)
  ]

  pub All-map_if {κ} :
      (P : A → Type κ) (p : A → Bool) (f : A → A) (xs : List A)
      → ((x : A) → P x → P (f x))
      → All P xs
      → All P (map_if p f xs)
  All-map_if P p f [] keep h = tt
  All-map_if P p f (x ∷ xs) keep (h, hs) = elim (Bool-cases (p x)) [
    | inl e ↦ rw e (keep x h, All-map_if P p f xs keep hs)
    | inr e ↦ rw e (h, All-map_if P p f xs keep hs)
  ]

  pub All-find? {κ} :
      (P : A → Type κ) (p : A → Bool) (xs : List A) {x : A} → All P xs → find? p xs ≡ some x → P x
  All-find? P p [] h e = absurd (cc)
  All-find? P p (y ∷ ys) (h, hs) e = elim (Bool-cases (p y)) [
    | inl t ↦ subst P (ground arith) h
    | inr f ↦ All-find? P p ys hs (ground arith)
  ]
