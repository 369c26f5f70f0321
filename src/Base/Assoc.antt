-- ===== src/Base/Assoc.antt =====
-- Go maps with numbers as keys: the list of their entries, of which the first with a key counts.
use Prim.Native.Nat.{ℕ, ◌≤◌}
use mathlib.Core.Path.{◌≡◌, subst}
use mathlib.Core.Logic.{◌⊎◌, inl, inr}
use mathlib.Core.Bool.{true, false}
use mathlib.Core.List.{List, [], ◌∷◌}
use mathlib.Core.Option.{Option, none, some}
use native.Mathlib.Omega.{arith}
use unit_management.Base.Tests.{◌==◌, if◌then◌else◌, Bool-cases, is_some}
use unit_management.Base.Lists.{length}

abbrev pub Assoc : Type 0 → Type 0
Assoc V = List (ℕ × V)

module _ {V : Type 0} where
  -- m[key]
  abbrev pub lookup : ℕ → Assoc V → Option V
  lookup key [] = none
  lookup key ((k, v) ∷ m) = if k == key then some v else lookup key m

  -- delete(m, key)
  abbrev pub erase : ℕ → Assoc V → Assoc V
  erase key [] = []
  erase key ((k, v) ∷ m) = if k == key then erase key m else (k, v) ∷ erase key m

  -- m[key] = value
  abbrev pub assign : ℕ → V → Assoc V → Assoc V
  assign key value m = (key, value) ∷ erase key m

  pub lookup-erase :
      (q key : ℕ) (m : Assoc V) → lookup q (erase key m) ≡ (if key == q then none else lookup q m)
  lookup-erase q key [] = ground arith
  lookup-erase q key ((k, v) ∷ m) = ground (arith, lookup-erase q key m)

  pub lookup-assign :
      (q key : ℕ) (value : V) (m : Assoc V)
      → lookup q (assign key value m) ≡ (if key == q then some value else lookup q m)
  lookup-assign q key value m = ground (arith, lookup-erase q key m)

  pub length-erase-le : (key : ℕ) (m : Assoc V) → length (erase key m) ≤ length m
  length-erase-le key [] = omega arith
  length-erase-le key ((k, v) ∷ m) = ground (arith, length-erase-le key m)

  -- No key has two entries.
  abbrev pub Distinct : Assoc V → Type 0
  Distinct [] = Unit
  Distinct ((k, v) ∷ m) = (lookup k m ≡ none) × Distinct m

  -- Every entry satisfies `P`.
  abbrev pub Entries : (ℕ → V → Type 0) → Assoc V → Type 0
  Entries P [] = Unit
  Entries P ((k, v) ∷ m) = P k v × Entries P m

  pub Distinct-erase : (key : ℕ) (m : Assoc V) → Distinct m → Distinct (erase key m)
  Distinct-erase key [] d = tt
  Distinct-erase key ((k, v) ∷ m) (fresh, d) = elim (Bool-cases (k == key)) [
    | inl e ↦ rw e (Distinct-erase key m d)
    | inr e ↦ rw e (ground (arith, lookup-erase k key m), Distinct-erase key m d)
  ]

  pub Distinct-assign :
      (key : ℕ) (value : V) (m : Assoc V) → Distinct m → Distinct (assign key value m)
  Distinct-assign key value m d = (ground (arith, lookup-erase key key m), Distinct-erase key m d)

  pub Entries-erase :
      (P : ℕ → V → Type 0) (key : ℕ) (m : Assoc V) → Entries P m → Entries P (erase key m)
  Entries-erase P key [] h = tt
  Entries-erase P key ((k, v) ∷ m) (p, h) = elim (Bool-cases (k == key)) [
    | inl e ↦ rw e (Entries-erase P key m h)
    | inr e ↦ rw e (p, Entries-erase P key m h)
  ]

  -- What holds of every entry holds of what a lookup finds.
  pub Entries-lookup :
      (P : ℕ → V → Type 0) (key : ℕ) (m : Assoc V) {v : V}
      → Entries P m
      → lookup key m ≡ some v
      → P key v
  Entries-lookup P key [] h e = absurd (cc)
  Entries-lookup P key ((k, w) ∷ m) {v} (p, h) e = elim (Bool-cases (k == key)) [
    | inl here ↦ subst (λ (x : ℕ × V). P x.0 x.1) {x = (k, w)} {y = (key, v)} (ground arith) p
    | inr other ↦ Entries-lookup P key m h (ground arith)
  ]

  -- A property of keys that holds of those that a lookup finds holds of every entry.
  pub Entries-of_keys :
      (P : ℕ → Type 0) (m : Assoc V)
      → ((key : ℕ) → is_some (lookup key m) ≡ true → P key)
      → Entries (λ key v. P key) m
  Entries-of_keys P [] h = tt
  Entries-of_keys P ((k, v) ∷ m) h =
      (h k (ground arith), Entries-of_keys P m (λ q e. h q (ground arith)))

  pub Entries-map :
      (P Q : ℕ → V → Type 0) (m : Assoc V)
      → ((key : ℕ) (v : V) → P key v → Q key v)
      → Entries P m
      → Entries Q m
  Entries-map P Q [] f h = tt
  Entries-map P Q ((k, v) ∷ m) f (p, h) = (f k v p, Entries-map P Q m f h)

  -- Among distinct keys, every entry is what a lookup of its key finds.
  pub Entries-of_Distinct : (m : Assoc V) → Distinct m → Entries (λ k v. lookup k m ≡ some v) m
  Entries-of_Distinct [] d = tt
  Entries-of_Distinct ((k, v) ∷ m) (fresh, d) = (
    ground arith,
    Entries-map (λ q w. lookup q m ≡ some w) (λ q w. lookup q ((k, v) ∷ m) ≡ some w) m
        (λ q w found. later q w found (Bool-cases (k == q))) (Entries-of_Distinct m d),
  )
    where
      later :
          (q : ℕ) (w : V)
          → lookup q m ≡ some w
          → (k == q ≡ true) ⊎ (k == q ≡ false)
          → lookup q ((k, v) ∷ m) ≡ some w
      later q w found (inl e) = absurd (ground arith)
      later q w found (inr e) = ground arith

  pub Entries-and :
      (P Q : ℕ → V → Type 0) (m : Assoc V)
      → Entries P m
      → Entries Q m
      → Entries (λ k v. P k v × Q k v) m
  Entries-and P Q [] p q = tt
  Entries-and P Q ((k, v) ∷ m) (p, ps) (q, qs) = ((p, q), Entries-and P Q m ps qs)
