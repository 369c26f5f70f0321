-- ===== src/Text/Order.antt =====
-- The order of Go's strings, which is that of their code points, and slices.Sort and slices.Compact
-- on lists of strings: a sort by a total order has one result, which insertion computes here.
use mathlib.Core.Path.{subst}
use unit_management.Base.{
  ◌≡◌, refl, sym, ◌∙◌, ap, inl, inr, Bool, true, false, ◌&&◌, ◌||◌, List, [], ◌∷◌, arith, ◌==◌, ltb,
  if◌then◌else◌, any, Bool-cases,
}
use unit_management.Text.{Text, text_eq, text_eq_iff}

-- s < t
unfoldable pub text_lt : Text → Text → Bool
text_lt [] [] = false
text_lt [] (d ∷ t) = true
text_lt (c ∷ s) [] = false
text_lt (c ∷ s) (d ∷ t) = ltb c d || c == d && text_lt s t

unfoldable pub insert_text : Text → List Text → List Text
insert_text s [] = s ∷ []
insert_text s (t ∷ ts) = if text_lt t s then t ∷ insert_text s ts else s ∷ t ∷ ts

-- slices.Sort
unfoldable pub sort_texts : List Text → List Text
unfolding insert_text
sort_texts [] = []
sort_texts (s ∷ ts) = insert_text s (sort_texts ts)

abbrev prepend : Text → List Text → List Text
prepend s [] = s ∷ []
prepend s (t ∷ ts) = if text_eq s t then t ∷ ts else s ∷ t ∷ ts

-- slices.Compact: of equal neighbours one.
unfoldable pub compact : List Text → List Text
compact [] = []
compact (s ∷ ts) = prepend s (compact ts)

pub text_lt-asym : (s t : Text) → text_lt s t ≡ true → text_lt t s ≡ false
unfolding text_lt
text_lt-asym [] [] h = absurd (cc)
text_lt-asym [] (d ∷ t) h = refl
text_lt-asym (c ∷ s) [] h = absurd (cc)
text_lt-asym (c ∷ s) (d ∷ t) h = ground (arith, text_lt-asym s t)

pub text_lt_total : (s t : Text) → text_lt s t ≡ false → text_lt t s ≡ false → text_eq s t ≡ true
unfolding text_lt text_eq
text_lt_total [] [] h h' = refl
text_lt_total [] (d ∷ t) h h' = absurd (cc)
text_lt_total (c ∷ s) [] h h' = absurd (cc)
text_lt_total (c ∷ s) (d ∷ t) h h' = ground (arith, text_lt_total s t)

pub text_lt_irrefl : (s : Text) → text_lt s s ≡ false
unfolding text_lt
text_lt_irrefl [] = refl
text_lt_irrefl (c ∷ s) = ground (arith, text_lt_irrefl s)

-- In order, where `Strict` allows no equal neighbours.
abbrev pub Ascending : List Text → Type 0
Ascending [] = Unit
Ascending (s ∷ []) = Unit
Ascending (s ∷ t ∷ ts) = (text_lt t s ≡ false) × Ascending (t ∷ ts)

abbrev pub Strict : List Text → Type 0
Strict [] = Unit
Strict (s ∷ []) = Unit
Strict (s ∷ t ∷ ts) = (text_lt s t ≡ true) × Strict (t ∷ ts)

insert_text_after :
    (s t : Text) (ts : List Text)
    → text_lt t s ≡ true
    → insert_text s (t ∷ ts) ≡ t ∷ insert_text s ts
unfolding insert_text
insert_text_after s t ts e = rw e refl

insert_text_before :
    (s t : Text) (ts : List Text) → text_lt t s ≡ false → insert_text s (t ∷ ts) ≡ s ∷ t ∷ ts
unfolding insert_text
insert_text_before s t ts e = rw e refl

insert_text-Ascending : (s : Text) (ts : List Text) → Ascending ts → Ascending (insert_text s ts)
unfolding insert_text
insert_text-Ascending s [] h = tt
insert_text-Ascending s (t ∷ []) h = elim (Bool-cases (text_lt t s)) [
  | inl e ↦ rw e (text_lt-asym t s e, tt)
  | inr e ↦ rw e (e, tt)
]
insert_text-Ascending s (t ∷ u ∷ ts) (le, h) = elim (Bool-cases (text_lt t s)) [
  | inr e ↦ subst Ascending (sym (insert_text_before s t (u ∷ ts) e)) (e, (le, h))
  | inl e ↦
      let rest = insert_text-Ascending s (u ∷ ts) h in
      subst Ascending (sym (insert_text_after s t (u ∷ ts) e)) (elim (Bool-cases (text_lt u s)) [
        | inl e' ↦
            let same = insert_text_after s u ts e' in
            subst (λ l. Ascending (t ∷ l)) (sym same) (le, subst Ascending same rest)
        | inr e' ↦
            let same = insert_text_before s u ts e' in
            subst (λ l. Ascending (t ∷ l)) (sym same)
              (text_lt-asym t s e, subst Ascending same rest)
      ])
]

pub sort_texts-Ascending : (ts : List Text) → Ascending (sort_texts ts)
unfolding sort_texts
sort_texts-Ascending [] = tt
sort_texts-Ascending (s ∷ ts) = insert_text-Ascending s (sort_texts ts) (sort_texts-Ascending ts)

prepend-head : (s : Text) (ts : List Text) → (rest : List Text) × (prepend s ts ≡ s ∷ rest)
prepend-head s [] = ([], refl)
prepend-head s (t ∷ ts) = elim (Bool-cases (text_eq s t)) [
  | inl e ↦ (ts, rw e (ap (λ x. x ∷ ts) (sym ((text_eq_iff s t).0 e))))
  | inr e ↦ (t ∷ ts, rw e refl)
]

prepend-Strict :
    (s t : Text) (ts : List Text)
    → text_lt t s ≡ false
    → Strict (t ∷ ts)
    → Strict (prepend s (t ∷ ts))
prepend-Strict s t ts le h = elim (Bool-cases (text_eq s t)) [
  | inl e ↦ rw e h
  | inr e ↦ rw e (elim (Bool-cases (text_lt s t)) [
    | inl lt ↦ (lt, h)
    | inr ge ↦ absurd (let same = text_lt_total s t ge le in cc)
  ])
]

pub compact-Strict : (ts : List Text) → Ascending ts → Strict (compact ts)
unfolding compact
compact-Strict [] h = tt
compact-Strict (s ∷ []) h = tt
compact-Strict (s ∷ t ∷ ts) (le, h) =
    let (rest, e) = prepend-head t (compact ts) in
    let strict = compact-Strict (t ∷ ts) h in
    subst (λ l. Strict (prepend s l)) (sym e) (prepend-Strict s t rest le (subst Strict e strict))

pub any-compact : (p : Text → Bool) (ts : List Text) → any p (compact ts) ≡ any p ts
unfolding compact
any-compact p [] = refl
any-compact p (s ∷ ts) = prepended s (compact ts) ∙ ap (λ b. p s || b) (any-compact p ts)
  where
    prepended : (s : Text) (ts : List Text) → any p (prepend s ts) ≡ (p s || any p ts)
    prepended s [] = refl
    prepended s (t ∷ ts) = elim (Bool-cases (text_eq s t)) [
      | inl e ↦ rw e (rw ((text_eq_iff s t).0 e) (twice (p t) (any p ts)))
      | inr e ↦ rw e refl
    ]
      where
        twice : (a b : Bool) → (a || b) ≡ (a || (a || b))
        twice a b = ground arith

pub any-sort_texts : (p : Text → Bool) (ts : List Text) → any p (sort_texts ts) ≡ any p ts
unfolding sort_texts
any-sort_texts p [] = refl
any-sort_texts p (s ∷ ts) = inserted p s (sort_texts ts) ∙ ap (λ b. p s || b) (any-sort_texts p ts)
  where
    inserted :
        (p : Text → Bool) (s : Text) (ts : List Text) → any p (insert_text s ts) ≡ (p s || any p ts)
    inserted p s [] = refl
    inserted p s (t ∷ ts) = ground (arith, inserted p s ts)

pub text_lt_trans : (s t u : Text) → text_lt s t ≡ true → text_lt t u ≡ true → text_lt s u ≡ true
unfolding text_lt
text_lt_trans [] [] u h h' = absurd (cc)
text_lt_trans [] (d ∷ t) [] h h' = absurd (cc)
text_lt_trans [] (d ∷ t) (e ∷ u) h h' = refl
text_lt_trans (c ∷ s) [] u h h' = absurd (cc)
text_lt_trans (c ∷ s) (d ∷ t) [] h h' = absurd (cc)
text_lt_trans (c ∷ s) (d ∷ t) (e ∷ u) h h' = ground (arith, text_lt_trans s t u)

-- No text stands twice.
abbrev pub NoRepeat : List Text → Type 0
NoRepeat [] = Unit
NoRepeat (s ∷ ts) = (any (text_eq s) ts ≡ false) × NoRepeat ts

abbrev Below : Text → List Text → Type 0
Below s [] = Unit
Below s (t ∷ ts) = text_lt s t ≡ true

differs : (s t : Text) → text_lt s t ≡ true → text_eq s t ≡ false
differs s t lt = elim (Bool-cases (text_eq s t)) [
  | inr e ↦ e
  | inl e ↦
      let same = (text_eq_iff s t).0 e in
      absurd
        (let irrefl = text_lt_irrefl t in let lt' = subst (λ x. text_lt x t ≡ true) same lt in cc)
]

-- In strictly ascending order, what is less than the first is none of the list.
absent-Below : (s : Text) (ts : List Text) → Below s ts → Strict ts → any (text_eq s) ts ≡ false
absent-Below s [] lt h = refl
absent-Below s (t ∷ []) lt h = ground (arith, differs s t lt)
absent-Below s (t ∷ u ∷ ts) lt (lt', h) =
    ground (arith, differs s t lt, absent-Below s (u ∷ ts) (text_lt_trans s t u lt lt') h)

pub Strict-NoRepeat : (ts : List Text) → Strict ts → NoRepeat ts
Strict-NoRepeat [] h = tt
Strict-NoRepeat (s ∷ []) h = (refl, tt)
Strict-NoRepeat (s ∷ t ∷ ts) (lt, h) = (absent-Below s (t ∷ ts) lt h, Strict-NoRepeat (t ∷ ts) h)
