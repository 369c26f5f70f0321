-- ===== src/Audit/Paging.antt =====
-- The pages of the audit log: a listing that goes on after the last entry of another continues it.
use mathlib.Core.Path.{subst}
use unit_management.Base.{
  ℕ, zero, suc, ◌+◌, ◌≤◌, ◌≢◌, ◌≡◌, refl, sym, ◌∙◌, ap, inl, inr, Bool, true, false, ◌&&◌, some,
  List, [], ◌∷◌, ◌++◌, arith, ◌==◌, ltb, if◌then◌else◌, take, drop, keep_if, All, All-keep_if,
  Bool-cases,
}
use unit_management.Database.{Answer, done, duplicate, failed, Table, IsTable}
use unit_management.Models.{AuditLog}
use unit_management.Audit.{Filter, is_match, insert_by_id, newest_first, list, listed, clamp_limit}

-- IDs are a primary key: among the rows, no ID stands twice.
abbrev pub UniqueIds : List AuditLog → Type 0
UniqueIds [] = Unit
UniqueIds (e ∷ es) = All (λ f. (e.id == f.id) ≡ false) es × UniqueIds es

-- From the highest ID to the lowest, each greater than all after it.
abbrev pub Descending : List AuditLog → Type 0
Descending [] = Unit
Descending (e ∷ es) = All (λ f. ltb f.id e.id ≡ true) es × Descending es

All-insert_by_id :
    (P : AuditLog → Type 0) (e : AuditLog) (es : List AuditLog)
    → P e
    → All P es
    → All P (insert_by_id e es)
unfolding insert_by_id
All-insert_by_id P e [] h hs = (h, tt)
All-insert_by_id P e (f ∷ fs) h (k, ks) = elim (Bool-cases (ltb e.id f.id)) [
  | inl t ↦ rw t (k, All-insert_by_id P e fs h ks)
  | inr t ↦ rw t (h, (k, ks))
]

All-newest_first : (P : AuditLog → Type 0) (es : List AuditLog) → All P es → All P (newest_first es)
unfolding newest_first
All-newest_first P [] h = tt
All-newest_first P (e ∷ es) (h, hs) =
    All-insert_by_id P e (newest_first es) h (All-newest_first P es hs)

All-below :
    (a b : ℕ) (es : List AuditLog)
    → a ≤ b
    → All (λ f. ltb f.id a ≡ true) es
    → All (λ f. ltb f.id b ≡ true) es
All-below a b [] le h = tt
All-below a b (e ∷ es) le (h, hs) = (ground arith, All-below a b es le hs)

insert_by_id-Descending :
    (e : AuditLog) (es : List AuditLog)
    → All (λ f. (e.id == f.id) ≡ false) es
    → Descending es
    → Descending (insert_by_id e es)
unfolding insert_by_id
insert_by_id-Descending e [] apart h = (tt, tt)
insert_by_id-Descending e (f ∷ fs) (apart, aparts) (first, rest) =
    elim (Bool-cases (ltb e.id f.id)) [
      | inl t ↦ rw t (
        All-insert_by_id (λ g. ltb g.id f.id ≡ true) e fs t first,
        insert_by_id-Descending e fs aparts rest,
      )
      | inr t ↦
          let below : ltb f.id e.id ≡ true = ground arith in
          rw t ((below, All-below f.id e.id fs (ground arith) first), (first, rest))
    ]

newest_first-Descending : (es : List AuditLog) → UniqueIds es → Descending (newest_first es)
unfolding newest_first
newest_first-Descending [] u = tt
newest_first-Descending (e ∷ es) (apart, u) =
    insert_by_id-Descending e (newest_first es)
      (All-newest_first (λ f. (e.id == f.id) ≡ false) es apart) (newest_first-Descending es u)

insert_before :
    (e : AuditLog) (es : List AuditLog)
    → All (λ f. ltb e.id f.id ≡ false) es
    → insert_by_id e es ≡ e ∷ es
unfolding insert_by_id
insert_before e [] h = refl
insert_before e (f ∷ fs) (h, hs) = rw h refl

not_above :
    (a b : ℕ) (es : List AuditLog)
    → b ≤ a
    → All (λ f. ltb f.id b ≡ true) es
    → All (λ f. ltb a f.id ≡ false) es
not_above a b [] le h = tt
not_above a b (e ∷ es) le (h, hs) = (ground arith, not_above a b es le hs)

keep_if-insert_by_id :
    (p : AuditLog → Bool) (e : AuditLog) (es : List AuditLog)
    → Descending es
    → keep_if p (insert_by_id e es) ≡ (if p e then insert_by_id e (keep_if p es) else keep_if p es)
unfolding insert_by_id
keep_if-insert_by_id p e [] h = refl
keep_if-insert_by_id p e (f ∷ fs) (first, h) = elim (Bool-cases (ltb e.id f.id)) [
  | inl t ↦ ground (arith, keep_if-insert_by_id p e fs h)
  | inr t ↦
      let sorted = insert_before e (keep_if p (f ∷ fs)) (
        All-keep_if (λ g. ltb e.id g.id ≡ false) p (f ∷ fs)
          (t, not_above e.id f.id fs (ground arith) first)) in
      ground (arith, sorted)
]

-- Sorting what a test keeps is keeping it in what is sorted.
newest_first-keep_if :
    (p : AuditLog → Bool) (es : List AuditLog)
    → UniqueIds es
    → newest_first (keep_if p es) ≡ keep_if p (newest_first es)
unfolding newest_first
newest_first-keep_if p [] u = refl
newest_first-keep_if p (e ∷ es) (apart, u) =
    let sorted = newest_first-Descending es u in
    ground (arith, newest_first-keep_if p es u, keep_if-insert_by_id p e (newest_first es) sorted)

UniqueIds-keep_if :
    (p : AuditLog → Bool) (es : List AuditLog) → UniqueIds es → UniqueIds (keep_if p es)
UniqueIds-keep_if p [] u = tt
UniqueIds-keep_if p (e ∷ es) (apart, u) = elim (Bool-cases (p e)) [
  | inl t ↦ rw t (All-keep_if (λ f. (e.id == f.id) ≡ false) p es apart, UniqueIds-keep_if p es u)
  | inr t ↦ rw t (UniqueIds-keep_if p es u)
]

abbrev below : ℕ → AuditLog → Bool
below id e = ltb e.id id

keep_if-below :
    (id : ℕ) (es : List AuditLog) → All (λ f. ltb f.id id ≡ true) es → keep_if (below id) es ≡ es
keep_if-below id [] h = refl
keep_if-below id (e ∷ es) (h, hs) = ground (arith, keep_if-below id es hs)

last_below :
    (n : ℕ) (x : AuditLog) (es front : List AuditLog) (e : AuditLog)
    → All (λ f. ltb f.id x.id ≡ true) es
    → take n es ≡ front ++ e ∷ []
    → ltb x.id e.id ≡ false
last_below zero x es [] e h cut = absurd (cc)
last_below zero x es (y ∷ front) e h cut = absurd (cc)
last_below (suc n) x [] [] e h cut = absurd (cc)
last_below (suc n) x [] (y ∷ front) e h cut = absurd (cc)
last_below (suc n) x (z ∷ es) [] e (h, hs) cut = let same : z ≡ e = ground arith in ground arith
last_below (suc n) x (z ∷ es) (y ∷ front) e (h, hs) cut =
    last_below n x es front e hs (ground arith)

-- After the last entry of the first `n`, the entries with a lower ID are those that are left.
keep_if-below_last :
    (n : ℕ) (es front : List AuditLog) (e : AuditLog)
    → Descending es
    → take n es ≡ front ++ e ∷ []
    → keep_if (below e.id) es ≡ drop n es
keep_if-below_last zero es [] e d cut = absurd (cc)
keep_if-below_last zero es (y ∷ front) e d cut = absurd (cc)
keep_if-below_last (suc n) [] [] e d cut = absurd (cc)
keep_if-below_last (suc n) [] (y ∷ front) e d cut = absurd (cc)
keep_if-below_last (suc n) (x ∷ es) (y ∷ front) e (first, d) cut =
    let cut' : take n es ≡ front ++ e ∷ [] = ground arith in
    ground (arith, last_below n x es front e first cut', keep_if-below_last n es front e d cut')
keep_if-below_last (suc n) (x ∷ es) [] e (first, d) cut =
    let same : x ≡ e = ground arith in
    let none_left : take n es ≡ [] = ground arith in
    let rest = keep_if-below x.id es first in
    let all_left : drop n es ≡ es = drop_of_nothing n es none_left in
    ap (λ (y : AuditLog). keep_if (below y.id) (x ∷ es)) (sym same) ∙ ground (arith, rest, all_left)
  where
    drop_of_nothing : (n : ℕ) (es : List AuditLog) → take n es ≡ [] → drop n es ≡ es
    drop_of_nothing zero es h = refl
    drop_of_nothing (suc n) [] h = refl
    drop_of_nothing (suc n) (x ∷ es) h = absurd (cc)

take-append-take :
    (n m : ℕ) (es : List AuditLog) → take n es ++ take m (drop n es) ≡ take (n + m) es
take-append-take zero m es = ap (λ k. take k es) (zero_plus m)
  where
    zero_plus : (m : ℕ) → m ≡ 0 + m
    zero_plus m = omega arith
take-append-take (suc n) zero [] = ap (λ k. take k []) (plus_zero (suc n))
  where
    plus_zero : (k : ℕ) → k ≡ k + 0
    plus_zero k = omega arith
take-append-take (suc n) (suc m) [] = ap (λ k. take k []) (shift n (suc m))
  where
    shift : (n m : ℕ) → suc (n + m) ≡ suc n + m
    shift n m = omega arith
take-append-take (suc n) m (e ∷ es) =
    ap (◌∷◌ e) (take-append-take n m es) ∙ ap (λ k. take k (e ∷ es)) (shift n m)
  where
    shift : (n m : ℕ) → suc (n + m) ≡ suc n + m
    shift n m = omega arith

-- A filter that goes on before an entry that matches it keeps, of what matches, what is below.
is_match-before :
    (f : Filter) (e x : AuditLog)
    → e.id ≢ 0
    → is_match f e ≡ true
    → is_match (record f { before_id = e.id }) x ≡ (is_match f x && below e.id x)
unfolding is_match
is_match-before f e x positive matched = ground arith

keep_if-before :
    (f : Filter) (e : AuditLog) (rows : List AuditLog)
    → e.id ≢ 0
    → is_match f e ≡ true
    → keep_if (is_match (record f { before_id = e.id })) rows
      ≡ keep_if (below e.id) (keep_if (is_match f) rows)
keep_if-before f e [] positive matched = refl
keep_if-before f e (x ∷ rows) positive matched =
    ground (arith, is_match-before f e x positive matched, keep_if-before f e rows positive matched)

All-matches :
    (f : Filter) (rows : List AuditLog) → All (λ e. is_match f e ≡ true) (keep_if (is_match f) rows)
All-matches f [] = tt
All-matches f (e ∷ rows) = elim (Bool-cases (is_match f e)) [
  | inl t ↦ rw t (t, All-matches f rows)
  | inr t ↦ rw t (All-matches f rows)
]

All-last :
    (P : AuditLog → Type 0) (n : ℕ) (es front : List AuditLog) (e : AuditLog)
    → All P es
    → take n es ≡ front ++ e ∷ []
    → P e
All-last P zero es [] e h cut = absurd (cc)
All-last P zero es (y ∷ front) e h cut = absurd (cc)
All-last P (suc n) [] [] e h cut = absurd (cc)
All-last P (suc n) [] (y ∷ front) e h cut = absurd (cc)
All-last P (suc n) (x ∷ es) [] e (h, hs) cut = let same : x ≡ e = ground arith in subst P same h
All-last P (suc n) (x ∷ es) (y ∷ front) e (h, hs) cut = All-last P n es front e hs (ground arith)

module _ {T : Type 0} (entries : Table T AuditLog) {Stored : AuditLog → AuditLog → Type 0}
    (laws : IsTable Stored entries) where
  list-rows :
      (t : T) (f : Filter) {page : List AuditLog}
      → list entries t f ≡ some page
      → page ≡ take (clamp_limit f.limit) (newest_first (keep_if (is_match f) (entries.rows t)))
  unfolding list
  list-rows t f {page} h = by_answer (entries.select t (is_match f)) refl h
    where
      by_answer :
          (a : Answer (List AuditLog))
          → entries.select t (is_match f) ≡ a
          → listed entries (clamp_limit f.limit) a ≡ some page
          → page ≡ take (clamp_limit f.limit) (newest_first (keep_if (is_match f) (entries.rows t)))
      by_answer (done rows) e h =
          let answer : take (clamp_limit f.limit) (newest_first rows) ≡ page = ground arith in
          sym answer
          ∙ ap (λ rows. take (clamp_limit f.limit) (newest_first rows))
              (laws.select-rows t (is_match f) rows e)
      by_answer duplicate e h = absurd (cc)
      by_answer failed e h = absurd (cc)

  -- Over a lawful table in which no two entries have one ID, a page of the log that is not empty
  -- and whose last entry has an ID other than 0, followed by the page that goes on after that
  -- entry, is the listing of twice the length.
  pub list-continues :
      (t : T) (f : Filter) (page front : List AuditLog) (e : AuditLog) (page' : List AuditLog)
      → UniqueIds (entries.rows t)
      → list entries t f ≡ some page
      → page ≡ front ++ e ∷ []
      → e.id ≢ 0
      → list entries t (record f { before_id = e.id }) ≡ some page'
      → page ++ page'
        ≡ take
            (clamp_limit f.limit + clamp_limit f.limit)
            (newest_first (keep_if (is_match f) (entries.rows t)))
  list-continues t f page front e page' unique h ends positive h' =
      let n = clamp_limit f.limit in
      let matched = keep_if (is_match f) (entries.rows t) in
      let sorted = newest_first matched in
      let u = UniqueIds-keep_if (is_match f) (entries.rows t) unique in
      let first = list-rows t f h in
      let cut : take n sorted ≡ front ++ e ∷ [] = sym first ∙ ends in
      let e_matches =
        All-last (λ x. is_match f x ≡ true) n sorted front e
          (All-newest_first (λ x. is_match f x ≡ true) matched (All-matches f (entries.rows t)))
          cut in
      let second : page' ≡ take n (drop n sorted) =
        list-rows t (record f { before_id = e.id }) h'
        ∙ ap (λ rows. take n (newest_first rows))
            (keep_if-before f e (entries.rows t) positive e_matches)
        ∙ ap (take n) (
            newest_first-keep_if (below e.id) matched u
            ∙ keep_if-below_last n sorted front e (newest_first-Descending matched u) cut) in
      ap (λ p. p ++ page') first ∙ ap (λ p. take n sorted ++ p) second ∙ take-append-take n n sorted
