-- ===== src/Database.antt =====
-- A table of the database (PostgreSQL, reached through GORM): the statements that the services run on
-- one, as a record that the services take as a parameter, and what SQL documents of them. A WHERE
-- clause is a Boolean test on a row, a SET clause a function on rows.
pub mod Memory
use unit_management.Base.{
  ℕ, ◌≡◌, refl, Bool, true, false, not, Option, none, some, List, [], ◌∷◌, ◌++◌, arith, ◌≤◌, any,
  if◌then◌else◌, keep_if, map_if, find?, count_if, Bool-cases, inl, inr, ap,
}

-- What a statement answers: its result, gorm.ErrDuplicatedKey, or another error.
pub data Answer (A : Type 0) : Type 0 where
  done : A → Answer A
  duplicate : Answer A
  failed : Answer A

pub record Table (T R : Type 0) : Type 0 where
  -- The rows in their order of creation; no code reads it, only statements about the code do.
  pub rows : T → List R
  pub select : T → (R → Bool) → Answer (List R)
  -- INSERT answers the row with the columns that the database and GORM fill in.
  pub insert : T → R → Answer (T × R)
  -- UPDATE answers how many rows it changed.
  pub update : T → (R → Bool) → (R → R) → Answer (T × ℕ)
  -- DELETE ... RETURNING
  pub delete : T → (R → Bool) → Answer (T × List R)

-- `Stored r r'` says which columns of an inserted row are the caller's.
pub record IsTable {T R : Type 0} (Stored : R → R → Type 0) (t : Table T R) : Type 0 where
  pub select-rows :
      (s : T) (p : R → Bool) (rs : List R) → t.select s p ≡ done rs → rs ≡ keep_if p (t.rows s)
  pub insert-rows :
      (s : T) (r : R) (s' : T) (r' : R)
      → t.insert s r ≡ done (s', r')
      → (t.rows s' ≡ t.rows s ++ r' ∷ []) × Stored r r'
  pub update-rows :
      (s : T) (p : R → Bool) (f : R → R) (s' : T) (n : ℕ)
      → t.update s p f ≡ done (s', n)
      → (t.rows s' ≡ map_if p f (t.rows s)) × (n ≡ count_if p (t.rows s))
  pub delete-rows :
      (s : T) (p : R → Bool) (s' : T) (gone : List R)
      → t.delete s p ≡ done (s', gone)
      → (t.rows s' ≡ keep_if (λ r. not (p r)) (t.rows s)) × (gone ≡ keep_if p (t.rows s))

-- ORDER BY answers the same rows in another order: as many of them meet each condition, and a row
-- that alone meets one is the one found.
pub record IsOrder {R : Type 0} (sorted : List R → List R) : Type 0 where
  pub counts : (p : R → Bool) (rs : List R) → count_if p (sorted rs) ≡ count_if p rs
  pub alone : (p : R → Bool) (rs : List R) → count_if p rs ≤ 1 → find? p (sorted rs) ≡ find? p rs

-- A unique index on a key: an insertion answers a duplicate exactly when a row has the key.
pub record IsUnique {T R : Type 0} (same_key : R → R → Bool) (t : Table T R) : Type 0 where
  pub fresh :
      (s : T) (r : R) (s' : T) (r' : R)
      → t.insert s r ≡ done (s', r')
      → any (same_key r) (t.rows s) ≡ false
  pub clash : (s : T) (r : R) → t.insert s r ≡ duplicate → any (same_key r) (t.rows s) ≡ true

-- SELECT ... LIMIT 1: GORM's First, on a condition that selects by a unique key.
abbrev pub head_answer : {R : Type 0} → Answer (List R) → Answer (Option R)
head_answer (done []) = done none
head_answer (done (r ∷ rs)) = done (some r)
head_answer duplicate = duplicate
head_answer failed = failed

module _ {T R : Type 0} (t : Table T R) where
  unfoldable pub first : T → (R → Bool) → Answer (Option R)
  first s p = head_answer (t.select s p)

abbrev head? : {R : Type 0} → List R → Option R
head? [] = none
head? (r ∷ rs) = some r

head?-keep_if : {R : Type 0} (p : R → Bool) (xs : List R) → head? (keep_if p xs) ≡ find? p xs
head?-keep_if p [] = refl
head?-keep_if p (x ∷ xs) = ground (arith, head?-keep_if p xs)

head_answer-done :
    {R : Type 0} (a : Answer (List R)) (o : Option R)
    → head_answer a ≡ done o
    → (rs : List R) × (a ≡ done rs) × (o ≡ head? rs)
head_answer-done (done []) o h = ([], refl, ground arith)
head_answer-done (done (r ∷ rs)) o h = (r ∷ rs, refl, ground arith)
head_answer-done duplicate o h = cc
head_answer-done failed o h = cc

-- What First answers is the first row that meets the condition.
pub first-rows :
    {T R : Type 0} {Stored : R → R → Type 0} (t : Table T R)
    → IsTable Stored t
    → (s : T) (p : R → Bool) (o : Option R) → first t s p ≡ done o
    → o ≡ find? p (t.rows s)
unfolding first
first-rows t laws s p o h =
    let (rs, e, same) = head_answer-done (t.select s p) o h in
    rw (same, laws.select-rows s p rs e) (head?-keep_if p (t.rows s))
