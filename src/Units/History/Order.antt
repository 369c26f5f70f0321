-- ===== src/Units/History/Order.antt =====
-- The order and the extent of what History answers, and what the retention leaves.
use unit_management.Base.{
  ℕ, zero, suc, ◌≡◌, ◌≢◌, ◌≤◌, ◌<◌, refl, ap, ◌∙◌, inl, inr, Bool, true, false, not, List, [], ◌∷◌,
  arith, ok, guard, >>=-eq-ok, Bool-cases, ◌==◌, length, take, keep_if, All, count_if,
}
use unit_management.Database.{Table, IsTable}
use unit_management.Models.{Uuid, Time, zero_time, UnitRow, UnitPosition}
use unit_management.Units.Input.{unit_not_found}
use unit_management.Units.Service.{Tables, wrap, by_id}
use unit_management.Units.Service.Lookup.{KeptPosition, wrap-eq-ok}
use unit_management.Units.History.{
  newer, insert_sorted, newest_first, in_range, clamp_limit, history,
}

-- No entry is newer than one before it.
abbrev pub IsNewestFirst : List UnitPosition → Type 0
IsNewestFirst [] = Unit
IsNewestFirst (e ∷ es) = All (λ f. newer f e ≡ false) es × IsNewestFirst es

newer_trans : (a b c : UnitPosition) → newer b a ≡ false → newer c b ≡ false → newer c a ≡ false
unfolding newer
newer_trans a b c h k = ground arith

newer_flip : (a b : UnitPosition) → newer b a ≡ true → newer a b ≡ false
unfolding newer
newer_flip a b h = ground arith

All-insert_sorted :
    (Q : UnitPosition → Type 0) (e : UnitPosition) (es : List UnitPosition)
    → Q e
    → All Q es
    → All Q (insert_sorted e es)
unfolding insert_sorted
All-insert_sorted Q e [] h hs = (h, tt)
All-insert_sorted Q e (f ∷ fs) h (k, ks) = elim (Bool-cases (newer f e)) [
  | inl t ↦ rw t (k, All-insert_sorted Q e fs h ks)
  | inr t ↦ rw t (h, (k, ks))
]

All-newest_first :
    (Q : UnitPosition → Type 0) (es : List UnitPosition) → All Q es → All Q (newest_first es)
unfolding newest_first
All-newest_first Q [] h = tt
All-newest_first Q (e ∷ es) (h, hs) =
    All-insert_sorted Q e (newest_first es) h (All-newest_first Q es hs)

none_newer :
    (e f : UnitPosition) (fs : List UnitPosition)
    → newer f e ≡ false
    → All (λ g. newer g f ≡ false) fs
    → All (λ g. newer g e ≡ false) fs
none_newer e f [] h hs = tt
none_newer e f (g ∷ fs) h (k, ks) = (newer_trans e f g h k, none_newer e f fs h ks)

insert_sorted-IsNewestFirst :
    (e : UnitPosition) (es : List UnitPosition)
    → IsNewestFirst es
    → IsNewestFirst (insert_sorted e es)
unfolding insert_sorted
insert_sorted-IsNewestFirst e [] h = (tt, tt)
insert_sorted-IsNewestFirst e (f ∷ fs) (first, rest) = elim (Bool-cases (newer f e)) [
  | inl t ↦ rw t (
    All-insert_sorted (λ g. newer g f ≡ false) e fs (newer_flip e f t) first,
    insert_sorted-IsNewestFirst e fs rest,
  )
  | inr t ↦ rw t ((t, none_newer e f fs t first), (first, rest))
]

newest_first-IsNewestFirst : (es : List UnitPosition) → IsNewestFirst (newest_first es)
unfolding newest_first
newest_first-IsNewestFirst [] = tt
newest_first-IsNewestFirst (e ∷ es) =
    insert_sorted-IsNewestFirst e (newest_first es) (newest_first-IsNewestFirst es)

count_if-insert_sorted :
    (p : UnitPosition → Bool) (e : UnitPosition) (es : List UnitPosition)
    → count_if p (insert_sorted e es) ≡ count_if p (e ∷ es)
unfolding insert_sorted
count_if-insert_sorted p e [] = refl
count_if-insert_sorted p e (f ∷ fs) = ground (arith, count_if-insert_sorted p e fs)

-- Sorting keeps the entries: as many as before meet any test.
count_if-newest_first :
    (p : UnitPosition → Bool) (es : List UnitPosition)
    → count_if p (newest_first es) ≡ count_if p es
unfolding newest_first
count_if-newest_first p [] = refl
count_if-newest_first p (e ∷ es) =
    ground (arith, count_if-newest_first p es, count_if-insert_sorted p e (newest_first es))

length-take-le : (n : ℕ) (es : List UnitPosition) → length (take n es) ≤ n
length-take-le zero es = omega arith
length-take-le (suc n) [] = omega arith
length-take-le (suc n) (e ∷ es) = omega (arith, length-take-le n es)

All-take :
    (Q : UnitPosition → Type 0) (n : ℕ) (es : List UnitPosition) → All Q es → All Q (take n es)
All-take Q zero es h = tt
All-take Q (suc n) [] h = tt
All-take Q (suc n) (e ∷ es) (h, hs) = (h, All-take Q n es hs)

take-IsNewestFirst : (n : ℕ) (es : List UnitPosition) → IsNewestFirst es → IsNewestFirst (take n es)
take-IsNewestFirst zero es h = tt
take-IsNewestFirst (suc n) [] h = tt
take-IsNewestFirst (suc n) (e ∷ es) (first, rest) =
    (All-take _ n es first, take-IsNewestFirst n es rest)

-- An entry that a caller asks for: the unit's, within the bounds that are not the zero time.
pub record IsAsked (id : Uuid) (since to : Time) (e : UnitPosition) : Type 0 where
  pub of_unit : e.unit_id ≡ id
  pub from_since : since ≢ zero_time → since ≤ e.timestamp
  pub until_to : to ≢ zero_time → e.timestamp ≤ to

-- From the newest to the oldest: later entries have no later time, and at one time lower IDs.
abbrev pub IsDescending : List UnitPosition → Type 0
IsDescending [] = Unit
IsDescending (e ∷ es) =
    All (λ f. (f.timestamp ≤ e.timestamp) × (f.timestamp ≡ e.timestamp → f.id ≤ e.id)) es
    × IsDescending es

-- How many entries the limit of a caller allows: 1000 for none or too many.
abbrev pub IsAllowed : ℕ → ℕ → Type 0
IsAllowed limit n =
    (1 ≤ limit → limit ≤ 1000 → n ≡ limit) × (limit ≡ 0 → n ≡ 1000) × (1000 < limit → n ≡ 1000)

not_newer : (e f : UnitPosition) → newer f e ≡ false → f.timestamp ≤ e.timestamp
unfolding newer
not_newer e f h = ground arith

not_newer_id : (e f : UnitPosition) → newer f e ≡ false → f.timestamp ≡ e.timestamp → f.id ≤ e.id
unfolding newer
not_newer_id e f h same = ground arith

All-not_newer :
    (e : UnitPosition) (es : List UnitPosition)
    → All (λ f. newer f e ≡ false) es
    → All (λ f. (f.timestamp ≤ e.timestamp) × (f.timestamp ≡ e.timestamp → f.id ≤ e.id)) es
All-not_newer e [] h = tt
All-not_newer e (f ∷ es) (h, hs) = ((not_newer e f h, not_newer_id e f h), All-not_newer e es hs)

IsNewestFirst-IsDescending : (es : List UnitPosition) → IsNewestFirst es → IsDescending es
IsNewestFirst-IsDescending [] h = tt
IsNewestFirst-IsDescending (e ∷ es) (first, rest) =
    (All-not_newer e es first, IsNewestFirst-IsDescending es rest)

in_range-IsAsked :
    (id : Uuid) (since to : Time) (e : UnitPosition)
    → in_range id since to e ≡ true
    → IsAsked id since to e
unfolding in_range
in_range-IsAsked id since to e h = record {
  of_unit = ground arith;
  from_since = λ given. ground arith;
  until_to = λ given. ground arith;
}

IsAsked-in_range :
    (id : Uuid) (since to : Time) (e : UnitPosition)
    → IsAsked id since to e
    → in_range id since to e ≡ true
unfolding in_range
IsAsked-in_range id since to e asked =
    let same = asked.of_unit in
    elim (Bool-cases (since == zero_time)) [
      | inl no_since ↦ elim (Bool-cases (to == zero_time)) [
        | inl no_to ↦ ground arith
        | inr bounded ↦ let le' = asked.until_to (ground arith) in ground arith
      ]
      | inr since_set ↦
          let le = asked.from_since (ground arith) in
          elim (Bool-cases (to == zero_time)) [
            | inl no_to ↦ ground arith
            | inr bounded ↦ let le' = asked.until_to (ground arith) in ground arith
          ]
    ]

-- What History answers: as many entries as the limit allows, from the front of a list of all entries
-- that are asked for, from the newest to the oldest.
pub record Answered (rows : List UnitPosition) (id : Uuid) (limit : ℕ) (since to : Time)
    (es : List UnitPosition) : Type 0 where
  pub is_asked : UnitPosition → Bool
  pub asked_so :
      (e : UnitPosition)
      → (is_asked e ≡ true → IsAsked id since to e) × (IsAsked id since to e → is_asked e ≡ true)
  pub all_sorted : List UnitPosition
  pub sorted : IsDescending all_sorted
  pub same_entries :
      (p : UnitPosition → Bool) → count_if p all_sorted ≡ count_if p (keep_if is_asked rows)
  pub allowed : ℕ
  pub allowed_so : IsAllowed limit allowed
  pub cut : es ≡ take allowed all_sorted
  pub newest : IsDescending es
  pub bounded : length es ≤ 1000

clamp_limit-IsAllowed : (limit : ℕ) → IsAllowed limit (clamp_limit limit)
unfolding clamp_limit
clamp_limit-IsAllowed limit =
    (λ some_left within. ground arith, λ none. ground arith, λ over. ground arith)

clamp_limit-le : (n : ℕ) → clamp_limit n ≤ 1000
unfolding clamp_limit
clamp_limit-le n = ground arith

module _ {U P : Type 0} (units : Table U UnitRow) (positions : Table P UnitPosition)
    (position_laws : IsTable KeptPosition positions) where
  -- Over lawful tables, a history that is answered consists of the first entries of a list of all
  -- the unit's entries with no time before `since` and none after `to`, where these are not the
  -- zero time, with descending times and at one time descending IDs; and of as many as a limit from
  -- 1 to 1000 allows, or 1000 for a limit of 0 or more than 1000.
  pub history-Answered :
      (t : Tables U P) (id : Uuid) (limit : ℕ) (since to : Time) (es : List UnitPosition)
      → history units positions t id limit since to ≡ ok es
      → Answered (positions.rows t.positions) id limit since to es
  unfolding history
  history-Answered t id limit since to es h =
      let (found, _, after_count) = >>=-eq-ok (wrap (units.select t.units (by_id id))) _ h in
      let (_, _, after_guard) =
        >>=-eq-ok (guard (not (length found == 0)) unit_not_found) _ after_count in
      let (entries, good, answer) =
        >>=-eq-ok (wrap (positions.select t.positions (in_range id since to))) _ after_guard in
      let read = position_laws.select-rows t.positions _ entries (wrap-eq-ok _ good) in
      let cut : es ≡ take (clamp_limit limit) (newest_first entries) = cc in
      record {
        is_asked = in_range id since to;
        asked_so = λ e. (in_range-IsAsked id since to e, IsAsked-in_range id since to e);
        all_sorted = newest_first entries;
        sorted = IsNewestFirst-IsDescending _ (newest_first-IsNewestFirst entries);
        same_entries = λ p. count_if-newest_first p entries ∙ ap (count_if p) read;
        allowed = clamp_limit limit;
        allowed_so = clamp_limit-IsAllowed limit;
        cut = cut;
        newest = IsNewestFirst-IsDescending es (
            rw cut (take-IsNewestFirst (clamp_limit limit) _ (newest_first-IsNewestFirst entries)));
        bounded = rw cut (
            omega (
              arith,
              length-take-le (clamp_limit limit) (newest_first entries),
              clamp_limit-le limit,
            ));
      }
