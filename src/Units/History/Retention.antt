-- ===== src/Units/History/Retention.antt =====
-- What the retention of position histories leaves.
use mathlib.Core.Path.{subst}
use unit_management.Base.{
  ℕ, ◌≡◌, ◌⊎◌, refl, sym, ap, ◌∙◌, inl, inr, Bool, true, false, not, ◌&&◌, List, [], ◌∷◌, arith, ok,
  >>=-eq-ok, Bool-cases, ◌==◌, ==_iff, ==_refl, ltb, leb, keep_if, any, All, count_if,
}
use unit_management.Database.{Table, IsTable}
use unit_management.Models.{Uuid, Time, UnitRow, UnitPosition}
use unit_management.Units.Service.{Tables, wrap}
use unit_management.Units.Service.Lookup.{KeptPosition, wrap-eq-ok}
use unit_management.Units.History.{newer, is_newest_id, delete_history_before}

abbrev Among : UnitPosition → List UnitPosition → Type 0
Among e [] = true ≡ false
Among e (x ∷ xs) = (e ≡ x) ⊎ Among e xs

abbrev pub of_unit : Uuid → UnitPosition → Bool
of_unit id e = e.unit_id == id

newer_shift : (e x f : UnitPosition) → newer x e ≡ true → newer f e ≡ false → newer f x ≡ false
unfolding newer
newer_shift e x f h k = ground arith

newer_self : (e : UnitPosition) → newer e e ≡ false
unfolding newer
newer_self e = ground arith

shifted :
    (id : Uuid) (e x : UnitPosition) (xs : List UnitPosition)
    → newer x e ≡ true
    → All (λ f. (of_unit id f && newer f e) ≡ false) xs
    → All (λ f. (of_unit id f && newer f x) ≡ false) xs
shifted id e x [] h k = tt
shifted id e x (f ∷ xs) h (k, ks) = (
  elim (Bool-cases (of_unit id f)) [
    | inl own ↦ ground (arith, newer_shift e x f)
    | inr other ↦ ground arith
  ],
  shifted id e x xs h ks,
)

none_of :
    (id : Uuid) (x : UnitPosition) (xs : List UnitPosition)
    → any (of_unit id) xs ≡ false
    → All (λ f. (of_unit id f && newer f x) ≡ false) xs
none_of id x [] h = tt
none_of id x (f ∷ xs) h = (ground arith, none_of id x xs (ground arith))

-- A unit with entries has one that none is newer than.
newest_entry :
    (id : Uuid) (xs : List UnitPosition)
    → any (of_unit id) xs ≡ true
    → (e : UnitPosition) × Among e xs
      × (of_unit id e ≡ true)
      × All (λ f. (of_unit id f && newer f e) ≡ false) xs
newest_entry id [] h = absurd (cc)
newest_entry id (x ∷ xs) h = elim (Bool-cases (any (of_unit id) xs)) [
  | inr alone ↦ (x, inl refl, ground arith, (ground (arith, newer_self x), none_of id x xs alone))
  | inl more ↦
      let (e, here, own, rest) = newest_entry id xs more in
      elim (Bool-cases (of_unit id x && newer x e)) [
        | inr older ↦ (e, inr here, own, (older, rest))
        | inl later ↦ (
          x,
          inl refl,
          ground arith,
          (ground (arith, newer_self x), shifted id e x xs (ground arith) rest),
        )
      ]
]

any_none :
    (p : UnitPosition → Bool) (xs : List UnitPosition)
    → All (λ f. p f ≡ false) xs
    → any p xs ≡ false
any_none p [] h = refl
any_none p (x ∷ xs) (h, hs) = ground (arith, any_none p xs hs)

any_found :
    (p : UnitPosition → Bool) (e : UnitPosition) (xs : List UnitPosition)
    → Among e xs
    → p e ≡ true
    → any p xs ≡ true
any_found p e [] m h = absurd (cc)
any_found p e (x ∷ xs) (inl same) h = let hit : p x ≡ true = ap p (sym same) ∙ h in ground arith
any_found p e (x ∷ xs) (inr m) h = let later = any_found p e xs m h in ground arith

any_kept :
    (p q : UnitPosition → Bool) (e : UnitPosition) (xs : List UnitPosition)
    → Among e xs
    → p e ≡ true
    → q e ≡ true
    → any q (keep_if p xs) ≡ true
any_kept p q e [] m h k = absurd (cc)
any_kept p q e (x ∷ xs) (inl same) h k =
    let kept : p x ≡ true = ap p (sym same) ∙ h in
    let hit : q x ≡ true = ap q (sym same) ∙ k in ground arith
any_kept p q e (x ∷ xs) (inr m) h k = let later = any_kept p q e xs m h k in ground arith

count_kept :
    (p q : UnitPosition → Bool) (xs : List UnitPosition)
    → ((e : UnitPosition) → q e ≡ true → p e ≡ true)
    → count_if q (keep_if p xs) ≡ count_if q xs
count_kept p q [] h = refl
count_kept p q (x ∷ xs) h = ground (arith, h x, count_kept p q xs h)

keep_all : (xs : List UnitPosition) → keep_if (λ _. true) xs ≡ xs
keep_all [] = refl
keep_all (x ∷ xs) = ap (λ rest. x ∷ rest) (keep_all xs)

abbrev kept_by : List UnitPosition → Time → UnitPosition → Bool
kept_by rows cutoff e = not (ltb e.timestamp cutoff && not (is_newest_id rows e.id))

unit_kept :
    (rows : List UnitPosition) (cutoff : Time) (id : Uuid)
    → any (of_unit id) rows ≡ true
    → any (of_unit id) (keep_if (kept_by rows cutoff) rows) ≡ true
unfolding is_newest_id
unit_kept rows cutoff id h =
    let (e, here, own, none_newer) = newest_entry id rows h in
    let same : e.unit_id ≡ id = (==_iff e.unit_id id).0 own in
    let top : any (λ f. f.unit_id == e.unit_id && newer f e) rows ≡ false =
      subst (λ u. any (λ f. f.unit_id == u && newer f e) rows ≡ false) (sym same)
        (any_none (λ f. of_unit id f && newer f e) rows none_newer) in
    let newest : any
          (λ g. g.id == e.id && not (any (λ f. f.unit_id == g.unit_id && newer f g) rows)) rows
        ≡ true =
      any_found _ e rows here (rw (==_refl e.id, top) refl) in
    any_kept (kept_by rows cutoff) (of_unit id) e rows here (ground arith) own

module _ {U P : Type 0} (units : Table U UnitRow) (positions : Table P UnitPosition)
    (position_laws : IsTable KeptPosition positions) where
  pub record Retained (cutoff : Time) (before after : List UnitPosition) : Type 0 where
    pub units_kept : (id : Uuid) → any (of_unit id) before ≡ true → any (of_unit id) after ≡ true
    pub recent_kept :
        (q : UnitPosition → Bool)
        → count_if (λ e. leb cutoff e.timestamp && q e) after
          ≡ count_if (λ e. leb cutoff e.timestamp && q e) before

  -- When deleteHistoryBefore succeeds over a lawful table of positions, every unit that had a
  -- history entry still has one, and of the entries from the cutoff on, as many as before meet any
  -- test, so that none of them is deleted.
  pub delete_history_before-Retained :
      (t : Tables U P) (cutoff : Time) (n : ℕ) (t' : Tables U P)
      → delete_history_before units positions t cutoff ≡ ok (n, t')
      → Retained cutoff (positions.rows t.positions) (positions.rows t'.positions)
  unfolding delete_history_before
  delete_history_before-Retained t cutoff n t' h =
      let rows = positions.rows t.positions in
      let (rs, selected, h1) = >>=-eq-ok (wrap (positions.select t.positions (λ _. true))) _ h in
      let ((ps, gone), removed, h2) =
        >>=-eq-ok
          (wrap (
            positions.delete t.positions
              (λ e. ltb e.timestamp cutoff && not (is_newest_id rs e.id))))
          _ h1 in
      let read : rs ≡ rows =
        position_laws.select-rows t.positions (λ _. true) rs (wrap-eq-ok _ selected)
        ∙ keep_all rows in
      let (left, _) = position_laws.delete-rows t.positions _ ps gone (wrap-eq-ok _ removed) in
      let is_t : record t { positions = ps } ≡ t' = ground arith in
      let after : positions.rows t'.positions ≡ keep_if (kept_by rows cutoff) rows =
        ap (λ x. positions.rows x.positions) (sym is_t)
        ∙ (left ∙ ap (λ x. keep_if (kept_by x cutoff) rows) read) in
      record {
        units_kept = λ id had. ap (any (of_unit id)) after ∙ unit_kept rows cutoff id had;
        recent_kept = λ q.
            ap (count_if (λ e. leb cutoff e.timestamp && q e)) after
            ∙ count_kept (kept_by rows cutoff) (λ e. leb cutoff e.timestamp && q e) rows
                (λ e recent. ground arith);
      }
