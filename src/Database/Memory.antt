-- ===== src/Database/Memory.antt =====
-- A table in memory, which shows that the statements' laws can be met: the list of its rows. `fill`
-- gives an inserted row its generated columns, `clash` finds a violated unique index.
use mathlib.Core.Path.{subst}
use unit_management.Base.{
  ◌≡◌, Bool, not, List, [], ◌∷◌, ◌++◌, arith, if◌then◌else◌, keep_if, map_if, count_if, ap, sym,
  ◌∙◌, any, Bool-cases, inl, inr, true, false,
}
use unit_management.Database.{Answer, done, duplicate, Table, IsTable, IsUnique}

abbrev pub unless_clash : {A R : Type 0} → (List R → Bool) → List R → A → Answer A
unless_clash clash rows a = if clash rows then duplicate else done a

abbrev pub memory : {R : Type 0} → (List R → R → R) → (List R → Bool) → Table (List R) R
memory fill clash = record {
  rows = λ s. s;
  select = λ s p. done (keep_if p s);
  insert = λ s r. unless_clash clash (s ++ fill s r ∷ []) (s ++ fill s r ∷ [], fill s r);
  update = λ s p f. unless_clash clash (map_if p f s) (map_if p f s, count_if p s);
  delete = λ s p. done (keep_if (λ r. not (p r)) s, keep_if p s);
}

done-unless_clash :
    {A R : Type 0} (clash : List R → Bool) (rows : List R) (a : A) {b : A}
    → unless_clash clash rows a ≡ done b
    → a ≡ b
done-unless_clash clash rows a h = ground arith

pub memory-IsTable :
    {R : Type 0} (Stored : R → R → Type 0) (fill : List R → R → R) (clash : List R → Bool)
    → ((s : List R) (r : R) → Stored r (fill s r))
    → IsTable Stored (memory fill clash)
memory-IsTable {R} Stored fill clash kept = record {
  select-rows = λ s p rs h. ground arith;
  insert-rows = λ s r s' r' h.
      let e = done-unless_clash clash _ _ h in
      (ground arith, subst (Stored r) (ap (λ (x : List R × R). x.1) e) (kept s r));
  update-rows = λ s p f s' n h. ground arith;
  delete-rows = λ s p s' gone h. ground arith;
}

-- The same with a unique index on a key, which an insertion is checked against.
abbrev pub keyed : {R : Type 0} → (List R → R → R) → (R → R → Bool) → Table (List R) R
keyed fill same_key = record {
  rows = λ s. s;
  select = λ s p. done (keep_if p s);
  insert = λ s r. if any (same_key r) s then duplicate else done (s ++ fill s r ∷ [], fill s r);
  update = λ s p f. done (map_if p f s, count_if p s);
  delete = λ s p. done (keep_if (λ r. not (p r)) s, keep_if p s);
}

module _ {R : Type 0} (fill : List R → R → R) (same_key : R → R → Bool) where
  inserted :
      (s : List R) (r : R) (a : List R × R)
      → (keyed fill same_key).insert s r ≡ done a
      → (any (same_key r) s ≡ false) × ((s ++ fill s r ∷ [], fill s r) ≡ a)
  inserted s r a h = elim (Bool-cases (any (same_key r) s)) [
    | inl e ↦ absurd (ground arith)
    | inr e ↦ (e, ground arith)
  ]

  pub keyed-IsTable :
      (Stored : R → R → Type 0)
      → ((s : List R) (r : R) → Stored r (fill s r))
      → IsTable Stored (keyed fill same_key)
  keyed-IsTable Stored kept = record {
    select-rows = λ s p rs h. ground arith;
    insert-rows = λ s r s' r' h.
        let (_, e) = inserted s r (s', r') h in
        (
          ap (λ (x : List R × R). x.0) (sym e) ∙ ap (λ (x : List R × R). s ++ x.1 ∷ []) e,
          subst (Stored r) (ap (λ (x : List R × R). x.1) e) (kept s r),
        );
    update-rows = λ s p f s' n h. ground arith;
    delete-rows = λ s p s' gone h. ground arith;
  }

  pub keyed-IsUnique : IsUnique same_key (keyed fill same_key)
  keyed-IsUnique = record {
    fresh = λ s r s' r' h. (inserted s r (s', r') h).0;
    clash = λ s r h. clashed s r h;
  }
    where
      clashed :
          (s : List R) (r : R)
          → (keyed fill same_key).insert s r ≡ duplicate
          → any (same_key r) s ≡ true
      clashed s r h = elim (Bool-cases (any (same_key r) s)) [
        | inl e ↦ e
        | inr e ↦ absurd (ground arith)
      ]
