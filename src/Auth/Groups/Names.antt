-- ===== src/Auth/Groups/Names.antt =====
-- The groups that a sign-in ensures are those with the names that the provider sends.
use mathlib.Core.Path.{subst}
use unit_management.Base.{
  ℕ, ◌+◌, ◌≤◌, ◌≡◌, refl, sym, ◌∙◌, ap, inl, inr, Bool, true, false, not, ◌&&◌, ◌||◌, List, [], ◌∷◌,
  arith, ◌==◌, ltb, any, keep_if, count_if, length, length-keep_if, Bool-cases, ok, >>=-eq-ok,
}
use unit_management.Text.{Text, text_eq, text_eq_iff}
use unit_management.Text.Order.{NoRepeat}
use unit_management.Database.{Table, IsTable, IsOrder, IsUnique}
use unit_management.Models.{Group}
use unit_management.Auth.{wrap}
use unit_management.Auth.Lookup.{wrap-eq-ok}
use unit_management.Auth.Groups.{
  group_by_name, group_named, missing, passed_over, insert_groups, create_groups, find_groups,
  create_missing, ensure_groups,
}
use unit_management.Auth.Groups.Members.{passed_over-cases, any-append}

-- The database gives a group its ID, and its names are unique.
abbrev pub KeptGroup : Group → Group → Type 0
KeptGroup r r' = r' ≡ record r { id = r'.id }

abbrev pub same_group : Group → Group → Bool
same_group r x = group_by_name r.name x

abbrev pub UniqueNames : List Group → Type 0
UniqueNames rows = (name : Text) → count_if (group_by_name name) rows ≤ 1

any-count_if : {A : Type 0} (p : A → Bool) (xs : List A) → any p xs ≡ ltb 0 (count_if p xs)
any-count_if p [] = refl
any-count_if p (x ∷ xs) = ground (arith, any-count_if p xs)

count_if_all : {A : Type 0} (xs : List A) → count_if (λ x. true) xs ≡ length xs
count_if_all [] = refl
count_if_all (x ∷ xs) = omega (arith, count_if_all xs)

-- How many rows have one of the names, counted name by name.
total : List Text → List Group → ℕ
total [] rows = 0
total (n ∷ ns) rows = count_if (group_by_name n) rows + total ns rows

named_apart :
    (n : Text) (ns : List Text) (g : Group)
    → any (text_eq n) ns ≡ false
    → text_eq g.name n ≡ true
    → any (text_eq g.name) ns ≡ false
named_apart n ns g absent e =
    subst (λ x. any (text_eq x) ns ≡ false) (sym ((text_eq_iff g.name n).0 e)) absent

count_if-named_cons :
    (n : Text) (ns : List Text) (rows : List Group)
    → any (text_eq n) ns ≡ false
    → count_if (group_named (n ∷ ns)) rows
      ≡ count_if (group_by_name n) rows + count_if (group_named ns) rows
count_if-named_cons n ns [] absent = refl
count_if-named_cons n ns (g ∷ rows) absent =
    ground (arith, named_apart n ns g absent, count_if-named_cons n ns rows absent)

count_if-none : (rows : List Group) → count_if (group_named []) rows ≡ 0
count_if-none [] = refl
count_if-none (g ∷ rows) = count_if-none rows

count_if-total :
    (ns : List Text) (rows : List Group)
    → NoRepeat ns
    → count_if (group_named ns) rows ≡ total ns rows
unfolding total
count_if-total [] rows h = count_if-none rows
count_if-total (n ∷ ns) rows (absent, h) =
    omega (arith, count_if-named_cons n ns rows absent, count_if-total ns rows h)

total-le : (ns : List Text) (rows : List Group) → UniqueNames rows → total ns rows ≤ length ns
unfolding total
total-le [] rows u = omega arith
total-le (n ∷ ns) rows u = omega (arith, u n, total-le ns rows u)

-- If as many rows as names have one of them, each name has a row.
all_present :
    (ns : List Text) (rows : List Group)
    → UniqueNames rows
    → total ns rows ≡ length ns
    → (name : Text) → any (text_eq name) ns ≡ true
    → any (group_by_name name) rows ≡ true
unfolding total
all_present [] rows u full name h = absurd (cc)
all_present (n ∷ ns) rows u full name h = elim (Bool-cases (text_eq name n)) [
  | inl here ↦
      let one : count_if (group_by_name n) rows ≡ 1 = omega (arith, u n, total-le ns rows u) in
      subst (λ x. any (group_by_name x) rows ≡ true) (sym ((text_eq_iff name n).0 here))
        (ground (arith, any-count_if (group_by_name n) rows))
  | inr later ↦ all_present ns rows u (omega (arith, u n, total-le ns rows u)) name (ground arith)
]

any-keep_if_named :
    (ns : List Text) (name : Text) (rows : List Group)
    → any (group_by_name name) (keep_if (group_named ns) rows)
      ≡ (any (text_eq name) ns && any (group_by_name name) rows)
any-keep_if_named ns name [] = ground arith
any-keep_if_named ns name (g ∷ rows) = elim (Bool-cases (text_eq g.name name)) [
  | inr other ↦ ground (arith, any-keep_if_named ns name rows)
  | inl here ↦
      let same : any (text_eq g.name) ns ≡ any (text_eq name) ns =
        ap (λ x. any (text_eq x) ns) ((text_eq_iff g.name name).0 here) in
      ground (arith, any-keep_if_named ns name rows)
]

module _ {G : Type 0} (groups : Table G Group) (by_name : List Group → List Group)
    (laws : IsTable KeptGroup groups) (order : IsOrder by_name)
    (unique : IsUnique same_group groups) where
  any-by_name : (p : Group → Bool) (rows : List Group) → any p (by_name rows) ≡ any p rows
  any-by_name p rows =
      any-count_if p (by_name rows) ∙ ap (ltb 0) (order.counts p rows) ∙ sym (any-count_if p rows)

  length-by_name : (rows : List Group) → length (by_name rows) ≡ length rows
  length-by_name rows =
      sym (count_if_all (by_name rows)) ∙ order.counts (λ g. true) rows ∙ count_if_all rows

  find_groups-rows :
      (g : G) (names : List Text) {found : List Group}
      → find_groups groups by_name g names ≡ ok found
      → found ≡ by_name (keep_if (group_named names) (groups.rows g))
  unfolding find_groups
  find_groups-rows g names {found} h =
      let (rows, got, e) = >>=-eq-ok (wrap (groups.select g (group_named names))) _ h in
      let listed : found ≡ by_name rows = ground arith in
      listed ∙ ap by_name (laws.select-rows g (group_named names) rows (wrap-eq-ok _ got))

  find_groups-names :
      (g : G) (names : List Text) {found : List Group}
      → find_groups groups by_name g names ≡ ok found
      → (name : Text)
      → any (group_by_name name) found
        ≡ (any (text_eq name) names && any (group_by_name name) (groups.rows g))
  find_groups-names g names h name =
      ap (any (group_by_name name)) (find_groups-rows g names h)
      ∙ any-by_name (group_by_name name) (keep_if (group_named names) (groups.rows g))
      ∙ any-keep_if_named names name (groups.rows g)

  inserted-names :
      (g : G) (n : Text) (g' : G)
      → passed_over g (groups.insert g (record { id = 0; name = n })) ≡ ok g'
      → (name : Text)
      → any (group_by_name name) (groups.rows g')
        ≡ (any (group_by_name name) (groups.rows g) || text_eq n name)
  inserted-names g n g' h name =
      let r : Group = record { id = 0; name = n } in
      elim (passed_over-cases g (groups.insert g r) g' h) [
        | inl (x, e) ↦
            let (rows, same) = laws.insert-rows g r g' x e in
            ap (any (group_by_name name)) rows
            ∙ any-append (group_by_name name) (groups.rows g) x
            ∙ ap (λ (x : Group). any (group_by_name name) (groups.rows g) || text_eq x.name name)
                same
        | inr (e, same) ↦
            let there = unique.clash g r e in
            ap (λ g. any (group_by_name name) (groups.rows g)) (sym same)
            ∙ elim (Bool-cases (text_eq n name)) [
              | inr other ↦ ground arith
              | inl here ↦
                  let there' =
                    subst (λ x. any (group_by_name x) (groups.rows g) ≡ true)
                      ((text_eq_iff n name).0 here) there in
                  ground arith
            ]
      ]

  insert_groups-names :
      (g : G) (ns : List Text) (g' : G)
      → insert_groups groups by_name g ns ≡ ok g'
      → (name : Text)
      → any (group_by_name name) (groups.rows g')
        ≡ (any (group_by_name name) (groups.rows g) || any (λ n. text_eq n name) ns)
  unfolding insert_groups
  insert_groups-names g [] g' h name =
      let same : g ≡ g' = ground arith in
      ap (λ g. any (group_by_name name) (groups.rows g)) (sym same) ∙ ground arith
  insert_groups-names g (n ∷ ns) g' h name =
      let (next, e, h') =
        >>=-eq-ok (passed_over g (groups.insert g (record { id = 0; name = n }))) _ h in
      ground (arith, insert_groups-names next ns g' h' name, inserted-names g n next e name)

  any-missing :
      (found : List Group) (name : Text) (ns : List Text)
      → any (λ n. text_eq n name) (missing found ns)
        ≡ (any (text_eq name) ns && not (any (group_by_name name) found))
  unfolding missing
  any-missing found name [] = refl
  any-missing found name (n ∷ ns) = elim (Bool-cases (text_eq n name)) [
    | inl here ↦
        let same = (text_eq_iff n name).0 here in
        let there : text_eq name n ≡ true = (text_eq_iff name n).1 (sym same) in
        let found_same = ap (λ x. any (group_by_name x) found) same in
        ground (arith, any-missing found name ns)
    | inr other ↦
        let apart : text_eq name n ≡ false = text_eq_false name n other in
        ground (arith, any-missing found name ns)
  ]
    where
      text_eq_false : (s t : Text) → text_eq t s ≡ false → text_eq s t ≡ false
      text_eq_false s t h = elim (Bool-cases (text_eq s t)) [
        | inr e ↦ e
        | inl e ↦ let back = (text_eq_iff t s).1 (sym ((text_eq_iff s t).0 e)) in absurd (cc)
      ]

  create_groups-insert_groups :
      (g : G) (ns : List Text) (g' : G)
      → create_groups groups by_name g ns ≡ ok g'
      → insert_groups groups by_name g ns ≡ ok g'
  unfolding create_groups
  create_groups-insert_groups g [] g' h = absurd (cc)
  create_groups-insert_groups g (n ∷ ns) g' h = h

  create_missing-names :
      (g : G) (names : List Text) (found answer : List Group) (g' : G)
      → find_groups groups by_name g names ≡ ok found
      → create_missing groups by_name g names found ≡ ok (answer, g')
      → (name : Text) → any (group_by_name name) answer ≡ any (text_eq name) names
  unfolding create_missing
  create_missing-names g names found answer g' first h name =
      let (next, e, h1) = >>=-eq-ok (create_groups groups by_name g (missing found names)) _ h in
      let (again, e', h2) = >>=-eq-ok (find_groups groups by_name next names) _ h1 in
      let same : again ≡ answer = ground arith in
      ap (any (group_by_name name)) (sym same)
      ∙ ground (
        arith,
        find_groups-names next names e' name,
        find_groups-names g names first name,
        insert_groups-names g (missing found names) next
            (create_groups-insert_groups g (missing found names) next e) name,
        any-missing found name names,
      )

  full :
      (g : G) (names : List Text) (found : List Group)
      → find_groups groups by_name g names ≡ ok found
      → NoRepeat names
      → UniqueNames (groups.rows g)
      → length found ≡ length names
      → (name : Text) → any (group_by_name name) found ≡ any (text_eq name) names
  full g names found first apart u same name =
      let counted : total names (groups.rows g) ≡ length names =
        sym (count_if-total names (groups.rows g) apart)
        ∙ sym (length-keep_if (group_named names) (groups.rows g))
        ∙ sym (length-by_name (keep_if (group_named names) (groups.rows g)))
        ∙ ap length (sym (find_groups-rows g names first))
        ∙ same in
      elim (Bool-cases (any (text_eq name) names)) [
        | inl e ↦ ground (
          arith,
          find_groups-names g names first name,
          all_present names (groups.rows g) u counted name e,
        )
        | inr e ↦ ground (arith, find_groups-names g names first name)
      ]

  -- Over lawful tables in which no two groups have one name, the groups that ensureGroups answers
  -- have exactly the names that it was given, if these do not repeat.
  pub ensure_groups-names :
      (g : G) (names : List Text) (answer : List Group) (g' : G)
      → ensure_groups groups by_name g names ≡ ok (answer, g')
      → NoRepeat names
      → UniqueNames (groups.rows g)
      → (name : Text) → any (group_by_name name) answer ≡ any (text_eq name) names
  unfolding ensure_groups
  ensure_groups-names g [] answer g' h apart u name =
      let same : [] ≡ answer = ground arith in ap (any (group_by_name name)) (sym same)
  ensure_groups-names g (n ∷ ns) answer g' h apart u name =
      let (found, first, h1) = >>=-eq-ok (find_groups groups by_name g (n ∷ ns)) _ h in
      elim (Bool-cases (length found == length (n ∷ ns))) [
        | inl e ↦
            let same : found ≡ answer = ground arith in
            ap (any (group_by_name name)) (sym same)
            ∙ full g (n ∷ ns) found first apart u (ground arith) name
        | inr e ↦ create_missing-names g (n ∷ ns) found answer g' first (ground arith) name
      ]
