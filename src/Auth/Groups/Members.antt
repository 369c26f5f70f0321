-- ===== src/Auth/Groups/Members.antt =====
-- What a user's memberships are after they have been replaced.
use mathlib.Core.Path.{subst}
use unit_management.Base.{
  ℕ, ◌≡◌, refl, sym, ◌∙◌, ap, inl, inr, Bool, true, not, ◌&&◌, ◌||◌, List, [], ◌∷◌, ◌++◌, arith,
  ◌⊎◌, ◌==◌, if◌then◌else◌, any, keep_if, Bool-cases, ok, >>=-eq-ok,
}
use unit_management.Database.{Answer, done, duplicate, failed, Table, IsTable, IsUnique}
use unit_management.Models.{UserGroup}
use unit_management.Auth.{wrap}
use unit_management.Auth.Lookup.{wrap-eq-ok}
use unit_management.Auth.Groups.{member_of, leaving, passed_over, join_groups, replace_memberships}

-- A membership is stored as it is given, and its primary key is the pair.
abbrev pub KeptMember : UserGroup → UserGroup → Type 0
KeptMember r r' = r' ≡ r

abbrev pub same_member : UserGroup → UserGroup → Bool
same_member r x = member_of r.user_id r.group_id x

pub any-append :
    {A : Type 0} (p : A → Bool) (xs : List A) (y : A) → any p (xs ++ y ∷ []) ≡ (any p xs || p y)
any-append p [] y = ground arith
any-append p (x ∷ xs) y = ground (arith, any-append p xs y)

pub passed_over-cases :
    {T R : Type 0} (t : T) (a : Answer (T × R)) (t' : T)
    → passed_over t a ≡ ok t'
    → ((r : R) × (a ≡ done (t', r))) ⊎ ((a ≡ duplicate) × (t ≡ t'))
passed_over-cases t (done (s, r)) t' h =
    let same : s ≡ t' = ground arith in inl (r, ap (λ x. done (x, r)) same)
passed_over-cases t duplicate t' h = inr (refl, ground arith)
passed_over-cases t failed t' h = absurd (cc)

module _ {M : Type 0} (memberships : Table M UserGroup) where
  pub has : M → ℕ → ℕ → Bool
  has m u g = any (member_of u g) (memberships.rows m)

module _ {M : Type 0} (memberships : Table M UserGroup) (laws : IsTable KeptMember memberships)
    (unique : IsUnique same_member memberships) where
  has-passed_over :
      (m : M) (user_id id : ℕ) (m' : M)
      → passed_over m (memberships.insert m (record { user_id = user_id; group_id = id })) ≡ ok m'
      → (u g : ℕ) → has memberships m' u g ≡ (has memberships m u g || (user_id == u && id == g))
  unfolding has
  has-passed_over m user_id id m' h u g =
      let r : UserGroup = record { user_id = user_id; group_id = id } in
      elim (passed_over-cases m (memberships.insert m r) m' h) [
        | inl (x, e) ↦
            let (rows, same) = laws.insert-rows m r m' x e in
            ap (any (member_of u g)) rows
            ∙ any-append (member_of u g) (memberships.rows m) x
            ∙ ap (λ x. any (member_of u g) (memberships.rows m) || member_of u g x) same
        | inr (e, same) ↦
            let there = unique.clash m r e in
            ap (λ t. any (member_of u g) (memberships.rows t)) (sym same)
            ∙ elim (Bool-cases (user_id == u && id == g)) [
              | inr other ↦ ground arith
              | inl here ↦
                  let to_u : user_id ≡ u = ground arith in
                  let to_g : id ≡ g = ground arith in
                  let there' =
                    subst (λ (k : ℕ × ℕ). any (member_of k.0 k.1) (memberships.rows m) ≡ true)
                      {x = (user_id, id)} {y = (u, g)} (ground arith) there in
                  ground arith
            ]
      ]

  has-join_groups :
      (m : M) (user_id : ℕ) (ids : List ℕ) (m' : M)
      → join_groups memberships m user_id ids ≡ ok m'
      → (u g : ℕ)
      → has memberships m' u g ≡ (has memberships m u g || (user_id == u && any (λ i. i == g) ids))
  unfolding join_groups
  has-join_groups m user_id [] m' h u g =
      let same : m ≡ m' = ground arith in ap (λ m. has memberships m u g) (sym same) ∙ ground arith
  has-join_groups m user_id (id ∷ ids) m' h u g =
      let (next, e, h') =
        >>=-eq-ok
          (passed_over m (memberships.insert m (record { user_id = user_id; group_id = id }))) _
          h in
      ground
        (arith, has-join_groups next user_id ids m' h' u g, has-passed_over m user_id id next e u g)

  leaving_test :
      (user_id : ℕ) (ids : List ℕ) (x : UserGroup)
      → leaving memberships user_id ids x
        ≡ (x.user_id == user_id && not (any (λ i. i == x.group_id) ids))
  unfolding leaving
  leaving_test user_id [] x = ground arith
  leaving_test user_id (id ∷ ids) x = refl

  leaving-member :
      (user_id : ℕ) (ids : List ℕ) (x : UserGroup) (u g : ℕ)
      → (member_of u g x && not (leaving memberships user_id ids x))
        ≡ (member_of u g x && not (user_id == u && not (any (λ i. i == g) ids)))
  leaving-member user_id ids x u g = elim (Bool-cases (member_of u g x)) [
    | inr other ↦ ground arith
    | inl here ↦
        let same : x.group_id ≡ g = ground arith in
        let ids_same = ap (λ g. any (λ i. i == g) ids) same in
        ground (arith, leaving_test user_id ids x)
  ]

  any-leaving :
      (user_id : ℕ) (ids : List ℕ) (rows : List UserGroup) (u g : ℕ)
      → any (member_of u g) (keep_if (λ x. not (leaving memberships user_id ids x)) rows)
        ≡ (any (member_of u g) rows && not (user_id == u && not (any (λ i. i == g) ids)))
  any-leaving user_id ids [] u g = refl
  any-leaving user_id ids (x ∷ rows) u g =
      ground (arith, leaving-member user_id ids x u g, any-leaving user_id ids rows u g)

  -- Over lawful tables, after its memberships have been replaced, a user is a member of exactly the
  -- groups, and the memberships of the others are as before.
  pub has-replace_memberships :
      (m : M) (user_id : ℕ) (ids : List ℕ) (m' : M)
      → replace_memberships memberships m user_id ids ≡ ok m'
      → (u g : ℕ)
      → has memberships m' u g
        ≡ (if user_id == u then any (λ i. i == g) ids else has memberships m u g)
  unfolding replace_memberships has
  has-replace_memberships m user_id ids m' h u g =
      let (left, e, h') =
        >>=-eq-ok (wrap (memberships.delete m (leaving memberships user_id ids))) _ h in
      let (rows, _) = laws.delete-rows m _ left.0 left.1 (wrap-eq-ok _ e) in
      let stays : has memberships left.0 u g
          ≡ (has memberships m u g && not (user_id == u && not (any (λ i. i == g) ids))) =
        ap (any (member_of u g)) rows ∙ any-leaving user_id ids (memberships.rows m) u g in
      ground (arith, has-join_groups left.0 user_id ids m' h' u g)
