-- ===== src/Auth/Provisioning/Attempts.antt =====
-- The account of an identity: the loop over the attempts ends, and what it answers.
use mathlib.Core.Path.{subst}
use unit_management.Base.{
  ℕ, zero, suc, ◌+◌, ◌≤◌, ◌≡◌, refl, sym, ◌∙◌, ap, inl, inr, true, Option, none, some, [], ◌∷◌,
  ◌++◌, arith, ◌==◌, is_some, ◌≢◌, Bool-cases, find?, Result, ok, err, Result-cases,
}
use unit_management.Text.{Text, rune_count}
use unit_management.Database.{Answer, done, duplicate, failed, Table, IsTable, first-rows}
use unit_management.Models.{User}
use unit_management.Auth.{AuthError, Tables}
use unit_management.Auth.Users.{max_username_length}
use unit_management.Auth.Lookup.{KeptUser}
use unit_management.Auth.Oidc.{OidcIdentity}
use unit_management.Auth.Provisioning.Usernames.{length-provisioned_username-le, next_name-bound}
use unit_management.Auth.Provisioning.{
  provisioned_username, is_subject, new_account, find_account, next_name, renamed, retried,
  inserted, provision, account_or_new, user_for_oidc_identity,
}

renamed-some :
    {A : Type 0} (name : Result AuthError Text) (again : Text → Option (Result AuthError A))
    → ((name : Text) → is_some (again name) ≡ true)
    → is_some (renamed name again) ≡ true
unfolding renamed
renamed-some (err e) again h = refl
renamed-some (ok name) again h = h name

module _ {T S : Type 0} (users : Table T User) where
  retried-some :
      (t : Tables T S) (id : OidcIdentity) (bytes : Option (ℕ × ℕ × ℕ)) (a : Answer (Option User))
      (again : Text → Option (Result AuthError (User × Tables T S)))
      → ((name : Text) → is_some (again name) ≡ true)
      → is_some (retried users t id bytes a again) ≡ true
  unfolding retried
  retried-some t id bytes (done (some u)) again h = refl
  retried-some t id bytes (done none) again h = renamed-some (next_name id bytes) again h
  retried-some t id bytes duplicate again h = renamed-some (next_name id bytes) again h
  retried-some t id bytes failed again h = renamed-some (next_name id bytes) again h

  inserted-some :
      (attempt : ℕ) (t : Tables T S) (id : OidcIdentity) (bytes : Option (ℕ × ℕ × ℕ))
      (a : Answer (T × User)) (again : Text → Option (Result AuthError (User × Tables T S)))
      → (attempt ≢ 2 → (name : Text) → is_some (again name) ≡ true)
      → is_some (inserted users attempt t id bytes a again) ≡ true
  unfolding inserted
  inserted-some attempt t id bytes (done (s, user)) again h = refl
  inserted-some attempt t id bytes failed again h = refl
  inserted-some attempt t id bytes duplicate again h = elim (Bool-cases (attempt == 2)) [
    | inl last ↦ rw last refl
    | inr more ↦
        rw more (retried-some t id bytes (find_account users t id.subject) again (h (ground arith)))
  ]

  -- The loop over the attempts ends within three: with that much fuel it has a result, whatever the
  -- database and the random source answer.
  pub provision-ends :
      (fuel attempt : ℕ) (t : Tables T S) (id : OidcIdentity) (bytes : ℕ → Option (ℕ × ℕ × ℕ))
      (username : Text)
      → attempt ≤ 2
      → 3 ≤ fuel + attempt
      → is_some (provision users fuel attempt t id bytes username) ≡ true
  unfolding provision
  provision-ends zero attempt t id bytes username le enough = absurd (omega arith)
  provision-ends (suc fuel) attempt t id bytes username le enough =
      inserted-some attempt t id (bytes attempt) (users.insert t.users (new_account id username)) _
        λ more name. provision-ends fuel (suc attempt) t id bytes name (ground arith) (omega arith)

  -- The loop over attempts of userForOIDCIdentity ends within three insertions: with fuel for
  -- three, it has a result whatever the table and the random source answer.
  pub user_for_oidc_identity-ends :
      (t : Tables T S) (id : OidcIdentity) (bytes : ℕ → Option (ℕ × ℕ × ℕ))
      → is_some (user_for_oidc_identity users t id bytes) ≡ true
  unfolding user_for_oidc_identity account_or_new
  user_for_oidc_identity-ends t id bytes = by_answer (find_account users t id.subject)
    where
      by_answer : (a : Answer (Option User)) → is_some (account_or_new users t id bytes a) ≡ true
      by_answer (done (some user)) = refl
      by_answer (done none) =
          provision-ends 3 0 t id bytes (provisioned_username id) (omega arith) (omega arith)
      by_answer duplicate = refl
      by_answer failed = refl

  -- What an account is that userForOIDCIdentity answers: the oldest of the subject, with nothing
  -- changed, or a new one.
  pub data Provides (t : Tables T S) (id : OidcIdentity) (u : User) (t' : Tables T S) : Type 0 where
    existing :
        find? (is_subject id.subject) (users.rows t.users) ≡ some u → t ≡ t' → Provides t id u t'
    created :
        (name : Text)
        → find? (is_subject id.subject) (users.rows t.users) ≡ none
        → rune_count name ≤ max_username_length
        → u ≡ record (new_account id name) { id = u.id }
        → users.rows t'.users ≡ users.rows t.users ++ u ∷ []
        → t'.sessions ≡ t.sessions
        → Provides t id u t'

  module _ (laws : IsTable KeptUser users) where
    found_account :
        (t : Tables T S) (subject : Text) (o : Option User)
        → find_account users t subject ≡ done o
        → find? (is_subject subject) (users.rows t.users) ≡ o
    unfolding find_account
    found_account t subject o e = sym (first-rows users laws t.users (is_subject subject) o e)

    renamed-Provides :
        (t : Tables T S) (id : OidcIdentity) (bytes : Option (ℕ × ℕ × ℕ))
        (again : Text → Option (Result AuthError (User × Tables T S))) (u : User) (t' : Tables T S)
        → ((name : Text)
            → rune_count name ≤ max_username_length
            → again name ≡ some (ok (u, t'))
            → Provides t id u t')
        → renamed (next_name id bytes) again ≡ some (ok (u, t'))
        → Provides t id u t'
    unfolding renamed
    renamed-Provides t id bytes again u t' later h = elim (Result-cases (next_name id bytes)) [
      | inr (e, bad) ↦ absurd (ground arith)
      | inl (name, good) ↦ later name (next_name-bound id bytes name good) (ground arith)
    ]

    inserted-Provides :
        (attempt : ℕ) (t : Tables T S) (id : OidcIdentity) (bytes : Option (ℕ × ℕ × ℕ))
        (username : Text) (a : Answer (T × User))
        (again : Text → Option (Result AuthError (User × Tables T S))) (u : User) (t' : Tables T S)
        → find_account users t id.subject ≡ done none
        → rune_count username ≤ max_username_length
        → users.insert t.users (new_account id username) ≡ a
        → ((name : Text)
            → rune_count name ≤ max_username_length
            → again name ≡ some (ok (u, t'))
            → Provides t id u t')
        → inserted users attempt t id bytes a again ≡ some (ok (u, t'))
        → Provides t id u t'
    unfolding inserted retried
    inserted-Provides attempt t id bytes username (done (s, x)) again u t' none_yet short e later
          h =
        let (rows, kept) = laws.insert-rows t.users (new_account id username) s x e in
        let same : (x, record t { users = s }) ≡ (u, t') = ground arith in
        let same_user : x ≡ u = ap (λ (p : User × Tables T S). p.0) same in
        created username (found_account t id.subject none none_yet) short
          (sym same_user
            ∙ kept
            ∙ ap (λ (y : User). record (new_account id username) { id = y.id }) same_user)
          (ap (λ (p : User × Tables T S). users.rows p.1.users) (sym same)
            ∙ rows
            ∙ ap (λ y. users.rows t.users ++ y ∷ []) same_user)
          (ap (λ (p : User × Tables T S). p.1.sessions) (sym same))
    inserted-Provides attempt t id bytes username failed again u t' none_yet short e later h =
        absurd (cc)
    inserted-Provides attempt t id bytes username duplicate again u t' none_yet short e later h =
        elim (Bool-cases (attempt == 2)) [
          | inl last ↦ absurd (ground arith)
          | inr more ↦
              let h' : retried users t id bytes (find_account users t id.subject) again
                  ≡ some (ok (u, t')) =
                ground arith in
              renamed-Provides t id bytes again u t' later
                (subst (λ a. retried users t id bytes a again ≡ some (ok (u, t'))) none_yet h')
        ]

    provision-Provides :
        (fuel attempt : ℕ) (t : Tables T S) (id : OidcIdentity) (bytes : ℕ → Option (ℕ × ℕ × ℕ))
        (username : Text) (u : User) (t' : Tables T S)
        → find_account users t id.subject ≡ done none
        → rune_count username ≤ max_username_length
        → provision users fuel attempt t id bytes username ≡ some (ok (u, t'))
        → Provides t id u t'
    unfolding provision
    provision-Provides zero attempt t id bytes username u t' none_yet short h = absurd (cc)
    provision-Provides (suc fuel) attempt t id bytes username u t' none_yet short h =
        inserted-Provides attempt t id (bytes attempt) username
          (users.insert t.users (new_account id username)) _ u t' none_yet short refl
          (λ name bound later.
            provision-Provides fuel (suc attempt) t id bytes name u t' none_yet bound later)
          h

    -- Over a lawful table, whenever userForOIDCIdentity answers an account.
    pub user_for_oidc_identity-Provides :
        (t : Tables T S) (id : OidcIdentity) (bytes : ℕ → Option (ℕ × ℕ × ℕ)) (u : User)
        (t' : Tables T S)
        → user_for_oidc_identity users t id bytes ≡ some (ok (u, t'))
        → Provides t id u t'
    unfolding user_for_oidc_identity account_or_new
    user_for_oidc_identity-Provides t id bytes u t' h =
        by_answer (find_account users t id.subject) refl h
      where
        by_answer :
            (a : Answer (Option User))
            → find_account users t id.subject ≡ a
            → account_or_new users t id bytes a ≡ some (ok (u, t'))
            → Provides t id u t'
        by_answer (done (some x)) e h =
            let same : (x, t) ≡ (u, t') = ground arith in
            existing
              (found_account t id.subject (some x) e
                ∙ ap (λ (p : User × Tables T S). some p.0) same)
              (ap (λ (p : User × Tables T S). p.1) same)
        by_answer (done none) e h =
            provision-Provides 3 0 t id bytes (provisioned_username id) u t' e
              (length-provisioned_username-le id) h
        by_answer duplicate e h = absurd (cc)
        by_answer failed e h = absurd (cc)
