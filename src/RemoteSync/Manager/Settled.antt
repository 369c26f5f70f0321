-- ===== src/RemoteSync/Manager/Settled.antt =====
-- A reconciliation that finds the remotes as the last one did leaves every worker running.
use unit_management.Base.{
  ◌≡◌, refl, ◌∙◌, ap, inl, inr, Bool, true, false, Option, none, some, List, [], ◌∷◌, arith,
  if◌then◌else◌, is_some, Bool-cases, Option-cases,
}
use unit_management.Base.Assoc.{
  Assoc, lookup, assign, Entries, Entries-erase, Entries-of_keys, Entries-and, Distinct,
  Entries-of_Distinct, Distinct-assign,
}
use unit_management.Text.{text_eq_refl}
use unit_management.Models.{Uuid, SyncRemote}
use unit_management.RemoteSync.Manager.{
  Running, Workers, no_effects, desired_from, same_connection, renamed, goes_on, keep_workers,
  start, start_missing, reconcile_workers,
}
use unit_management.RemoteSync.Manager.Reconcile.{
  or_else, started_of, lookup-start_missing, desired_from-keyed,
}

-- A worker that a reconciliation with these remotes leaves as it is.
abbrev Fixed : Assoc SyncRemote → Uuid → Running → Type 0
Fixed desired id w = goes_on (lookup id desired) w ≡ some w

goes_on-twice :
    (o : Option SyncRemote) (w w' : Running) → goes_on o w ≡ some w' → goes_on o w' ≡ some w'
unfolding goes_on same_connection renamed
goes_on-twice none w w' h = cc
goes_on-twice (some r) w w' h = elim (Bool-cases (same_connection r w)) [
  | inr e ↦ absurd (ground arith)
  | inl e ↦ ground arith
]

start-fixed : (r : SyncRemote) → goes_on (some r) (start r) ≡ some (start r)
unfolding goes_on same_connection renamed start
start-fixed r = rw (text_eq_refl r.base_url) (ground arith)

keep_workers-Fixed :
    (desired : Assoc SyncRemote) (m : Workers) → Entries (Fixed desired) (keep_workers desired m).0
unfolding keep_workers
keep_workers-Fixed desired [] = tt
keep_workers-Fixed desired ((id, w) ∷ m) = elim (Option-cases (goes_on (lookup id desired) w)) [
  | inl e ↦ rw e (keep_workers-Fixed desired m)
  | inr (w', e) ↦ rw e (goes_on-twice (lookup id desired) w w' e, keep_workers-Fixed desired m)
]

start_missing-Fixed :
    (all desired : Assoc SyncRemote) (m : Workers)
    → Entries (λ id r. (lookup id all ≡ some r) × (r.id ≡ id)) desired
    → Entries (Fixed all) m
    → Entries (Fixed all) (start_missing desired m).0
unfolding start_missing
start_missing-Fixed all [] m found h = h
start_missing-Fixed all ((id, r) ∷ desired) m ((here, same), found) h =
    elim (Bool-cases (is_some (lookup id m))) [
      | inl e ↦ rw e (start_missing-Fixed all desired m found h)
      | inr e ↦ rw e (
          start_missing-Fixed all desired (assign r.id (start r) m) found (
            ap (λ o. goes_on o (start r)) (ap (λ q. lookup q all) same ∙ here) ∙ start-fixed r,
            Entries-erase (Fixed all) r.id m h,
          ))
    ]

keep_workers-same :
    (desired : Assoc SyncRemote) (m : Workers)
    → Entries (Fixed desired) m
    → keep_workers desired m ≡ (m, [])
unfolding keep_workers
keep_workers-same desired [] h = refl
keep_workers-same desired ((id, w) ∷ m) (fixed, h) = rw (fixed, keep_workers-same desired m h) refl

start_missing_present :
    (desired : Assoc SyncRemote) (m : Workers)
    → Entries (λ id r. is_some (lookup id m) ≡ true) desired
    → start_missing desired m ≡ (m, [])
unfolding start_missing
start_missing_present [] m h = refl
start_missing_present ((id, r) ∷ desired) m (here, h) = rw here (start_missing_present desired m h)

start_missing-present :
    (desired : Assoc SyncRemote) (m : Workers)
    → Entries (λ id r. r.id ≡ id) desired
    → Entries (λ id r. is_some (lookup id (start_missing desired m).0) ≡ true) desired
start_missing-present desired m keyed =
    Entries-of_keys (λ id. is_some (lookup id (start_missing desired m).0) ≡ true) desired
      λ q e.
        ap is_some (lookup-start_missing q desired m keyed)
        ∙ present (lookup q m) (lookup q desired) e
  where
    present :
        (a : Option Running) (o : Option SyncRemote)
        → is_some o ≡ true
        → is_some (or_else a (started_of o)) ≡ true
    present none none e = cc
    present none (some r) e = refl
    present (some w) o e = refl

Distinct-desired_from :
    (m : Assoc SyncRemote) (rs : List SyncRemote) → Distinct m → Distinct (desired_from m rs)
unfolding desired_from
Distinct-desired_from m [] d = d
Distinct-desired_from m (r ∷ rs) d =
    Distinct-desired_from (if r.enabled then assign r.id r m else m) rs (with_next r.enabled)
  where
    with_next : (b : Bool) → Distinct (if b then assign r.id r m else m)
    with_next true = Distinct-assign r.id r m d
    with_next false = d

-- A second reconciliation over the same remotes stops no worker, starts none, and leaves all as they
-- are.
pub reconcile_workers-reconcile_workers :
    (rs : List SyncRemote) (m : Workers)
    → reconcile_workers rs (reconcile_workers rs m).0 ≡ ((reconcile_workers rs m).0, no_effects)
unfolding reconcile_workers
reconcile_workers-reconcile_workers rs m =
    let desired = desired_from [] rs in
    let keyed = desired_from-keyed [] rs tt in
    let m' = (start_missing desired (keep_workers desired m).0).0 in
    let fixed =
      start_missing-Fixed desired desired (keep_workers desired m).0
        (Entries-and (λ id r. lookup id desired ≡ some r) (λ id r. r.id ≡ id) desired
          (Entries-of_Distinct desired (Distinct-desired_from [] rs tt)) keyed)
        (keep_workers-Fixed desired m) in
    rw
      (
        keep_workers-same desired m' fixed,
        start_missing_present desired m'
            (start_missing-present desired (keep_workers desired m).0 keyed),
      )
      refl
