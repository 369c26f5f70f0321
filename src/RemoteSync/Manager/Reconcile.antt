-- ===== src/RemoteSync/Manager/Reconcile.antt =====
-- A reconciliation makes the workers those of the enabled remotes: against a reference that decides
-- each worker by itself.
use unit_management.Base.{
  ◌≤◌, ◌≡◌, refl, ◌∙◌, ap, inl, inr, Bool, true, false, ◌&&◌, Option, none, some, List, [], ◌∷◌,
  arith, ◌==◌, if◌then◌else◌, is_some, Bool-cases, Option-cases, find?, count_if,
}
use unit_management.Base.Assoc.{
  Assoc, lookup, assign, lookup-assign, Distinct, Entries, Entries-erase, Distinct-assign,
}
use unit_management.Models.{Uuid, SyncRemote}
use unit_management.Text.{text_eq}
use unit_management.RemoteSync.Manager.{
  Running, Workers, desired_from, same_connection, renamed, goes_on, keep_or_stop, keep_workers,
  start, start_missing, reconcile_workers, remote_by_id,
}

-- The remote with the ID, if it is enabled.
abbrev pub wanted : Uuid → SyncRemote → Bool
wanted id r = r.enabled && r.id == id

abbrev pub or_else : {A : Type 0} → Option A → Option A → Option A
or_else none b = b
or_else (some a) b = some a

-- IDs are a primary key.
abbrev pub UniqueIds : List SyncRemote → Type 0
UniqueIds rs = (id : Uuid) → count_if (remote_by_id id) rs ≤ 1

none-wanted :
    (id : Uuid) (rs : List SyncRemote)
    → count_if (remote_by_id id) rs ≤ 0
    → find? (wanted id) rs ≡ none
none-wanted id [] h = refl
none-wanted id (r ∷ rs) h = ground (arith, none-wanted id rs)

lookup-desired_from :
    (q : Uuid) (m : Assoc SyncRemote) (rs : List SyncRemote)
    → count_if (remote_by_id q) rs ≤ 1
    → lookup q (desired_from m rs) ≡ or_else (find? (wanted q) rs) (lookup q m)
unfolding desired_from
lookup-desired_from q m [] h = refl
lookup-desired_from q m (r ∷ rs) h = ground (
  arith,
  lookup-desired_from q (assign r.id r m) rs,
  lookup-desired_from q m rs,
  lookup-assign q r.id r m,
  none-wanted q rs,
)

-- What a worker under the ID is after a reconciliation, given the one before: none if the remote is
-- not wanted, the one before, renamed, if its connection is the remote's, and else a new one.
unfoldable pub settled : Option SyncRemote → Option Running → Option Running
settled none before = none
settled (some r) none = some (record { remote = r; pending = false })
settled (some r) (some w) =
    if text_eq r.base_url w.remote.base_url && r.poll_interval_sec == w.remote.poll_interval_sec
    then some (record { remote = record w.remote { name = r.name }; pending = w.pending })
    else some (record { remote = r; pending = false })

-- What the loop over the workers leaves under an ID.
abbrev kept_of : Option SyncRemote → Option Running → Option Running
kept_of o none = none
kept_of o (some w) = goes_on o w

lookup-keep_workers :
    (q : Uuid) (desired : Assoc SyncRemote) (m : Workers)
    → Distinct m
    → lookup q (keep_workers desired m).0 ≡ kept_of (lookup q desired) (lookup q m)
unfolding keep_workers
lookup-keep_workers q desired [] d = refl
lookup-keep_workers q desired ((id, w) ∷ m) (fresh, d) =
    let rest = lookup-keep_workers q desired m d in
    elim (Option-cases (goes_on (lookup id desired) w)) [
      | inl e ↦ ground (arith, rest)
      | inr (w', e) ↦ ground (arith, rest)
    ]

abbrev pub started_of : Option SyncRemote → Option Running
started_of none = none
started_of (some r) = some (start r)

pub lookup-start_missing :
    (q : Uuid) (desired : Assoc SyncRemote) (m : Workers)
    → Entries (λ id r. r.id ≡ id) desired
    → lookup q (start_missing desired m).0 ≡ or_else (lookup q m) (started_of (lookup q desired))
unfolding start_missing
lookup-start_missing q [] m h = elim (Option-cases (lookup q m)) [
  | inl e ↦ ground arith
  | inr (w, e) ↦ ground arith
]
lookup-start_missing q ((id, r) ∷ desired) m (same, h) = elim (Option-cases (lookup id m)) [
  | inl e ↦ ground (
    arith,
    lookup-start_missing q desired (assign r.id (start r) m) h,
    lookup-assign q r.id (start r) m,
  )
  | inr (w, e) ↦ elim (Bool-cases (id == q)) [
    | inl here ↦ ground (arith, lookup-start_missing q desired m h)
    | inr other ↦ ground (arith, lookup-start_missing q desired m h)
  ]
]

pub desired_from-keyed :
    (m : Assoc SyncRemote) (rs : List SyncRemote)
    → Entries (λ id r. r.id ≡ id) m
    → Entries (λ id r. r.id ≡ id) (desired_from m rs)
unfolding desired_from
desired_from-keyed m [] h = h
desired_from-keyed m (r ∷ rs) h =
    desired_from-keyed (if r.enabled then assign r.id r m else m) rs (with_next r.enabled)
  where
    with_next : (b : Bool) → Entries (λ id r. r.id ≡ id) (if b then assign r.id r m else m)
    with_next true = (refl, Entries-erase (λ id r. r.id ≡ id) r.id m h)
    with_next false = h

settled-parts :
    (o : Option SyncRemote) (before : Option Running)
    → or_else (kept_of o before) (started_of o) ≡ settled o before
unfolding settled goes_on same_connection renamed start
settled-parts none none = refl
settled-parts none (some w) = refl
settled-parts (some r) none = refl
settled-parts (some r) (some w) = ground arith

-- If no two workers have one key and no two remotes one ID, then after a reconciliation the worker
-- under each ID is the one that the reference gives it from the remote and the worker before.
pub lookup-reconcile_workers :
    (rs : List SyncRemote) (m : Workers)
    → Distinct m
    → UniqueIds rs
    → (q : Uuid) → lookup q (reconcile_workers rs m).0 ≡ settled (find? (wanted q) rs) (lookup q m)
unfolding reconcile_workers
lookup-reconcile_workers rs m d unique q =
    let same : lookup q (desired_from [] rs) ≡ find? (wanted q) rs =
      lookup-desired_from q [] rs (unique q) ∙ right_none (find? (wanted q) rs) in
    lookup-start_missing q (desired_from [] rs) (keep_workers (desired_from [] rs) m).0
      (desired_from-keyed [] rs tt)
    ∙ ap (λ x. or_else x (started_of (lookup q (desired_from [] rs))))
        (lookup-keep_workers q (desired_from [] rs) m d)
    ∙ settled-parts (lookup q (desired_from [] rs)) (lookup q m)
    ∙ ap (λ o. settled o (lookup q m)) same
  where
    right_none : (o : Option SyncRemote) → or_else o none ≡ o
    right_none none = refl
    right_none (some r) = refl

Distinct-keep_workers :
    (desired : Assoc SyncRemote) (m : Workers) → Distinct m → Distinct (keep_workers desired m).0
unfolding keep_workers
Distinct-keep_workers desired [] d = tt
Distinct-keep_workers desired ((id, w) ∷ m) (fresh, d) =
    keep (goes_on (lookup id desired) w)
      (lookup-keep_workers id desired m d ∙ ap (kept_of (lookup id desired)) fresh)
      (Distinct-keep_workers desired m d)
  where
    keep :
        (o : Option Running)
        → lookup id (keep_workers desired m).0 ≡ none
        → Distinct (keep_workers desired m).0
        → Distinct (keep_or_stop id w o (keep_workers desired m)).0
    keep none e rest = rest
    keep (some w') e rest = (e, rest)

Distinct-start_missing :
    (desired : Assoc SyncRemote) (m : Workers) → Distinct m → Distinct (start_missing desired m).0
unfolding start_missing
Distinct-start_missing [] m d = d
Distinct-start_missing ((id, r) ∷ desired) m d = elim (Bool-cases (is_some (lookup id m))) [
  | inl e ↦ rw e (Distinct-start_missing desired m d)
  | inr e ↦ rw e (
      Distinct-start_missing desired (assign r.id (start r) m) (Distinct-assign r.id (start r) m d))
]

-- A reconciliation keeps the keys of the workers distinct.
pub Distinct-reconcile_workers :
    (rs : List SyncRemote) (m : Workers) → Distinct m → Distinct (reconcile_workers rs m).0
unfolding reconcile_workers
Distinct-reconcile_workers rs m d =
    Distinct-start_missing (desired_from [] rs) (keep_workers (desired_from [] rs) m).0
      (Distinct-keep_workers (desired_from [] rs) m d)
