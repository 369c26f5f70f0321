-- ===== src/RemoteSync/Manager/Invariant.antt =====
-- The invariant of the manager over any sequence of its calls.
use mathlib.Core.Path.{subst}
use unit_management.Base.{
  ◌≡◌, sym, ◌∙◌, ap, inl, inr, true, not, Option, none, some, List, [], ◌∷◌, arith, Option-cases,
  count_if, All-append, All-keep_if, All-map_if, All-find?, Result, ok, err, >>=-eq-ok,
  Result-cases, or_err-ok,
}
use unit_management.Base.Assoc.{
  lookup, Distinct, Entries, Distinct-assign, Entries-lookup, Entries-erase,
}
use unit_management.Text.{Text}
use unit_management.Database.{Table, IsTable, IsOrder, first, first-rows}
use unit_management.Text.Url.{UrlCodec}
use unit_management.Models.{Uuid, Time, SyncRemote}
use unit_management.RemoteSync.Manager.{
  RemoteError, Manager, wrap, remote_by_id, desired_from, reconcile_workers, list, get, reconciled,
  reconcile, create, update, delete, forgotten, trigger, triggered, requested, set_status,
  write_status, write_settings, stop_all, apply_remote,
}
use unit_management.RemoteSync.Worker.{request_sync}
use unit_management.RemoteSync.Manager.Validity.{
  valid, AllValid, Own, apply_remote-valid, none_invalid, AllValid-of_none, Wanted-desired_from,
  Own-keep_workers, Own-start_missing,
}
use unit_management.RemoteSync.Manager.Reconcile.{Distinct-reconcile_workers}
use unit_management.RemoteSync.Manager.Calls.{
  Change, creates, updates, deletes, perform, KeptRemote, wrap-eq-ok, deleted-eq, list-rows,
}

-- The administrators' changes and the other calls: a request for a pass, the tick of Run, the end of
-- a pass, the end of Run.
pub data Call : Type 0 where
  changes : Change → Call
  triggers : Uuid → Time → Call
  ticks : Call
  passes : Uuid → Option Text → Time → Call
  stops : Call

module _ {T : Type 0} (remotes : Table T SyncRemote) (by_name : List SyncRemote → List SyncRemote)
    (urls : UrlCodec) where
  abbrev or_same : Manager T → Result RemoteError (Manager T) → Manager T
  or_same m (ok m') = m'
  or_same m (err e) = m

  abbrev changed_or_same : Manager T → Result RemoteError (SyncRemote × Manager T) → Manager T
  changed_or_same m (ok (r, m')) = m'
  changed_or_same m (err e) = m

  unfoldable pub call : Manager T → Call → Manager T
  call m (changes c) = changed_or_same m (perform remotes by_name urls m c)
  call m (triggers id now) = or_same m (trigger remotes by_name urls m id now)
  call m ticks = (reconcile remotes by_name urls m).0
  call m (passes id failure now) = set_status remotes by_name urls m id failure now
  call m stops = (stop_all remotes by_name urls m).0

  unfoldable pub run : Manager T → List Call → Manager T
  run m [] = m
  run m (c ∷ cs) = run (call m c) cs

  -- At most one worker per remote, each under its remote's ID, and all settings as applyRemote
  -- accepts them.
  pub record IsOrderly (m : Manager T) : Type 0 where
    pub distinct : Distinct m.workers
    pub workers : Entries Own m.workers
    pub rows : AllValid (remotes.rows m.remotes)

  module _ (laws : IsTable KeptRemote remotes) (order : IsOrder by_name) where
    reconcile-IsOrderly :
        (m : Manager T) → IsOrderly m → IsOrderly (reconcile remotes by_name urls m).0
    unfolding reconcile reconciled reconcile_workers
    reconcile-IsOrderly m h = elim (Result-cases (list remotes by_name urls m)) [
      | inr (e, bad) ↦ rw bad h
      | inl (rs, good) ↦
          let listed = list-rows remotes by_name urls laws order m good in
          let all : AllValid rs = AllValid-of_none rs (
            ap (count_if (λ r. not (valid r))) listed
            ∙ order.counts (λ r. not (valid r)) (remotes.rows m.remotes)
            ∙ none_invalid (remotes.rows m.remotes) h.rows) in
          let wanted = Wanted-desired_from [] rs tt all in
          rw good (record {
            distinct = Distinct-reconcile_workers rs m.workers h.distinct;
            workers =
                Own-start_missing (desired_from [] rs) _ wanted
                  (Own-keep_workers (desired_from [] rs) m.workers wanted h.workers);
            rows = h.rows;
          })
    ]

    get-valid :
        (m : Manager T) (id : Uuid) {r : SyncRemote}
        → AllValid (remotes.rows m.remotes)
        → get remotes by_name urls m id ≡ ok r
        → valid r ≡ true
    unfolding get
    get-valid m id {r} all h =
        let (found, got, h1) = >>=-eq-ok (wrap (first remotes m.remotes (remote_by_id id))) _ h in
        let is_found = or_err-ok found RemoteError.not_found h1 in
        All-find? (λ r. valid r ≡ true) (remote_by_id id) (remotes.rows m.remotes) all
          (sym (first-rows remotes laws m.remotes (remote_by_id id) found (wrap-eq-ok _ got))
            ∙ is_found)

    -- The tables change and the workers follow.
    on_rows :
        (m : Manager T) (t : T)
        → IsOrderly m
        → AllValid (remotes.rows t)
        → IsOrderly (reconcile remotes by_name urls (record m { remotes = t })).0
    on_rows m t h rows =
        reconcile-IsOrderly (record m { remotes = t })
          (record { distinct = h.distinct; workers = h.workers; rows = rows })

    perform-IsOrderly :
        (m : Manager T) (c : Change) (r : SyncRemote) (m' : Manager T)
        → IsOrderly m
        → perform remotes by_name urls m c ≡ ok (r, m')
        → IsOrderly m'
    unfolding perform create update delete forgotten write_settings valid
    perform-IsOrderly m (creates id input) r m' h done_so =
        let (new, applied, h1) = >>=-eq-ok (apply_remote urls _ input) _ done_so in
        let (stored, got, h2) = >>=-eq-ok (wrap (remotes.insert m.remotes new)) _ h1 in
        let (rows, same) = laws.insert-rows m.remotes new stored.0 stored.1 (wrap-eq-ok _ got) in
        let v : valid stored.1 ≡ true =
          ap valid same ∙ (apply_remote-valid urls _ input new applied).0 in
        subst IsOrderly (ground arith) (
          on_rows m stored.0 h (
            subst AllValid (sym rows) (
              All-append (λ r. valid r ≡ true) (remotes.rows m.remotes) (stored.1 ∷ []) h.rows
                (v, tt))))
    perform-IsOrderly m (updates id input) r m' h done_so =
        let (old, got, h1) = >>=-eq-ok (get remotes by_name urls m id) _ done_so in
        let (new, applied, h2) = >>=-eq-ok (apply_remote urls old input) _ h1 in
        let (v, _) = apply_remote-valid urls old input new applied in
        let (stored, written, h3) =
          >>=-eq-ok
            (wrap (
              remotes.update m.remotes (remote_by_id new.id)
                (write_settings remotes by_name urls new)))
            _ h2 in
        let (rows, _) = laws.update-rows m.remotes _ _ stored.0 stored.1 (wrap-eq-ok _ written) in
        subst IsOrderly (ground arith) (
          on_rows m stored.0 h (
            subst AllValid (sym rows) (
              All-map_if (λ r. valid r ≡ true) (remote_by_id new.id)
                (write_settings remotes by_name urls new) (remotes.rows m.remotes)
                (λ x old_valid. v) h.rows)))
    perform-IsOrderly m (deletes id) r m' h done_so =
        let (old, got, h1) = >>=-eq-ok (get remotes by_name urls m id) _ done_so in
        let (deletion, ended, h2) =
          >>=-eq-ok (wrap (remotes.delete m.remotes (remote_by_id id))) _ h1 in
        let (rows, _) = laws.delete-rows m.remotes _ deletion.0 deletion.1 (wrap-eq-ok _ ended) in
        let x = on_rows m deletion.0 h (
          subst AllValid (sym rows) (
            All-keep_if (λ r. valid r ≡ true) (λ r. not (remote_by_id id r))
              (remotes.rows m.remotes) h.rows)) in
        subst IsOrderly
          (deleted-eq remotes by_name urls laws order old id (record m { remotes = deletion.0 })
            deletion.1 h2)
          (record { distinct = x.distinct; workers = x.workers; rows = x.rows })

    trigger-IsOrderly :
        (m : Manager T) (id : Uuid) (now : Time) (m' : Manager T)
        → IsOrderly m
        → trigger remotes by_name urls m id now ≡ ok m'
        → IsOrderly m'
    unfolding trigger triggered requested request_sync
    trigger-IsOrderly m id now m' h done_so = elim (Option-cases (lookup id m.workers)) [
      | inl e ↦
          let absent : triggered remotes by_name urls m id now none ≡ ok m' = ground arith in
          let (r, _, bad) = >>=-eq-ok (get remotes by_name urls m id) _ absent in absurd (cc)
      | inr (w, e) ↦
          let found : triggered remotes by_name urls m id now (some w) ≡ ok m' = ground arith in
          let own = Entries-lookup Own id m.workers h.workers e in
          let same : requested remotes by_name urls m id w now (request_sync w.pending) ≡ m' =
            ground arith in
          subst IsOrderly same (record {
            distinct = Distinct-assign id (record w { pending = true }) m.workers h.distinct;
            workers = (own, Entries-erase Own id m.workers h.workers);
            rows = h.rows;
          })
    ]

    write_status-valid :
        (failure : Option Text) (now : Time) (r : SyncRemote)
        → valid r ≡ true
        → valid (write_status remotes by_name urls failure now r) ≡ true
    unfolding write_status valid
    write_status-valid none now r v = v
    write_status-valid (some message) now r v = v

    set_status-IsOrderly :
        (m : Manager T) (id : Uuid) (failure : Option Text) (now : Time)
        → IsOrderly m
        → IsOrderly (set_status remotes by_name urls m id failure now)
    unfolding set_status
    set_status-IsOrderly m id failure now h =
        elim (Result-cases (
          wrap (
            remotes.update m.remotes (remote_by_id id)
              (write_status remotes by_name urls failure now)))) [
                | inr (e, bad) ↦ rw bad h
                | inl ((t, n), good) ↦
                    let (rows, _) = laws.update-rows m.remotes _ _ t n (wrap-eq-ok _ good) in
                    rw good (record {
                      distinct = h.distinct;
                      workers = h.workers;
                      rows = subst AllValid (sym rows) (
                          All-map_if (λ r. valid r ≡ true) (remote_by_id id)
                            (write_status remotes by_name urls failure now) (remotes.rows m.remotes)
                            (write_status-valid failure now) h.rows);
                    })
              ]

    call-IsOrderly : (m : Manager T) (c : Call) → IsOrderly m → IsOrderly (call m c)
    unfolding call stop_all
    call-IsOrderly m (changes c) h = elim (Result-cases (perform remotes by_name urls m c)) [
      | inr (e, bad) ↦ rw bad h
      | inl ((r, m'), good) ↦ rw good (perform-IsOrderly m c r m' h good)
    ]
    call-IsOrderly m (triggers id now) h =
        elim (Result-cases (trigger remotes by_name urls m id now)) [
          | inr (e, bad) ↦ rw bad h
          | inl (m', good) ↦ rw good (trigger-IsOrderly m id now m' h good)
        ]
    call-IsOrderly m ticks h = reconcile-IsOrderly m h
    call-IsOrderly m (passes id failure now) h = set_status-IsOrderly m id failure now h
    call-IsOrderly m stops h = record { distinct = tt; workers = tt; rows = h.rows }

    -- Over lawful tables, if each ID has at most one worker, which is for a remote of that ID, and
    -- the workers and rows have settings that applyRemote accepts (a trimmed name of 1 to 64
    -- characters, an interval from 10 to 86400 seconds), this stays so over any sequence of calls
    -- of the manager, whichever of them fail.
    pub run-IsOrderly : (m : Manager T) (cs : List Call) → IsOrderly m → IsOrderly (run m cs)
    unfolding run
    run-IsOrderly m [] h = h
    run-IsOrderly m (c ∷ cs) h = run-IsOrderly (call m c) cs (call-IsOrderly m c h)
