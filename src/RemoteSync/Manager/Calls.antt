-- ===== src/RemoteSync/Manager/Calls.antt =====
-- The manager's calls over lawful tables: the workers follow the enabled remotes.
use mathlib.Core.Path.{subst}
use unit_management.Base.{
  ◌≤◌, ◌≢◌, ◌≡◌, refl, sym, ◌∙◌, ap, true, not, none, List, [], ◌∷◌, arith, find?, keep_if,
  count_if, Result, ok, err, ◌>>=◌, >>=-eq-ok,
}
use unit_management.Base.Assoc.{lookup, Distinct}
use unit_management.Database.{Answer, done, duplicate, failed, Table, IsTable, IsOrder}
use unit_management.Text.Url.{UrlCodec}
use unit_management.Models.{Uuid, SyncRemote}
use unit_management.RemoteSync.Logs.{logs, forget}
use unit_management.RemoteSync.Manager.{
  RemoteError, RemoteInput, Manager, wrap, remote_by_id, list, get, reconciled, reconcile, create,
  update, delete, deleted, forgotten, apply_remote,
}
use unit_management.RemoteSync.Manager.Reconcile.{
  wanted, UniqueIds, settled, lookup-reconcile_workers,
}

pub wrap-eq-ok : {A : Type 0} (a : Answer A) {x : A} → wrap a ≡ ok x → a ≡ done x
wrap-eq-ok (done x) h = ground arith
wrap-eq-ok duplicate h = cc
wrap-eq-ok failed h = cc

-- INSERT stores the remote as it is given.
abbrev pub KeptRemote : SyncRemote → SyncRemote → Type 0
KeptRemote r r' = r' ≡ r

keep_if_all : (rs : List SyncRemote) → keep_if (λ r. true) rs ≡ rs
keep_if_all [] = refl
keep_if_all (r ∷ rs) = ap (◌∷◌ r) (keep_if_all rs)

count_if-wanted-le :
    (id : Uuid) (rs : List SyncRemote) → count_if (wanted id) rs ≤ count_if (remote_by_id id) rs
count_if-wanted-le id [] = omega arith
count_if-wanted-le id (r ∷ rs) = ground (arith, count_if-wanted-le id rs)

module _ {T : Type 0} (remotes : Table T SyncRemote) where
  -- What a call leaves running: under each ID what the reference gives from the rows that the call
  -- leaves and the worker before.
  unfoldable pub Settles : Manager T → Manager T → Type 0
  Settles m m' =
      (id : Uuid)
      → lookup id m'.workers
        ≡ settled (find? (wanted id) (remotes.rows m'.remotes)) (lookup id m.workers)

module _ {T : Type 0} (remotes : Table T SyncRemote) (by_name : List SyncRemote → List SyncRemote)
    (urls : UrlCodec) (laws : IsTable KeptRemote remotes) (order : IsOrder by_name) where
  pub list-rows :
      (m : Manager T) {rs : List SyncRemote}
      → list remotes by_name urls m ≡ ok rs
      → rs ≡ by_name (remotes.rows m.remotes)
  unfolding list
  list-rows m {rs} h =
      let (rows, got, e) = >>=-eq-ok (wrap (remotes.select m.remotes (λ r. true))) _ h in
      let same = laws.select-rows m.remotes (λ r. true) rows (wrap-eq-ok _ got) in
      let listed : rs ≡ by_name rows = ground arith in
      listed ∙ ap by_name (same ∙ keep_if_all (remotes.rows m.remotes))

  -- A reconciliation that can list the remotes settles every worker by its remote's row.
  pub lookup-reconcile :
      (m : Manager T) (rs : List SyncRemote)
      → list remotes by_name urls m ≡ ok rs
      → Distinct m.workers
      → UniqueIds (remotes.rows m.remotes)
      → (id : Uuid)
      → lookup id (reconcile remotes by_name urls m).0.workers
        ≡ settled (find? (wanted id) (remotes.rows m.remotes)) (lookup id m.workers)
  unfolding reconcile reconciled
  lookup-reconcile m rs listed d unique id =
      let rows = list-rows m listed in
      let unique' : UniqueIds rs = λ q.
        ground (arith, rows, unique q, order.counts (remote_by_id q) (remotes.rows m.remotes)) in
      let found : find? (wanted id) rs ≡ find? (wanted id) (remotes.rows m.remotes) =
        ap (find? (wanted id)) rows
        ∙ order.alone (wanted id) (remotes.rows m.remotes)
            (omega (arith, count_if-wanted-le id (remotes.rows m.remotes), unique id)) in
      rw listed (lookup-reconcile_workers rs m.workers d unique' id)
      ∙ ap (λ o. settled o (lookup id m.workers)) found

  pub reconcile-logs :
      (m : Manager T)
      → ((reconcile remotes by_name urls m).0.logs ≡ m.logs)
        × ((reconcile remotes by_name urls m).0.remotes ≡ m.remotes)
  unfolding reconcile reconciled
  reconcile-logs m = by_cases (list remotes by_name urls m)
    where
      by_cases :
          (r : Result RemoteError (List SyncRemote))
          → ((reconciled remotes by_name urls m r).0.logs ≡ m.logs)
            × ((reconciled remotes by_name urls m r).0.remotes ≡ m.remotes)
      by_cases (err e) = (refl, refl)
      by_cases (ok rs) = (refl, refl)

  reconcile-Settles :
      (m m' : Manager T) (rs : List SyncRemote)
      → m'.workers ≡ (reconcile remotes by_name urls m).0.workers
      → m'.remotes ≡ m.remotes
      → list remotes by_name urls m' ≡ ok rs
      → Distinct m.workers
      → UniqueIds (remotes.rows m'.remotes)
      → Settles remotes m m'
  unfolding Settles list
  reconcile-Settles m m' rs workers t listed d unique id =
      let listed' : list remotes by_name urls m ≡ ok rs =
        ap (λ t. do rows ← wrap (remotes.select t (λ r. true)); ok (by_name rows)) (sym t)
        ∙ listed in
      ap (lookup id) workers
      ∙ lookup-reconcile m rs listed' d (subst (λ t. UniqueIds (remotes.rows t)) t unique) id
      ∙ ap (λ t. settled (find? (wanted id) (remotes.rows t)) (lookup id m.workers)) (sym t)

-- The administrators' changes.
pub data Change : Type 0 where
  creates : Uuid → RemoteInput → Change
  updates : Uuid → RemoteInput → Change
  deletes : Uuid → Change

module _ {T : Type 0} (remotes : Table T SyncRemote) (by_name : List SyncRemote → List SyncRemote)
    (urls : UrlCodec) where
  unfoldable pub perform : Manager T → Change → Result RemoteError (SyncRemote × Manager T)
  perform m (creates id input) = create remotes by_name urls m id input
  perform m (updates id input) = update remotes by_name urls m id input
  perform m (deletes id) = delete remotes by_name urls m id

module _ {T : Type 0} (remotes : Table T SyncRemote) (by_name : List SyncRemote → List SyncRemote)
    (urls : UrlCodec) (laws : IsTable KeptRemote remotes) (order : IsOrder by_name) where
  pub deleted-eq :
      (r : SyncRemote) (id : Uuid) (m : Manager T) (gone : List SyncRemote) {r' : SyncRemote}
      {m' : Manager T}
      → deleted remotes by_name urls r id m gone ≡ ok (r', m')
      → forgotten remotes by_name urls (reconcile remotes by_name urls m).0 id ≡ m'
  unfolding deleted
  deleted-eq r id m [] h = cc
  deleted-eq r id m (row ∷ gone) h = ground arith

  after_reconcile :
      (m m' : Manager T) (rs : List SyncRemote)
      → (reconcile remotes by_name urls m).0 ≡ m'
      → list remotes by_name urls m' ≡ ok rs
      → Distinct m.workers
      → UniqueIds (remotes.rows m'.remotes)
      → Settles remotes m m'
  after_reconcile m m' rs same =
      reconcile-Settles remotes by_name urls laws order m m' rs
        (ap (λ (x : Manager T). x.workers) (sym same))
        (ap (λ (x : Manager T). x.remotes) (sym same)
          ∙ (reconcile-logs remotes by_name urls laws order m).1)

  -- Over lawful tables, after a change of the remotes that succeeds, if the remotes it leaves can
  -- be listed, no two workers had one key and no two rows have one ID, each ID has the worker that
  -- the reference gives from its row and its worker before: none without a row or a sync that is
  -- enabled, the one before under the row's name if URL and interval are the same, and else a new
  -- one.
  pub perform-Settles :
      (m : Manager T) (c : Change) (r : SyncRemote) (m' : Manager T) (rs : List SyncRemote)
      → perform remotes by_name urls m c ≡ ok (r, m')
      → list remotes by_name urls m' ≡ ok rs
      → Distinct m.workers
      → UniqueIds (remotes.rows m'.remotes)
      → Settles remotes m m'
  unfolding perform create update delete Settles forgotten
  perform-Settles m (creates id input) r m' rs h listed d unique =
      let (new, _, h1) = >>=-eq-ok (apply_remote urls _ input) _ h in
      let (stored, _, h2) = >>=-eq-ok (wrap (remotes.insert m.remotes new)) _ h1 in
      after_reconcile (record m { remotes = stored.0 }) m' rs (ground arith) listed d unique
  perform-Settles m (updates id input) r m' rs h listed d unique =
      let (old, _, h1) = >>=-eq-ok (get remotes by_name urls m id) _ h in
      let (new, _, h2) = >>=-eq-ok (apply_remote urls old input) _ h1 in
      let (stored, _, h3) = >>=-eq-ok (wrap (remotes.update m.remotes _ _)) _ h2 in
      after_reconcile (record m { remotes = stored.0 }) m' rs (ground arith) listed d unique
  perform-Settles m (deletes id) r m' rs h listed d unique =
      let (old, _, h1) = >>=-eq-ok (get remotes by_name urls m id) _ h in
      let (deletion, _, h2) = >>=-eq-ok (wrap (remotes.delete m.remotes (remote_by_id id))) _ h1 in
      let x : Manager T = record m { remotes = deletion.0 } in
      let same = deleted-eq old id x deletion.1 h2 in
      reconcile-Settles remotes by_name urls laws order x m' rs
        (ap (λ (y : Manager T). y.workers) (sym same))
        (ap (λ (y : Manager T). y.remotes) (sym same)
          ∙ (reconcile-logs remotes by_name urls laws order x).1)
        listed d unique

  find?-wanted_gone :
      (id : Uuid) (rs : List SyncRemote)
      → find? (wanted id) (keep_if (λ r. not (remote_by_id id r)) rs) ≡ none
  find?-wanted_gone id [] = refl
  find?-wanted_gone id (r ∷ rs) = ground (arith, find?-wanted_gone id rs)

  -- Over lawful tables, after a deletion that succeeds and whose remotes can be listed, no worker
  -- runs under the ID, its log is empty, and the logs of the others are as before.
  pub delete_ends :
      (m : Manager T) (id : Uuid) (r : SyncRemote) (m' : Manager T) (rs : List SyncRemote)
      → delete remotes by_name urls m id ≡ ok (r, m')
      → list remotes by_name urls m' ≡ ok rs
      → Distinct m.workers
      → UniqueIds (remotes.rows m'.remotes)
      → (lookup id m'.workers ≡ none)
        × (logs m'.logs id ≡ [])
        × ((q : Uuid) → q ≢ id → logs m'.logs q ≡ logs m.logs q)
  unfolding delete perform Settles forgotten logs forget settled
  delete_ends m id r m' rs h listed d unique =
      let (old, _, h1) = >>=-eq-ok (get remotes by_name urls m id) _ h in
      let (deletion, got, h2) =
        >>=-eq-ok (wrap (remotes.delete m.remotes (remote_by_id id))) _ h1 in
      let x : Manager T = record m { remotes = deletion.0 } in
      let same = deleted-eq old id x deletion.1 h2 in
      let (same_logs, same_rows) = reconcile-logs remotes by_name urls laws order x in
      let rows : remotes.rows m'.remotes
          ≡ keep_if (λ r. not (remote_by_id id r)) (remotes.rows m.remotes) =
        ap (λ (y : Manager T). remotes.rows y.remotes) (sym same)
        ∙ ap remotes.rows same_rows
        ∙ (laws.delete-rows m.remotes (remote_by_id id) deletion.0 deletion.1
            (wrap-eq-ok _ got)).0 in
      (
        perform-Settles m (deletes id) r m' rs h listed d unique id
            ∙ ap (λ rows. settled (find? (wanted id) rows) (lookup id m.workers)) rows
            ∙ ap (λ o. settled o (lookup id m.workers))
                (find?-wanted_gone id (remotes.rows m.remotes)),
        ap (λ (y : Manager T). y.logs id) (sym same) ∙ ground arith,
        λ q other.
            ap (λ (y : Manager T). y.logs q) (sym same) ∙ ground (arith, ap (λ l. l q) same_logs),
      )
