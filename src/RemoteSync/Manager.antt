-- ===== src/RemoteSync/Manager.antt =====
-- internal/remotesync/manager.go: the sync remotes and their workers, one per enabled remote. The map
-- of the workers is a list of entries; a worker is its configuration and the fill of its trigger
-- channel. The list of workers that a call stops and starts is part of what it answers.
pub mod Reconcile
pub mod Settled
pub mod Calls
pub mod Validity
pub mod Invariant
use unit_management.Base.{
  ℕ, ◌*◌, Bool, true, false, not, ◌&&◌, ◌||◌, Option, none, some, List, [], ◌∷◌, ltb, ◌==◌,
  if◌then◌else◌, is_some, Result, ok, err, ◌>>=◌, or_err,
}
use unit_management.Base.Assoc.{Assoc, lookup, assign}
use unit_management.Text.{Text, text_eq, is_empty, trim_space, rune_count}
use unit_management.Text.Url.{Url, UrlCodec, http, https}
use unit_management.Database.{Answer, done, duplicate, failed, Table, first}
use unit_management.Models.{Uuid, Time, SyncRemote}
use unit_management.RemoteSync.Logs.{LogStore, info, log, forget}
use unit_management.RemoteSync.Worker.{request_sync}

abbrev pub max_name_length : ℕ
max_name_length = 64

abbrev pub min_poll_interval_sec : ℕ
min_poll_interval_sec = 10

abbrev pub max_poll_interval_sec : ℕ
max_poll_interval_sec = 24 * 60 * 60

-- The errors of the manager; a wrapped error of the database is `internal`.
pub data RemoteError : Type 0 where
  not_found not_running invalid_name invalid_base_url invalid_poll_interval internal : RemoteError

pub record RemoteInput : Type 0 where
  pub name : Text
  pub base_url : Text
  pub poll_interval_sec : ℕ
  pub enabled : Bool

abbrev drop_slash : ℕ → Text → Text
drop_slash c [] = if c == b'/' then [] else c ∷ []
drop_slash c (d ∷ s) = c ∷ d ∷ s

-- strings.TrimSuffix(path, "/")
unfoldable pub trim_slash : Text → Text
trim_slash [] = []
trim_slash (c ∷ s) = if is_empty s then drop_slash c [] else c ∷ trim_slash s

unfoldable pub base_url_ok : Url → Bool
base_url_ok u =
    (text_eq u.scheme http || text_eq u.scheme https)
    && not (is_empty u.host)
    && is_empty u.raw_query
    && is_empty u.fragment
    && not (is_some u.user)

module _ (urls : UrlCodec) where
  unfoldable pub normalized_url : Option Url → Result RemoteError Text
  normalized_url none = err invalid_base_url
  normalized_url (some u) =
      if base_url_ok u
      then ok (urls.print (record u { path = trim_slash u.path; raw_path = [] }))
      else err invalid_base_url

  -- normalizeBaseURL
  unfoldable pub normalize_base_url : Text → Result RemoteError Text
  normalize_base_url raw = normalized_url (urls.parse (trim_space raw))

  unfoldable pub checked_interval : RemoteInput → Result RemoteError ℕ
  checked_interval input =
      if ltb input.poll_interval_sec min_poll_interval_sec
        || ltb max_poll_interval_sec input.poll_interval_sec
      then err invalid_poll_interval
      else ok input.poll_interval_sec

  unfoldable pub checked_name : RemoteInput → Result RemoteError Text
  checked_name input =
      let name = trim_space input.name in
      if is_empty name || ltb max_name_length (rune_count name) then err invalid_name else ok name

  -- applyRemote; a poll interval below 0 is refused as 0 is.
  unfoldable pub apply_remote : SyncRemote → RemoteInput → Result RemoteError SyncRemote
  apply_remote r input = do
    name ← checked_name input
    base_url ← normalize_base_url input.base_url
    interval ← checked_interval input
    ok (record r {
      name = name;
      base_url = base_url;
      poll_interval_sec = interval;
      enabled = input.enabled;
    })

-- runningWorker
pub record Running : Type 0 where
  pub remote : SyncRemote
  pub pending : Bool

-- Manager; the reconciliations and the accesses to the map are serialized by its mutexes.
pub record Manager (T : Type 0) : Type 0 where
  pub remotes : T
  pub workers : Assoc Running
  pub logs : LogStore

-- The map `desired`
unfoldable pub desired_from : Assoc SyncRemote → List SyncRemote → Assoc SyncRemote
desired_from m [] = m
desired_from m (r ∷ rs) = desired_from (if r.enabled then assign r.id r m else m) rs

-- A worker that goes on, since the settings of its connection are as before.
unfoldable pub same_connection : SyncRemote → Running → Bool
same_connection r w =
    text_eq r.base_url w.remote.base_url && r.poll_interval_sec == w.remote.poll_interval_sec

unfoldable pub renamed : SyncRemote → Running → Running
renamed r w = record w { remote = record w.remote { name = r.name } }

unfoldable pub goes_on : Option SyncRemote → Running → Option Running
goes_on none w = none
goes_on (some r) w = if same_connection r w then some (renamed r w) else none

abbrev pub Workers : Type 0
Workers = Assoc Running

abbrev keep_or_stop :
    Uuid → Running → Option Running → Workers × List Running → Workers × List Running
keep_or_stop id w none (kept, stopped) = (kept, w ∷ stopped)
keep_or_stop id w (some w') (kept, stopped) = ((id, w') ∷ kept, stopped)

-- The loop over the workers: those that go on, and those that are stopped.
unfoldable pub keep_workers : Assoc SyncRemote → Workers → Workers × List Running
keep_workers desired [] = ([], [])
keep_workers desired ((id, w) ∷ m) =
    keep_or_stop id w (goes_on (lookup id desired) w) (keep_workers desired m)

-- startLocked
unfoldable pub start : SyncRemote → Running
start r = record { remote = r; pending = false }

-- The loop over the desired remotes: the workers, and the remotes that a worker is started for.
unfoldable pub start_missing : Assoc SyncRemote → Workers → Workers × List SyncRemote
start_missing [] m = (m, [])
start_missing ((id, r) ∷ desired) m =
    if is_some (lookup id m)
    then start_missing desired m
    else let (m', started) = start_missing desired (assign r.id (start r) m) in (m', r ∷ started)

-- What a call of reconcile stops and starts, in this order.
pub record Effects : Type 0 where
  pub stopped : List Running
  pub started : List SyncRemote

abbrev pub no_effects : Effects
no_effects = record { stopped = []; started = [] }

unfoldable pub reconcile_workers : List SyncRemote → Workers → Workers × Effects
reconcile_workers rs m =
    let desired = desired_from [] rs in
    let (kept, stopped) = keep_workers desired m in
    let (m', started) = start_missing desired kept in
    (m', record { stopped = stopped; started = started })

abbrev pub wrap : {A : Type 0} → Answer A → Result RemoteError A
wrap (done a) = ok a
wrap duplicate = err internal
wrap failed = err internal

abbrev pub remote_by_id : Uuid → SyncRemote → Bool
remote_by_id id r = r.id == id

-- `by_name` is the database's ORDER BY name.
module _ {T : Type 0} (remotes : Table T SyncRemote) (by_name : List SyncRemote → List SyncRemote)
    (urls : UrlCodec) where
  -- Manager.List
  unfoldable pub list : Manager T → Result RemoteError (List SyncRemote)
  list m = do rows ← wrap (remotes.select m.remotes (λ r. true)); ok (by_name rows)

  -- Manager.Get
  unfoldable pub get : Manager T → Uuid → Result RemoteError SyncRemote
  get m id = do found ← wrap (first remotes m.remotes (remote_by_id id)); or_err found not_found

  unfoldable pub reconciled : Manager T → Result RemoteError (List SyncRemote) → Manager T × Effects
  reconciled m (err e) = (m, no_effects)
  reconciled m (ok rs) =
      let (workers, effects) = reconcile_workers rs m.workers in
      (record m { workers = workers }, effects)

  -- Manager.reconcile
  unfoldable pub reconcile : Manager T → Manager T × Effects
  reconcile m = reconciled m (list m)

  unfoldable pub stop_each : Workers → List Running
  stop_each [] = []
  stop_each ((id, w) ∷ m) = w ∷ stop_each m

  -- Manager.stopAll
  unfoldable pub stop_all : Manager T → Manager T × Effects
  stop_all m = (record m { workers = [] }, record { stopped = stop_each m.workers; started = [] })

  -- Manager.Create, with the ID that uuid.New draws
  unfoldable pub create :
      Manager T → Uuid → RemoteInput → Result RemoteError (SyncRemote × Manager T)
  create m id input = do
    r ←
        apply_remote urls
          (record {
            id = id;
            name = [];
            base_url = [];
            poll_interval_sec = 0;
            enabled = false;
            last_sync_at = none;
            last_sync_status = [];
            last_sync_error = [];
          })
          input
    stored ← wrap (remotes.insert m.remotes r)
    ok (stored.1, (reconcile (record m { remotes = stored.0 })).0)

  -- The columns that Update writes.
  unfoldable pub write_settings : SyncRemote → SyncRemote → SyncRemote
  write_settings r row = record row {
    name = r.name;
    base_url = r.base_url;
    poll_interval_sec = r.poll_interval_sec;
    enabled = r.enabled;
  }

  -- Manager.Update
  unfoldable pub update :
      Manager T → Uuid → RemoteInput → Result RemoteError (SyncRemote × Manager T)
  update m id input = do
    old ← get m id
    r ← apply_remote urls old input
    stored ← wrap (remotes.update m.remotes (remote_by_id r.id) (write_settings r))
    ok (r, (reconcile (record m { remotes = stored.0 })).0)

  unfoldable pub forgotten : Manager T → Uuid → Manager T
  forgotten m id = record m { logs = forget m.logs id }

  unfoldable pub deleted :
      SyncRemote → Uuid → Manager T → List SyncRemote → Result RemoteError (SyncRemote × Manager T)
  deleted r id m [] = err not_found
  deleted r id m (row ∷ gone) = ok (r, forgotten (reconcile m).0 id)

  -- Manager.Delete
  unfoldable pub delete : Manager T → Uuid → Result RemoteError (SyncRemote × Manager T)
  delete m id = do
    r ← get m id
    deletion ← wrap (remotes.delete m.remotes (remote_by_id id))
    deleted r id (record m { remotes = deletion.0 }) deletion.1

  unfoldable pub requested : Manager T → Uuid → Running → Time → Bool × Bool → Manager T
  requested m id w now (queued, pending) = record m {
    workers = assign id (record w { pending = pending }) m.workers;
    logs = if queued then log m.logs id info now else m.logs;
  }

  unfoldable pub triggered :
      Manager T → Uuid → Time → Option Running → Result RemoteError (Manager T)
  triggered m id now none = do r ← get m id; err not_running
  triggered m id now (some w) = ok (requested m id w now (request_sync w.pending))

  -- Manager.Trigger
  unfoldable pub trigger : Manager T → Uuid → Time → Result RemoteError (Manager T)
  trigger m id now = triggered m id now (lookup id m.workers)

  abbrev kept_status : Manager T → Result RemoteError (T × ℕ) → Manager T
  kept_status m (err e) = m
  kept_status m (ok (t, n)) = record m { remotes = t }

  unfoldable pub write_status : Option Text → Time → SyncRemote → SyncRemote
  write_status none now r = record r {
    last_sync_at = some now;
    last_sync_status = b'o' ∷ b'k' ∷ [];
    last_sync_error = [];
  }
  write_status (some message) now r = record r {
    last_sync_at = some now;
    last_sync_status = b'e' ∷ b'r' ∷ b'r' ∷ b'o' ∷ b'r' ∷ [];
    last_sync_error = message;
  }

  -- Manager.setStatus, with the message of the error
  unfoldable pub set_status : Manager T → Uuid → Option Text → Time → Manager T
  set_status m id failure now =
      kept_status m (wrap (remotes.update m.remotes (remote_by_id id) (write_status failure now)))
