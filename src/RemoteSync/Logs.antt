-- ===== src/RemoteSync/Logs.antt =====
-- internal/remotesync/logs.go: the recent log lines of each remote. The map is the function that reads
-- it, which answers no lines at a missing key; the text of a line is left out, its level is kept.
pub mod Bound
use unit_management.Base.{
  ℕ, ◌-◌, ◌+◌, Bool, List, [], ◌∷◌, ◌++◌, ltb, ◌==◌, if◌then◌else◌, length, drop,
}
use unit_management.Models.{Uuid, Time}

abbrev pub max_log_entries : ℕ
max_log_entries = 200

pub data Level : Type 0 where
  info error : Level

pub record LogEntry : Type 0 where
  pub time : Time
  pub level : Level

abbrev pub LogStore : Type 0
LogStore = Uuid → List LogEntry

-- newLogStore
unfoldable pub new_log_store : LogStore
new_log_store = λ _. []

abbrev pub bounded : List LogEntry → List LogEntry
bounded entries =
    if ltb max_log_entries (length entries)
    then drop (length entries - max_log_entries) entries
    else entries

-- logStore.record, at the time that its clock reads
unfoldable pub log : LogStore → Uuid → Level → Time → LogStore
log s remote level now =
    let entries = bounded (s remote ++ record { time = now; level = level } ∷ []) in
    λ r. if r == remote then entries else s r

-- logStore.logs
unfoldable pub logs : LogStore → Uuid → List LogEntry
logs s remote = s remote

-- logStore.forget
unfoldable pub forget : LogStore → Uuid → LogStore
forget s remote = λ r. if r == remote then [] else s r
