-- ===== src/RemoteSync/Logs/Bound.antt =====
-- How many lines the log of a remote holds, and which.
use unit_management.Base.{
  ◌≤◌, ◌≡◌, refl, sym, ap, ◌∙◌, List, [], ◌∷◌, ◌++◌, ◌==◌, if◌then◌else◌, length, last_n,
  last_n-last_n-append, length-last_n-le, slice-eq-last_n, Bool-cases, inl, inr, ==_iff,
}
use unit_management.Models.{Uuid, Time}
use unit_management.RemoteSync.Logs.{
  LogStore, LogEntry, Level, new_log_store, log, logs, forget, max_log_entries, bounded,
}

-- The calls of a log store.
pub data Call : Type 0 where
  logged : Uuid → Level → Time → Call
  forgotten : Uuid → Call

unfoldable pub run : LogStore → List Call → LogStore
run s [] = s
run s (logged remote level now ∷ cs) = run (log s remote level now) cs
run s (forgotten remote ∷ cs) = run (forget s remote) cs

-- All lines of a remote since it was last forgotten, given those before.
pub lines_since : Uuid → List LogEntry → List Call → List LogEntry
lines_since r es [] = es
lines_since r es (logged remote level now ∷ cs) =
    lines_since r (if r == remote then es ++ record { time = now; level = level } ∷ [] else es) cs
lines_since r es (forgotten remote ∷ cs) = lines_since r (if r == remote then [] else es) cs

-- A store that keeps the last lines of each remote.
Keeps : LogStore → (Uuid → List LogEntry) → Type 0
Keeps s h = (r : Uuid) → s r ≡ last_n max_log_entries (h r)

log-Keeps :
    (s : LogStore) (h : Uuid → List LogEntry) (remote : Uuid) (level : Level) (now : Time)
    → Keeps s h
    → Keeps
        (log s remote level now)
        (λ r. if r == remote then h r ++ record { time = now; level = level } ∷ [] else h r)
unfolding Keeps log
log-Keeps s h remote level now k r = elim (Bool-cases (r == remote)) [
  | inl hit ↦ rw hit (
      ap (λ j. bounded (s j ++ record { time = now; level = level } ∷ []))
        (sym ((==_iff r remote).0 hit))
      ∙ (slice-eq-last_n max_log_entries (s r ++ record { time = now; level = level } ∷ [])
          ∙ (ap (λ es. last_n max_log_entries (es ++ record { time = now; level = level } ∷ []))
                (k r)
              ∙ last_n-last_n-append max_log_entries (h r) (record { time = now; level = level }))))
  | inr miss ↦ rw miss (k r)
]

forget-Keeps :
    (s : LogStore) (h : Uuid → List LogEntry) (remote : Uuid)
    → Keeps s h
    → Keeps (forget s remote) (λ r. if r == remote then [] else h r)
unfolding Keeps forget last_n
forget-Keeps s h remote k r = elim (Bool-cases (r == remote)) [
  | inl hit ↦ rw hit refl
  | inr miss ↦ rw miss (k r)
]

run-Keeps :
    (s : LogStore) (h : Uuid → List LogEntry) (cs : List Call)
    → Keeps s h
    → (r : Uuid) → run s cs r ≡ last_n max_log_entries (lines_since r (h r) cs)
unfolding run lines_since Keeps
run-Keeps s h [] k r = k r
run-Keeps s h (logged remote level now ∷ cs) k r =
    run-Keeps (log s remote level now) _ cs (log-Keeps s h remote level now k) r
run-Keeps s h (forgotten remote ∷ cs) k r =
    run-Keeps (forget s remote) _ cs (forget-Keeps s h remote k) r

none_kept : Keeps (λ _. []) (λ _. [])
unfolding Keeps last_n
none_kept r = refl

-- After any calls, the log of a remote is the last 200 of its lines since it was last forgotten,
-- and so at most 200 lines.
pub logs-last_n :
    (cs : List Call) (remote : Uuid)
    → (logs (run new_log_store cs) remote ≡ last_n 200 (lines_since remote [] cs))
      × (length (logs (run new_log_store cs) remote) ≤ 200)
unfolding logs new_log_store
logs-last_n cs remote =
    let same : run (λ _. []) cs remote ≡ last_n 200 (lines_since remote [] cs) =
      run-Keeps (λ _. []) (λ _. []) cs none_kept remote in
    (same, rw same (length-last_n-le 200 (lines_since remote [] cs)))
