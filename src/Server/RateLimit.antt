-- ===== src/Server/RateLimit.antt =====
-- internal/server/ratelimit.go: the failure limiter that throttles sign-ins. The clock is an argument
-- of each call. A Go map is the list of its keys with the function that reads it, which answers the
-- empty list at a missing key.
pub mod Window
pub mod Spec
use unit_management.Base.{
  ℕ, zero, suc, ◌+◌, ◌-◌, ◌*◌, Bool, true, false, not, ◌&&◌, ◌||◌, List, [], ◌∷◌, ◌++◌, ltb, leb,
  if◌then◌else◌, length, drop, any, keep_if,
}
use unit_management.Text.{Text, text_eq}
use unit_management.Models.{Time, minute}

abbrev pub login_failures_per_ip : ℕ
login_failures_per_ip = 10

abbrev pub login_failures_per_user : ℕ
login_failures_per_user = 10

abbrev pub login_failure_window : ℕ
login_failure_window = 15 * minute

abbrev pub failure_limiter_prune_size : ℕ
failure_limiter_prune_size = 4096

pub record FailureMap : Type 0 where
  pub keys : List Text
  pub times : Text → List Time

pub record FailureLimiter : Type 0 where
  pub limit : ℕ
  pub window : ℕ
  pub failures : FailureMap

-- newFailureLimiter
unfoldable pub new_failure_limiter : ℕ → ℕ → FailureLimiter
new_failure_limiter limit window = record {
  limit = limit;
  window = window;
  failures = record { keys = []; times = λ _. [] };
}

abbrev pub is_nil {ℓ} : {A : Type ℓ} → List A → Bool
is_nil [] = true
is_nil (x ∷ xs) = false

-- The loop of `recent`: the failures from the first one on that is still within the window.
unfoldable pub recent_times : ℕ → Time → List Time → List Time
recent_times window now [] = []
recent_times window now (t ∷ ts) =
    if ltb now (t + window) then t ∷ ts else recent_times window now ts

unfoldable pub recent : FailureLimiter → Text → Time → List Time
recent l key now = recent_times l.window now (l.failures.times key)

abbrev pub wait : ℕ → ℕ → List Time → Time → ℕ
wait limit window [] later = 0
wait limit window (t ∷ ts) later = if ltb (length (t ∷ ts)) limit then 0 else t + window - later

-- retryAfter, with the two readings of its clock. A negative duration, which the source returns if
-- the window ends between them, is 0 here: the caller asks only whether it is positive. At a limit
-- of 0, which no limiter has, the source would fail.
unfoldable pub retry_after : FailureLimiter → Text → Time → Time → ℕ
unfolding recent
retry_after l key now later = wait l.limit l.window (recent l key now) later

abbrev add_key : Text → List Text → List Text
add_key key keys = if any (text_eq key) keys then keys else key ∷ keys

-- m[key] = ts
unfoldable pub assign : Text → List Time → FailureMap → FailureMap
assign key ts m = record {
  keys = add_key key m.keys;
  times = λ k. if text_eq key k then ts else m.times k;
}

-- delete(m, key)
unfoldable pub erase : Text → FailureMap → FailureMap
erase key m = record {
  keys = keep_if (λ k. not (text_eq key k)) m.keys;
  times = λ k. if text_eq key k then [] else m.times k;
}

-- The sweep over all keys, which drops those without a recent failure.
unfoldable pub sweep : ℕ → Time → FailureMap → FailureMap
sweep window now m = record {
  keys = keep_if (λ k. not (is_nil (recent_times window now (m.times k)))) m.keys;
  times = λ k.
      if any (text_eq k) m.keys && is_nil (recent_times window now (m.times k))
      then []
      else m.times k;
}

-- times[len(times)-limit:], where there are more than the limit
unfoldable pub latest : ℕ → List Time → List Time
latest limit ts = if ltb limit (length ts) then drop (length ts - limit) ts else ts

unfoldable pub fail : FailureLimiter → Text → Time → FailureLimiter
unfolding sweep assign
fail l key now =
    let swept =
      if leb failure_limiter_prune_size (length l.failures.keys)
      then sweep l.window now l.failures
      else l.failures in
    record l {
      failures =
          assign key (latest l.limit (recent_times l.window now (swept.times key) ++ now ∷ []))
            swept;
    }

unfoldable pub reset : FailureLimiter → Text → FailureLimiter
unfolding erase
reset l key = record l { failures = erase key l.failures }
