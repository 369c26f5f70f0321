-- ===== src/Server/Login/Throttling.antt =====
-- The throttle on sign-ins.
use mathlib.Core.Path.{subst}
use unit_management.Base.{
  ℕ, zero, suc, ◌+◌, ◌≡◌, ◌≤◌, ◌<◌, refl, sym, Bool, true, false, ◌||◌, Option, some, List, [],
  arith, ltb, if◌then◌else◌, count_if,
}
use unit_management.Text.{Text, is_empty}
use unit_management.Database.{Table}
use unit_management.Models.{Time, User, Session}
use unit_management.Auth.{Crypto}
use unit_management.Server.RateLimit.{
  new_failure_limiter, login_failures_per_user, login_failure_window, retry_after,
}
use unit_management.Server.RateLimit.Spec.{
  Call, run, failures_since, InOrder, clock_at_end, retry_after-counts,
}
use unit_management.Server.Login.{
  State, LoginRequest, bad_request, too_many, user_key, handle_login,
}

waits : (n m limit : ℕ) → limit ≤ m → (n ≡ 0 → m < limit) → ltb 0 n ≡ true
waits zero m limit le h = absurd (let less = h refl in omega arith)
waits (suc n) m limit le h = ground arith

either_blocks :
    {R : Type 0} (a b c : Bool) (x y z : R)
    → a ≡ false
    → c ≡ true
    → (if a then x else if b || c then y else z) ≡ y
either_blocks a b c x y z ha hc = ground arith

module _ {T S A : Type 0} (users : Table T User) (sessions : Table S Session) (crypto : Crypto)
    (parse_ip : Text → Option A) (ip_text : A → Text) where
  -- If the limiter of usernames has seen calls on a clock that does not go back, and at least ten
  -- failures under a request's username since its last reset lie within the last 15 minutes, a
  -- sign-in under it with a username and a password, from any address, is refused with 429 and
  -- changes nothing.
  pub handle_login-blocked :
      (s : State T S) (remote_addr : Text) (req : LoginRequest) (session_id : Option Text) (ttl : ℕ)
      (now : Time) (cs : List Call) (clock : Time)
      → s.by_user ≡ run (new_failure_limiter login_failures_per_user login_failure_window) cs
      → InOrder clock cs
      → clock_at_end clock cs ≤ now
      → login_failures_per_user
        ≤ count_if
            (λ t. ltb now (t + login_failure_window))
            (failures_since (λ _. []) cs (user_key req.username))
      → is_empty req.username ≡ false
      → is_empty req.password ≡ false
      → handle_login users sessions crypto parse_ip ip_text s remote_addr
          (some req)
          session_id
          ttl
          now
        ≡ (too_many, s)
  unfolding handle_login
  handle_login-blocked s remote_addr req session_id ttl now cs clock same order at_end many named
        given =
      let wait : ltb 0 (retry_after s.by_user (user_key req.username) now now) ≡ true =
        waits _ _ login_failures_per_user many (
          subst
            (λ l.
              retry_after l (user_key req.username) now now ≡ 0
              → count_if (λ t. ltb now (t + login_failure_window))
                  (failures_since (λ _. []) cs (user_key req.username))
                < login_failures_per_user)
            (sym same)
            (retry_after-counts login_failures_per_user login_failure_window cs clock now
              (user_key req.username) (ground arith) (ground arith) order at_end).0) in
      either_blocks (is_empty req.username || is_empty req.password) _ _ (bad_request, s)
        (too_many, s) _ (ground arith) wait
