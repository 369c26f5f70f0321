-- ===== src/Examples/Requests.antt =====
-- Requests: the limiter, the sign-in, the accounts' administration, proxies and units.
use unit_management.Base.{
  ℕ, ◌+◌, ◌≡◌, ◌≤◌, ◌<◌, ◌⊎◌, ◌↔◌, refl, false, Option, none, some, List, [], ◌∷◌, arith, ltb, ◌==◌,
  count_if, ok,
}
use unit_management.Text.{Text, text_eq, trim_space}
use unit_management.Models.{User, UnitRow, UnitPosition, Session, zero_time}
use unit_management.Server.RateLimit.{
  new_failure_limiter, login_failures_per_user, login_failures_per_ip, login_failure_window,
  retry_after,
}
use unit_management.Server.RateLimit.Spec.{failures_since, retry_after-counts, note}
use unit_management.Server.RateLimit.Spec
use unit_management.Server.Login.{
  LoginRequest, Response, too_many, handle_login, user_key, truncated,
}
use unit_management.Server.Login
use unit_management.Server.Login.Throttling.{handle_login-blocked}
use unit_management.Server.Accounts
use unit_management.Server.Accounts.LastAdmin.{IsAdmin, run-IsAdmin}
use unit_management.Server.Accounts.LastAdmin
use unit_management.Server.Proxy.{walk}
use unit_management.Server.Proxy.Trust.{Walked, walk-Walked}
use unit_management.Server.UnitHandlers
use unit_management.Server.UnitHandlers.{
  Param, given, not_given, parse_history_query, query_limit, query_time, query_to,
  handle_patch_unit, refused, with_unit, absent,
}
use unit_management.Server.UnitHandlers.Requests.{
  parse_history_query-bounds, handle_patch_unit-empty,
}
use unit_management.Examples.Units.{
  unit_table, position_table, unit_table-IsTable, unit_named, admin, start, start-AllValid,
}
use unit_management.Examples.Accounts.{
  user_table, session_table, toy, user_table-IsTable, session_table-IsTable, alice, accounts,
  password,
}

abbrev key : Text
key = b'k' ∷ []

abbrev failure_calls : List Spec.Call
failure_calls = Spec.fails key 10 ∷ Spec.fails key 20 ∷ []

retry_after-counts_example :
    (retry_after (Spec.run (new_failure_limiter 2 15) failure_calls) key 26 26 ≡ 0)
    ↔ (count_if (λ t. ltb 26 (t + 15)) (failures_since (λ _. []) failure_calls key) < 2)
retry_after-counts_example =
    retry_after-counts 2 15 failure_calls 0 26 key (omega arith) (omega arith)
      (omega arith, (omega arith, tt)) (omega arith)

-- Ten failures under the name `a`, one after another.
abbrev ten_failures : List Spec.Call
ten_failures =
    let f = λ (t : ℕ). Spec.fails (b'a' ∷ []) t in
    f 1 ∷ f 2 ∷ f 3 ∷ f 4 ∷ f 5 ∷ f 6 ∷ f 7 ∷ f 8 ∷ f 9 ∷ f 10 ∷ []

abbrev login_state : Login.State (List User) (List Session)
login_state = record {
  by_ip = new_failure_limiter login_failures_per_ip login_failure_window;
  by_user =
      Spec.run (new_failure_limiter login_failures_per_user login_failure_window) ten_failures;
  tables = accounts;
  audit = [];
}

abbrev parse_toy : Text → Option ℕ
parse_toy [] = none
parse_toy (c ∷ s) = some c

abbrev login_request : LoginRequest
login_request = record { username = b'a' ∷ []; password = password }

the_key : user_key login_request.username ≡ b'a' ∷ []
unfolding user_key truncated trim_space
the_key = refl

ten_recent :
    10
    ≤ count_if
        (λ t. ltb 11 (t + login_failure_window))
        (failures_since (λ _. []) ten_failures (user_key login_request.username))
unfolding failures_since note text_eq
ten_recent = rw the_key (omega arith)

handle_login-blocked_example :
    handle_login user_table session_table toy parse_toy
      (λ c. c ∷ [])
      login_state
      (b'1' ∷ [])
      (some login_request)
      none
      5
      11
    ≡ (too_many, login_state)
handle_login-blocked_example =
    handle_login-blocked user_table session_table toy parse_toy (λ c. c ∷ []) login_state
      (b'1' ∷ []) login_request none 5 11 ten_failures 0 refl (ground arith) (omega arith)
      ten_recent refl refl

abbrev admin_state : Accounts.State (List User) (List Session)
admin_state = record { tables = accounts; audit = [] }

abbrev requests : List LastAdmin.Request
requests =
    LastAdmin.deletes (some 1)
    ∷ LastAdmin.updates (some 1) (some (record { is_admin = false; password = [] }))
    ∷ LastAdmin.creates
        (some (record { username = b'b' ∷ []; password = password; is_admin = false }))
    ∷ LastAdmin.deletes (some 2)
    ∷ []

alice-IsAdmin :
    IsAdmin user_table session_table toy user_table-IsTable session_table-IsTable 1 accounts
unfolding IsAdmin
alice-IsAdmin = (alice, refl, refl)

run-IsAdmin_example :
    IsAdmin user_table session_table toy user_table-IsTable session_table-IsTable 1
      (LastAdmin.run user_table session_table toy user_table-IsTable session_table-IsTable false
        alice admin_state requests).tables
run-IsAdmin_example =
    run-IsAdmin user_table session_table toy user_table-IsTable session_table-IsTable false alice
      admin_state requests alice-IsAdmin

walk-Walked_example :
    Walked parse_toy
      (λ c. c == b't')
      none
      ((b't' ∷ []) ∷ (b'c' ∷ []) ∷ (b'x' ∷ []) ∷ [])
      (walk parse_toy (λ c. c == b't') none ((b't' ∷ []) ∷ (b'c' ∷ []) ∷ (b'x' ∷ []) ∷ []))
walk-Walked_example =
    walk-Walked parse_toy (λ c. c == b't') none ((b't' ∷ []) ∷ (b'c' ∷ []) ∷ (b'x' ∷ []) ∷ [])

abbrev late : ℕ
late = 40_000_000_000_000_000

parsed : parse_history_query (given 5) (given late) not_given ≡ ok (5, late, zero_time)
unfolding parse_history_query query_limit query_time query_to
parsed = refl

parse_history_query-bounds_example :
    ((1 ≤ 5) × (5 ≤ 1000)) × ((late ≡ zero_time) ⊎ ((zero_time ≡ zero_time) ⊎ (late ≤ zero_time)))
parse_history_query-bounds_example =
    parse_history_query-bounds (given 5) (given late) not_given 5 late zero_time parsed

abbrev unit_state : UnitHandlers.State (List UnitRow) (List UnitPosition)
unit_state = record { service = start; audit = [] }

handle_patch_unit-empty_example :
    (handle_patch_unit unit_table position_table unit_state
        (some 1)
        (some (record { name = absent; symbol = absent; tactical_name = absent; position = false }))
        admin
      ≡ (with_unit 200 (unit_named 1 b'u' none), unit_state))
    ⊎ (handle_patch_unit unit_table position_table unit_state
          (some 1)
          (some
            (record { name = absent; symbol = absent; tactical_name = absent; position = false }))
          admin
        ≡ (refused 500, unit_state))
handle_patch_unit-empty_example =
    handle_patch_unit-empty unit_table position_table unit_table-IsTable unit_state 1
      (unit_named 1 b'u' none) admin refl start-AllValid.0 refl
