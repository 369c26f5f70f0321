-- ===== src/Server/UnitHandlers/Requests.antt =====
-- What the parsed requests on units mean.
use unit_management.Base.{
  ℕ, ◌≡◌, ◌≤◌, ◌⊎◌, refl, sym, ap, ◌∙◌, inl, inr, false, none, some, arith, ◌==◌, ok, >>=-eq-ok,
  Bool-cases,
}
use unit_management.Database.{Table, IsTable}
use unit_management.Models.{Uuid, Time, zero_time, User, UnitRow, UnitPosition}
use unit_management.Units.Input.{Input, input_of}
use unit_management.Units.Input.Validity.{IsValid}
use unit_management.Units.Service.{patch}
use unit_management.Units.Service.Lookup.{KeptUnit, row}
use unit_management.Units.Service.Outcomes.{patch-idle}
use unit_management.Server.UnitHandlers.{
  State, refused, with_unit, Param, not_given, unreadable, given, QueryError, query_limit,
  query_time, query_to, parse_history_query, absent, patch_of, patch_response, handle_patch_unit,
  updated_response, record_unit_update, unit_error_status,
}

limit-bounds : (p : Param) (n : ℕ) → query_limit p ≡ ok n → (1 ≤ n) × (n ≤ 1000)
unfolding query_limit
limit-bounds not_given n h = (ground arith, ground arith)
limit-bounds unreadable n h = absurd (cc)
limit-bounds (given m) n h = (ground arith, ground arith)

to-ordered :
    (since to : Time) (p : Param)
    → query_to since p ≡ ok to
    → (since ≡ zero_time) ⊎ ((to ≡ zero_time) ⊎ (since ≤ to))
unfolding query_to
to-ordered since to not_given h = inr (inl (ground arith))
to-ordered since to unreadable h = absurd (cc)
to-ordered since to (given t) h = elim (Bool-cases (since == zero_time)) [
  | inl z ↦ inl (ground arith)
  | inr z ↦ inr (inr (ground arith))
]

-- A query of a history that is accepted has a limit from 1 to 1000, and a range of which one end is
-- open or `since` is not after `to`.
pub parse_history_query-bounds :
    (limit since to : Param) (n : ℕ) (from until : Time)
    → parse_history_query limit since to ≡ ok (n, from, until)
    → ((1 ≤ n) × (n ≤ 1000)) × ((from ≡ zero_time) ⊎ ((until ≡ zero_time) ⊎ (from ≤ until)))
unfolding parse_history_query
parse_history_query-bounds limit since to n from until h =
    let (n', limit_ok, h1) = >>=-eq-ok (query_limit limit) _ h in
    let (from', since_ok, h2) = >>=-eq-ok (query_time QueryError.bad_since since) _ h1 in
    let (until', to_ok, h3) = >>=-eq-ok (query_to from' to) _ h2 in
    let same_n : n' ≡ n = ground arith in
    let same_from : from' ≡ from = ground arith in
    let same_until : until' ≡ until = ground arith in
    (
      limit-bounds limit n (limit_ok ∙ ap ok same_n),
      to-ordered from until to
          (ap (λ x. query_to x to) (sym same_from) ∙ (to_ok ∙ ap ok same_until)),
    )

empty_patch :
    (i : Input)
    → (edit : Input → Input) × (patch_of
          (record { name = absent; symbol = absent; tactical_name = absent; position = false })
        ≡ ok edit)
      × (edit i ≡ i)
unfolding patch_of
empty_patch i = (_, refl, refl)

module _ {U P : Type 0} (units : Table U UnitRow) (positions : Table P UnitPosition)
    (unit_laws : IsTable KeptUnit units) where
  idle_response :
      (s : State U P) (id : Uuid) (u : UnitRow) (edit : Input → Input) (by : User)
      → row units positions s.service.tables id ≡ some u
      → IsValid u
      → u.sync_remote_id ≡ none
      → edit (input_of u) ≡ input_of u
      → (updated_response units positions s.audit (patch units positions s.service id edit by)
          ≡ (with_unit 200 u, s))
        ⊎ (updated_response units positions s.audit (patch units positions s.service id edit by)
            ≡ (refused 500, s))
  unfolding updated_response record_unit_update unit_error_status
  idle_response s id u edit by found valid is_local same =
      elim (patch-idle units positions unit_laws s.service id edit by u found valid is_local same) [
        | inl e ↦ inl (rw e refl)
        | inr e ↦ inr (rw e refl)
      ]

  -- Over lawful tables, a PATCH without fields answers a valid local unit as it is, or 500 if the
  -- database failed, and changes no row, no history, no event stream and no entry of the audit log.
  pub handle_patch_unit-empty :
      (s : State U P) (id : Uuid) (u : UnitRow) (by : User)
      → row units positions s.service.tables id ≡ some u
      → IsValid u
      → u.sync_remote_id ≡ none
      → (handle_patch_unit units positions s
            (some id)
            (some
              (record { name = absent; symbol = absent; tactical_name = absent; position = false }))
            by
          ≡ (with_unit 200 u, s))
        ⊎ (handle_patch_unit units positions s
              (some id)
              (some (record {
                name = absent;
                symbol = absent;
                tactical_name = absent;
                position = false;
              }))
              by
            ≡ (refused 500, s))
  unfolding handle_patch_unit patch_response patch_of
  handle_patch_unit-empty s id u by found valid is_local =
      idle_response s id u (λ current. current) by found valid is_local refl
