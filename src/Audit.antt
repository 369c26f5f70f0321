-- ===== src/Audit.antt =====
-- internal/audit/audit.go: the audit log. The database gives an entry its ID and its time.
pub mod Paging
use unit_management.Base.{
  ℕ, ◌-◌, Bool, true, false, not, ◌&&◌, ◌||◌, Option, none, some, List, [], ◌∷◌, ◌==◌, ltb, leb,
  if◌then◌else◌, take, option_eq,
}
use unit_management.Text.{Text, text_eq, is_empty}
use unit_management.Database.{Answer, done, duplicate, failed, Table}
use unit_management.Models.{Time, zero_time, User, AuditLog}

abbrev pub default_limit : ℕ
default_limit = 100

abbrev pub max_limit : ℕ
max_limit = 500

pub record Entry : Type 0 where
  pub action : Text
  pub actor : Option User
  pub actor_name : Text
  pub target_type : Text
  pub target_id : Text
  pub target_name : Text
  pub remote_addr : Text

-- A limit below 0 is treated as 0 is.
pub record Filter : Type 0 where
  pub limit : ℕ
  pub before_id : ℕ
  pub action : Text
  pub actor_id : ℕ
  pub target_type : Text
  pub target_id : Text
  pub since : Time
  pub to : Time

-- The row that is inserted for an entry.
unfoldable pub log_row : Entry → AuditLog
log_row e =
    let row : AuditLog = record {
      id = 0;
      created_at = zero_time;
      actor_id = none;
      actor_name = e.actor_name;
      action = e.action;
      target_type = e.target_type;
      target_id = e.target_id;
      target_name = e.target_name;
      remote_addr = e.remote_addr;
    } in
    elim e.actor [
      | none ↦ row
      | some user ↦ record row { actor_id = some user.id; actor_name = user.username }
    ]

unfoldable pub clamp_limit : ℕ → ℕ
clamp_limit limit = if limit == 0 || ltb max_limit limit then default_limit else limit

-- The WHERE clauses of List, of which those of a zero field are left out.
unfoldable pub is_match : Filter → AuditLog → Bool
is_match f e =
    (f.before_id == 0 || ltb e.id f.before_id)
    && (is_empty f.action || text_eq e.action f.action)
    && (f.actor_id == 0 || option_eq ◌==◌ e.actor_id (some f.actor_id))
    && (is_empty f.target_type || text_eq e.target_type f.target_type)
    && (is_empty f.target_id || text_eq e.target_id f.target_id)
    && (f.since == zero_time || leb f.since e.created_at)
    && (f.to == zero_time || leb e.created_at f.to)

-- ORDER BY id DESC
unfoldable pub insert_by_id : AuditLog → List AuditLog → List AuditLog
insert_by_id e [] = e ∷ []
insert_by_id e (f ∷ fs) =
    let rest = insert_by_id e fs in if ltb e.id f.id then f ∷ rest else e ∷ f ∷ fs

unfoldable pub newest_first : List AuditLog → List AuditLog
newest_first [] = []
newest_first (e ∷ es) = insert_by_id e (newest_first es)

module _ {T : Type 0} (entries : Table T AuditLog) where
  abbrev stored : T → Answer (T × AuditLog) → T
  stored t (done (t', row)) = t'
  stored t duplicate = t
  stored t failed = t

  -- Service.Record, which only logs a failure
  unfoldable pub record_entry : T → Entry → T
  record_entry t e = stored t (entries.insert t (log_row e))

  abbrev listed : ℕ → Answer (List AuditLog) → Option (List AuditLog)
  listed limit (done rows) = some (take limit (newest_first rows))
  listed limit duplicate = none
  listed limit failed = none

  -- Service.List; none for an error of the database
  unfoldable pub list : T → Filter → Option (List AuditLog)
  list t f = listed (clamp_limit f.limit) (entries.select t (is_match f))

  abbrev cleaned : T → Answer (T × List AuditLog) → T
  cleaned t (done (t', gone)) = t'
  cleaned t duplicate = t
  cleaned t failed = t

  -- One tick of Service.Cleanup
  unfoldable pub cleanup : T → ℕ → Time → T
  cleanup t retention now = cleaned t (entries.delete t (λ e. ltb e.created_at (now - retention)))
