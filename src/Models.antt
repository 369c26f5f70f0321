-- ===== src/Models.antt =====
-- internal/models/models.go: the rows of the database. Identifiers (uint, uuid.UUID) are numbers,
-- times are nanoseconds since a fixed instant before every time that RFC 3339 can write, and a
-- pointer is an Option. The columns that GORM keeps by itself and no code decides by (CreatedAt and
-- UpdatedAt of a unit) and the associations that a query may load beside a row are left out.
use unit_management.Base.{ℕ, ◌*◌, Bool, ◌&&◌, Option, List, [], ◌∷◌, is_some, not}
use unit_management.Text.{Text, text_eq, is_empty}
use unit_management.Float.{Float}

abbrev pub Uuid : Type 0
Uuid = ℕ

abbrev pub Time : Type 0
Time = ℕ

abbrev pub second : ℕ
second = 1_000_000_000

abbrev pub minute : ℕ
minute = 60 * second

abbrev pub hour : ℕ
hour = 60 * minute

-- time.Time{}, 1 January of the year 1; the fixed instant lies 400 days before it.
unfoldable pub zero_time : Time
zero_time = 400 * 24 * hour

pub record User : Type 0 where
  pub id : ℕ
  pub username : Text
  pub password_hash : Text
  pub is_admin : Bool
  pub oidc_issuer : Option Text
  pub oidc_subject : Option Text

-- User.SSO
unfoldable pub sso : User → Bool
sso u = is_some u.oidc_subject

-- User.HasPassword
unfoldable pub has_password : User → Bool
has_password u = not (is_empty u.password_hash)

pub record Group : Type 0 where
  pub id : ℕ
  pub name : Text

pub record UserGroup : Type 0 where
  pub user_id : ℕ
  pub group_id : ℕ

pub record ApiKey : Type 0 where
  pub id : Uuid
  pub user_id : ℕ
  pub name : Text
  pub public_key_pem : Text
  pub last_used_at : Option Time

pub record Session : Type 0 where
  pub id : ℕ
  pub token_hash : Text
  pub user_id : ℕ
  pub expires_at : Time
  pub api_token : Bool
  pub name : Text

pub record UnitSymbol : Type 0 where
  pub grundzeichen : Text
  pub organisation : Text
  pub fachaufgabe : Text
  pub einheit : Text
  pub verwaltungsstufe : Text
  pub funktion : Text
  pub symbol : Text

-- a == b on structs
unfoldable pub symbol_eq : UnitSymbol → UnitSymbol → Bool
symbol_eq a b =
    text_eq a.grundzeichen b.grundzeichen
    && text_eq a.organisation b.organisation
    && text_eq a.fachaufgabe b.fachaufgabe
    && text_eq a.einheit b.einheit
    && text_eq a.verwaltungsstufe b.verwaltungsstufe
    && text_eq a.funktion b.funktion
    && text_eq a.symbol b.symbol

-- UnitSymbol.Fields, as values
unfoldable pub symbol_fields : UnitSymbol → List Text
symbol_fields s =
    s.grundzeichen ∷ s.organisation ∷ s.fachaufgabe ∷ s.einheit ∷ s.verwaltungsstufe ∷ s.funktion
    ∷ s.symbol ∷ []

pub record TacticalName : Type 0 where
  pub organisation : Text
  pub regional_association : Text
  pub local_association : Text
  pub function : Text
  pub number : Text

-- a == b on structs
unfoldable pub tactical_name_eq : TacticalName → TacticalName → Bool
tactical_name_eq a b =
    text_eq a.organisation b.organisation
    && text_eq a.regional_association b.regional_association
    && text_eq a.local_association b.local_association
    && text_eq a.function b.function
    && text_eq a.number b.number

-- TacticalName.Fields, as values
unfoldable pub tactical_name_fields : TacticalName → List Text
tactical_name_fields n =
    n.organisation ∷ n.regional_association ∷ n.local_association ∷ n.function ∷ n.number ∷ []

-- `Unit` is the type with one element, so a row of units is a `UnitRow`.
pub record UnitRow : Type 0 where
  pub id : Uuid
  pub name : Text
  pub latitude : Option Float
  pub longitude : Option Float
  pub height : Option Float
  pub accuracy : Option Float
  pub speed : Option Float
  pub course : Option Float
  pub position_timestamp : Option Time
  pub symbol : Option UnitSymbol
  pub tactical_name : Option TacticalName
  pub created_by_id : Option ℕ
  pub updated_by_id : Option ℕ
  pub sync_remote_id : Option Uuid

-- Unit.HasPosition
unfoldable pub has_position : UnitRow → Bool
has_position u = is_some u.latitude && is_some u.longitude

pub record UnitPosition : Type 0 where
  pub id : ℕ
  pub unit_id : Uuid
  pub latitude : Float
  pub longitude : Float
  pub height : Option Float
  pub accuracy : Option Float
  pub speed : Option Float
  pub course : Option Float
  pub timestamp : Time
  pub recorded_by_id : Option ℕ

pub record SyncRemote : Type 0 where
  pub id : Uuid
  pub name : Text
  pub base_url : Text
  pub poll_interval_sec : ℕ
  pub enabled : Bool
  pub last_sync_at : Option Time
  pub last_sync_status : Text
  pub last_sync_error : Text

-- The details of an entry, which no code reads, are left out.
pub record AuditLog : Type 0 where
  pub id : ℕ
  pub created_at : Time
  pub actor_id : Option ℕ
  pub actor_name : Text
  pub action : Text
  pub target_type : Text
  pub target_id : Text
  pub target_name : Text
  pub remote_addr : Text

pub record Setting : Type 0 where
  pub key : Text
  pub value : Text
