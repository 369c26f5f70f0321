-- ===== src/Settings.antt =====
-- internal/settings/settings.go: the settings of the instance, of which the map's style is the only
-- one, stored by key and kept in memory.
pub mod Origin
use unit_management.Base.{
  ℕ, Bool, true, false, not, ◌&&◌, ◌||◌, Option, none, some, List, [], ◌∷◌, ◌++◌, ◌==◌, ltb, leb,
  if◌then◌else◌, is_some, any, Result, ok, err, ◌>>=◌, ◌>>◌, guard, or_err,
}
use unit_management.Text.{Text, text_eq, is_empty, byte_len}
use unit_management.Text.Url.{Url, UrlCodec, http, https}
use unit_management.Database.{Answer, done, duplicate, failed, Table}
use unit_management.Models.{Setting}

abbrev pub key_map_style_url : Text
key_map_style_url =
    b'm' ∷ b'a' ∷ b'p' ∷ b'_' ∷ b's' ∷ b't' ∷ b'y' ∷ b'l' ∷ b'e' ∷ b'_' ∷ b'u' ∷ b'r' ∷ b'l' ∷ []

-- The name of the field in the API.
abbrev pub map_style_url_field : Text
map_style_url_field =
    b'm' ∷ b'a' ∷ b'p' ∷ b'S' ∷ b't' ∷ b'y' ∷ b'l' ∷ b'e' ∷ b'U' ∷ b'r' ∷ b'l' ∷ []

abbrev pub max_url_length : ℕ
max_url_length = 2048

-- The errors of Update: ErrInvalid, which its three errors wrap, and one of the database.
pub data SettingsError : Type 0 where
  invalid internal : SettingsError

pub record Settings : Type 0 where
  pub map_style_url : Text

abbrev between : ℕ → ℕ → ℕ → Bool
between lo hi c = leb lo c && leb c hi

-- The characters that strings.Trim cuts off the host: letters, digits and ".-:[]".
unfoldable pub is_host_char : ℕ → Bool
is_host_char c =
    between b'a' b'z' c
    || between b'A' b'Z' c
    || between b'0' b'9' c
    || c == b'.'
    || c == b'-'
    || c == b':'
    || c == b'['
    || c == b']'

unfoldable pub cut_left : Text → Text
cut_left [] = []
cut_left (c ∷ s) = let rest = cut_left s in if is_host_char c then rest else c ∷ s

abbrev cut_end : ℕ → Text → Text
cut_end c [] = if is_host_char c then [] else c ∷ []
cut_end c (d ∷ s) = c ∷ d ∷ s

unfoldable pub cut_right : Text → Text
cut_right [] = []
cut_right (c ∷ s) = cut_end c (cut_right s)

-- strings.Trim(host, ...)
unfoldable pub trim_host : Text → Text
trim_host host = cut_right (cut_left host)

module _ (urls : UrlCodec) where
  unfoldable pub absolute_url : Option Url → Result SettingsError Url
  absolute_url none = err invalid
  absolute_url (some u) =
      if (text_eq u.scheme https || text_eq u.scheme http)
        && not (is_empty u.host)
        && not (is_some u.user)
      then ok u
      else err invalid

  -- Settings.Validate
  unfoldable pub validate : Settings → Result SettingsError (Unit {0})
  validate s = if is_empty s.map_style_url then ok tt else (do
    guard (not (ltb max_url_length (byte_len s.map_style_url))) invalid
    u ← absolute_url (urls.parse s.map_style_url)
    guard (is_empty (trim_host u.host)) invalid)

  unfoldable pub origin_of : Option Url → Text
  origin_of none = []
  origin_of (some u) = u.scheme ++ b':' ∷ b'/' ∷ b'/' ∷ u.host

  -- Settings.MapOrigin
  unfoldable pub map_origin : Settings → Text
  map_origin s = if is_empty s.map_style_url then [] else origin_of (urls.parse s.map_style_url)

-- Service
pub record SettingsService (T : Type 0) : Type 0 where
  pub rows : T
  pub current : Settings

abbrev pub setting_by_key : Text → Setting → Bool
setting_by_key key row = text_eq row.key key

abbrev pub wrap : {A : Type 0} → Answer A → Result SettingsError A
wrap (done a) = ok a
wrap duplicate = err internal
wrap failed = err internal

module _ {T : Type 0} (table : Table T Setting) (urls : UrlCodec) where
  -- The loop over the stored rows.
  unfoldable pub load : Settings → List Setting → Settings
  load s [] = s
  load s (row ∷ rows) =
      load (if text_eq row.key key_map_style_url then record { map_style_url = row.value } else s)
        rows

  -- NewService
  unfoldable pub new_service : T → Result SettingsError (SettingsService T)
  new_service t = do
    rows ← wrap (table.select t (λ row. true))
    ok (record { rows = t; current = load (record { map_style_url = [] }) rows })

  -- Service.Get
  unfoldable pub get : SettingsService T → Settings
  get s = s.current

  -- The insertion, which on a row with the key changes its value instead.
  unfoldable pub upserted : T → Setting → Answer (T × Setting) → Result SettingsError T
  upserted t row (done (t', stored)) = ok t'
  upserted t row failed = err internal
  upserted t row duplicate = do
    changed ← wrap (table.update t (setting_by_key row.key) (λ r. record r { value = row.value }))
    ok changed.0

  unfoldable pub store :
      SettingsService T → Settings → Result SettingsError (List Text × SettingsService T)
  store s input = do
    let row : Setting = record { key = key_map_style_url; value = input.map_style_url }
    t ← upserted s.rows row (table.insert s.rows row)
    ok (map_style_url_field ∷ [], record { rows = t; current = input })

  -- Service.Update, with the names of the changed fields
  unfoldable pub update :
      SettingsService T → Settings → Result SettingsError (List Text × SettingsService T)
  update s input = do
    validate urls input
    if text_eq input.map_style_url s.current.map_style_url then ok ([], s) else store s input
