-- ===== src/Examples/Records.antt =====
-- The audit log and the settings, in memory.
use unit_management.Base.{
  ◌≡◌, refl, true, false, none, some, List, [], ◌∷◌, ◌++◌, ◌+◌, arith, ok, take, keep_if, all, any,
}
use unit_management.Text.{text_eq, byte_len}
use unit_management.Text.Url.{UrlCodec, https}
use unit_management.Database.{Table, IsTable}
use unit_management.Database.Memory.{memory, memory-IsTable, keyed}
use unit_management.Models.{AuditLog, Setting, zero_time}
use unit_management.Audit.{Filter, is_match, insert_by_id, newest_first, clamp_limit, list}
use unit_management.Audit.Paging.{list-continues}
use unit_management.Settings.{
  Settings, SettingsService, key_map_style_url, map_style_url_field, map_origin, update, store,
  upserted, validate, absolute_url, trim_host, cut_left, cut_right, is_host_char,
}
use unit_management.Settings.Origin.{is_origin_char, is_separator, update-origin}

abbrev log_table : Table (List AuditLog) AuditLog
log_table = memory (λ s r. r) (λ rows. false)

log_table-IsTable : IsTable (λ r r'. r' ≡ r) log_table
log_table-IsTable = memory-IsTable (λ r r'. r' ≡ r) (λ s r. r) (λ rows. false) (λ s r. refl)

abbrev entry : AuditLog
entry = record {
  id = 1;
  created_at = 9;
  actor_id = none;
  actor_name = [];
  action = [];
  target_type = [];
  target_id = [];
  target_name = [];
  remote_addr = [];
}

abbrev second : AuditLog
second = record entry { id = 2 }

abbrev third : AuditLog
third = record entry { id = 3 }

abbrev latest_two : Filter
latest_two = record {
  limit = 2;
  before_id = 0;
  action = [];
  actor_id = 0;
  target_type = [];
  target_id = [];
  since = zero_time;
  to = zero_time;
}

first_page : list log_table (entry ∷ second ∷ third ∷ []) latest_two ≡ some (third ∷ second ∷ [])
unfolding list is_match clamp_limit newest_first insert_by_id zero_time
first_page = refl

second_page :
    list log_table (entry ∷ second ∷ third ∷ []) (record latest_two { before_id = 2 })
    ≡ some (entry ∷ [])
unfolding list is_match clamp_limit newest_first insert_by_id zero_time
second_page = refl

list-continues_example :
    (third ∷ second ∷ []) ++ entry ∷ []
    ≡ take
        (clamp_limit 2 + clamp_limit 2)
        (newest_first (keep_if (is_match latest_two) (entry ∷ second ∷ third ∷ [])))
list-continues_example =
    list-continues log_table log_table-IsTable (entry ∷ second ∷ third ∷ []) latest_two
      (third ∷ second ∷ []) (third ∷ []) second (entry ∷ [])
      ((refl, (refl, tt)), ((refl, tt), (tt, tt))) first_page refl (λ h. absurd (omega arith))
      second_page

abbrev setting_table : Table (List Setting) Setting
setting_table = keyed (λ s r. r) (λ r x. text_eq r.key x.key)

-- A codec that takes a text for a host.
abbrev codec : UrlCodec
codec = record {
  parse = λ s. some (record {
    scheme = https;
    host = s;
    path = [];
    raw_path = [];
    raw_query = [];
    fragment = [];
    user = none;
  });
  print = λ u. u.host;
}

abbrev old_service : SettingsService (List Setting)
old_service = record { rows = []; current = record { map_style_url = [] } }

abbrev new_settings : Settings
new_settings = record { map_style_url = b'a' ∷ b'.' ∷ b'd' ∷ [] }

abbrev new_service : SettingsService (List Setting)
new_service = record {
  rows = record { key = key_map_style_url; value = new_settings.map_style_url } ∷ [];
  current = new_settings;
}

updated :
    update setting_table codec old_service new_settings ≡ ok (map_style_url_field ∷ [], new_service)
unfolding update store upserted validate absolute_url trim_host cut_left cut_right is_host_char
    text_eq byte_len
updated = refl

update-origin_example :
    (new_service.current ≡ new_settings)
    × (all is_origin_char (map_origin codec new_service.current) ≡ true)
    × (any is_separator (map_origin codec new_service.current) ≡ false)
update-origin_example =
    update-origin setting_table codec old_service new_settings (map_style_url_field ∷ [])
      new_service updated
