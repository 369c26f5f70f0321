-- ===== src/Examples/Units.antt =====
-- Runs of the units service over tables in memory.
use unit_management.Base.{
  arith, ℕ, suc, ◌≡◌, ◌⊎◌, refl, true, false, Option, none, some, List, [], ◌∷◌, ◌++◌, ok, err,
  length, All,
}
use unit_management.Database.{Table, IsTable, first}
use unit_management.Database.Memory.{memory, memory-IsTable}
use unit_management.Models.{Uuid, Time, User, UnitRow, UnitPosition, zero_time}
use unit_management.Text.{trim_space, text_eq}
use unit_management.Float.{finite, whole, float_le, float_lt, negate, is_nan, max_float}
use unit_management.Units.Input.{
  Position, Input, Field, apply, input_of, position_of, valid_name, valid_position,
  valid_coordinate, valid_height, valid_non_negative, valid_course, normalize_symbol,
  normalize_tactical_name, changed, unit_synced, internal, not_mirrored,
}
use unit_management.Units.Input.Validity.{IsValid, apply-IsValid, apply-input_of}
use unit_management.Units.Broker.{Event, created, new_broker, subscribe, publish}
use unit_management.Units.Broker.Streams.{IsSound, run-IsSound}
use unit_management.Units.Broker.Streams
use unit_management.Units.Broker.NoGap.{Ended, subscriber_no_gap}
use unit_management.Units.Service.{
  Tables, State, patch, patch_tables, get, write_patch, update_unit, record_change, record_position,
  written, entry_of, insert_unit, blank, mirrored_from,
}
use unit_management.Units.Service.Lookup.{KeptUnit, KeptPosition, row}
use unit_management.Units.Service.Effects.{PatchEffect, patch-PatchEffect}
use unit_management.Units.Service.Outcomes.{patch-refuses_synced, patch-idle}
use unit_management.Units.Invariant.{AllValid, run-AllValid}
use unit_management.Units.Invariant
use unit_management.Units.History.{
  delete_history_before, is_newest_id, history, newest_first, insert_sorted, newer, in_range,
  clamp_limit,
}
use unit_management.Units.History.Retention.{Retained, delete_history_before-Retained}
use unit_management.Units.History.Order.{Answered, history-Answered}
use unit_management.Units.Sync.{was_created, upsert_tables, upsert_synced}
use unit_management.Units.Sync.Effects.{Upserted, upsert_tables-Upserted}
use unit_management.Units.Sync.Refusals.{upsert_synced-refused}

abbrev pub unit_table : Table (List UnitRow) UnitRow
unit_table = memory (λ s r. r) (λ rows. false)

abbrev pub position_table : Table (List UnitPosition) UnitPosition
position_table = memory (λ s r. record r { id = suc (length s) }) (λ rows. false)

pub unit_table-IsTable : IsTable KeptUnit unit_table
unit_table-IsTable = memory-IsTable KeptUnit (λ s r. r) (λ rows. false) (λ s r. refl)

pub position_table-IsTable : IsTable KeptPosition position_table
position_table-IsTable =
    memory-IsTable KeptPosition (λ s r. record r { id = suc (length s) }) (λ rows. false)
      (λ s r. refl)

abbrev pub admin : User
admin = record {
  id = 7;
  username = b'a' ∷ [];
  password_hash = b'h' ∷ [];
  is_admin = true;
  oidc_issuer = none;
  oidc_subject = none;
}

abbrev pub unit_named : Uuid → ℕ → Option Uuid → UnitRow
unit_named id c remote = record {
  id = id;
  name = c ∷ [];
  latitude = none;
  longitude = none;
  height = none;
  accuracy = none;
  speed = none;
  course = none;
  position_timestamp = none;
  symbol = none;
  tactical_name = none;
  created_by_id = none;
  updated_by_id = none;
  sync_remote_id = remote;
}

abbrev pub north : Position
north = record {
  latitude = finite false (whole 50);
  longitude = finite false (whole 8);
  height = none;
  accuracy = some (finite false (whole 5));
  speed = none;
  course = none;
  timestamp = zero_time;
}

abbrev pub renamed : Input → Input
renamed i = record i { name = b' ' ∷ b'n' ∷ []; position = some north }

-- One local unit, 1, and one mirrored from the remote 9, 2.
abbrev pub start : State (List UnitRow) (List UnitPosition)
start = record {
  tables = record {
    units = unit_named 1 b'u' none ∷ unit_named 2 b'm' (some 9) ∷ [];
    positions = [];
  };
  events = new_broker;
}

one_letter-IsValid :
    (id : Uuid) (c : ℕ) (remote : Option Uuid)
    → trim_space (c ∷ []) ≡ c ∷ []
    → IsValid (unit_named id c remote)
one_letter-IsValid id c remote h = record {
  trimmed = h;
  named = unfold valid_name in refl;
  sized = (λ e. absurd (cc), omega arith);
  symbol = tt;
  tactical_name = tt;
  position = none;
  located = (refl, refl, refl, refl, refl, refl, refl);
  placed = tt;
}

trimmed_u : trim_space (b'u' ∷ []) ≡ b'u' ∷ []
unfolding trim_space
trimmed_u = refl

trimmed_m : trim_space (b'm' ∷ []) ≡ b'm' ∷ []
unfolding trim_space
trimmed_m = refl

pub start-AllValid : All IsValid (unit_table.rows start.tables.units)
start-AllValid =
    (one_letter-IsValid 1 b'u' none trimmed_u, (one_letter-IsValid 2 b'm' (some 9) trimmed_m, tt))

abbrev renamed_unit : UnitRow
renamed_unit = record (unit_named 1 b'n' none) {
  latitude = some north.latitude;
  longitude = some north.longitude;
  accuracy = north.accuracy;
  position_timestamp = some north.timestamp;
  updated_by_id = some admin.id;
}

abbrev renamed_fields : List Field
renamed_fields = Field.field_name ∷ Field.field_position ∷ []

renaming :
    patch unit_table position_table start 1 renamed admin
    ≡ (ok (renamed_unit, renamed_fields), (patch unit_table position_table start 1 renamed admin).1)
unfolding patch patch_tables get first apply input_of position_of normalize_symbol
    normalize_tactical_name valid_position valid_coordinate valid_height valid_non_negative
    valid_course float_le float_lt negate whole is_nan max_float changed text_eq trim_space
    write_patch update_unit record_change record_position written entry_of publish zero_time
renaming = refl

patch-PatchEffect_example :
    PatchEffect unit_table position_table start 1 renamed admin renamed_unit renamed_fields
      (patch unit_table position_table start 1 renamed admin).1
patch-PatchEffect_example =
    patch-PatchEffect unit_table position_table unit_table-IsTable position_table-IsTable start 1
      renamed admin renaming

patch-refuses_synced_example :
    (patch unit_table position_table start 2 renamed admin ≡ (err unit_synced, start))
    ⊎ (patch unit_table position_table start 2 renamed admin ≡ (err internal, start))
patch-refuses_synced_example =
    patch-refuses_synced unit_table position_table unit_table-IsTable start 2 renamed admin
      (unit_named 2 b'm' (some 9)) 9 refl refl

patch-idle_example :
    (patch unit_table position_table start 1 (λ i. i) admin
      ≡ (ok (unit_named 1 b'u' none, []), start))
    ⊎ (patch unit_table position_table start 1 (λ i. i) admin ≡ (err internal, start))
patch-idle_example =
    patch-idle unit_table position_table unit_table-IsTable start 1 (λ i. i) admin
      (unit_named 1 b'u' none) refl (one_letter-IsValid 1 b'u' none trimmed_u) refl refl

run-AllValid_example : All IsValid (
    unit_table.rows
      (Invariant.run unit_table position_table unit_table-IsTable position_table-IsTable start
        (Invariant.patches 1 renamed admin ∷ Invariant.deletes_synced 9 2 ∷ [])).tables.units)
run-AllValid_example =
    run-AllValid unit_table position_table unit_table-IsTable position_table-IsTable start
      (Invariant.patches 1 renamed admin ∷ Invariant.deletes_synced 9 2 ∷ []) start-AllValid

applied :
    apply (unit_named 1 b'u' none) (renamed (input_of (unit_named 1 b'u' none)))
    ≡ ok (record renamed_unit { updated_by_id = none })
unfolding apply input_of normalize_symbol normalize_tactical_name valid_position valid_coordinate
    valid_height valid_non_negative valid_course float_le float_lt negate whole is_nan max_float
    trim_space
applied = refl

apply-IsValid_example : IsValid (record renamed_unit { updated_by_id = none })
apply-IsValid_example =
    apply-IsValid (unit_named 1 b'u' none) (renamed (input_of (unit_named 1 b'u' none))) applied

apply-input_of_example :
    apply
      (record renamed_unit { updated_by_id = none })
      (input_of (record renamed_unit { updated_by_id = none }))
    ≡ ok (record renamed_unit { updated_by_id = none })
apply-input_of_example =
    apply-input_of (record renamed_unit { updated_by_id = none })
      (apply-IsValid (unit_named 1 b'u' none) (renamed (input_of (unit_named 1 b'u' none))) applied)

abbrev an_event : Event
an_event = record { type = created; id = 1; unit = none }

run-IsSound_example :
    All IsSound
      (Streams.run new_broker (Streams.subscribes ∷ Streams.publishes an_event ∷ [])).channels
run-IsSound_example = run-IsSound (Streams.subscribes ∷ Streams.publishes an_event ∷ [])

subscriber_no_gap_example :
    let b = Streams.run new_broker (Streams.publishes an_event ∷ []) in
    Ended b.next (subscribe b).1 (Streams.publishes an_event ∷ Streams.receives 0 ∷ []) []
subscriber_no_gap_example =
    subscriber_no_gap (Streams.publishes an_event ∷ [])
      (Streams.publishes an_event ∷ Streams.receives 0 ∷ [])

abbrev entry_at : ℕ → Time → UnitPosition
entry_at id t = record {
  id = id;
  unit_id = 1;
  latitude = north.latitude;
  longitude = north.longitude;
  height = none;
  accuracy = none;
  speed = none;
  course = none;
  timestamp = t;
  recorded_by_id = none;
}

abbrev with_history : Tables (List UnitRow) (List UnitPosition)
with_history = record start.tables {
  positions = entry_at 1 10 ∷ entry_at 2 30 ∷ entry_at 3 20 ∷ [];
}

read_history :
    history unit_table position_table with_history 1 2 15 zero_time
    ≡ ok (entry_at 2 30 ∷ entry_at 3 20 ∷ [])
unfolding history newest_first insert_sorted newer in_range clamp_limit zero_time
read_history = refl

history-Answered_example :
    Answered
      (position_table.rows with_history.positions)
      1
      2
      15
      zero_time
      (entry_at 2 30 ∷ entry_at 3 20 ∷ [])
history-Answered_example =
    history-Answered unit_table position_table position_table-IsTable with_history 1 2 15 zero_time
      _ read_history

abbrev shortened : Tables (List UnitRow) (List UnitPosition)
shortened = record start.tables { positions = entry_at 2 30 ∷ [] }

shortening : delete_history_before unit_table position_table with_history 40 ≡ ok (2, shortened)
unfolding delete_history_before is_newest_id newer
shortening = refl

delete_history_before-Retained_example :
    Retained unit_table position_table position_table-IsTable 40
      (position_table.rows with_history.positions)
      (position_table.rows shortened.positions)
delete_history_before-Retained_example =
    delete_history_before-Retained unit_table position_table position_table-IsTable with_history 40
      2 shortened shortening

abbrev remote_input : Input
remote_input = record { name = b'r' ∷ []; position = none; symbol = none; tactical_name = none }

abbrev upserted_tables : Tables (List UnitRow) (List UnitPosition)
upserted_tables = record start.tables {
  units = start.tables.units ++ unit_named 3 b'r' (some 9) ∷ [];
}

upserting :
    upsert_tables unit_table position_table start.tables 9 3 remote_input
    ≡ ok (was_created, upserted_tables)
unfolding upsert_tables first apply normalize_symbol normalize_tactical_name trim_space insert_unit
    record_position position_of blank
upserting = refl

upsert_tables-Upserted_example :
    Upserted unit_table position_table start.tables 9 3 remote_input was_created upserted_tables
upsert_tables-Upserted_example =
    upsert_tables-Upserted unit_table position_table unit_table-IsTable position_table-IsTable
      start.tables 9 3 remote_input was_created upserted_tables upserting

refusing : (upsert_synced unit_table position_table start 9 1 remote_input).0 ≡ err not_mirrored
unfolding upsert_synced upsert_tables first
refusing = refl

upsert_synced-refused_example :
    ((u : UnitRow) × (row unit_table position_table start.tables 1 ≡ some u)
      × (mirrored_from 9 u ≡ false))
    × ((upsert_synced unit_table position_table start 9 1 remote_input).1 ≡ start)
upsert_synced-refused_example =
    upsert_synced-refused unit_table position_table unit_table-IsTable start 9 1 remote_input
      refusing
