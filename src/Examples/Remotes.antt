-- ===== src/Examples/Remotes.antt =====
-- A worker's passes over the units service in memory, and the log of a remote.
use unit_management.Base.{◌≡◌, ◌≤◌, refl, none, some, List, [], ◌∷◌, length, last_n}
use unit_management.Text.{trim_space}
use unit_management.Models.{UnitRow, UnitPosition}
use unit_management.Database.{first}
use unit_management.Units.Input.{apply, normalize_symbol, normalize_tactical_name, position_of}
use unit_management.Units.Service.{State, get, insert_unit, record_position, blank, delete_units}
use unit_management.Units.Sync.{upsert_synced, upsert_tables, delete_synced, synced_ids}
use unit_management.RemoteSync.Logs.{info, error, new_log_store, logs}
use unit_management.RemoteSync.Logs.Bound.{logs-last_n, lines_since}
use unit_management.RemoteSync.Logs.Bound
use unit_management.RemoteSync.Worker.{
  RemoteUnit, UnitStore, input, sync_once, upsert_all, delete_unlisted, is_listed,
}
use unit_management.RemoteSync.Worker.Store.{Owners, Foreign, IsUnitStore}
use unit_management.RemoteSync.Worker.Mirror.{Mirrored, sync_once-Mirrored, sync_once-Foreign}
use unit_management.RemoteSync.Worker.Service.{
  service_store, service_store-IsUnitStore, state_owner,
}
use unit_management.Examples.Units.{
  unit_table, position_table, unit_table-IsTable, position_table-IsTable, start,
}

abbrev listed_unit : RemoteUnit
listed_unit = record {
  id = 4;
  name = b'r' ∷ [];
  position = none;
  symbol = none;
  tactical_name = none;
}

-- Of the units 1 and 2, the second is mirrored from the remote 9; the remote lists the unit 4.
abbrev store : UnitStore (State (List UnitRow) (List UnitPosition))
store = service_store unit_table position_table

abbrev owners : Owners (State (List UnitRow) (List UnitPosition))
owners = state_owner unit_table position_table unit_table-IsTable position_table-IsTable

service_store-IsUnitStore_example : IsUnitStore owners store
service_store-IsUnitStore_example =
    service_store-IsUnitStore unit_table position_table unit_table-IsTable position_table-IsTable

clean : (sync_once store 9 start (some (listed_unit ∷ []))).errs ≡ []
unfolding sync_once upsert_all delete_unlisted is_listed service_store upsert_synced delete_synced
    synced_ids upsert_tables input first apply normalize_symbol normalize_tactical_name trim_space
    insert_unit record_position position_of blank get delete_units
clean = refl

sync_once-Mirrored_example :
    Mirrored 9
      (listed_unit ∷ [])
      2
      (owners start 2)
      (owners (sync_once store 9 start (some (listed_unit ∷ []))).store 2)
sync_once-Mirrored_example =
    sync_once-Mirrored owners store
      (service_store-IsUnitStore unit_table position_table unit_table-IsTable
        position_table-IsTable)
      9 start (listed_unit ∷ []) 2 clean

local_owner : Foreign 9 (owners start 1)
local_owner = (none, refl, λ h. absurd (cc))

sync_once-Foreign_example :
    owners (sync_once store 9 start (some (listed_unit ∷ []))).store 1 ≡ owners start 1
sync_once-Foreign_example =
    sync_once-Foreign owners store
      (service_store-IsUnitStore unit_table position_table unit_table-IsTable
        position_table-IsTable)
      9 start (some (listed_unit ∷ [])) 1 local_owner

abbrev log_calls : List Bound.Call
log_calls = Bound.logged 9 info 1 ∷ Bound.forgotten 9 ∷ Bound.logged 9 error 2 ∷ []

logs-last_n_example :
    (logs (Bound.run new_log_store log_calls) 9 ≡ last_n 200 (lines_since 9 [] log_calls))
    × (length (logs (Bound.run new_log_store log_calls) 9) ≤ 200)
logs-last_n_example = logs-last_n log_calls 9
