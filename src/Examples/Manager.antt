-- ===== src/Examples/Manager.antt =====
-- A manager of two remotes in memory, whose second one changes.
use unit_management.Base.{◌≡◌, refl, true, false, none, some, List, [], ◌∷◌, arith, ok}
use unit_management.Text.{trim_space, text_eq}
use unit_management.Text.Url.{UrlCodec, http}
use unit_management.Database.{Table, IsTable, IsOrder, first}
use unit_management.Database.Memory.{memory, memory-IsTable}
use unit_management.Models.{SyncRemote}
use unit_management.RemoteSync.Logs.{new_log_store}
use unit_management.RemoteSync.Manager.{
  RemoteInput, Manager, list, get, update, reconcile, reconciled, reconcile_workers, desired_from,
  keep_workers, goes_on, same_connection, renamed, start, start_missing, apply_remote, checked_name,
  checked_interval, normalize_base_url, normalized_url, base_url_ok, trim_slash, write_settings,
}
use unit_management.RemoteSync.Manager.Calls.{
  KeptRemote, updates, perform, perform-Settles, Settles,
}
use unit_management.RemoteSync.Manager.Validity.{valid, valid_name, valid_interval}
use unit_management.RemoteSync.Manager.Invariant.{
  Call, changes, triggers, ticks, passes, stops, run, IsOrderly, run-IsOrderly,
}

abbrev remote_table : Table (List SyncRemote) SyncRemote
remote_table = memory (λ s r. r) (λ rows. false)

remote_table-IsTable : IsTable KeptRemote remote_table
remote_table-IsTable = memory-IsTable KeptRemote (λ s r. r) (λ rows. false) (λ s r. refl)

abbrev in_order : List SyncRemote → List SyncRemote
in_order rs = rs

in_order-IsOrder : IsOrder in_order
in_order-IsOrder = record { counts = λ p rs. refl; alone = λ p rs le. refl }

-- A codec that takes a text for a host.
abbrev codec : UrlCodec
codec = record {
  parse = λ s. some (record {
    scheme = http;
    host = s;
    path = [];
    raw_path = [];
    raw_query = [];
    fragment = [];
    user = none;
  });
  print = λ u. u.host;
}

abbrev remote : SyncRemote
remote = record {
  id = 1;
  name = b'a' ∷ [];
  base_url = b'h' ∷ [];
  poll_interval_sec = 60;
  enabled = true;
  last_sync_at = none;
  last_sync_status = [];
  last_sync_error = [];
}

abbrev managed : Manager (List SyncRemote)
managed = record {
  remotes = remote ∷ record remote { id = 2; name = b'b' ∷ [] } ∷ [];
  workers = (1, record { remote = remote; pending = true }) ∷ [];
  logs = new_log_store;
}

abbrev slower : RemoteInput
slower = record { name = b'a' ∷ []; base_url = b'h' ∷ []; poll_interval_sec = 90; enabled = true }

abbrev slow_remote : SyncRemote
slow_remote = record remote { poll_interval_sec = 90 }

abbrev slow_managed : Manager (List SyncRemote)
slow_managed = record {
  remotes = slow_remote ∷ record remote { id = 2; name = b'b' ∷ [] } ∷ [];
  workers =
      (1, record { remote = slow_remote; pending = false })
      ∷ (2, record { remote = record remote { id = 2; name = b'b' ∷ [] }; pending = false })
      ∷ [];
  logs = new_log_store;
}

updated :
    perform remote_table in_order codec managed (updates 1 slower) ≡ ok (slow_remote, slow_managed)
unfolding perform update get first apply_remote checked_name checked_interval normalize_base_url
    normalized_url base_url_ok trim_slash write_settings reconcile reconciled list reconcile_workers
    desired_from keep_workers goes_on same_connection renamed start start_missing trim_space text_eq
updated = refl

slow_list : list remote_table in_order codec slow_managed ≡ ok slow_managed.remotes
unfolding list
slow_list = refl

perform-Settles_example : Settles remote_table managed slow_managed
perform-Settles_example =
    perform-Settles remote_table in_order codec remote_table-IsTable in_order-IsOrder managed
      (updates 1 slower) slow_remote slow_managed slow_managed.remotes updated slow_list (refl, tt)
      λ id. ground arith

managed-IsOrderly : IsOrderly remote_table in_order codec managed
unfolding valid valid_name valid_interval trim_space text_eq
managed-IsOrderly = record {
  distinct = (refl, tt);
  workers = ((refl, refl), tt);
  rows = (refl, (refl, tt));
}

abbrev manager_calls : List Call
manager_calls =
    changes (updates 1 slower) ∷ triggers 2 5 ∷ ticks ∷ passes 1 none 6 ∷ stops ∷ triggers 2 7 ∷ []

run-IsOrderly_example :
    IsOrderly remote_table in_order codec (run remote_table in_order codec managed manager_calls)
run-IsOrderly_example =
    run-IsOrderly remote_table in_order codec remote_table-IsTable in_order-IsOrder managed
      manager_calls managed-IsOrderly
