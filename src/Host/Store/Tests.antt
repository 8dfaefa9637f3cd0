-- ===== src/Host/Store/Tests.antt =====
-- The database of a hub, from its first start on, and one that is migrated.
use visual_tmux_client.Prelude.Int.{pos}
use visual_tmux_client.Prelude.{
  ◌≡◌, refl, sym, ◌∙◌, bytes_eq, true, false, codes, none, some, List, [], ◌∷◌, arith, ◌↔◌, ◌≢◌, ℕ,
}
use visual_tmux_client.Prelude.Map.{lookup, insert, remove, IsUnique}
use visual_tmux_client.Host.Identity.{ConnectionType, ok, local_id}
use visual_tmux_client.Host.Store.{
  Record, PendingCleanup, Codec, Database, Driver, with_type, default_type,
}
use visual_tmux_client.Host.Store.Hosts.{
  put, get_record, upsert_host_record, validate_put_record, invalid_identity, count_local,
  violates_index, raise_watermark,
}
use visual_tmux_client.Host.Store.Removal.{delete, clear_default, next_revisions}
use visual_tmux_client.Host.Store.Fresh.{fresh_database}
use visual_tmux_client.Host.Store.Calls.{Call, delete_call, add_call, remove_call, run_calls, call}
use visual_tmux_client.Host.Outcome.{Settles}
use visual_tmux_client.Host.Store.Cleanups.{count_host}
use visual_tmux_client.Host.Store.Settings.{update_default_host, current_row, set_id}
use visual_tmux_client.Host.Store.Files.{Answers, Lookup, found, missing}
use visual_tmux_client.Host.Store.Migration.{HostRowV1, with_ssh, migrated}
use visual_tmux_client.Host.Store.Migrating.{Updates}
use visual_tmux_client.Host.Store.Migrated.{fresh_database-IsSound, migrated-IsSound}
use visual_tmux_client.Host.Store.Opening.{Directory, open_store}
use visual_tmux_client.Host.Store.Opened.{Opens, open_store-Opens}
use visual_tmux_client.Host.Store.Stored.{get_record-put}
use visual_tmux_client.Host.Store.Defaults.{Defaults, Names, is_taken, update_default_host_iff}
use visual_tmux_client.Host.Store.Bounds.{IsBounded}
use visual_tmux_client.Host.Store.Sound.{IsSound, put-IsSound}
use visual_tmux_client.Host.Store.History.{
  run_calls-IsSound, run_calls-IsBounded, IsBeyond, FitsInt64, next_revisions_unused,
}

abbrev kept : Codec Record
kept = record { marshal = λ r. r; unmarshal = λ r. some r }

abbrev quiet : Driver
quiet k = none

abbrev server : Record
server = record {
  id = codes "a";
  revision = 1;
  connection_revision = 1;
  name = codes "Server";
  connection_type = ConnectionType.ssh;
  address = codes "10.0.0.1";
  port = 22;
  username = codes "me";
  credential_type = [];
  credential = [];
  host_key = [];
}

abbrev first_state : Database Record
first_state = fresh_database kept

abbrev later_calls : List Call
later_calls = delete_call quiet (codes "a") 1 ∷ []

abbrev after_server : Database Record
unfolding put
after_server = (put kept quiet server 0 first_state).0

abbrev last_state : Database Record
unfolding run_calls put
last_state = run_calls kept later_calls after_server

stored_server : (put kept quiet server 0 first_state).1 ≡ ok tt
unfolding put with_type default_type validate_put_record invalid_identity upsert_host_record lookup
    insert remove violates_index count_local raise_watermark local_id
stored_server = refl

server_mark :
    lookup (codes "a") last_state.watermarks
    ≡ some (record { revision = 1; connection_revision = 1 })
unfolding put with_type default_type validate_put_record invalid_identity upsert_host_record lookup
    insert remove violates_index count_local raise_watermark local_id run_calls call delete
    clear_default
server_mark = refl

server_fits : FitsInt64 (codes "a") last_state
unfolding put run_calls
server_fits w e =
    let same : some w ≡ some (record { revision = 1; connection_revision = 1 }) =
      sym e ∙ server_mark in
    ground (arith, same)

next_revisions_unused_example : IsBeyond server (next_revisions quiet (codes "a") last_state)
unfolding put run_calls
next_revisions_unused_example =
    next_revisions_unused kept quiet quiet server 0 first_state later_calls stored_server refl
      server_fits

run_calls-IsSound_example : IsSound (run_calls kept later_calls after_server)
unfolding put
run_calls-IsSound_example =
    run_calls-IsSound kept later_calls (put kept quiet server 0 first_state).0
      (put-IsSound kept quiet server 0 first_state (fresh_database-IsSound kept))

abbrev scrap : PendingCleanup
scrap = record {
  id = codes "c";
  host_id = codes "a";
  staging_path = codes "/tmp/x";
  token = codes "t";
  created_at = 7;
}

first_state-IsBounded : IsBounded first_state
unfolding count_host
first_state-IsBounded host = omega arith

abbrev cleanup_calls : List Call
cleanup_calls = add_call quiet 9 scrap ∷ add_call quiet 9 scrap ∷ remove_call quiet (codes "c") ∷ []

run_calls-IsBounded_example : IsBounded (run_calls kept cleanup_calls first_state)
run_calls-IsBounded_example =
    run_calls-IsBounded kept cleanup_calls first_state first_state-IsBounded

get_record-put_example :
    get_record kept quiet (codes "a") (put kept quiet server 0 first_state).0
    ≡ ok (with_type server)
get_record-put_example =
    get_record-put kept quiet quiet server 0 first_state refl stored_server refl

update_default_host_iff_example :
    Settles
      (Defaults (some local_id) 1 first_state)
      first_state
      (update_default_host quiet (some local_id) 1 first_state)
    × ((is_taken (update_default_host quiet (some local_id) 1 first_state).1 ≡ true) ↔ (
        (◌≢◌ {A = ℕ} 1 0)
        × ((current_row first_state.settings).revision ≡ 1)
        × Names first_state (set_id (some local_id))))
update_default_host_iff_example =
    update_default_host_iff quiet (λ k. refl) (some local_id) 1 first_state

abbrev good_file : Lookup
good_file = found (record { is_regular = true; is_directory = false; permissions = 384 })

abbrev good_answers : Answers
good_answers = record {
  mkdir = none;
  chmod = none;
  directory = found (record { is_regular = false; is_directory = true; permissions = 448 });
  lock_file = missing;
  lock_open = none;
  flock = true;
  database_file = good_file;
  database_open = none;
  database_close = none;
  sql_open = none;
  read_database = none;
  write_backup = none;
  backup_begun = false;
}

abbrev old_server : Record
old_server = record {
  id = codes "a";
  revision = 3;
  connection_revision = 2;
  name = codes "Server";
  connection_type = ConnectionType.blank;
  address = codes "10.0.0.1";
  port = 22;
  username = codes "me";
  credential_type = [];
  credential = [];
  host_key = [];
}

-- A database of version 1 with one host.
abbrev old_state : Database Record
old_state = record {
  version = pos 1;
  hosts =
      (codes "a", record { revision = 3; connection_type = ConnectionType.ssh; blob = old_server })
      ∷ [];
  settings = none;
  metadata = [];
  watermarks = [];
  pending_cleanups = [];
}

abbrev old_directory : Directory Record
old_directory = record { database = old_state; backups = []; locked = false }

open_store-Opens_example :
    Opens kept 3 old_directory (open_store kept good_answers quiet none 3 old_directory)
open_store-Opens_example = open_store-Opens kept good_answers quiet none 3 old_directory

abbrev old_updates : List (HostRowV1 Record)
old_updates = record { id = codes "a"; rev = 3; conn_rev = 2; blob = with_ssh old_server } ∷ []

old_updates-Updates : Updates kept old_state.hosts old_updates
old_updates-Updates = (refl, refl, (old_server, refl, refl, refl), tt)

old_state-IsUnique : IsUnique old_state.hosts
unfolding lookup
old_state-IsUnique = (refl, tt)

migrated-IsSound_example : IsSound (migrated kept old_updates old_state)
migrated-IsSound_example =
    migrated-IsSound kept old_updates old_state old_updates-Updates old_state-IsUnique refl
