-- ===== src/Host/Registry/Tests.antt =====
-- A registry that is started, and a host that is moved.
use visual_tmux_client.Prelude.Int.{pos}
use visual_tmux_client.Prelude.{
  ◌≡◌, refl, true, false, codes, none, some, [], bytes_eq, nat_eq, arith,
}
use visual_tmux_client.Prelude.Map.{insert, remove}
use visual_tmux_client.Host.Store.Migration.{migrate_database}
use visual_tmux_client.Host.Identity.{ConnectionType, Error, ok, err, failure}
use visual_tmux_client.Host.Outcome.{Settles}
use visual_tmux_client.Host.Store.{Record, Codec, Database, Driver}
use visual_tmux_client.Host.Store.Files.{
  Answers, FileInfo, found, missing, verify_state_directory, open_database_file, private_file,
  backup_state,
}
use visual_tmux_client.Host.Store.Fresh.{fresh_database, initialize_fresh_database, initialize_all}
use visual_tmux_client.Host.Store.Opening.{Directory, open_store}
use visual_tmux_client.Host.Trim.{trim_space, trim_start, trim_end}
use visual_tmux_client.Host.Vault.{Cipher, KeyAnswers, load_vault, new_vault}
use visual_tmux_client.Host.Registry.{HostInput, CredentialUpdate, project}
use visual_tmux_client.Host.Registry.Saving.{save_open, updated_record}
use visual_tmux_client.Host.Registry.Updates.{Updated, save_open-Updated}
use visual_tmux_client.Host.Registry.Trusting.{moved_untrusted}
use visual_tmux_client.Host.Registry.Service.{Registry, Surroundings, initialize}
use visual_tmux_client.Host.Registry.Starting.{failed_start_blocks}

abbrev kept : Codec Record
kept = record { marshal = λ r. r; unmarshal = λ r. some r }

abbrev quiet : Driver
quiet k = none

abbrev plain : Cipher
plain = record {
  nonce_size = 0;
  seal_bytes = λ key nonce plaintext aad. plaintext;
  open_bytes = λ key nonce ciphertext aad. some ciphertext;
  marshal_credentials = λ c. c.password;
  unmarshal_credentials = λ b. some (record { password = b; private_key = []; passphrase = [] });
  marshal_envelope = λ e. e.ciphertext;
  unmarshal_envelope = λ b. some (record { version = 1; nonce = []; ciphertext = b });
  marshal_identity = λ id kind version. id;
}

abbrev input : HostInput
input = record {
  id = codes "local";
  connection_type = ConnectionType.blank;
  name = codes " Mine ";
  address = [];
  port = 0;
  username = [];
  credential_type = [];
  credentials = record { password = []; private_key = []; passphrase = [] };
  host_key = [];
  challenge_token = [];
}

save_open-Updated_example :
    Settles
      (Updated kept plain []
        (λ k. quiet)
        (ok [])
        input
        (trim_space (codes " Mine "))
        1
        (fresh_database kept))
      (fresh_database kept)
      (save_open kept plain [] (λ k. quiet) (ok []) input 1 (fresh_database kept))
save_open-Updated_example =
    save_open-Updated kept plain [] (λ k. quiet) (ok []) input 1 (fresh_database kept) (omega arith)

abbrev old_server : Record
old_server = record {
  id = codes "a";
  revision = 1;
  connection_revision = 1;
  name = codes "Server";
  connection_type = ConnectionType.ssh;
  address = codes "h";
  port = 22;
  username = codes "me";
  credential_type = [];
  credential = [];
  host_key = codes "key";
}

abbrev same_credential : CredentialUpdate
same_credential = record { kind = []; bytes = []; changed = false }

abbrev move : HostInput
move = record {
  id = codes "a";
  connection_type = ConnectionType.blank;
  name = codes "Server";
  address = [];
  port = 2222;
  username = [];
  credential_type = [];
  credentials = record { password = []; private_key = []; passphrase = [] };
  host_key = [];
  challenge_token = [];
}

moved_untrusted_example :
    ((updated_record move (codes "Server") old_server same_credential).host_key ≡ [])
    × ((project (updated_record move (codes "Server") old_server same_credential)).trusted ≡ false)
unfolding updated_record trim_start trim_end trim_space
moved_untrusted_example = moved_untrusted move (codes "Server") old_server same_credential refl refl

abbrev good_answers : Answers
good_answers = record {
  mkdir = none;
  chmod = none;
  directory = found (record { is_regular = false; is_directory = true; permissions = 448 });
  lock_file = missing;
  lock_open = none;
  flock = true;
  database_file = missing;
  database_open = none;
  database_close = none;
  sql_open = none;
  read_database = none;
  write_backup = none;
  backup_begun = false;
}

abbrev disk_full : Error
disk_full = failure (codes "no space left on device")

abbrev no_key : KeyAnswers
no_key = record {
  key_file = missing;
  read_key = ok [];
  make_directory = none;
  random = ok [];
  create_key = some disk_full;
  write_key = none;
}

abbrev first_start : Surroundings
first_start = record {
  database_file = missing;
  key_answers = no_key;
  store_answers = good_answers;
  tables = 0;
  opening = quiet;
  listing = quiet;
  calls = λ k. quiet;
  nonce = ok [];
}

abbrev database_info : FileInfo
database_info = record { is_regular = true; is_directory = false; permissions = 384 }

abbrev second_start : Surroundings
second_start = record {
  database_file = found database_info;
  key_answers = no_key;
  store_answers = good_answers;
  tables = 5;
  opening = quiet;
  listing = quiet;
  calls = λ k. quiet;
  nonce = ok [];
}

abbrev empty_database : Database Record
empty_database = record {
  version = pos 0;
  hosts = [];
  settings = none;
  metadata = [];
  watermarks = [];
  pending_cleanups = [];
}

abbrev new_registry : Registry Record
new_registry = record {
  directory_known = true;
  state = record { database = empty_database; backups = []; locked = false };
  key = none;
  closed = false;
}

abbrev made : Directory Record
made = record { database = fresh_database kept; backups = []; locked = true }

made_open : open_store kept good_answers quiet none 0 new_registry.state ≡ (made, ok tt)
unfolding backup_state open_store verify_state_directory open_database_file private_file
    initialize_fresh_database initialize_all migrate_database insert remove
made_open = refl

made_no_key : (load_vault no_key false).1 ≡ err disk_full
unfolding load_vault new_vault
made_no_key = refl

failed_start_blocks_example :
    let left = (initialize kept plain first_start new_registry).0 in
    (left.state.database ≡ fresh_database kept)
    × ((initialize kept plain first_start new_registry).1 ≡ err disk_full)
    × ((initialize kept plain second_start left).1
        ≡ err (failure (codes "master key missing for existing host state")))
failed_start_blocks_example =
    failed_start_blocks kept plain first_start new_registry made disk_full second_start
      database_info (refl, refl, refl, refl, made_open, made_no_key) refl refl refl
