-- ===== src/Host/Registry/Service.antt =====
-- hub/internal/host/registry.go: the registry over the state directory. One call at a time, as
-- the mutex has it.
use visual_tmux_client.Prelude.{
  ℕ, Bool, true, false, not, Bytes, codes, Option, none, some, List, [], ◌∷◌, if◌then◌else◌,
  bytes_eq, nat_eq, is_empty,
}
use visual_tmux_client.Host.Identity.{
  ConnectionType, Error, Result, ok, err, failure, registry_closed, local_id, local_revision, after,
  and_then,
}
use visual_tmux_client.Host.Store.{Record, Codec, Database, Driver}
use visual_tmux_client.Host.Store.Hosts.{list_records}
use visual_tmux_client.Host.Store.Files.{Answers, Lookup, found, missing, broken}
use visual_tmux_client.Host.Store.Opening.{Directory, open_store}
use visual_tmux_client.Host.Vault.{Cipher, KeyAnswers, open_credential, load_vault}
use visual_tmux_client.Host.Registry.{Host, project}

-- Registry; the store is there when `key`, the vault's, is.
pub record Registry (B : Type 0) : Type 0 where
  pub directory_known : Bool
  pub state : Directory B
  pub key : Option Bytes
  pub closed : Bool

-- What a call of the registry finds: the answers to initialize, and what the driver reports
-- during the calls of the store.
pub record Surroundings : Type 0 where
  pub database_file : Lookup
  pub key_answers : KeyAnswers
  pub store_answers : Answers
  pub tables : ℕ
  pub opening : Driver
  pub listing : Driver
  pub calls : ℕ → Driver
  pub nonce : Result Bytes

-- The projection of the local host that List and Get return without a store.
abbrev pub default_host : Host
default_host = record {
  id = local_id;
  revision = local_revision;
  connection_revision = local_revision;
  name = codes "Local";
  connection_type = ConnectionType.local;
  address = [];
  port = 0;
  username = [];
  credential_type = [];
  has_credential = false;
  trusted = false;
}

abbrev pub project_all : List Record → List Host
unfolding project
project_all [] = []
project_all (r ∷ records) = project r ∷ project_all records

-- The error of vault.Open, if the record has a credential.
abbrev pub error_of : {A : Type 0} → Result A → Option Error
error_of (ok a) = none
error_of (err e) = some e

module _ {B : Type 0} where
  abbrev pub with_state : Registry B → Directory B → Registry B
  with_state r state = record {
    directory_known = r.directory_known;
    state = state;
    key = r.key;
    closed = r.closed;
  }

  -- store.Close() releases the lock
  abbrev pub released : Directory B → Directory B
  released d = record { database = d.database; backups = d.backups; locked = false }

module _ {B : Type 0} (json : Codec B) (c : Cipher) where
  abbrev pub credential_error : Bytes → Record → Option Error
  unfolding open_credential
  credential_error key r =
      if is_empty r.credential
      then none
      else error_of (open_credential c key r.id r.credential_type r.credential)

  abbrev pub verify_records : Bytes → List Record → Result Unit
  unfolding open_credential
  verify_records key [] = ok tt
  verify_records key (r ∷ records) = after (credential_error key r) (verify_records key records)

  -- verifyStoreCredentials
  unfoldable pub verify_store_credentials : Driver → Bytes → Database B → Result Unit
  unfolding list_records open_credential
  verify_store_credentials driver key db =
      and_then (list_records json driver db) (verify_records key)

  abbrev pub verified : Registry B → Directory B → Bytes → Result Unit → Registry B × Result Unit
  verified r d key (err e) = (with_state r (released d), err e)
  verified r d key (ok u) = (
    record { directory_known = r.directory_known; state = d; key = some key; closed = r.closed },
    ok tt,
  )

  abbrev pub with_vault :
      Surroundings → Registry B → Directory B → Result Bytes → Registry B × Result Unit
  unfolding verify_store_credentials
  with_vault s r d (err e) = (with_state r (released d), err e)
  with_vault s r d (ok key) = verified r d key (verify_store_credentials s.listing key d.database)

  -- With the vault of existing state, or a fresh one.
  abbrev pub after_open :
      Surroundings
      → Option Bytes
      → Registry B
      → Directory B × Result Unit
      → Registry B × Result Unit
  unfolding load_vault verify_store_credentials
  after_open s vault r (d, err e) = (with_state r d, err e)
  after_open s (some key) r (d, ok u) = with_vault s r d (ok key)
  after_open s none r (d, ok u) = with_vault s r d ((load_vault s.key_answers false).1)

  abbrev pub open_with_vault : Surroundings → Registry B → Result Bytes → Registry B × Result Unit
  unfolding open_store load_vault verify_store_credentials open_credential
  open_with_vault s r (err e) = (r, err e)
  open_with_vault s r (ok key) =
      after_open s (some key) r
        (open_store json s.store_answers s.opening (some (credential_error key)) s.tables r.state)

  abbrev pub initialize_at : Surroundings → Registry B → Lookup → Registry B × Result Unit
  unfolding open_store load_vault verify_store_credentials
  initialize_at s r (broken e) = (r, err e)
  initialize_at s r (found info) = open_with_vault s r ((load_vault s.key_answers true).1)
  initialize_at s r missing =
      after_open s none r (open_store json s.store_answers s.opening none s.tables r.state)

  abbrev pub initialize_unless : Surroundings → Registry B → Option Bytes → Registry B × Result Unit
  unfolding open_store load_vault verify_store_credentials
  initialize_unless s r (some key) = (r, ok tt)
  initialize_unless s r none =
      if not r.directory_known
      then (r, err (failure (codes "default host state directory unavailable")))
      else initialize_at s r s.database_file

  -- initialize
  unfoldable pub initialize : Surroundings → Registry B → Registry B × Result Unit
  unfolding open_store load_vault verify_store_credentials
  initialize s r = if r.closed then (r, err registry_closed) else initialize_unless s r r.key

  -- Close
  unfoldable pub close_registry : Registry B → Registry B
  close_registry r = record {
    directory_known = r.directory_known;
    state = released r.state;
    key = r.key;
    closed = true;
  }
