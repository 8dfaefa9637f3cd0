-- ===== src/Host/Registry/Calls.antt =====
-- hub/internal/host/registry.go: the calls of the registry.
use visual_tmux_client.Prelude.{
  ℕ, not, ◌&&◌, Bytes, Option, none, some, List, [], ◌∷◌, if◌then◌else◌, ◌==◌, ltb, bytes_eq,
  nat_eq, is_empty,
}
use visual_tmux_client.Host.Identity.{
  Result, ok, err, host_not_found, stale_revision, unsupported, registry_closed, local_id, is_local,
  and_then,
}
use visual_tmux_client.Host.Store.{Record, PendingCleanup, Codec, Database}
use visual_tmux_client.Host.Store.Hosts.{get_record, list_records}
use visual_tmux_client.Host.Store.Removal.{delete}
use visual_tmux_client.Host.Store.Settings.{Settings, get_settings, update_default_host}
use visual_tmux_client.Host.Store.Cleanups.{
  add_pending_cleanup, remove_pending_cleanup, list_pending_cleanups,
}
use visual_tmux_client.Host.Vault.{Credentials, Cipher, open_credential}
use visual_tmux_client.Host.Registry.{Host, HostInput, project}
use visual_tmux_client.Host.Registry.Saving.{reading, save_open}
use visual_tmux_client.Host.Registry.Service.{
  Registry, Surroundings, default_host, project_all, initialize,
}

abbrev pub no_credentials : Credentials
no_credentials = record { password = []; private_key = []; passphrase = [] }

module _ {B : Type 0} where
  abbrev pub if_open : {A : Type 0} → Registry B → Option Bytes → Result A → Result A → Result A
  if_open r none unopened f = unopened
  if_open r (some key) unopened f = f

  abbrev pub with_database : Registry B → Database B → Registry B
  with_database r db = record {
    directory_known = r.directory_known;
    state = record { database = db; backups = r.state.backups; locked = r.state.locked };
    key = r.key;
    closed = r.closed;
  }

  -- What a call of the store leaves of the registry.
  abbrev pub stored : {A : Type 0} → Registry B → Database B × Result A → Registry B × Result A
  stored r (db, a) = (with_database r db, a)

  -- The vault of an open registry; without one the store is nil.
  abbrev pub with_key :
      {A : Type 0}
      → Registry B
      → Option Bytes
      → (Bytes → Registry B × Result A)
      → Registry B × Result A
  with_key r none f = (r, err host_not_found)
  with_key r (some key) f = f key

  -- if err := r.initialize(ctx); err != nil { return err }
  abbrev pub initialized :
      {A : Type 0}
      → Registry B × Result Unit
      → (Registry B → Bytes → Registry B × Result A)
      → Registry B × Result A
  initialized (r, err e) f = (r, err e)
  initialized (r, ok u) f = with_key r r.key (f r)

module _ {B : Type 0} (json : Codec B) (c : Cipher) (s : Surroundings) where
  abbrev pub list_opened : Registry B → Option Bytes → Result (List Host)
  unfolding list_records project
  list_opened r none = ok (default_host ∷ [])
  list_opened r (some key) =
      and_then (list_records json (s.calls 0) r.state.database)
        (λ records. ok (project_all records))

  -- List
  unfoldable pub list_hosts : Registry B → Result (List Host)
  unfolding list_records project
  list_hosts r = if r.closed then err registry_closed else list_opened r r.key

  abbrev pub get_opened : Bytes → Registry B → Option Bytes → Result Host
  unfolding get_record project
  get_opened id r none = if id == local_id then ok default_host else err host_not_found
  get_opened id r (some key) =
      and_then (get_record json (s.calls 0) id r.state.database) (λ found. ok (project found))

  -- Get
  unfoldable pub get_host : Bytes → Registry B → Result Host
  unfolding get_record project
  get_host id r = if r.closed then err registry_closed else get_opened id r r.key

  -- expected > 0 && rec.Revision != expected
  abbrev pub delete_current : Bytes → ℕ → Database B → Record → Database B × Result Unit
  unfolding delete
  delete_current id expected db old =
      if ltb 0 expected && not (old.revision == expected)
      then (db, err stale_revision)
      else delete json (s.calls 1) id old.revision db

  unfoldable pub delete_open : Bytes → ℕ → Database B → Database B × Result Unit
  unfolding get_record delete
  delete_open id expected db =
      reading db (get_record json (s.calls 0) id db) (delete_current id expected db)

  -- Delete
  unfoldable pub delete_host : Bytes → ℕ → Registry B → Registry B × Result Unit
  unfolding delete_open
  delete_host id expected r =
      if r.closed
      then (r, err registry_closed)
      else with_key r r.key (λ key. stored r (delete_open id expected r.state.database))

  abbrev pub open_record : Bytes → Record → Result (Record × Credentials)
  unfolding open_credential
  open_record key found =
      if is_local found.connection_type
      then err unsupported
      else if is_empty found.credential
      then ok (found, no_credentials)
      else and_then (open_credential c key found.id found.credential_type found.credential)
          (λ credentials. ok (found, credentials))

  abbrev pub credentials_opened : Bytes → Registry B → Option Bytes → Result (Record × Credentials)
  unfolding get_record open_credential
  credentials_opened id r none = err host_not_found
  credentials_opened id r (some key) =
      and_then (get_record json (s.calls 0) id r.state.database) (open_record key)

  -- GetCredentials
  unfoldable pub get_credentials : Bytes → Registry B → Result (Record × Credentials)
  unfolding get_record open_credential
  get_credentials id r = if r.closed then err registry_closed else credentials_opened id r r.key

  -- Save
  unfoldable pub save : HostInput → ℕ → Registry B → Registry B × Result Host
  unfolding initialize save_open
  save i expected r =
      if r.closed
      then (r, err registry_closed)
      else initialized (initialize json c s r)
          (λ q key. stored q (save_open json c key s.calls s.nonce i expected q.state.database))

  -- AddPendingCleanup
  unfoldable pub add_cleanup : ℕ → PendingCleanup → Registry B → Registry B × Result Unit
  unfolding initialize add_pending_cleanup
  add_cleanup now cleanup r =
      if r.closed
      then (r, err registry_closed)
      else initialized (initialize json c s r)
          (λ q key. stored q (add_pending_cleanup (s.calls 0) now cleanup q.state.database))

  abbrev pub remove_opened : Bytes → Registry B → Option Bytes → Registry B × Result Unit
  unfolding remove_pending_cleanup
  remove_opened id r none = (r, ok tt)
  remove_opened id r (some key) = stored r (remove_pending_cleanup (s.calls 0) id r.state.database)

  -- RemovePendingCleanup
  unfoldable pub remove_cleanup : Bytes → Registry B → Registry B × Result Unit
  unfolding remove_pending_cleanup
  remove_cleanup id r = if r.closed then (r, ok tt) else remove_opened id r r.key

  -- ListPendingCleanups
  unfoldable pub list_cleanups : Bytes → Registry B → Registry B × Result (List PendingCleanup)
  unfolding initialize list_pending_cleanups
  list_cleanups id r =
      if r.closed
      then (r, err registry_closed)
      else initialized (initialize json c s r)
          (λ q key. (q, list_pending_cleanups (s.calls 0) id q.state.database))

  -- GetSettings
  unfoldable pub settings : Registry B → Registry B × Result Settings
  unfolding initialize get_settings
  settings r =
      if r.closed
      then (r, err registry_closed)
      else initialized (initialize json c s r)
          (λ q key. (q, get_settings (s.calls 0) q.state.database))

  -- UpdateDefaultHost
  unfoldable pub update_default : Option Bytes → ℕ → Registry B → Registry B × Result Settings
  unfolding initialize update_default_host
  update_default id expected r =
      if r.closed
      then (r, err registry_closed)
      else initialized (initialize json c s r)
          (λ q key. stored q (update_default_host (s.calls 0) id expected q.state.database))
