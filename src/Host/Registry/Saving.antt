-- ===== src/Host/Registry/Saving.antt =====
-- hub/internal/host/registry.go: Save on an open store.
use visual_tmux_client.Prelude.{
  ℕ, ◌+◌, ◌%◌, ◌^◌, Bool, true, false, not, ◌||◌, Bytes, codes, [], if◌then◌else◌, ◌==◌, bytes_eq,
  nat_eq, is_empty,
}
use visual_tmux_client.Host.Identity.{
  ConnectionType, Result, ok, err, failure, stale_revision, is_local,
}
use visual_tmux_client.Host.Store.{Record, Codec, Database, Driver, default_type}
use visual_tmux_client.Host.Store.Hosts.{get_record, put}
use visual_tmux_client.Host.Store.Removal.{next_revisions}
use visual_tmux_client.Host.Trim.{trim_space}
use visual_tmux_client.Host.Vault.{Cipher}
use visual_tmux_client.Host.Registry.{
  Host, HostInput, CredentialUpdate, project, valid_host_id, has_irrelevant_local_fields,
  seal_input_credential, resolve_credential_update, resolve_host_key_update, is_ssh,
}

abbrev pub reading :
    {B A C : Type 0} → Database B → Result A → (A → Database B × Result C) → Database B × Result C
reading db (err e) f = (db, err e)
reading db (ok a) f = f a

-- if err := r.store.Put(…); err != nil { return Host{}, err }; return project(newRecord), nil
abbrev pub projected : {B : Type 0} → Record → Database B × Result Unit → Database B × Result Host
unfolding project
projected r (db, err e) = (db, err e)
projected r (db, ok u) = (db, ok (project r))

-- The connection type of a new host.
abbrev pub new_type : HostInput → ConnectionType → ConnectionType
new_type i ConnectionType.blank =
    if not (is_empty i.address) || not (is_empty i.credential_type)
    then ConnectionType.ssh
    else ConnectionType.local
new_type i ConnectionType.local = ConnectionType.local
new_type i ConnectionType.ssh = ConnectionType.ssh
new_type i (ConnectionType.unknown t) = ConnectionType.unknown t

-- A record of a local host.
abbrev pub local_host : (id name : Bytes) → ℕ → ℕ → Record
local_host id name revision connection_revision = record {
  id = id;
  revision = revision;
  connection_revision = connection_revision;
  name = name;
  connection_type = ConnectionType.local;
  address = [];
  port = 0;
  username = [];
  credential_type = [];
  credential = [];
  host_key = [];
}

abbrev pub ssh_host :
    (id name address : Bytes)
    → ℕ
    → (username credential_type credential host_key : Bytes) → ℕ
    → ℕ
    → Record
ssh_host id name address port username kind credential host_key revision connection_revision =
    record {
      id = id;
      revision = revision;
      connection_revision = connection_revision;
      name = name;
      connection_type = ConnectionType.ssh;
      address = address;
      port = port;
      username = username;
      credential_type = kind;
      credential = credential;
      host_key = host_key;
    }

abbrev pub or_22 : ℕ → ℕ
or_22 port = if port == 0 then 22 else port

-- if trimmed == "" { trimmed = old }
abbrev pub or_old : Bytes → Bytes → Bytes
or_old trimmed old = if is_empty trimmed then old else trimmed

abbrev pub port_or : ℕ → ℕ → ℕ
port_or port old = or_22 (if port == 0 then old else port)

-- input.ConnectionType != "" && input.ConnectionType != oldConnType
abbrev pub is_change : ConnectionType → ConnectionType → Bool
is_change ConnectionType.blank old = false
is_change ConnectionType.local old = not (is_local old)
is_change ConnectionType.ssh old = not (is_ssh old)
is_change (ConnectionType.unknown t) ConnectionType.blank = true
is_change (ConnectionType.unknown t) ConnectionType.local = true
is_change (ConnectionType.unknown t) ConnectionType.ssh = true
is_change (ConnectionType.unknown t) (ConnectionType.unknown u) = not (t == u)

-- The record that saveUpdateSSH stores.
unfoldable pub updated_record : HostInput → Bytes → Record → CredentialUpdate → Record
unfolding trim_space resolve_host_key_update
updated_record i name old u =
    let address = or_old (trim_space i.address) old.address in
    let username = or_old (trim_space i.username) old.username in
    let port = port_or i.port old.port in
    let endpoint_changed = not (address == old.address) || not (port == old.port) in
    let (host_key, trust_changed) =
      resolve_host_key_update i.host_key old.host_key endpoint_changed in
    let revision = (old.revision + 1) % 2 ^ 64 in
    ssh_host i.id name address port username u.kind u.bytes host_key revision (
      if endpoint_changed || not (username == old.username) || u.changed || trust_changed
      then revision
      else old.connection_revision)

-- `drivers` are what the driver reports during the first and the second call of the store,
-- `nonce` is what rand.Read answers.
module _ {B : Type 0} (json : Codec B) (c : Cipher) (key : Bytes) (drivers : ℕ → Driver)
    (nonce : Result Bytes) where
  abbrev pub save_record : Record → ℕ → Database B → Database B × Result Host
  unfolding project put
  save_record r expected db = projected r (put json (drivers 1) r expected db)

  abbrev pub new_local : HostInput → Bytes → ℕ × ℕ → Database B → Database B × Result Host
  unfolding has_irrelevant_local_fields project put
  new_local i name (revision, connection_revision) db =
      if has_irrelevant_local_fields i
      then (db, err (failure (codes "irrelevant fields for local host")))
      else save_record (local_host i.id name revision connection_revision) 0 db

  abbrev pub new_ssh : HostInput → Bytes → ℕ × ℕ → Database B → Database B × Result Host
  unfolding trim_space seal_input_credential project put
  new_ssh i name (revision, connection_revision) db =
      if is_empty (trim_space i.address)
      then (db, err (failure (codes "host address cannot be empty")))
      else if is_empty (trim_space i.username)
      then (db, err (failure (codes "host username cannot be empty")))
      else reading db (seal_input_credential c key i.id i.credential_type i.credentials nonce)
          (λ sealed.
            save_record
              (ssh_host i.id name (trim_space i.address) (or_22 i.port) (trim_space i.username)
                i.credential_type sealed i.host_key revision connection_revision)
              0 db)

  abbrev pub new_as : ConnectionType → HostInput → Bytes → Database B → Database B × Result Host
  unfolding next_revisions has_irrelevant_local_fields trim_space seal_input_credential project put
  new_as ConnectionType.local i name db =
      reading db (next_revisions (drivers 0) i.id db) (λ revisions. new_local i name revisions db)
  new_as ConnectionType.ssh i name db =
      reading db (next_revisions (drivers 0) i.id db) (λ revisions. new_ssh i name revisions db)
  new_as ConnectionType.blank i name db = (db, err (failure (codes "invalid connection type")))
  new_as (ConnectionType.unknown t) i name db =
      (db, err (failure (codes "invalid connection type")))

  -- saveNew
  unfoldable pub save_new : HostInput → Bytes → Database B → Database B × Result Host
  unfolding next_revisions has_irrelevant_local_fields trim_space seal_input_credential project put
  save_new i name db = new_as (new_type i i.connection_type) i name db

  -- saveUpdateSSH
  unfoldable pub save_update_ssh :
      HostInput → Bytes → Record → ℕ → Database B → Database B × Result Host
  unfolding resolve_credential_update updated_record project put
  save_update_ssh i name old expected db =
      reading db (resolve_credential_update c key i old nonce)
        (λ u. save_record (updated_record i name old u) expected db)

  abbrev pub update_as :
      ConnectionType → HostInput → Bytes → Record → ℕ → Database B → Database B × Result Host
  unfolding has_irrelevant_local_fields save_update_ssh project put
  update_as kind i name old expected db =
      if is_change i.connection_type kind
      then (db, err (failure (codes "cannot change host connection type")))
      else if is_local kind
      then if has_irrelevant_local_fields i
        then (db, err (failure (codes "irrelevant fields for local host")))
        else save_record
            (local_host i.id name ((old.revision + 1) % 2 ^ 64) old.connection_revision) expected db
      else save_update_ssh i name old expected db

  -- saveUpdate
  unfoldable pub save_update : HostInput → Bytes → ℕ → Database B → Database B × Result Host
  unfolding get_record default_type has_irrelevant_local_fields save_update_ssh project put
  save_update i name expected db = reading db (get_record json (drivers 0) i.id db) (λ old.
      if not (old.revision == expected)
      then (db, err stale_revision)
      else update_as (default_type old.id old.connection_type) i name old expected db)

  -- Save on an open store
  unfoldable pub save_open : HostInput → ℕ → Database B → Database B × Result Host
  unfolding valid_host_id trim_space save_new save_update
  save_open i expected db =
      if not (valid_host_id i.id)
      then (db, err (failure (codes "invalid host identifier")))
      else if is_empty (trim_space i.name)
      then (db, err (failure (codes "host name cannot be empty")))
      else if expected == 0
      then save_new i (trim_space i.name) db
      else save_update i (trim_space i.name) expected db
