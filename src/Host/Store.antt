-- ===== src/Host/Store.antt =====
-- hub/internal/host/store.go: the tables of the state database, and what a transaction leaves.
pub mod Hosts
pub mod Removal
pub mod Settings
pub mod Cleanups
pub mod Files
pub mod Fresh
pub mod Migration
pub mod Opening
pub mod Puts
pub mod Watermarks
pub mod Rows
pub mod Defaults
pub mod Evictions
pub mod Bounds
pub mod Calls
pub mod Sound
pub mod Keeping
pub mod History
pub mod Migrating
pub mod Migrated
pub mod Opened
pub mod Stored
pub mod Deleted
mod Tests
use visual_tmux_client.Prelude.Int.{ℤ}
use visual_tmux_client.Prelude.{
  ℕ, Bool, true, false, Bytes, codes, Option, none, some, List, [], if◌then◌else◌, ◌==◌, bytes_eq,
}
use visual_tmux_client.Host.Identity.{ConnectionType, Error, Result, ok, err, local_id}

pub record Record : Type 0 where
  pub id : Bytes
  pub revision : ℕ
  pub connection_revision : ℕ
  pub name : Bytes
  pub connection_type : ConnectionType
  pub address : Bytes
  pub port : ℕ
  pub username : Bytes
  pub credential_type : Bytes
  pub credential : Bytes
  pub host_key : Bytes

pub record PendingCleanup : Type 0 where
  pub id : Bytes
  pub host_id : Bytes
  pub staging_path : Bytes
  pub token : Bytes
  pub created_at : ℕ

-- encoding/json on records: what is stored is of the type `B`.
pub record Codec (B : Type 0) : Type 0 where
  pub marshal : Record → B
  pub unmarshal : B → Option Record

-- A row of the table hosts, without its primary key.
pub record Row (B : Type 0) : Type 0 where
  pub revision : ℕ
  pub connection_type : ConnectionType
  pub blob : B

-- The row of the table settings; `none` is NULL.
pub record SettingsRow : Type 0 where
  pub default_host_id : Option Bytes
  pub revision : ℕ

-- A row of the table revision_watermarks, without its primary key.
pub record Watermark : Type 0 where
  pub revision : ℕ
  pub connection_revision : ℕ

-- The file hosts.db: PRAGMA user_version and the tables, by their primary keys.
pub record Database (B : Type 0) : Type 0 where
  pub version : ℤ
  pub hosts : List (Bytes × Row B)
  pub settings : Option SettingsRow
  pub metadata : List (Bytes × Bytes)
  pub watermarks : List (Bytes × Watermark)
  pub pending_cleanups : List (Bytes × PendingCleanup)

-- What the driver reports for the statements of a call, by their position in it.
abbrev pub Driver : Type 0
Driver = ℕ → Option Error

-- BeginTx, the statements, and Commit or the deferred Rollback.
abbrev pub transact : {B A : Type 0} → Database B → Result (Database B × A) → Database B × Result A
transact db (err e) = (db, err e)
transact db (ok (changed, a)) = (changed, ok a)

-- if record.ConnectionType == "" { … }
unfoldable pub default_type : Bytes → ConnectionType → ConnectionType
default_type id ConnectionType.blank =
    if id == local_id then ConnectionType.local else ConnectionType.ssh
default_type id ConnectionType.local = ConnectionType.local
default_type id ConnectionType.ssh = ConnectionType.ssh
default_type id (ConnectionType.unknown t) = ConnectionType.unknown t

unfoldable pub with_type : Record → Record
unfolding default_type
with_type r = record {
  id = r.id;
  revision = r.revision;
  connection_revision = r.connection_revision;
  name = r.name;
  connection_type = default_type r.id r.connection_type;
  address = r.address;
  port = r.port;
  username = r.username;
  credential_type = r.credential_type;
  credential = r.credential;
  host_key = r.host_key;
}
