-- ===== src/Host/Store/Settings.antt =====
-- hub/internal/host/store.go: GetSettings and UpdateDefaultHost.
use visual_tmux_client.Prelude.{
  ℕ, ◌+◌, ◌%◌, ◌^◌, Bool, true, false, not, ◌||◌, Bytes, Option, none, some, if◌then◌else◌, ◌==◌,
  bytes_eq, is_empty, nat_eq,
}
use visual_tmux_client.Prelude.Map.{lookup}
use visual_tmux_client.Host.Identity.{
  Error, Result, ok, err, host_not_found, stale_revision, after, and_then,
}
use visual_tmux_client.Host.Store.{Row, SettingsRow, Database, Driver, transact}

-- Settings
pub record Settings : Type 0 where
  pub default_host_id : Option Bytes
  pub revision : ℕ

-- if defaultHost.Valid && defaultHost.String != ""
abbrev pub set_id : Option Bytes → Option Bytes
set_id none = none
set_id (some id) = if is_empty id then none else some id

abbrev pub settings_of : Option SettingsRow → Settings
settings_of none = record { default_host_id = none; revision = 1 }
settings_of (some row) = record {
  default_host_id = set_id row.default_host_id;
  revision = row.revision;
}

-- SELECT revision FROM settings WHERE id = 1, or the row that is inserted when there is none
abbrev pub current_row : Option SettingsRow → SettingsRow
current_row none = record { default_host_id = none; revision = 1 }
current_row (some row) = row

module _ (driver : Driver) where
  -- The row is inserted when there is none.
  abbrev pub insert_error : Option SettingsRow → Option Error
  insert_error none = driver 2
  insert_error (some row) = none

module _ {B : Type 0} where
  abbrev pub is_host : Option (Row B) → Bool
  is_host none = false
  is_host (some row) = true

  abbrev pub with_settings : Option Bytes → ℕ → Database B → Database B
  with_settings target revision db = record {
    version = db.version;
    hosts = db.hosts;
    settings = some (record { default_host_id = target; revision = revision });
    metadata = db.metadata;
    watermarks = db.watermarks;
    pending_cleanups = db.pending_cleanups;
  }

module _ {B : Type 0} (driver : Driver) where
  -- GetSettings
  unfoldable pub get_settings : Database B → Result Settings
  get_settings db = after (driver 0) (ok (settings_of db.settings))

  -- The host that is named must exist; the statement counts it.
  abbrev pub known_host : Option Bytes → Database B → Result (Option Bytes)
  unfolding lookup
  known_host none db = ok none
  known_host (some id) db =
      if is_empty id
      then ok none
      else after (driver 3)
          (if is_host (lookup id db.hosts) then ok (some id) else err host_not_found)

  unfoldable pub set_default : Option Bytes → ℕ → ℕ → Database B → Result (Database B × Settings)
  set_default id expected current db =
      if expected == 0 || not (current == expected)
      then err stale_revision
      else and_then (known_host id db) (λ target.
        let next = (current + 1) % 2 ^ 64 in
        after (driver 4) (
          after (driver 5) (
            after (driver 6) (
              ok
                (with_settings target next db, record { default_host_id = id; revision = next })))))

  -- UpdateDefaultHost
  unfoldable pub update_default_host : Option Bytes → ℕ → Database B → Database B × Result Settings
  unfolding set_default
  update_default_host id expected db = transact db (
      after (driver 0) (
        after (driver 1) (
          after (insert_error driver db.settings)
            (set_default id expected (current_row db.settings).revision db))))
