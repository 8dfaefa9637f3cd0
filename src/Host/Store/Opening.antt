-- ===== src/Host/Store/Opening.antt =====
-- hub/internal/host/store.go: OpenStore.
use visual_tmux_client.Prelude.{
  ℕ, Bool, true, false, codes, Option, none, some, List, if◌then◌else◌, ◌==◌, bytes_eq, nat_eq,
}
use visual_tmux_client.Prelude.Int.{ℤ, pos, ltb_ℤ, int_eq}
use visual_tmux_client.Prelude.Map.{insert, remove}
use visual_tmux_client.Host.Identity.{Error, Result, ok, err, failure, after, and_then}
use visual_tmux_client.Host.Store.{Record, Codec, Database, Driver}
use visual_tmux_client.Host.Store.Fresh.{initialize_fresh_database}
use visual_tmux_client.Host.Store.Files.{
  Answers, verify_state_directory, open_database_file, backup_state,
}
use visual_tmux_client.Host.Store.Migration.{migrate_database}

-- A file hosts.db.vN.bak: a copy of the database, or what a write that failed left of one.
pub data Backup (B : Type 0) : Type 0 where
  copy : Database B → Backup B
  partial : Backup B

-- The state directory as OpenStore leaves it: the database, the backups by their versions, and
-- whether the process holds the lock.
pub record Directory (B : Type 0) : Type 0 where
  pub database : Database B
  pub backups : List (ℤ × Backup B)
  pub locked : Bool

module _ {B : Type 0} (json : Codec B) where
  -- `made` are the backups on success, `kept` what is left of them on failure.
  abbrev pub opened :
      List (ℤ × Backup B)
      → List (ℤ × Backup B)
      → Database B × Result Unit
      → Directory B × Result Unit
  opened made kept (db, ok u) = (record { database = db; backups = made; locked = true }, ok u)
  opened made kept (db, err e) = (record { database = db; backups = kept; locked = false }, err e)

  -- The deferred clean-up of a call that fails before it has made a backup.
  abbrev pub unopened : Directory B → List (ℤ × Backup B) → Error → Directory B × Result Unit
  unopened dir kept e = (record { database = dir.database; backups = kept; locked = false }, err e)

  -- What a failed backupState leaves: a database that was not read begins no file.
  abbrev pub begun : Answers → Directory B → List (ℤ × Backup B)
  unfolding insert
  begun a dir = elim (a.read_database) [
    | some e ↦ dir.backups
    | none ↦ if a.backup_begun then insert dir.database.version partial dir.backups else dir.backups
  ]

  abbrev pub backed_up : Directory B → List (ℤ × Backup B)
  unfolding insert
  backed_up dir = insert dir.database.version (copy dir.database) dir.backups

  -- A version below 2 that is not 0: it is backed up, and version 1 migrated.
  abbrev pub open_old :
      Answers
      → Driver
      → Option (Record → Option Error)
      → Option Error
      → Directory B
      → Directory B × Result Unit
  unfolding migrate_database insert remove
  open_old a driver validator none dir =
      if dir.database.version == pos 1
      then opened (backed_up dir) (remove dir.database.version (backed_up dir))
          (migrate_database json driver validator dir.database)
      else opened (backed_up dir) (backed_up dir) (dir.database, ok tt)
  open_old a driver validator (some e) dir = unopened dir (begun a dir) e

  abbrev pub open_version :
      Answers
      → Driver
      → Option (Record → Option Error)
      → ℕ
      → Directory B
      → Directory B × Result Unit
  unfolding backup_state initialize_fresh_database migrate_database insert remove
  open_version a driver validator tables dir =
      if ltb_ℤ (pos 2) dir.database.version
      then unopened dir dir.backups (failure (codes "unsupported host state schema"))
      else if dir.database.version == pos 0
      then opened dir.backups dir.backups
          (initialize_fresh_database json driver tables dir.database)
      else if ltb_ℤ dir.database.version (pos 2)
      then open_old a driver validator (backup_state a) dir
      else opened dir.backups dir.backups (dir.database, ok tt)

  abbrev pub ready : Result Unit → Result Unit → Option Error → Result Unit
  ready lock file version = and_then lock (λ u. and_then file (λ v. after version (ok tt)))

  abbrev pub open_when :
      Result Unit
      → Answers
      → Driver
      → Option (Record → Option Error)
      → ℕ
      → Directory B
      → Directory B × Result Unit
  open_when (ok u) a driver validator tables dir = open_version a driver validator tables dir
  open_when (err e) a driver validator tables dir = unopened dir dir.backups e

  -- OpenStore
  unfoldable pub open_store :
      Answers
      → Driver
      → Option (Record → Option Error)
      → ℕ
      → Directory B
      → Directory B × Result Unit
  unfolding verify_state_directory open_database_file
  open_store a driver validator tables dir =
      open_when (ready (verify_state_directory a) (open_database_file a) (driver 0)) a driver
        validator tables dir
