-- ===== src/Host/Store/Files.antt =====
-- hub/internal/host/store.go: the state directory, its lock and its files.
use visual_tmux_client.Prelude.{
  ℕ, ◌%◌, Bool, not, ◌&&◌, ◌||◌, codes, Option, none, some, if◌then◌else◌, ◌==◌, bytes_eq, nat_eq,
}
use visual_tmux_client.Host.Identity.{Error, Result, ok, err, failure, after, and_then}

-- What os.Lstat tells of a file.
pub record FileInfo : Type 0 where
  pub is_regular : Bool
  pub is_directory : Bool
  pub permissions : ℕ

-- The answer of os.Lstat: what is there, os.ErrNotExist, or another error.
pub data Lookup : Type 0 where
  found : FileInfo → Lookup
  missing : Lookup
  broken : Error → Lookup

-- info.Mode().Perm() & 0077
abbrev pub others_bits : FileInfo → ℕ
others_bits info = info.permissions % 64

-- privateFile, with the answers of Lstat and OpenFile
unfoldable pub private_file : Lookup → Option Error → Option Error
private_file (found info) open_error =
    if not info.is_regular || not (others_bits info == 0)
    then some (failure (codes "host state file must be private and regular"))
    else open_error
private_file missing open_error = open_error
private_file (broken e) open_error = some e

-- The answers of the file system and of flock to OpenStore.
pub record Answers : Type 0 where
  pub mkdir : Option Error
  pub chmod : Option Error
  pub directory : Lookup
  pub lock_file : Lookup
  pub lock_open : Option Error
  pub flock : Bool
  pub database_file : Lookup
  pub database_open : Option Error
  pub database_close : Option Error
  pub sql_open : Option Error
  pub read_database : Option Error
  pub write_backup : Option Error
  -- whether a write of the backup that fails has made or emptied the file
  pub backup_begun : Bool

abbrev pub is_private_directory : FileInfo → Bool
is_private_directory info = info.is_directory && others_bits info == 0

abbrev pub state_directory : Lookup → Result FileInfo
state_directory (found info) =
    if is_private_directory info
    then ok info
    else err (failure (codes "host state directory must be private"))
state_directory missing = err (failure (codes "no such file or directory"))
state_directory (broken e) = err e

abbrev pub store_owned : Error
store_owned = failure (codes "host state is already owned by another Hub")

unfoldable pub verify_state_directory : Answers → Result Unit
unfolding private_file
verify_state_directory a = after a.mkdir (
    after a.chmod (
      and_then (state_directory a.directory) (λ info.
        after (private_file a.lock_file a.lock_open) (if a.flock then ok tt else err store_owned))))

unfoldable pub open_database_file : Answers → Result Unit
unfolding private_file
open_database_file a =
    after (private_file a.database_file a.database_open)
      (after a.database_close (after a.sql_open (ok tt)))

-- backupState
unfoldable pub backup_state : Answers → Option Error
backup_state a = first a.read_database
  where
    first : Option Error → Option Error
    first none = a.write_backup
    first (some e) = some e
