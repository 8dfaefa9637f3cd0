-- ===== src/Host/Store/Removal.antt =====
-- hub/internal/host/store.go: Delete and NextRevisions.
use visual_tmux_client.Prelude.{
  ℕ, ◌+◌, ◌%◌, ◌^◌, Bool, false, Bytes, Option, none, some, List, if◌then◌else◌, ◌==◌, bytes_eq,
  nat_eq,
}
use visual_tmux_client.Prelude.Map.{lookup, remove}
use visual_tmux_client.Host.Identity.{Error, Result, ok, err, stale_revision, after, and_then}
use visual_tmux_client.Host.Store.{
  Record, Codec, Row, SettingsRow, Watermark, Database, Driver, transact,
}
use visual_tmux_client.Host.Store.Hosts.{raise_watermark}

-- The watermark of the record that Delete reads, if it can be read.
abbrev pub raised_by : Option Record → List (Bytes × Watermark) → List (Bytes × Watermark)
unfolding raise_watermark
raised_by none marks = marks
raised_by (some r) marks = raise_watermark r marks

-- UPDATE settings SET default_host_id = NULL, revision = revision + 1 WHERE default_host_id = ?
abbrev pub is_default : Bytes → Option Bytes → Bool
is_default id none = false
is_default id (some default) = default == id

unfoldable pub clear_default : Bytes → Option SettingsRow → Option SettingsRow
clear_default id none = none
clear_default id (some s) =
    if is_default id s.default_host_id
    then some (record { default_host_id = none; revision = s.revision + 1 })
    else some s

abbrev pub after_mark : Option Watermark → ℕ × ℕ
after_mark none = (1, 1)
after_mark (some w) =
    if w.revision == 0
    then (1, 1)
    else ((w.revision + 1) % 2 ^ 64, (w.connection_revision + 1) % 2 ^ 64)

module _ (driver : Driver) where
  abbrev pub raise_stored :
      Option Record → List (Bytes × Watermark) → Result (List (Bytes × Watermark))
  unfolding raise_watermark
  raise_stored none marks = ok marks
  raise_stored (some r) marks = after (driver 2) (ok (raise_watermark r marks))

module _ {B : Type 0} where
  abbrev pub without_host : Bytes → Database B → List (Bytes × Watermark) → Database B
  unfolding remove clear_default
  without_host id db marks = record {
    version = db.version;
    hosts = remove id db.hosts;
    settings = clear_default id db.settings;
    metadata = db.metadata;
    watermarks = marks;
    pending_cleanups = db.pending_cleanups;
  }

module _ {B : Type 0} (driver : Driver) where
  -- NextRevisions
  unfoldable pub next_revisions : Bytes → Database B → Result (ℕ × ℕ)
  unfolding lookup
  next_revisions id db = next_after (driver 0)
    where
      next_after : Option Error → Result (ℕ × ℕ)
      next_after none = ok (after_mark (lookup id db.watermarks))
      next_after (some e) = ok (1, 1)

module _ {B : Type 0} (json : Codec B) (driver : Driver) where
  abbrev pub delete_row : Bytes → ℕ → Database B → Option (Row B) → Result (Database B × Unit)
  delete_row id expected db none = err stale_revision
  delete_row id expected db (some row) =
      if row.revision == expected
      then and_then (raise_stored driver (json.unmarshal row.blob) db.watermarks) (λ marks.
        after (driver 3) (
          after (driver 4)
            (after (driver 5) (after (driver 6) (ok (without_host id db marks, tt))))))
      else err stale_revision

  -- From BeginTx to Commit.
  abbrev pub delete_all : Bytes → ℕ → Database B → Result (Database B × Unit)
  unfolding lookup
  delete_all id expected db =
      after (driver 0) (after (driver 1) (delete_row id expected db (lookup id db.hosts)))

  -- Delete
  unfoldable pub delete : Bytes → ℕ → Database B → Database B × Result Unit
  delete id expected db = transact db (delete_all id expected db)
