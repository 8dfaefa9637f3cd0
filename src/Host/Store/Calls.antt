-- ===== src/Host/Store/Calls.antt =====
-- hub/internal/host/store.go: histories of calls that change the database.
use visual_tmux_client.Prelude.{ℕ, Bytes, Option, List, [], ◌∷◌}
use visual_tmux_client.Host.Store.{Record, PendingCleanup, Codec, Database, Driver}
use visual_tmux_client.Host.Store.Hosts.{put}
use visual_tmux_client.Host.Store.Removal.{delete}
use visual_tmux_client.Host.Store.Settings.{update_default_host}
use visual_tmux_client.Host.Store.Cleanups.{add_pending_cleanup, remove_pending_cleanup}

-- A call, with its arguments and what the driver reports during it.
pub data Call : Type 0 where
  put_call : Driver → Record → ℕ → Call
  delete_call : Driver → Bytes → ℕ → Call
  default_call : Driver → Option Bytes → ℕ → Call
  add_call : Driver → ℕ → PendingCleanup → Call
  remove_call : Driver → Bytes → Call

module _ {B : Type 0} (json : Codec B) where
  unfoldable pub call : Call → Database B → Database B
  unfolding put delete update_default_host add_pending_cleanup remove_pending_cleanup
  call (put_call d r expected) db = (put json d r expected db).0
  call (delete_call d id expected) db = (delete json d id expected db).0
  call (default_call d id expected) db = (update_default_host d id expected db).0
  call (add_call d now c) db = (add_pending_cleanup d now c db).0
  call (remove_call d id) db = (remove_pending_cleanup d id db).0

  unfoldable pub run_calls : List Call → Database B → Database B
  unfolding call
  run_calls [] db = db
  run_calls (c ∷ calls) db = run_calls calls (call c db)

  -- What every call keeps, every history keeps.
  pub run_calls-induction :
      (P : Database B → Type 0)
      → ((c : Call) (db : Database B) → P db → P (call c db))
      → (calls : List Call) (db : Database B) → P db
      → P (run_calls calls db)
  unfolding run_calls
  run_calls-induction P step [] db h = h
  run_calls-induction P step (c ∷ calls) db h =
      run_calls-induction P step calls (call c db) (step c db h)
