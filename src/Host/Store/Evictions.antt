-- ===== src/Host/Store/Evictions.antt =====
-- hub/internal/host/store.go: how the calls on pending cleanups end.
use visual_tmux_client.Prelude.{ℕ, ◌≡◌, refl, false, Bytes, bytes_eq, if_cases}
use visual_tmux_client.Prelude.Map.{remove}
use visual_tmux_client.Host.Outcome.{Settles, ok-Ends, after-Ends, transact-Settles}
use visual_tmux_client.Host.Identity.{ok, after}
use visual_tmux_client.Host.Store.{PendingCleanup, Database, Driver}
use visual_tmux_client.Host.Store.Cleanups.{
  add_pending_cleanup, add_all, remove_pending_cleanup, with_cleanups, upsert_cleanup, evict_oldest,
  stamped, is_incomplete, evict_error, count_host,
}

module _ {B : Type 0} (driver : Driver) where
  -- What a successful AddPendingCleanup leaves.
  abbrev pub Adds : ℕ → PendingCleanup → Database B → Database B → Unit {0} → Type 0
  Adds now c db changed u =
      (is_incomplete c ≡ false)
      × (changed
          ≡ with_cleanups
              (upsert_cleanup (stamped now c) (evict_oldest c.host_id db.pending_cleanups)) db)

  pub add_pending_cleanup-Adds :
      (now : ℕ) (c : PendingCleanup) (db : Database B)
      → Settles (Adds now c db) db (add_pending_cleanup driver now c db)
  unfolding add_pending_cleanup add_all
  add_pending_cleanup-Adds now c db =
      if_cases (Settles (Adds now c db) db) (is_incomplete c) (λ incomplete. refl)
        (λ complete. transact-Settles (Adds now c db) db (add_all driver now c db) (
          after-Ends (driver 0) (
            after-Ends (driver 1) (
              after-Ends (evict_error driver (count_host c.host_id db.pending_cleanups))
                (after-Ends (driver 3) (after-Ends (driver 4) (ok-Ends (complete, refl))))))))

  abbrev pub Removes : Bytes → Database B → Database B → Unit {0} → Type 0
  Removes id db changed u = changed ≡ with_cleanups (remove id db.pending_cleanups) db

  pub remove_pending_cleanup-Removes :
      (id : Bytes) (db : Database B)
      → Settles (Removes id db) db (remove_pending_cleanup driver id db)
  unfolding remove_pending_cleanup remove
  remove_pending_cleanup-Removes id db =
      transact-Settles (Removes id db) db
        (after (driver 0) (ok (with_cleanups (remove id db.pending_cleanups) db, tt)))
        (after-Ends (driver 0) (ok-Ends refl))
