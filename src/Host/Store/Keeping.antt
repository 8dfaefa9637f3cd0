-- ===== src/Host/Store/Keeping.antt =====
-- hub/internal/host/store.go: what every call keeps.
use visual_tmux_client.Prelude.{ℕ, sym, subst, Bytes, Option, bytes_eq, nat_eq, arith}
use visual_tmux_client.Prelude.Map.{remove}
use visual_tmux_client.Host.Outcome.{Settles-any}
use visual_tmux_client.Host.Store.{PendingCleanup, Codec, Database, Driver, with_type}
use visual_tmux_client.Host.Store.Hosts.{put, raise_watermark}
use visual_tmux_client.Host.Store.Removal.{delete, raised_by, clear_default}
use visual_tmux_client.Host.Store.Settings.{update_default_host}
use visual_tmux_client.Host.Store.Cleanups.{
  Cleanups, with_cleanups, add_pending_cleanup, remove_pending_cleanup,
}
use visual_tmux_client.Host.Store.Calls.{
  Call, put_call, delete_call, default_call, add_call, remove_call, call,
}
use visual_tmux_client.Host.Store.Puts.{Puts, put-Puts, Deletes, delete-Deletes}
use visual_tmux_client.Host.Store.Defaults.{Defaults, update_default_host-Defaults}
use visual_tmux_client.Host.Store.Evictions.{
  Adds, add_pending_cleanup-Adds, Removes, remove_pending_cleanup-Removes,
}
use visual_tmux_client.Host.Store.Bounds.{
  IsBounded, add_pending_cleanup-IsBounded, remove_pending_cleanup-IsBounded,
}
use visual_tmux_client.Host.Store.Sound.{IsSound, put-IsSound, delete-IsSound}
use visual_tmux_client.Host.Store.Watermarks.{
  Watermarks, Grows, Grows-trans, raise_watermark-Grows, raised_by-Grows,
}

module _ {B : Type 0} (json : Codec B) where
  default-IsSound :
      (d : Driver) (id : Option Bytes) (expected : ℕ) (db : Database B)
      → IsSound db
      → IsSound (update_default_host d id expected db).0
  default-IsSound d id expected db h =
      Settles-any IsSound (Defaults id expected db) db (update_default_host d id expected db)
        (update_default_host-Defaults d id expected db) h
        (λ changed s (_, _, names, is, _).
          subst IsSound (sym is)
            (h.0, h.1, λ row target es et. names target (ground (arith, es, et))))

  add-keeps :
      (P : Database B → Type 0) (d : Driver) (now : ℕ) (c : PendingCleanup) (db : Database B)
      → P db
      → ((cleanups : Cleanups) → P (with_cleanups cleanups db))
      → P (add_pending_cleanup d now c db).0
  add-keeps P d now c db h k =
      Settles-any P (Adds d now c db) db (add_pending_cleanup d now c db)
        (add_pending_cleanup-Adds d now c db) h (λ changed u a. subst P (sym a.1) (k _))

  remove-keeps :
      (P : Database B → Type 0) (d : Driver) (id : Bytes) (db : Database B)
      → P db
      → ((cleanups : Cleanups) → P (with_cleanups cleanups db))
      → P (remove_pending_cleanup d id db).0
  remove-keeps P d id db h k =
      Settles-any P (Removes d id db) db (remove_pending_cleanup d id db)
        (remove_pending_cleanup-Removes d id db) h (λ changed u is. subst P (sym is) (k _))

  pub call-IsSound : (c : Call) (db : Database B) → IsSound db → IsSound (call json c db)
  unfolding call
  call-IsSound (put_call d r expected) db h = put-IsSound json d r expected db h
  call-IsSound (delete_call d id expected) db h = delete-IsSound json d id expected db h
  call-IsSound (default_call d id expected) db h = default-IsSound d id expected db h
  call-IsSound (add_call d now c) db h = add-keeps IsSound d now c db h (λ cleanups. h)
  call-IsSound (remove_call d id) db h = remove-keeps IsSound d id db h (λ cleanups. h)

  -- Whatever the driver reports, put, delete and default leave the pending cleanups alone.
  pub call-IsBounded : (c : Call) (db : Database B) → IsBounded db → IsBounded (call json c db)
  unfolding call raise_watermark remove clear_default
  call-IsBounded (put_call d r expected) db h =
      Settles-any IsBounded (Puts json d expected (with_type r) db) db (put json d r expected db)
        (put-Puts json d r expected db) h (λ changed u p. subst IsBounded (sym p.0) h)
  call-IsBounded (delete_call d id expected) db h =
      Settles-any IsBounded (Deletes json d id expected db) db (delete json d id expected db)
        (delete-Deletes json d id expected db) h
        (λ changed u (_, _, _, is). subst IsBounded (sym is) h)
  call-IsBounded (default_call d id expected) db h =
      Settles-any IsBounded (Defaults id expected db) db (update_default_host d id expected db)
        (update_default_host-Defaults d id expected db) h
        (λ changed s (_, _, _, is, _). subst IsBounded (sym is) h)
  call-IsBounded (add_call d now c) db h = add_pending_cleanup-IsBounded d now c db h
  call-IsBounded (remove_call d id) db h = remove_pending_cleanup-IsBounded d id db h

  -- Watermarks that are at least those of the start.
  abbrev pub GrownFrom : Watermarks → Database B → Type 0
  GrownFrom marks db = Grows marks db.watermarks

  pub call-Grows :
      (marks : Watermarks) (c : Call) (db : Database B)
      → GrownFrom marks db
      → GrownFrom marks (call json c db)
  unfolding call raise_watermark remove clear_default
  call-Grows marks (put_call d r expected) db h =
      Settles-any (GrownFrom marks) (Puts json d expected (with_type r) db) db
        (put json d r expected db) (put-Puts json d r expected db) h
        (λ changed u p. subst (GrownFrom marks) (sym p.0) (
          Grows-trans marks db.watermarks (raise_watermark (with_type r) db.watermarks) h
            (raise_watermark-Grows (with_type r) db.watermarks)))
  call-Grows marks (delete_call d id expected) db h =
      Settles-any (GrownFrom marks) (Deletes json d id expected db) db
        (delete json d id expected db) (delete-Deletes json d id expected db) h
        (λ changed u (row, _, _, is). subst (GrownFrom marks) (sym is) (
          Grows-trans marks db.watermarks (raised_by (json.unmarshal row.blob) db.watermarks) h
            (raised_by-Grows (json.unmarshal row.blob) db.watermarks)))
  call-Grows marks (default_call d id expected) db h =
      Settles-any (GrownFrom marks) (Defaults id expected db) db
        (update_default_host d id expected db) (update_default_host-Defaults d id expected db) h
        (λ changed s (_, _, _, is, _). subst (GrownFrom marks) (sym is) h)
  call-Grows marks (add_call d now c) db h =
      add-keeps (GrownFrom marks) d now c db h (λ cleanups. h)
  call-Grows marks (remove_call d id) db h =
      remove-keeps (GrownFrom marks) d id db h (λ cleanups. h)
