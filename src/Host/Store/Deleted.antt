-- ===== src/Host/Store/Deleted.antt =====
-- hub/internal/host/store.go: a host that was deleted is not found, and the others are.
use visual_tmux_client.Prelude.{
  ℕ, ◌≡◌, refl, ap, ◌∙◌, Bytes, none, if◌then◌else◌, ◌==◌, bytes_eq, Bool-cases, inl, inr,
}
use visual_tmux_client.Prelude.Map.{lookup, remove, lookup-remove}
use visual_tmux_client.Host.Identity.{ok, err, host_not_found}
use visual_tmux_client.Host.Outcome.{Settles-ok}
use visual_tmux_client.Host.Store.{Codec, Database, Driver, with_type}
use visual_tmux_client.Host.Store.Hosts.{get_record, raise_watermark}
use visual_tmux_client.Host.Store.Removal.{delete, clear_default}
use visual_tmux_client.Host.Store.Puts.{Deletes, delete-Deletes}

module _ {B : Type 0} (json : Codec B) where
  lookup-delete :
      (d : Driver) (id other : Bytes) (expected : ℕ) (db : Database B)
      → (delete json d id expected db).1 ≡ ok tt
      → lookup other (delete json d id expected db).0.hosts
        ≡ (if id == other then none else lookup other db.hosts)
  unfolding raise_watermark remove clear_default
  lookup-delete d id other expected db done =
      let gone : Deletes json d id expected db (delete json d id expected db).0 tt =
        Settles-ok (Deletes json d id expected db) db tt (delete json d id expected db)
          (delete-Deletes json d id expected db) done in
      ap (λ x. lookup other x.hosts) gone.3 ∙ lookup-remove id other db.hosts

  -- After a successful Delete, Get finds every other host as before and not the one that is gone.
  pub get_record-delete :
      (d d' : Driver) (id other : Bytes) (expected : ℕ) (db : Database B)
      → (delete json d id expected db).1 ≡ ok tt
      → d' 0 ≡ none
      → get_record json d' other (delete json d id expected db).0
        ≡ (if id == other then err host_not_found else get_record json d' other db)
  unfolding get_record with_type
  get_record-delete d d' id other expected db done quiet =
      rw (quiet, lookup-delete d id other expected db done)
        (elim (Bool-cases (id == other)) [ inl gone ↦ rw gone refl | inr stays ↦ rw stays refl ])
