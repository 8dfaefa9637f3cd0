-- ===== src/Host/Registry/Trusting.antt =====
-- hub/internal/host/registry.go: a host that moves is not trusted until its key is confirmed.
use visual_tmux_client.Prelude.{
  ◌≡◌, refl, Bool, true, false, not, ◌||◌, Bytes, [], ◌==◌, bytes_eq, nat_eq,
}
use visual_tmux_client.Host.Store.{Record, default_type}
use visual_tmux_client.Host.Trim.{trim_space}
use visual_tmux_client.Host.Registry.{HostInput, CredentialUpdate, project, resolve_host_key_update}
use visual_tmux_client.Host.Registry.Saving.{updated_record, or_old, port_or}

resolve_host_key_dropped :
    (old : Bytes) (moved : Bool) → moved ≡ true → (resolve_host_key_update [] old moved).0 ≡ []
unfolding resolve_host_key_update
resolve_host_key_dropped old moved h = rw h refl

-- An update that moves a host to another address or port and names no key drops the old key, and
-- the host is shown as not trusted.
pub moved_untrusted :
    (i : HostInput) (name : Bytes) (old : Record) (u : CredentialUpdate)
    → i.host_key ≡ []
    → (not ((updated_record i name old u).address == old.address)
        || not ((updated_record i name old u).port == old.port))
      ≡ true
    → ((updated_record i name old u).host_key ≡ [])
      × ((project (updated_record i name old u)).trusted ≡ false)
unfolding updated_record project default_type
moved_untrusted i name old u keyless moved =
    let dropped : (resolve_host_key_update i.host_key old.host_key (
          not (or_old (trim_space i.address) old.address == old.address)
          || not (port_or i.port old.port == old.port))).0
        ≡ [] =
      rw keyless (resolve_host_key_dropped old.host_key _ moved) in
    (dropped, rw dropped refl)
