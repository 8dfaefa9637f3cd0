-- ===== src/Host/Connection/Pinning.antt =====
-- hub/internal/host/connection.go and trust.go: which hosts are dialled, and which keys they may
-- present.
use visual_tmux_client.Prelude.{
  ℕ, ◌≡◌, ◌↔◌, refl, Bool, true, false, not, ◌&&◌, ◌||◌, Bytes, none, ◌==◌, bytes_eq, nat_eq,
  is_empty, arith, bytes_beq_iff,
}
use visual_tmux_client.Host.Identity.{Result, ok, err}
use visual_tmux_client.Host.Outcome.{Ends, ok-Ends, err-Ends, if-Ends, and_then-Ends}
use visual_tmux_client.Host.Store.{Record}
use visual_tmux_client.Host.Trust.{PublicKey, pinned_host_key}
use visual_tmux_client.Host.Vault.{Credentials}
use visual_tmux_client.Host.Connection.{Connections}
use visual_tmux_client.Host.Connection.Leasing.{
  SshConfig, or_revision, auth_methods, unavailable_on, config_of, resolve_ssh_config,
}

-- The endpoint and the key are those of the record, whose connection revision is the wanted one.
abbrev pub IsOf : ℕ → Record → SshConfig → Type 0
IsOf wanted r c =
    (c.address ≡ r.address)
    × (c.port ≡ r.port)
    × (c.user ≡ r.username)
    × (is_empty r.host_key ≡ false)
    × ((wanted == 0 || or_revision r.connection_revision r.revision == wanted) ≡ true)
    × ((key : PublicKey) → (pinned_host_key c.pinned key ≡ none) ↔ (key.marshaled ≡ r.host_key))

pinned_host_key-accepts :
    (pinned : Bytes) (key : PublicKey)
    → is_empty pinned ≡ false
    → (pinned_host_key pinned key ≡ none) ↔ (key.marshaled ≡ pinned)
unfolding pinned_host_key
pinned_host_key-accepts pinned key given =
    rw given (ground (arith, bytes_beq_iff key.marshaled pinned))

anything : {A : Type 0} (r : Result A) → Ends (λ a. Unit {0}) r
anything (ok a) = ok-Ends tt
anything (err e) = err-Ends

config_of-IsOf :
    (m : Connections) (wanted : ℕ) (r : Record) (credentials : Credentials) (parsed : Result Bytes)
    → Ends (IsOf wanted r) (config_of m wanted r credentials parsed)
unfolding auth_methods
config_of-IsOf m wanted r credentials parsed =
    if-Ends (not (wanted == 0) && not (or_revision r.connection_revision r.revision == wanted))
      (λ stale. err-Ends)
      (λ current.
        if-Ends (is_empty r.host_key) (λ unknown. err-Ends)
          (λ trusted.
            and_then-Ends
              (anything (unavailable_on (auth_methods r.credential_type credentials parsed)))
              (λ auth _. ok-Ends (
                refl,
                refl,
                refl,
                trusted,
                wanted_one (wanted == 0) (or_revision r.connection_revision r.revision == wanted)
                    current,
                λ key. pinned_host_key-accepts r.host_key key trusted,
              ))))
  where
    wanted_one : (a b : Bool) → (not a && not b) ≡ false → (a || b) ≡ true
    wanted_one a b h = ground (arith, h)

-- A connection is configured only for a host with a confirmed key whose connection revision is
-- the wanted one, goes to the stored endpoint, and accepts the confirmed key and no other.
pub resolve_ssh_config-IsOf :
    (m : Connections) (wanted : ℕ) (r : Record) (credentials : Credentials) (parsed : Result Bytes)
    → Ends (IsOf wanted r) (resolve_ssh_config m wanted (ok (r, credentials)) parsed)
unfolding resolve_ssh_config
resolve_ssh_config-IsOf m wanted r credentials parsed = config_of-IsOf m wanted r credentials parsed
