-- ===== src/Host/Connection/Tests.antt =====
-- A host that is invalidated while its control client is being dialled.
use visual_tmux_client.Prelude.{
  ℕ, ◌≡◌, refl, true, false, codes, none, some, [], ◌∷◌, any, ◌==◌, bytes_eq, nat_eq,
}
use visual_tmux_client.Prelude.Map.{lookup, insert, remove}
use visual_tmux_client.Host.Identity.{ConnectionType, ok, err, stale_revision}
use visual_tmux_client.Host.Outcome.{Ends}
use visual_tmux_client.Host.Store.{Record}
use visual_tmux_client.Host.Connection.{
  Connections, default_connection_config, fresh_pool, invalidate, revoke_pool, close_all,
  update_pool,
}
use visual_tmux_client.Host.Connection.Leasing.{ClientLease, resolve_ssh_config, revoked_pool}
use visual_tmux_client.Host.Connection.Pinning.{IsOf, resolve_ssh_config-IsOf}
use visual_tmux_client.Host.Connection.Dialing.{
  dial_succeeded, install_control, lease_control, open_dedicated, control_of,
}
use visual_tmux_client.Host.Connection.Closing.{IsRevoked, HasEnded}
use visual_tmux_client.Host.Connection.Revoking.{invalidate-Revokes, late_control}
use visual_tmux_client.Prelude.{min, ◌≤◌}
use visual_tmux_client.Host.Connection.{compute_backoff, base_backoff_duration}
use visual_tmux_client.Host.Connection.Backoff.{compute_backoff-bounds}

abbrev one_host : Connections
one_host = record {
  config = default_connection_config;
  pools = (codes "a", 0) ∷ [];
  closed = false;
  heap = (0, fresh_pool (codes "a") 1) ∷ [];
  managed = [];
  next = 1;
  ended = [];
}

abbrev held : ClientLease
held = record { target = (fresh_pool (codes "a") 1).target; pool = some 0 }

named : lookup (codes "a") one_host.pools ≡ some 0
unfolding lookup
named = refl

there : lookup 0 one_host.heap ≡ some (fresh_pool (codes "a") 1)
unfolding lookup
there = refl

nothing_ended :
    any (λ c. c == (invalidate (codes "a") one_host).next) (invalidate (codes "a") one_host).ended
    ≡ false
unfolding invalidate lookup remove revoke_pool close_all update_pool insert
nothing_ended = refl

invalidate-Revokes_example :
    (lookup (codes "a") (invalidate (codes "a") one_host).pools ≡ none)
    × IsRevoked 0 (invalidate (codes "a") one_host)
    × HasEnded none (invalidate (codes "a") one_host)
    × (lease_control held (invalidate (codes "a") one_host)
        ≡ (invalidate (codes "a") one_host, err stale_revision))
    × ((now : ℕ)
        → open_dedicated held now (invalidate (codes "a") one_host)
          ≡ (invalidate (codes "a") one_host, err stale_revision))
invalidate-Revokes_example =
    invalidate-Revokes (codes "a") 0 (fresh_pool (codes "a") 1) one_host named there held refl

late_control_example :
    let later = invalidate (codes "a") one_host in
    let (dialed, client) = dial_succeeded 0 later in
    let left = install_control 0 client dialed in
    (lookup (codes "a") left.pools ≡ none)
    × (revoked_pool (lookup 0 left.heap) ≡ true)
    × (control_of (lookup 0 left.heap) ≡ some client)
    × (any (λ c. c == client) left.ended ≡ false)
late_control_example =
    late_control (codes "a") 0 (fresh_pool (codes "a") 1) one_host named there nothing_ended

abbrev server : Record
server = record {
  id = codes "a";
  revision = 1;
  connection_revision = 1;
  name = codes "Server";
  connection_type = ConnectionType.ssh;
  address = codes "h";
  port = 22;
  username = codes "me";
  credential_type = [];
  credential = [];
  host_key = codes "key";
}

resolve_ssh_config-IsOf_example : Ends (IsOf 1 server) (
    resolve_ssh_config one_host 1
      (ok (server, record { password = []; private_key = []; passphrase = [] }))
      (ok []))
resolve_ssh_config-IsOf_example =
    resolve_ssh_config-IsOf one_host 1 server
      (record { password = []; private_key = []; passphrase = [] }) (ok [])

compute_backoff-bounds_example :
    (compute_backoff 3 30_000_000_000 ≤ 30_000_000_000)
    × (min base_backoff_duration 30_000_000_000 ≤ compute_backoff 3 30_000_000_000)
    × (compute_backoff 3 30_000_000_000 ≤ compute_backoff 4 30_000_000_000)
compute_backoff-bounds_example = compute_backoff-bounds 3 30_000_000_000
