-- ===== src/Host/Connection/Leasing.antt =====
-- hub/internal/host/connection.go: leases, and the configuration of a connection; ssh_auth.go. What
-- the registry and the SSH library answer are arguments.
use visual_tmux_client.Prelude.{
  ℕ, Bool, false, not, ◌&&◌, Bytes, codes, Option, none, some, if◌then◌else◌, ◌==◌, bytes_eq,
  nat_eq, is_empty,
}
use visual_tmux_client.Prelude.Map.{lookup}
use visual_tmux_client.Host.Identity.{
  Error, Result, ok, err, host_not_found, unavailable, unsupported, outcome_unknown, stale_revision,
  duplicate_local, registry_closed, failure, local_id, local_revision, and_then,
}
use visual_tmux_client.Host.Store.{Record}
use visual_tmux_client.Host.Vault.{Credentials}
use visual_tmux_client.Host.Registry.{credential_type_password, credential_type_private_key}
use visual_tmux_client.Host.Connection.{HostTarget, HostConnPool, Connections, get_pool}

-- ClientLease; without a pool it belongs to no manager.
pub record ClientLease : Type 0 where
  pub target : HostTarget
  pub pool : Option ℕ

abbrev pub revoked_pool : Option HostConnPool → Bool
revoked_pool none = false
revoked_pool (some p) = p.revoked

abbrev pub lease_revoked : Option ℕ → Connections → Bool
unfolding lookup
lease_revoked none m = false
lease_revoked (some n) m = revoked_pool (lookup n m.heap)

-- CheckValid
unfoldable pub check_valid : ClientLease → Connections → Option Error
unfolding lookup
check_valid l m = if lease_revoked l.pool m then some stale_revision else none

abbrev pub target_of : Bytes → ℕ → ℕ → HostTarget
target_of id revision connection_revision = record {
  host_id = id;
  revision = revision;
  connection_revision = connection_revision;
}

-- if connRev == 0 { connRev = target.Revision }
abbrev pub or_revision : ℕ → ℕ → ℕ
or_revision connection_revision revision =
    if connection_revision == 0 then revision else connection_revision

abbrev pub unmanaged : HostTarget → ClientLease
unmanaged t = record { target = t; pool = none }

abbrev pub lease_pool : Bytes → Record → Connections × ℕ → Connections × Result ClientLease
lease_pool id r (m, n) = (
  m,
  ok (record {
    target = target_of id r.revision (or_revision r.connection_revision r.revision);
    pool = some n;
  }),
)

abbrev pub local_lease : ClientLease
local_lease = unmanaged (target_of local_id local_revision local_revision)

-- GetCredentials answers with the zero record when it refuses.
abbrev pub lease_refused : Bytes → Error → Result ClientLease
lease_refused id unsupported = ok (unmanaged (target_of id 0 0))
lease_refused id host_not_found = if id == local_id then ok local_lease else err host_not_found
lease_refused id unavailable = err unavailable
lease_refused id outcome_unknown = err outcome_unknown
lease_refused id stale_revision = err stale_revision
lease_refused id duplicate_local = err duplicate_local
lease_refused id registry_closed = err registry_closed
lease_refused id (failure t) = err (failure t)

-- Lease; `none` is a manager without a registry
unfoldable pub lease :
    Bytes → Option (Result (Record × Credentials)) → Connections → Connections × Result ClientLease
unfolding get_pool
lease id none m = (m, if id == local_id then ok local_lease else err host_not_found)
lease id (some (err e)) m = (m, lease_refused id e)
lease id (some (ok (r, credentials))) m =
    lease_pool id r (get_pool id (or_revision r.connection_revision r.revision) m)

-- An authentication method of the SSH library.
pub data AuthMethod : Type 0 where
  password_method : Bytes → AuthMethod
  public_key_method : Bytes → AuthMethod

-- AuthMethods, with the answer of the parser of private keys
unfoldable pub auth_methods : Bytes → Credentials → Result Bytes → Result (Option AuthMethod)
unfolding credential_type_password credential_type_private_key
auth_methods kind c parsed =
    if kind == credential_type_password
    then if is_empty c.password
      then err (failure (codes "password cannot be empty"))
      else ok (some (password_method c.password))
    else if kind == credential_type_private_key
    then if is_empty c.private_key
      then err (failure (codes "private key cannot be empty"))
      else and_then parsed (λ signer. ok (some (public_key_method signer)))
    else if is_empty kind
    then ok none
    else err (failure (codes "unsupported credential type"))

-- ssh.ClientConfig with the endpoint; the host key callback is that of the pinned key.
pub record SshConfig : Type 0 where
  pub user : Bytes
  pub auth : Option AuthMethod
  pub pinned : Bytes
  pub address : Bytes
  pub port : ℕ
  pub timeout : ℕ

abbrev pub unavailable_on : {A : Type 0} → Result A → Result A
unavailable_on (ok a) = ok a
unavailable_on (err e) = err unavailable

abbrev pub config_of : Connections → ℕ → Record → Credentials → Result Bytes → Result SshConfig
unfolding auth_methods
config_of m wanted r credentials parsed =
    let actual = or_revision r.connection_revision r.revision in
    if not (wanted == 0) && not (actual == wanted)
    then err stale_revision
    else if is_empty r.host_key
    then err unavailable
    else and_then (unavailable_on (auth_methods r.credential_type credentials parsed)) (λ auth.
      ok (record {
        user = r.username;
        auth = auth;
        pinned = r.host_key;
        address = r.address;
        port = r.port;
        timeout = m.config.handshake_timeout;
      }))

-- resolveSSHConfig
unfoldable pub resolve_ssh_config :
    Connections → ℕ → Result (Record × Credentials) → Result Bytes → Result SshConfig
unfolding auth_methods
resolve_ssh_config m wanted answer parsed =
    and_then answer (λ found. config_of m wanted found.0 found.1 parsed)
