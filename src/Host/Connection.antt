-- ===== src/Host/Connection.antt =====
-- hub/internal/host/connection.go: the pools of connections to hosts. Pools, clients and managed
-- connections are pointers in the source, and numbers into the tables of a world here.
pub mod Config
pub mod Dialing
pub mod Leasing
pub mod Backoff
pub mod Closing
pub mod Revoking
pub mod Pinning
mod Tests
use visual_tmux_client.Prelude.{
  ℕ, suc, ◌+◌, ◌-◌, ◌*◌, ◌^◌, min, Bool, true, false, not, ◌&&◌, ◌||◌, Bytes, Option, none, some,
  List, [], ◌∷◌, ◌++◌, keep, any, if◌then◌else◌, ◌==◌, ltb, bytes_eq, nat_eq,
}
use visual_tmux_client.Prelude.Map.{lookup, insert, remove}
pub use visual_tmux_client.Host.Connection.Config.{
  ConnectionConfig, default_connection_config, max_backoff_exponent, base_backoff_duration,
}
unfoldable pub use visual_tmux_client.Host.Connection.Config.{completed_config, compute_backoff}

-- Target, of identity.go
pub record HostTarget : Type 0 where
  pub host_id : Bytes
  pub revision : ℕ
  pub connection_revision : ℕ

-- hostConnPool; `permits` are those of its semaphore that are taken, `panicked` says that more were
-- released than taken, and `stop_keep` that there is a channel controlStopKeep, which is then open.
pub record HostConnPool : Type 0 where
  pub target : HostTarget
  pub failures : ℕ
  pub next_allowed_dial : ℕ
  pub control_client : Option ℕ
  pub stop_keep : Bool
  pub dedicated : List ℕ
  pub revoked : Bool
  pub permits : ℕ
  pub panicked : Bool

-- ManagedConn; `pool` lists it, and `permit_pool` has the permit that its close gives back.
pub record ManagedConn : Type 0 where
  pub client : ℕ
  pub pool : ℕ
  pub permit_pool : ℕ
  pub closed : Bool

-- ConnectionManager with what it points to; `ended` are the clients that were closed, newest first.
pub record Connections : Type 0 where
  pub config : ConnectionConfig
  pub pools : List (Bytes × ℕ)
  pub closed : Bool
  pub heap : List (ℕ × HostConnPool)
  pub managed : List (ℕ × ManagedConn)
  pub next : ℕ
  pub ended : List ℕ

unfoldable pub new_connection_manager : ConnectionConfig → Connections
unfolding completed_config
new_connection_manager c = record {
  config = completed_config c;
  pools = [];
  closed = false;
  heap = [];
  managed = [];
  next = 0;
  ended = [];
}

-- recordFailure
unfoldable pub record_failure : ℕ → ℕ → HostConnPool → HostConnPool
unfolding compute_backoff
record_failure max_backoff now p = record p {
  failures = p.failures + 1;
  next_allowed_dial = now + compute_backoff (p.failures + 1) max_backoff;
}

-- recordSuccess
unfoldable pub record_success : HostConnPool → HostConnPool
record_success p = record p { failures = 0; next_allowed_dial = 0 }

unfoldable pub update_pool : (HostConnPool → HostConnPool) → ℕ → Connections → Connections
unfolding lookup insert
update_pool f n m = updated (lookup n m.heap)
  where
    updated : Option HostConnPool → Connections
    updated none = m
    updated (some p) = record m { heap = insert n (f p) m.heap }

-- client.Close()
abbrev pub end_client : ℕ → Connections → Connections
end_client client m = record m { ended = client ∷ m.ended }

abbrev pub end_control : Option ℕ → Connections → Connections
end_control none m = m
end_control (some client) m = end_client client m

-- sem.Release(1), which panics when no permit is taken
abbrev pub release : HostConnPool → HostConnPool
release p =
    if p.permits == 0 then record p { panicked = true } else record p { permits = p.permits - 1 }

abbrev pub forget : ℕ → HostConnPool → HostConnPool
forget n p = record p { dedicated = keep (λ k. not (k == n)) p.dedicated }

abbrev pub close_found : ℕ → Option ManagedConn → Connections → Connections
unfolding update_pool insert
close_found n none m = m
close_found n (some c) m =
    if c.closed
    then m
    else update_pool release c.permit_pool (
        update_pool (forget n) c.pool (
          end_client c.client
            (record m { managed = insert n (record c { closed = true }) m.managed })))

-- ManagedConn.Close
unfoldable pub close_managed : ℕ → Connections → Connections
unfolding update_pool insert lookup
close_managed n m = close_found n (lookup n m.managed) m

unfoldable pub close_all : List ℕ → Connections → Connections
unfolding close_managed
close_all [] m = m
close_all (n ∷ ns) m = close_all ns (close_managed n m)

abbrev pub emptied : HostConnPool → HostConnPool
emptied p = record p { control_client = none; stop_keep = false; dedicated = []; revoked = true }

abbrev pub close_pool_found : ℕ → Option HostConnPool → Connections → Connections
unfolding close_all update_pool
close_pool_found n none m = m
close_pool_found n (some p) m =
    close_all p.dedicated (end_control p.control_client (update_pool emptied n m))

-- pool.revoked.Store(true); m.closePoolLocked(pool)
unfoldable pub revoke_pool : ℕ → Connections → Connections
unfolding close_all update_pool lookup
revoke_pool n m = close_pool_found n (lookup n m.heap) m

abbrev pub fresh_pool : Bytes → ℕ → HostConnPool
fresh_pool id revision = record {
  target = record { host_id = id; revision = revision; connection_revision = revision };
  failures = 0;
  next_allowed_dial = 0;
  control_client = none;
  stop_keep = false;
  dedicated = [];
  revoked = false;
  permits = 0;
  panicked = false;
}

abbrev pub add_pool : Bytes → ℕ → Connections → Connections × ℕ
unfolding insert
add_pool id revision m = (
  record m {
    pools = insert id m.next m.pools;
    heap = insert m.next (fresh_pool id revision) m.heap;
    next = m.next + 1;
  },
  m.next,
)

abbrev pub has_revision : ℕ → Option HostConnPool → Bool
has_revision revision none = false
has_revision revision (some p) = p.target.connection_revision == revision

abbrev pub pool_for : Bytes → ℕ → Option ℕ → Connections → Connections × ℕ
unfolding insert lookup revoke_pool
pool_for id revision none m = add_pool id revision m
pool_for id revision (some n) m =
    if has_revision revision (lookup n m.heap)
    then (m, n)
    else add_pool id revision (revoke_pool n m)

-- getPool
unfoldable pub get_pool : Bytes → ℕ → Connections → Connections × ℕ
unfolding insert lookup revoke_pool
get_pool id revision m = pool_for id revision (lookup id m.pools) m

abbrev pub invalidate_found : Bytes → Option ℕ → Connections → Connections
unfolding remove revoke_pool
invalidate_found id none m = m
invalidate_found id (some n) m = revoke_pool n (record m { pools = remove id m.pools })

-- Invalidate
unfoldable pub invalidate : Bytes → Connections → Connections
unfolding remove lookup revoke_pool
invalidate id m = invalidate_found id (lookup id m.pools) m

unfoldable pub revoke_all : List (Bytes × ℕ) → Connections → Connections
unfolding revoke_pool
revoke_all [] m = m
revoke_all ((id, n) ∷ pools) m = revoke_all pools (revoke_pool n m)

-- Close
unfoldable pub close_connections : Connections → Connections
unfolding revoke_all
close_connections m = revoke_all m.pools (record m { closed = true; pools = [] })
