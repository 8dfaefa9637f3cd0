-- ===== src/Host/Connection/Dialing.antt =====
-- hub/internal/host/connection.go: a dial in its steps, the control client, and dedicated
-- connections. What the registry, the network and the clock answer are arguments.
use visual_tmux_client.Prelude.{
  ℕ, ◌+◌, Bool, true, false, codes, Option, none, some, ◌∷◌, if◌then◌else◌, ◌==◌, ltb, bytes_eq,
  nat_eq,
}
use visual_tmux_client.Prelude.Map.{lookup, insert}
use visual_tmux_client.Host.Identity.{
  Error, Result, ok, err, failure, stale_revision, unavailable, and_then,
}
use visual_tmux_client.Host.Connection.{
  HostTarget, HostConnPool, Connections, get_pool, update_pool, record_failure, record_success,
  release, end_client, has_revision,
}
use visual_tmux_client.Host.Connection.Leasing.{ClientLease, check_valid, or_revision, revoked_pool}

abbrev pub backoff_active : ℕ → Option HostConnPool → Bool
backoff_active now none = false
backoff_active now (some p) = ltb now p.next_allowed_dial

abbrev pub dial_pool : ℕ → Connections × ℕ → Connections × Result ℕ
unfolding lookup
dial_pool now (m, n) =
    if revoked_pool (lookup n m.heap)
    then (m, err stale_revision)
    else if backoff_active now (lookup n m.heap)
    then (m, err unavailable)
    else (m, ok n)

-- dialTransport up to the semaphore: the pool that the dial is for.
unfoldable pub begin_dial : HostTarget → ℕ → Connections → Connections × Result ℕ
unfolding get_pool lookup
begin_dial t now m =
    if m.closed
    then (m, err (failure (codes "connection manager is closed")))
    else dial_pool now (get_pool t.host_id (or_revision t.connection_revision t.revision) m)

abbrev pub take_permit : HostConnPool → HostConnPool
take_permit p = record p { permits = p.permits + 1 }

abbrev pub has_permit : ℕ → Option HostConnPool → Bool
has_permit most none = false
has_permit most (some p) = ltb p.permits most

-- pool.sem.Acquire; `none` while it waits
unfoldable pub acquire : ℕ → Connections → Option Connections
unfolding update_pool lookup
acquire n m =
    if has_permit m.config.max_connections (lookup n m.heap)
    then some (update_pool take_permit n m)
    else none

-- resolveSSHConfig or the handshake has failed; only a handshake whose context is alive counts.
unfoldable pub dial_failed : ℕ → Bool → ℕ → Connections → Connections
unfolding update_pool record_failure
dial_failed n counts now m =
    if counts
    then update_pool (record_failure m.config.max_backoff now) n (update_pool release n m)
    else update_pool release n m

abbrev pub new_client : Connections → Connections
new_client m = record m { next = m.next + 1 }

-- The handshake has succeeded: the client is the next number.
unfoldable pub dial_succeeded : ℕ → Connections → Connections × ℕ
unfolding update_pool record_success
dial_succeeded n m = (update_pool record_success n (new_client m), m.next)

abbrev pub control_of : Option HostConnPool → Option ℕ
control_of none = none
control_of (some p) = p.control_client

-- Whether a call has the control client of the pool, or is to dial one for it.
pub data Control : Type 0 where
  shared : ℕ → Control
  dials : ℕ → Control

abbrev pub shared_or : Option ℕ → Control → Control
shared_or none other = other
shared_or (some client) other = shared client

abbrev pub control_in : Connections × ℕ → Connections × Result Control
unfolding lookup
control_in (m, n) =
    if revoked_pool (lookup n m.heap)
    then (m, err stale_revision)
    else (m, ok (shared_or (control_of (lookup n m.heap)) (dials n)))

-- getControl up to its group: of the calls that are to dial for a pool, one does.
unfoldable pub get_control : HostTarget → Connections → Connections × Result Control
unfolding get_pool lookup
get_control t m = control_in (get_pool t.host_id (or_revision t.connection_revision t.revision) m)

abbrev pub dial_unless : Option ℕ → HostTarget → ℕ → Connections → Connections × Result Control
unfolding begin_dial
dial_unless (some client) t now m = (m, ok (shared client))
dial_unless none t now m =
    let (later, answer) = begin_dial t now m in (later, and_then answer (λ n. ok (dials n)))

-- createControlConnection up to the semaphore of its dial; `n` is the pool it is called with
unfoldable pub begin_control : ℕ → HostTarget → ℕ → Connections → Connections × Result Control
unfolding begin_dial lookup
begin_control n t now m = dial_unless (control_of (lookup n m.heap)) t now m

abbrev pub or_stale :
    {A : Type 0} → Option Error → Connections → Connections × Result A → Connections × Result A
or_stale (some e) m answer = (m, err e)
or_stale none m answer = answer

-- ClientLease.GetControl of a lease that has a manager
unfoldable pub lease_control : ClientLease → Connections → Connections × Result Control
unfolding check_valid get_control
lease_control l m = or_stale (check_valid l m) m (get_control l.target m)

-- ClientLease.OpenDedicated of a lease that has a manager, up to the semaphore of its dial
unfoldable pub open_dedicated : ClientLease → ℕ → Connections → Connections × Result ℕ
unfolding check_valid begin_dial
open_dedicated l now m = or_stale (check_valid l m) m (begin_dial l.target now m)

abbrev pub with_control : ℕ → HostConnPool → HostConnPool
with_control client p = record p { control_client = some client; stop_keep = true }

-- createControlConnection after its dial; `n` is the pool that it was called with
unfoldable pub install_control : ℕ → ℕ → Connections → Connections
unfolding update_pool
install_control n client m = update_pool (with_control client) n m

abbrev pub is_control : ℕ → Option ℕ → Bool
is_control client none = false
is_control client (some c) = c == client

abbrev pub without_control : ℕ → HostConnPool → HostConnPool
without_control client p =
    if is_control client p.control_client
    then record p { control_client = none; stop_keep = false }
    else p

-- The goroutine on client.Wait: the client has ended by itself.
unfoldable pub control_ended : ℕ → ℕ → Connections → Connections
unfolding update_pool
control_ended n client m = update_pool (without_control client) n m

abbrev pub drop_control : ℕ → ℕ → Connections → Connections
unfolding update_pool lookup
drop_control n client m =
    if is_control client (control_of (lookup n m.heap))
    then end_client client (update_pool (without_control client) n m)
    else m

abbrev pub drop_of : ℕ → ℕ → Option ℕ → Connections → Connections
unfolding update_pool lookup
drop_of client revision none m = m
drop_of client revision (some n) m =
    if has_revision revision (lookup n m.heap) then drop_control n client m else m

-- invalidateControl
unfoldable pub invalidate_control : HostTarget → ℕ → Connections → Connections
unfolding update_pool lookup
invalidate_control t client m =
    drop_of client (or_revision t.connection_revision t.revision) (lookup t.host_id m.pools) m

-- What the loop clears: the channel stays.
abbrev pub control_lost : HostConnPool → HostConnPool
control_lost p = record p { control_client = none }

abbrev pub lose_control : ℕ → ℕ → Connections → Connections
unfolding update_pool lookup
lose_control n client m =
    if is_control client (control_of (lookup n m.heap))
    then end_client client (update_pool control_lost n m)
    else m

-- keepaliveLoop: a request has failed or timed out, or the loop was stopped; its deferred release
unfoldable pub keepalive_failed : ℕ → ℕ → Connections → Connections
unfolding update_pool lookup
keepalive_failed n client m = update_pool release n (lose_control n client m)

unfoldable pub keepalive_stopped : ℕ → Connections → Connections
unfolding update_pool
keepalive_stopped n m = update_pool release n m

abbrev pub list_dedicated : ℕ → HostConnPool → HostConnPool
list_dedicated k p = record p { dedicated = k ∷ p.dedicated }

abbrev pub add_dedicated : ℕ → ℕ → Connections × ℕ → Connections × ℕ
unfolding update_pool insert
add_dedicated permit_pool client (m, n) = (
  update_pool (list_dedicated m.next) n (record m {
    managed =
        insert m.next
          (record { client = client; pool = n; permit_pool = permit_pool; closed = false })
          m.managed;
    next = m.next + 1;
  }),
  m.next,
)

-- dialDedicated after its dial: it asks for the pool again
unfoldable pub install_dedicated : HostTarget → ℕ → ℕ → Connections → Connections × ℕ
unfolding get_pool update_pool insert
install_dedicated t permit_pool client m =
    add_dedicated permit_pool client
      (get_pool t.host_id (or_revision t.connection_revision t.revision) m)
