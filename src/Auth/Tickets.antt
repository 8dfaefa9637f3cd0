-- ===== src/Auth/Tickets.antt =====
-- hub/internal/auth/tickets.go. The clock and the token that the random source makes are arguments;
-- times and the lifetime are numbers of nanoseconds. A call is one critical section.
pub mod Once
pub mod Removal
use visual_tmux_client.Prelude.{
  ℕ, ◌+◌, Bool, true, false, not, ◌&&◌, ◌||◌, List, [], ◌∷◌, Option, none, some, Bytes, codes,
  length, ltb, leb, ◌==◌, nat_eq, bytes_eq, is_empty, if◌then◌else◌,
}
use visual_tmux_client.Prelude.Map.{lookup, insert, remove, prune}
use visual_tmux_client.Auth.Token.{
  Source, TokenError, Token, token, failed, random_token, ticket_entropy_bytes,
}

pub record Ticket : Type 0 where
  pub host_id : Bytes
  pub connection_revision : ℕ
  pub session : Bytes
  pub expires : ℕ

pub record TicketStore : Type 0 where
  pub by_id : List (Bytes × Ticket)
  pub ttl : ℕ

pub data TicketError : Type 0 where
  ticket_invalid ticket_expired ticket_mismatch ticket_host_mismatch ticket_superseded : TicketError

unfoldable pub new_ticket_store : ℕ → TicketStore
new_ticket_store ttl = record { by_id = []; ttl = ttl }

abbrev pub local_id : Bytes
local_id = codes "local"

-- An empty host is the local one, and revision 0 is revision 1.
abbrev pub host_or_local : Bytes → Bytes
host_or_local host = if is_empty host then local_id else host

abbrev pub rev_or_first : ℕ → ℕ
rev_or_first rev = if rev == 0 then 1 else rev

pub data Issued : Type 0 where
  issued : Bytes → ℕ → Issued
  not_issued : TokenError → Issued

issue_token : TicketStore → ℕ → Bytes → ℕ → Bytes → Token → TicketStore × Issued
issue_token s now host rev session (failed e) = (s, not_issued e)
issue_token s now host rev session (token id) =
    let t : Ticket = record {
      host_id = host;
      connection_revision = rev;
      session = session;
      expires = now + s.ttl;
    } in
    (record s { by_id = insert id t s.by_id }, issued id (now + s.ttl))

unfoldable pub issue_for_target :
    Source → TicketStore → ℕ → Bytes → ℕ → Bytes → TicketStore × Issued
unfolding issue_token random_token
issue_for_target src s now host rev session =
    issue_token s now (host_or_local host) (rev_or_first rev) session
      (random_token src ticket_entropy_bytes)

unfoldable pub issue : Source → TicketStore → ℕ → Bytes → TicketStore × Issued
issue src s now session = issue_for_target src s now local_id 1 session

-- The checks of a ticket that was found, `none` where there is no error.
unfoldable pub verdict : Option Ticket → ℕ → Bytes → ℕ → Bytes → Option TicketError
verdict none now host rev session = some ticket_invalid
verdict (some t) now host rev session =
    if ltb t.expires now
    then some ticket_expired
    else if not (t.host_id == host)
    then some ticket_host_mismatch
    else if not (t.connection_revision == rev)
    then some ticket_superseded
    else if not (t.session == session)
    then some ticket_mismatch
    else none

unfoldable pub redeem_for_target :
    TicketStore → ℕ → Bytes → Bytes → ℕ → Bytes → TicketStore × Option TicketError
unfolding verdict
redeem_for_target s now id host rev session = if is_empty id then (s, some ticket_invalid) else (
  record s { by_id = remove id s.by_id },
  verdict (lookup id s.by_id) now (host_or_local host) (rev_or_first rev) session,
)

unfoldable pub redeem : TicketStore → ℕ → Bytes → Bytes → TicketStore × Option TicketError
redeem s now id session = redeem_for_target s now id local_id 1 session

unfoldable pub sweep : TicketStore → ℕ → TicketStore
sweep s now = record s { by_id = prune (λ id t. ltb t.expires now) s.by_id }

-- The loop of `RunSweeper`: one sweep at each tick, until the context ends.
unfoldable pub run_sweeper : TicketStore → List ℕ → TicketStore
unfolding sweep
run_sweeper s [] = s
run_sweeper s (now ∷ ticks) = run_sweeper (sweep s now) ticks

unfoldable pub invalidate_host : TicketStore → Bytes → TicketStore
invalidate_host s host = record s { by_id = prune (λ id t. t.host_id == host) s.by_id }

unfoldable pub invalidate_connection : TicketStore → Bytes → ℕ → TicketStore
invalidate_connection s host old_rev = record s {
  by_id =
      prune (λ id t. t.host_id == host && (old_rev == 0 || leb t.connection_revision old_rev))
        s.by_id;
}

unfoldable pub len : TicketStore → ℕ
len s = length s.by_id
