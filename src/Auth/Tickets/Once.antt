-- ===== src/Auth/Tickets/Once.antt =====
-- A ticket opens one connection.
use visual_tmux_client.Prelude.{
  ℕ, ◌+◌, ◌≤◌, ◌≡◌, ◌≢◌, inl, inr, refl, ap, Bool, not, ◌&&◌, ◌||◌, List, [], ◌∷◌, Option, none,
  some, Bytes, arith, ltb, leb, ◌==◌, ==-refl, nat_eq, bytes_eq, bytes_beq_iff, if◌then◌else◌,
  Bool-cases, Option-cases,
}
use visual_tmux_client.Prelude.Map.{lookup, prune, lookup-insert, lookup-remove, lookup-prune-none}
use visual_tmux_client.Auth.Token.{Source, Token, token, failed, random_token, ticket_entropy_bytes}
use visual_tmux_client.Auth.Tickets.{
  Ticket, TicketStore, TicketError, ticket_invalid, ticket_expired, ticket_host_mismatch,
  ticket_superseded, ticket_mismatch, Issued, issued, not_issued, new_ticket_store,
  issue_for_target, issue_token, verdict, redeem_for_target, sweep, invalidate_host,
  invalidate_connection, host_or_local, rev_or_first,
}

pub data Call : Type 0 where
  issues : Source → ℕ → Bytes → ℕ → Bytes → Call
  redeems : ℕ → Bytes → Bytes → ℕ → Bytes → Call
  sweeps : ℕ → Call
  drops_host : Bytes → Call
  drops_connection : Bytes → ℕ → Call

unfoldable pub call : TicketStore → Call → TicketStore
call s (issues src now host rev session) = (issue_for_target src s now host rev session).0
call s (redeems now id host rev session) = (redeem_for_target s now id host rev session).0
call s (sweeps now) = sweep s now
call s (drops_host host) = invalidate_host s host
call s (drops_connection host rev) = invalidate_connection s host rev

abbrev issued_as : Bytes → Issued → ℕ
issued_as id (issued j expires) = if j == id then 1 else 0
issued_as id (not_issued e) = 0

abbrev accepted : Option TicketError → ℕ
accepted none = 1
accepted (some e) = 0

-- Whether a call issues the ticket `id`, and whether it redeems it with success.
abbrev issues_it : Bytes → TicketStore → Call → ℕ
issues_it id s (issues src now host rev session) =
    issued_as id (issue_for_target src s now host rev session).1
issues_it id s _ = 0

abbrev redeems_it : Bytes → TicketStore → Call → ℕ
redeems_it id s (redeems now j host rev session) =
    if j == id then accepted (redeem_for_target s now j host rev session).1 else 0
redeems_it id s _ = 0

abbrev pub issue_count : Bytes → TicketStore → List Call → ℕ
issue_count id s [] = 0
issue_count id s (c ∷ cs) = issues_it id s c + issue_count id (call s c) cs

abbrev pub redeem_count : Bytes → TicketStore → List Call → ℕ
redeem_count id s [] = 0
redeem_count id s (c ∷ cs) = redeems_it id s c + redeem_count id (call s c) cs

abbrev one_if_some : Option Ticket → ℕ
one_if_some none = 0
one_if_some (some t) = 1

abbrev held : Bytes → TicketStore → ℕ
held id s = one_if_some (lookup id s.by_id)

held-le_one : (o : Option Ticket) → one_if_some o ≤ 1
held-le_one none = omega arith
held-le_one (some t) = omega arith

prune-held :
    (p : Bytes → Ticket → Bool) (id : Bytes) (m : List (Bytes × Ticket))
    → one_if_some (lookup id (prune p m)) ≤ one_if_some (lookup id m)
prune-held p id m = elim (Option-cases (lookup id m)) [
  | inl e ↦ rw (lookup-prune-none p id m e) (omega arith)
  | inr (t, e) ↦ rw e (held-le_one (lookup id (prune p m)))
]

issue_token-held :
    (id : Bytes) (s : TicketStore) (now : ℕ) (host : Bytes) (rev : ℕ) (session : Bytes) (t : Token)
    → held id (issue_token s now host rev session t).0
      ≤ issued_as id (issue_token s now host rev session t).1 + held id s
unfolding issue_for_target
issue_token-held id s now host rev session (failed e) = omega arith
issue_token-held id s now host rev session (token j) =
    let t : Ticket = record {
      host_id = host;
      connection_revision = rev;
      session = session;
      expires = now + s.ttl;
    } in
    rw (lookup-insert j id t s.by_id) (ground (arith, bytes_beq_iff j id))

-- Only a ticket that is there is accepted.
accepted-verdict-le :
    (o : Option Ticket) (now : ℕ) (host : Bytes) (rev : ℕ) (session : Bytes)
    → accepted (verdict o now host rev session) ≤ one_if_some o
unfolding verdict
accepted-verdict-le none now host rev session = omega arith
accepted-verdict-le (some t) now host rev session = ground arith

redeem-held :
    (id : Bytes) (s : TicketStore) (now : ℕ) (j host : Bytes) (rev : ℕ) (session : Bytes)
    → redeems_it id s (redeems now j host rev session)
        + held id (redeem_for_target s now j host rev session).0
      ≤ held id s
unfolding redeem_for_target
redeem-held id s now [] host rev session = ground arith
redeem-held id s now (x ∷ j) host rev session =
    let k : Bytes = x ∷ j in
    let le =
      accepted-verdict-le (lookup k s.by_id) now (host_or_local host) (rev_or_first rev) session in
    rw (lookup-remove k id s.by_id) (elim (Bool-cases (k == id)) [
      | inl e ↦
          let same : k ≡ id = (bytes_beq_iff k id).0 e in
          ground (arith, le, ap (λ (i : Bytes). lookup i s.by_id) same)
      | inr e ↦ rw e (omega arith)
    ])

call-held :
    (id : Bytes) (s : TicketStore) (c : Call)
    → redeems_it id s c + held id (call s c) ≤ issues_it id s c + held id s
unfolding call issue_for_target sweep invalidate_host invalidate_connection
call-held id s (issues src now host rev session) = omega (
  arith,
  issue_token-held id s now (host_or_local host) (rev_or_first rev) session
      (random_token src ticket_entropy_bytes),
)
call-held id s (redeems now j host rev session) =
    omega (arith, redeem-held id s now j host rev session)
call-held id s (sweeps now) = omega (arith, prune-held (λ i t. ltb t.expires now) id s.by_id)
call-held id s (drops_host host) = omega (arith, prune-held (λ i t. t.host_id == host) id s.by_id)
call-held id s (drops_connection host rev) = omega (
  arith,
  prune-held (λ i t. t.host_id == host && (rev == 0 || leb t.connection_revision rev)) id s.by_id,
)

calls-held :
    (id : Bytes) (s : TicketStore) (cs : List Call)
    → redeem_count id s cs ≤ issue_count id s cs + held id s
calls-held id s [] = omega arith
calls-held id s (c ∷ cs) = omega (arith, call-held id s c, calls-held id (call s c) cs)

-- Over any history of a new store, a ticket is redeemed with success at most as often as it was
-- issued, whatever targets are claimed, and whatever is swept and invalidated in between.
pub redeem_count-le-issue_count :
    (id : Bytes) (ttl : ℕ) (cs : List Call)
    → redeem_count id (new_ticket_store ttl) cs ≤ issue_count id (new_ticket_store ttl) cs
unfolding new_ticket_store lookup
redeem_count-le-issue_count id ttl cs =
    omega (arith, calls-held id (record { by_id = []; ttl = ttl }) cs)

-- A redemption uses the ticket up also when it fails: the next one finds no ticket, whatever it
-- claims.
pub redeem_twice :
    (s : TicketStore) (now later : ℕ) (id host host' : Bytes) (rev rev' : ℕ)
    (session session' : Bytes)
    → (redeem_for_target
        (redeem_for_target s now id host rev session).0
        later
        id
        host'
        rev'
        session').1
      ≡ some ticket_invalid
unfolding redeem_for_target verdict
redeem_twice s now later [] host host' rev rev' session session' = refl
redeem_twice s now later (x ∷ id) host host' rev rev' session session' =
    rw (lookup-remove (x ∷ id) (x ∷ id) s.by_id, ==-refl (x ∷ id))

redeem-issue_token :
    (s : TicketStore) (now later : ℕ) (host : Bytes) (rev : ℕ) (session : Bytes) (t : Token)
    (id : Bytes) (expires : ℕ) (host' : Bytes) (rev' : ℕ) (session' : Bytes)
    → id ≢ []
    → (issue_token s now host rev session t).1 ≡ issued id expires
    → (redeem_for_target (issue_token s now host rev session t).0 later id host' rev' session').1
      ≡ verdict
          (some (record {
            host_id = host;
            connection_revision = rev;
            session = session;
            expires = now + s.ttl;
          }))
          later
          (host_or_local host')
          (rev_or_first rev')
          session'
unfolding issue_for_target redeem_for_target
redeem-issue_token s now later host rev session (failed e) id expires host' rev' session' ne h = cc
redeem-issue_token s now later host rev session (token j) [] expires host' rev' session' ne h =
    absurd (ne refl)
redeem-issue_token s now later host rev session (token j) (x ∷ id) expires host' rev' session' ne
      h =
    let same : j ≡ x ∷ id = ground arith in
    rw (same, lookup-insert (x ∷ id) (x ∷ id), ==-refl (x ∷ id))

-- A fresh ticket is accepted for the target that it was issued for, up to its expiry; later, or for
-- another host, revision or session, it is refused, by the first of these that applies.
pub redeem-issue :
    (src : Source) (s : TicketStore) (now later : ℕ) (host host' : Bytes) (rev rev' : ℕ)
    (session session' : Bytes) (id : Bytes) (expires : ℕ)
    → id ≢ []
    → (issue_for_target src s now host rev session).1 ≡ issued id expires
    → (redeem_for_target
        (issue_for_target src s now host rev session).0
        later
        id
        host'
        rev'
        session').1
      ≡ (if ltb (now + s.ttl) later
          then some ticket_expired
          else if not (host_or_local host == host_or_local host')
          then some ticket_host_mismatch
          else if not (rev_or_first rev == rev_or_first rev')
          then some ticket_superseded
          else if not (session == session')
          then some ticket_mismatch
          else none)
unfolding issue_for_target verdict
redeem-issue src s now later host host' rev rev' session session' id expires ne h =
    redeem-issue_token s now later (host_or_local host) (rev_or_first rev) session
      (random_token src ticket_entropy_bytes) id expires host' rev' session' ne h
