-- ===== src/Auth/Tickets/Removal.antt =====
-- What sweeping and invalidation take away, seen by a later redemption.
use mathlib.Core.Path.{ap₂}
use visual_tmux_client.Prelude.{
  ℕ, ◌≤◌, ◌≡◌, ◌≢◌, inl, inr, refl, ap, Bool, true, false, ◌&&◌, ◌||◌, [], ◌∷◌, Option, none, some,
  Bytes, arith, ltb, leb, ◌==◌, nat_eq, bytes_eq, bytes_beq_iff, if◌then◌else◌, Bool-cases,
}
use visual_tmux_client.Prelude.Map.{lookup, prune, unless, lookup-prune, IsUnique}
use visual_tmux_client.Auth.Tickets.{
  Ticket, TicketStore, TicketError, ticket_invalid, verdict, redeem_for_target, sweep,
  invalidate_host, invalidate_connection, host_or_local, rev_or_first,
}

-- The answer of a redemption.
abbrev pub answer : TicketStore → ℕ → Bytes → Bytes → ℕ → Bytes → Option TicketError
answer s now id host rev session = (redeem_for_target s now id host rev session).1

abbrev pruned : TicketStore → (Bytes → Ticket → Bool) → TicketStore
pruned s p = record s { by_id = prune p s.by_id }

-- A redemption that would succeed on `s` is refused on `s'` exactly if its ticket was deleted, and one
-- that would fail still fails.
pub record Deletes (s s' : TicketStore) (now : ℕ) (id host : Bytes) (rev : ℕ) (session : Bytes)
    (deleted : Bool) : Type 0 where
  pub hit :
      answer s now id host rev session ≡ none
      → answer s' now id host rev session ≡ (if deleted then some ticket_invalid else none)
  pub miss : answer s now id host rev session ≢ none → answer s' now id host rev session ≢ none

verdict-missing :
    (now : ℕ) (host : Bytes) (rev : ℕ) (session : Bytes)
    → verdict none now host rev session ≡ some ticket_invalid
unfolding verdict
verdict-missing now host rev session = refl

module _ (now : ℕ) (host : Bytes) (rev : ℕ) (session : Bytes) (q : Ticket → Bool) (deleted : Bool)
    (agree : (t : Ticket) → verdict (some t) now host rev session ≡ none → q t ≡ deleted) where
  verdict-hit :
      (o : Option Ticket)
      → verdict o now host rev session ≡ none
      → verdict (unless q o) now host rev session ≡ (if deleted then some ticket_invalid else none)
  verdict-hit none h = cc (h, verdict-missing now host rev session)
  verdict-hit (some t) h = rw (agree t h) (if_same deleted (verdict-missing now host rev session) h)
    where
      if_same :
          (b : Bool)
          → verdict none now host rev session ≡ some ticket_invalid
          → verdict (some t) now host rev session ≡ none
          → verdict (if b then none else some t) now host rev session
            ≡ (if b then some ticket_invalid else none)
      if_same true e f = e
      if_same false e f = f

  verdict-miss :
      (o : Option Ticket)
      → verdict o now host rev session ≢ none
      → verdict (unless q o) now host rev session ≢ none
  verdict-miss none h = h
  verdict-miss (some t) h = elim (Bool-cases (q t)) [
    | inl e ↦ rw e (λ f. cc (f, verdict-missing now host rev session))
    | inr e ↦ rw e h
  ]

-- What an accepted ticket says.
accepted_ticket :
    (t : Ticket) (now : ℕ) (host : Bytes) (rev : ℕ) (session : Bytes)
    → verdict (some t) now host rev session ≡ none
    → (t.host_id ≡ host) × (t.connection_revision ≡ rev) × (t.session ≡ session) × (now ≤ t.expires)
unfolding verdict
accepted_ticket t now host rev session h =
    ground (arith, bytes_beq_iff t.host_id host, bytes_beq_iff t.session session)

prune-Deletes :
    (s : TicketStore) (p : Bytes → Ticket → Bool) (now : ℕ) (id host : Bytes) (rev : ℕ)
    (session : Bytes) (deleted : Bool)
    → IsUnique s.by_id
    → ((t : Ticket)
        → verdict (some t) now (host_or_local host) (rev_or_first rev) session ≡ none
        → p id t ≡ deleted)
    → Deletes s (pruned s p) now id host rev session deleted
unfolding redeem_for_target
prune-Deletes s p now [] host rev session deleted u agree = record {
  hit = λ h. cc;
  miss = λ h e. cc;
}
prune-Deletes s p now (x ∷ id) host rev session deleted u agree =
    let h' = host_or_local host in
    let r' = rev_or_first rev in
    let o = lookup (x ∷ id) s.by_id in
    record {
      hit = λ h.
          rw (lookup-prune p (x ∷ id) s.by_id u)
            (verdict-hit now h' r' session (p (x ∷ id)) deleted agree o h);
      miss = λ h.
          rw (lookup-prune p (x ∷ id) s.by_id u)
            (verdict-miss now h' r' session (p (x ∷ id)) deleted agree o h);
    }

-- `Sweep` changes no later redemption: what it deletes had expired.
pub sweep-Deletes :
    (s : TicketStore) (swept now : ℕ) (id host : Bytes) (rev : ℕ) (session : Bytes)
    → IsUnique s.by_id
    → swept ≤ now
    → Deletes s (sweep s swept) now id host rev session false
unfolding sweep
sweep-Deletes s swept now id host rev session u le =
    prune-Deletes s (λ i t. ltb t.expires swept) now id host rev session false u
      (λ t h. unfold verdict in ground arith)

-- After `InvalidateHost`, the redemptions that would have succeeded for the host find no ticket, and
-- those for other hosts succeed as before.
pub invalidate_host-Deletes :
    (s : TicketStore) (gone : Bytes) (now : ℕ) (id host : Bytes) (rev : ℕ) (session : Bytes)
    → IsUnique s.by_id
    → Deletes s (invalidate_host s gone) now id host rev session (host_or_local host == gone)
unfolding invalidate_host
invalidate_host-Deletes s gone now id host rev session u =
    prune-Deletes s (λ i t. t.host_id == gone) now id host rev session (host_or_local host == gone)
      u
      (λ t h.
        ap (λ (b : Bytes). b == gone)
          (accepted_ticket t now (host_or_local host) (rev_or_first rev) session h).0)

-- After `InvalidateConnection`, the redemptions that would have succeeded for the host at the old
-- revision or an earlier one (at any, if it is 0) find no ticket, and all others succeed as before.
pub invalidate_connection-Deletes :
    (s : TicketStore) (gone : Bytes) (old now : ℕ) (id host : Bytes) (rev : ℕ) (session : Bytes)
    → IsUnique s.by_id
    → Deletes s
        (invalidate_connection s gone old)
        now
        id
        host
        rev
        session
        (host_or_local host == gone && (old == 0 || leb (rev_or_first rev) old))
unfolding invalidate_connection
invalidate_connection-Deletes s gone old now id host rev session u =
    prune-Deletes s (λ i t. t.host_id == gone && (old == 0 || leb t.connection_revision old)) now id
      host rev session (host_or_local host == gone && (old == 0 || leb (rev_or_first rev) old)) u
      (λ t h.
        let (e, f, _, _) =
          accepted_ticket t now (host_or_local host) (rev_or_first rev) session h in
        ap₂ (λ (b : Bytes) (r : ℕ). b == gone && (old == 0 || leb r old)) e f)
