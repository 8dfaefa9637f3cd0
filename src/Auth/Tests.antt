-- ===== src/Auth/Tests.antt =====
-- The theorems on tokens and tickets at concrete inputs.
use visual_tmux_client.Prelude.{◌≤◌, refl, List, [], ◌∷◌, some, bytes_eq, codes}
use visual_tmux_client.Prelude.Map.{IsUnique, lookup}
use visual_tmux_client.Auth.Token.{Source}
use visual_tmux_client.Auth.Tickets.{TicketStore, new_ticket_store}
use visual_tmux_client.Auth.Tickets.Once.{
  Call, issues, redeems, sweeps, issue_count, redeem_count, redeem_count-le-issue_count,
}

-- A source whose every buffer is the same, printed as it is.
abbrev fixed_source : Source
fixed_source = record { read = λ n. some (codes "k1"); encode = λ b. b }

abbrev history : List Call
history =
    issues fixed_source 100 (codes "h") 2 (codes "work")
    ∷ sweeps 105
    ∷ redeems 110 (codes "k1") (codes "h") 2 (codes "work")
    ∷ redeems 111 (codes "k1") (codes "h") 2 (codes "work")
    ∷ []

redeem_count-le-issue_count_example :
    redeem_count (codes "k1") (new_ticket_store 30) history
    ≤ issue_count (codes "k1") (new_ticket_store 30) history
redeem_count-le-issue_count_example = redeem_count-le-issue_count (codes "k1") 30 history

abbrev one_ticket : TicketStore
one_ticket = record {
  by_id =
      (
        codes "k1",
        record {
          host_id = codes "h";
          connection_revision = 2;
          session = codes "work";
          expires = 130;
        },
      )
      ∷ [];
  ttl = 30;
}

one_ticket-IsUnique : IsUnique one_ticket.by_id
unfolding lookup
one_ticket-IsUnique = (refl, tt)
