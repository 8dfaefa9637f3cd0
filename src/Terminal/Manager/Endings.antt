-- ===== src/Terminal/Manager/Endings.antt =====
-- `CloseHost` and `Shutdown`, from what their loops do.
use visual_tmux_client.Prelude.{
  ℕ, ◌≡◌, ◌∙◌, true, false, not, ◌&&◌, List, [], some, Bytes, keep, arith, ◌==◌, nat_eq, bytes_eq,
  bytes_beq_iff,
}
use visual_tmux_client.Terminal.Attachment.{Attachment}
use visual_tmux_client.Terminal.Attachment.Calls.{force_close, shutdown}
use visual_tmux_client.Terminal.Manager.{
  Manager, World, member, end_all, of_host, close_host, bump_epoch, register, manager_closing,
  shutdown_manager, Outcome, all_done, timed_out, cancelled,
}
use visual_tmux_client.Terminal.Manager.Closing.{
  IsLive, Ends, force_close-Ends, shutdown-Ends, member-keep, end_all-IsLive, end_all-member,
  end_all-at_other, end_all-finished, end_all-closing,
}

-- What `CloseHost` of `host` makes of `w`.
pub record ClosesHost (w : World) (host : Bytes) (w' : World) : Type 0 where
  pub live : IsLive w'
  -- exactly the attachments of other hosts are still registered
  pub registered :
      (i : ℕ)
      → member i w'.manager.attachments
        ≡ (member i w.manager.attachments && not ((w.at i).host_id == host))
  pub finished :
      (i : ℕ)
      → member i w.manager.attachments ≡ true
      → (w.at i).host_id ≡ host
      → (w'.at i).finished ≡ true
  pub untouched :
      (i : ℕ)
      → ((member i w.manager.attachments && (w.at i).host_id == host) ≡ false)
      → w'.at i ≡ w.at i

-- `CloseHost` unregisters and finishes every attachment of the host, and no other; the attachments
-- of other hosts are neither closed nor changed.
pub close_host-ClosesHost :
    (w : World) (host : Bytes) → IsLive w → ClosesHost w host (close_host w host)
unfolding close_host bump_epoch
close_host-ClosesHost w host v =
    let bumped : World = record w { manager = bump_epoch w.manager host } in
    let live : IsLive bumped = record { open_ = v.open_; reports = v.reports } in
    let ids = of_host w host in
    let mine = λ (i : ℕ). member-keep i (λ j. (w.at j).host_id == host) w.manager.attachments in
    record {
      live = end_all-IsLive force_close force_close-Ends bumped ids live;
      registered = λ i.
          ground (arith, end_all-member force_close force_close-Ends bumped ids i live, mine i);
      finished = λ i h e.
          end_all-finished force_close force_close-Ends bumped ids i
            (rw (mine i) (ground (arith, bytes_beq_iff (w.at i).host_id host)));
      untouched = λ i h. end_all-at_other force_close force_close-Ends bumped ids i (rw (mine i) h);
    }

-- What `Shutdown` of the manager makes of `w`.
pub record ShutsDown (w w' : World) : Type 0 where
  pub empty : (i : ℕ) → member i w'.manager.attachments ≡ false
  pub finished : (i : ℕ) → member i w.manager.attachments ≡ true → (w'.at i).finished ≡ true
  pub refuses :
      (id : ℕ) (a : Attachment) → register w'.manager id a ≡ (w'.manager, some manager_closing)

closing_refuses :
    (m : Manager) (id : ℕ) (a : Attachment)
    → m.closing ≡ true
    → register m id a ≡ (m, some manager_closing)
unfolding register
closing_refuses m id a h = rw h

module _ (w : World) (v : IsLive w) where
  closing_world : World
  closing_world = record w { manager = record (w.manager) { closing = true } }

  closing-IsLive : IsLive closing_world
  unfolding closing_world
  closing-IsLive = record { open_ = v.open_; reports = v.reports }

  -- The loop over all attachments, after one over some of them.
  swept : (f : Attachment → Attachment) → Ends f → List ℕ → World
  swept f ends early = end_all f (end_all shutdown closing_world early) w.manager.attachments

  swept-ShutsDown :
      (f : Attachment → Attachment) (ends : Ends f) (early : List ℕ)
      → ShutsDown w (swept f ends early)
  unfolding swept closing_world
  swept-ShutsDown f ends early =
      let u = end_all shutdown closing_world early in
      let live = end_all-IsLive shutdown shutdown-Ends closing_world early closing-IsLive in
      let ids = w.manager.attachments in
      record {
        empty = λ i. ground (
          arith,
          end_all-member f ends u ids i live,
          end_all-member shutdown shutdown-Ends closing_world early i closing-IsLive,
        );
        finished = λ i h. end_all-finished f ends u ids i h;
        refuses = λ id a. closing_refuses _ id a (
            end_all-closing f ends u ids
            ∙ end_all-closing shutdown shutdown-Ends closing_world early);
      }

-- Whichever way its wait ends, `Shutdown` finishes and unregisters every attachment, and from then on
-- each registration is refused.
pub shutdown_manager-ShutsDown :
    (w : World) (outcome : Outcome) → IsLive w → ShutsDown w (shutdown_manager w outcome).0
unfolding shutdown_manager swept closing_world
shutdown_manager-ShutsDown w all_done v = swept-ShutsDown w v shutdown shutdown-Ends []
shutdown_manager-ShutsDown w (timed_out early) v =
    swept-ShutsDown w v force_close force_close-Ends
      (keep (λ id. member id w.manager.attachments) early)
shutdown_manager-ShutsDown w (cancelled early) v =
    swept-ShutsDown w v force_close force_close-Ends
      (keep (λ id. member id w.manager.attachments) early)
