-- ===== src/Terminal/Manager.antt =====
-- hub/internal/terminal/manager.go: the set of active attachments, the epochs of hosts, shutdown.
-- An attachment is named by its address, and `World` is the manager with what the addresses hold.
-- The callback `untrack` of every attachment is `Manager.Untrack`, as the handler sets it up.
pub mod Epochs
pub mod Closing
pub mod Endings
use visual_tmux_client.Prelude.{
  ℕ, zero, suc, ◌+◌, ◌*◌, ◌%◌, ◌^◌, Bool, true, false, not, ◌&&◌, ◌||◌, List, [], ◌∷◌, Option, none,
  some, Bytes, keep, any, length, ◌==◌, nat_eq, bytes_eq, is_empty, if◌then◌else◌,
}
use visual_tmux_client.Prelude.Int.{ℤ, pos, leb_ℤ}
use visual_tmux_client.Prelude.Map.{lookup, insert}
use visual_tmux_client.Terminal.Options.{second}
use visual_tmux_client.Terminal.Attachment.{Attachment}
use visual_tmux_client.Terminal.Attachment.Calls.{force_close, shutdown, call_all, call}

pub data Error : Type 0 where
  manager_closing host_closed context_done : Error

pub record Manager : Type 0 where
  pub attachments : List ℕ
  pub host_epochs : List (Bytes × ℕ)
  pub closing : Bool
  pub shutdown_timeout : ℤ

unfoldable pub new_manager : ℤ → Manager
new_manager timeout = record {
  attachments = [];
  host_epochs = [];
  closing = false;
  shutdown_timeout = if leb_ℤ timeout (pos 0) then pos (3 * second) else timeout;
}

abbrev pub member : ℕ → List ℕ → Bool
member id ids = any (λ j. j == id) ids

abbrev pub delete : ℕ → List ℕ → List ℕ
delete id ids = keep (λ j. not (j == id)) ids

abbrev or_zero : Option ℕ → ℕ
or_zero none = 0
or_zero (some n) = n

unfoldable pub current_epoch : Manager → Bytes → ℕ
current_epoch m host = or_zero (lookup host m.host_epochs)

unfoldable pub register : Manager → ℕ → Attachment → Manager × Option Error
register m id a =
    if m.closing
    then (m, some manager_closing)
    else if not (is_empty a.host_id) && not (a.epoch == current_epoch m a.host_id)
    then (m, some host_closed)
    else (record m { attachments = id ∷ delete id m.attachments }, none)

unfoldable pub untrack : Manager → ℕ → Manager
untrack m id = record m { attachments = delete id m.attachments }

unfoldable pub active_count : Manager → ℕ
active_count m = length m.attachments

-- uint64 wraps around.
unfoldable pub bump_epoch : Manager → Bytes → Manager
unfolding current_epoch
bump_epoch m host = record m {
  host_epochs = insert host ((current_epoch m host + 1) % 2 ^ 64) m.host_epochs;
}

pub record World : Type 0 where
  pub manager : Manager
  pub at : ℕ → Attachment

abbrev pub update : (ℕ → Attachment) → ℕ → Attachment → ℕ → Attachment
update f id a j = if id == j then a else f j

-- The attachment at `id` becomes `a`; if its `finish` ran on the way, it was untracked.
unfoldable pub settle : World → ℕ → Attachment → World
unfolding untrack
settle w id a =
    let before = w.at id in
    let m =
      if a.finished && not before.finished && a.has_untrack
      then untrack w.manager id
      else w.manager in
    record { manager = m; at = update w.at id a }

-- A loop over attachments that ends each of them.
unfoldable pub end_all : (Attachment → Attachment) → World → List ℕ → World
unfolding settle
end_all f w [] = w
end_all f w (id ∷ ids) = end_all f (settle w id (f (w.at id))) ids

abbrev pub force_close_all : World → List ℕ → World
force_close_all = end_all force_close

abbrev pub shutdown_all : World → List ℕ → World
shutdown_all = end_all shutdown

abbrev pub of_host : World → Bytes → List ℕ
of_host w host = keep (λ id. (w.at id).host_id == host) w.manager.attachments

unfoldable pub close_host : World → Bytes → World
unfolding end_all bump_epoch
close_host w host =
    force_close_all (record w { manager = bump_epoch w.manager host }) (of_host w host)

-- How the `select` of `Shutdown` ends: every goroutine has shut down its attachment, or the timer or
-- the context came first, when these attachments had been shut down.
pub data Outcome : Type 0 where
  all_done : Outcome
  timed_out cancelled : List ℕ → Outcome

unfoldable pub shutdown_manager : World → Outcome → World × Option Error
unfolding end_all
shutdown_manager w outcome =
    let ids = w.manager.attachments in
    let v = record w { manager = record (w.manager) { closing = true } } in
    elim outcome [
      | all_done ↦ (shutdown_all v ids, none)
      | timed_out early ↦
          (force_close_all (shutdown_all v (keep (λ id. member id ids) early)) ids, none)
      | cancelled early ↦ (
        force_close_all (shutdown_all v (keep (λ id. member id ids) early)) ids,
        some context_done,
      )
    ]
