-- ===== src/Terminal/Tests.antt =====
-- The theorems on the staging buffer, the queue and the manager at concrete inputs.
use visual_tmux_client.Prelude.{
  ℕ, ◌≡◌, inl, refl, true, false, List, [], ◌∷◌, none, some, codes, arith, ◌==◌, bytes_eq, nat_eq,
  if◌then◌else◌, ◌++◌,
}
use visual_tmux_client.Prelude.Map
use visual_tmux_client.Prelude.Int.{pos}
use visual_tmux_client.Terminal.Options.{default_options}
use visual_tmux_client.Terminal.Staging.{StagingBuffer}
use visual_tmux_client.Terminal.Staging.Eviction.{Writes, write-Writes, write-IsValid}
use visual_tmux_client.Terminal.Staging.Eviction
use visual_tmux_client.Terminal.Queue.{OutputQueue}
use visual_tmux_client.Terminal.Queue.Fifo.{
  Call, pushes, asks, pops, exits, calls, all_put_in, times, calls-chunks, calls-IsValid,
  closed_drains,
}
use visual_tmux_client.Terminal.Queue.Fifo
use visual_tmux_client.Terminal.Attachment.{Attachment, new_attachment}
use visual_tmux_client.Terminal.Manager.{
  Manager, World, register, close_host, shutdown_manager, timed_out, host_closed, current_epoch,
  untrack, bump_epoch,
}
use visual_tmux_client.Terminal.Manager.Epochs.{
  enter, closes_host, untracks, enter_all, register_after_close,
}
use visual_tmux_client.Terminal.Manager.Closing.{IsLive}
use visual_tmux_client.Terminal.Manager.Endings.{
  ClosesHost, close_host-ClosesHost, ShutsDown, shutdown_manager-ShutsDown,
}

-- A buffer of 8 bytes with two chunks.
abbrev two_staged : StagingBuffer
two_staged = record { chunks = codes "abc" ∷ codes "defg" ∷ []; size = 7; cap = 8 }

two_staged-IsValid : Eviction.IsValid two_staged
two_staged-IsValid = record { counted = refl; fits = inl (omega arith) }

-- A paused queue above its low watermark.
abbrev paused_queue : OutputQueue
paused_queue = record {
  chunks = codes "abc" ∷ codes "de" ∷ [];
  bytes = 5;
  paused = true;
  closed = false;
  exit_code = none;
  high_water = 4;
  low_water = 2;
}

abbrev closed_queue : OutputQueue
closed_queue = record paused_queue { closed = true }

paused_queue-IsValid : Fifo.IsValid paused_queue
paused_queue-IsValid = record { counted = refl; no_empty = (cc, (cc, tt)) }

abbrev some_calls : List Call
some_calls = pushes (codes "f") ∷ pops ∷ asks ∷ exits (some (pos 0)) ∷ pops ∷ []

-- An attachment of the host `h`, and one of the local host.
abbrev remote_one : Attachment
remote_one = record (new_attachment default_options (codes "s") (pos 80) (pos 24) true true) {
  host_id = codes "h";
}

abbrev local_one : Attachment
local_one = new_attachment default_options (codes "t") (pos 80) (pos 24) true false

abbrev first_manager : Manager
first_manager = record {
  attachments = 1 ∷ 2 ∷ [];
  host_epochs = (codes "h", 4) ∷ [];
  closing = false;
  shutdown_timeout = pos 3;
}

abbrev attachment_at : ℕ → Attachment
attachment_at id = if id == 1 then remote_one else local_one

abbrev first_world : World
first_world = record { manager = first_manager; at = attachment_at }

first_world-IsLive : IsLive first_world
unfolding new_attachment
first_world-IsLive = record { open_ = λ id h. ground arith; reports = λ id h. ground arith }

close_host-ClosesHost_example :
    ClosesHost first_world (codes "h") (close_host first_world (codes "h"))
close_host-ClosesHost_example = close_host-ClosesHost first_world (codes "h") first_world-IsLive

shutdown_manager-ShutsDown_example :
    ShutsDown first_world (shutdown_manager first_world (timed_out (2 ∷ []))).0
shutdown_manager-ShutsDown_example =
    shutdown_manager-ShutsDown first_world (timed_out (2 ∷ [])) first_world-IsLive

abbrev stale_one : Attachment
stale_one = record remote_one { epoch = 4 }

register_after_close_example :
    register (enter_all first_manager (closes_host (codes "h") ∷ untracks 1 ∷ [])) 3 stale_one
    ≡ (enter_all first_manager (closes_host (codes "h") ∷ untracks 1 ∷ []), some host_closed)
unfolding current_epoch Map.lookup enter_all enter untrack bump_epoch
register_after_close_example =
    register_after_close first_manager (closes_host (codes "h") ∷ untracks 1 ∷ []) 3 stale_one (cc)
      (omega arith) refl (omega arith) (omega arith)

calls-chunks_example :
    (calls paused_queue some_calls).1 ++ (calls paused_queue some_calls).0.chunks
    ≡ paused_queue.chunks ++ all_put_in some_calls
calls-chunks_example = calls-chunks paused_queue some_calls
