-- ===== src/Terminal/Attachment/Calls.antt =====
-- hub/internal/terminal/attachment.go: the methods that end an attachment, as the calls that they make
-- one after another. No mutex is held between two of them.
use visual_tmux_client.Prelude.{ℕ, List, [], ◌∷◌, Option, none, some, Bytes, codes}
use visual_tmux_client.Prelude.Int.{ℤ}
use visual_tmux_client.Terminal.Queue.{close_with_exit, close_abnormal, get_exit_code}
use visual_tmux_client.Terminal.Effect.{
  proc_close, proc_wait, proc_detach, send_exit, peer_close, peer_close_now,
}
use visual_tmux_client.Terminal.Attachment.{Attachment, emit, cancel, finish}

pub data Call : Type 0 where
  -- `queue.CloseAbnormal`, `queue.CloseWithExit`, `cancel`, `finish`
  closes_queue cancels finishes : Call
  closes_with : Option ℤ → Call
  -- `proc.Close`, `proc.Wait`, `proc.Detach`
  closes_process waits detaches : Call
  -- `peer.SendText` of the exit code of the queue, `peer.Close`, `peer.CloseNow`
  sends_exit drops : Call
  hangs_up : ℕ → Bytes → Call

abbrev pub status_normal_closure : ℕ
status_normal_closure = 1000

pub send_exit_code : Attachment → Option ℤ → Attachment
send_exit_code a none = a
send_exit_code a (some code) = emit a (send_exit code)

unfoldable pub call : Call → Attachment → Attachment
unfolding send_exit_code
call closes_queue a = record a { queue = close_abnormal a.queue }
call cancels a = cancel a
call finishes a = finish a
call (closes_with code) a = record a { queue = close_with_exit a.queue code }
call closes_process a = emit a proc_close
call waits a = emit a proc_wait
call detaches a = emit a proc_detach
call sends_exit a = send_exit_code a (get_exit_code a.queue)
call drops a = emit a peer_close_now
call (hangs_up status reason) a = emit a (peer_close status reason)

unfoldable pub call_all : List Call → Attachment → Attachment
unfolding call
call_all [] a = a
call_all (c ∷ cs) a = call_all cs (call c a)

-- `outputPump` when the context is done or the queue closed, and `onOutputEnd`
abbrev pub reading_ended : List Call
reading_ended = detaches ∷ waits ∷ []

abbrev pub on_output_end : Option ℤ → List Call
on_output_end code = closes_process ∷ waits ∷ closes_with code ∷ []

-- `writePump` when the queue is closed and drained, and when a chunk could not be sent
abbrev pub close_drained : List Call
close_drained = sends_exit ∷ hangs_up status_normal_closure [] ∷ finishes ∷ []

abbrev pub close_failed : List Call
close_failed = closes_queue ∷ detaches ∷ drops ∷ finishes ∷ []

abbrev pub on_client_gone : List Call
on_client_gone = closes_queue ∷ cancels ∷ detaches ∷ finishes ∷ []

abbrev pub shutdown_calls : List Call
shutdown_calls =
    closes_queue
    ∷ cancels
    ∷ detaches
    ∷ hangs_up status_normal_closure (codes "hub shutting down")
    ∷ finishes
    ∷ []

abbrev pub force_close_calls : List Call
force_close_calls = closes_queue ∷ cancels ∷ detaches ∷ drops ∷ finishes ∷ []

-- `Shutdown` and `ForceClose` as the manager sees them
unfoldable pub shutdown : Attachment → Attachment
unfolding call_all
shutdown a = call_all shutdown_calls a

unfoldable pub force_close : Attachment → Attachment
unfolding call_all
force_close a = call_all force_close_calls a
