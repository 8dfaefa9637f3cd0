-- ===== src/Terminal/Attachment/System.antt =====
-- The goroutines of one attachment: `outputPump`, `writePump`, `inputPump`, and `Start`, which runs
-- beside them. Each event is one step of one of them, or a call of the manager; the steps of a
-- goroutine that has returned, or that stands elsewhere, change nothing.
use visual_tmux_client.Prelude.{
  ℕ, zero, suc, Bool, true, false, List, [], ◌∷◌, Option, Bytes, if◌then◌else◌,
}
use visual_tmux_client.Prelude.Int.{ℤ, pos, ltb_ℤ, ◌-ℤ◌}
use visual_tmux_client.Terminal.Queue.{should_read, pop, Popped, chunk, drained, blocked}
use visual_tmux_client.Terminal.Effect.{proc_read, proc_resize, send_ready, send_binary}
use visual_tmux_client.Terminal.Attachment.{
  Attachment, Env, emit, mark_ready_and_flush, deliver, write_input, handle_control,
}
use visual_tmux_client.Terminal.Attachment.Calls.{
  Call, call, reading_ended, on_output_end, close_drained, close_failed, on_client_gone,
  shutdown_calls, force_close_calls,
}

-- `outputPump` asks the queue, or waits in `Read`, or has returned.
pub data Reader : Type 0 where
  asking reading stopped : Reader

-- `writePump` waits in `Pop`, or in `SendBinary`, or has returned.
pub data Writer : Type 0 where
  popping sending stopped : Writer

-- `Start` is about to send the ready frame, to flush, or to repaint; `shrunk` is between the two
-- calls of `Resize` in `forceRepaint`, with the size that it has read.
pub data Starter : Type 0 where
  created announced flushed started : Starter
  repainting shrunk : ℤ → ℤ → Starter

pub record System : Type 0 where
  pub att : Attachment
  pub reader : Reader
  pub writer : Writer
  pub input_open : Bool
  pub starter : Starter
  -- what the methods that end the attachment are still to call, the latest first
  pub calls : List (List Call)

unfoldable pub start : Attachment → System
start a = record {
  att = a;
  reader = Reader.asking;
  writer = Writer.popping;
  input_open = true;
  starter = created;
  calls = [];
}

pub data Message : Type 0 where
  binary text other : Bytes → Message
  gone : Message

pub data Event : Type 0 where
  -- `outputPump`: a round up to `Read`; a `Read` with no error; one with an error, and the exit code
  ask : Event
  reads : Bytes → Event
  ends : Bytes → Option ℤ → Event
  -- `writePump`: a `Pop` that returns; the outcome of `SendBinary`
  take : Event
  sends : Bool → Event
  -- `inputPump`
  message : Message → Event
  -- `Start`
  announce flush measure shrink restore : Event
  -- the manager
  shuts_down closes : Event
  -- the next call of a method that ends the attachment
  proceeds : ℕ → Event

-- A method begins: nothing of it has been called.
abbrev pub begins : List Call → System → System
begins c s = record s { calls = c ∷ s.calls }

-- `ctx.Done()`, or a queue that is closed: the pump detaches and returns.
abbrev stop_reading : System → Attachment → System
stop_reading s a = begins reading_ended (record s { att = a; reader = Reader.stopped })

unfoldable pub ask_queue : System → System
ask_queue s =
    let (q, answer) = should_read s.att.queue in
    let a = record (s.att) { queue = q } in
    if s.att.cancelled
    then stop_reading s s.att
    else if answer.closed
    then stop_reading s a
    else record s { att = a; reader = if answer.read then Reader.reading else Reader.asking }

-- `n, err := a.proc.Read(buf)`, and `deliver` if it read something.
unfoldable pub read_output : Attachment → Bytes → Attachment
read_output a [] = emit a (proc_read [])
read_output a (x ∷ b) = deliver (emit a (proc_read (x ∷ b))) (x ∷ b)

pub took : System → Attachment → Popped → System
took s a (chunk c) = record s { att = emit a (send_binary c); writer = sending }
took s a drained = begins close_drained (record s { att = a; writer = Writer.stopped })
took s a blocked = s

unfoldable pub take_chunk : System → System
unfolding took
take_chunk s = let (q, p) = pop s.att.queue in took s (record (s.att) { queue = q }) p

unfoldable pub send_result : System → Bool → System
send_result s true = record s { writer = popping }
send_result s false = begins close_failed (record s { writer = Writer.stopped })

unfoldable pub receive : Env → System → Message → System
receive env s gone = begins on_client_gone (record s { input_open = false })
receive env s (binary d) = record s { att = write_input env s.att d }
receive env s (text d) = record s { att = handle_control env s.att d }
receive env s (other d) = s

pub measured : System → System
measured s =
    if ltb_ℤ s.att.rows (pos 2)
    then record s { starter = started }
    else record s { starter = repainting s.att.cols s.att.rows }

-- `Start`, one call at a time.
unfoldable pub start_step : System → Starter → Event → System
unfolding measured
start_step s created announce = record s {
  att = emit s.att (send_ready s.att.session s.att.cols s.att.rows);
  starter = announced;
}
start_step s announced flush = record s { att = mark_ready_and_flush s.att; starter = flushed }
start_step s flushed measure = measured s
start_step s (repainting c r) shrink = record s {
  att = emit s.att (proc_resize c (r -ℤ pos 1));
  starter = shrunk c r;
}
start_step s (shrunk c r) restore = record s {
  att = emit s.att (proc_resize c r);
  starter = started;
}
start_step s _ _ = s

pub reader_step : System → Reader → Event → System
reader_step s Reader.asking ask = ask_queue s
reader_step s reading (reads b) = record s { att = read_output s.att b; reader = Reader.asking }
reader_step s reading (ends b code) =
    begins (on_output_end code) (record s { att = read_output s.att b; reader = Reader.stopped })
reader_step s _ _ = s

pub writer_step : System → Writer → Event → System
writer_step s popping take = take_chunk s
writer_step s sending (sends ok) = send_result s ok
writer_step s _ _ = s

-- The `n`-th of the methods that have begun goes one call further.
unfoldable pub proceed : ℕ → List (List Call) → Attachment → List (List Call) × Attachment
unfolding call
proceed n [] a = ([], a)
proceed zero ([] ∷ cs) a = ([] ∷ cs, a)
proceed zero ((x ∷ c) ∷ cs) a = (c ∷ cs, call x a)
proceed (suc n) (c ∷ cs) a = let (ds, b) = proceed n cs a in (c ∷ ds, b)

unfoldable pub step : Env → System → Event → System
unfolding reader_step writer_step proceed
step env s ask = reader_step s s.reader ask
step env s (reads b) = reader_step s s.reader (reads b)
step env s (ends b code) = reader_step s s.reader (ends b code)
step env s take = writer_step s s.writer take
step env s (sends ok) = writer_step s s.writer (sends ok)
step env s (message m) = if s.input_open then receive env s m else s
step env s announce = start_step s s.starter announce
step env s flush = start_step s s.starter flush
step env s measure = start_step s s.starter measure
step env s shrink = start_step s s.starter shrink
step env s restore = start_step s s.starter restore
step env s shuts_down = begins shutdown_calls s
step env s closes = begins force_close_calls s
step env s (proceeds n) =
    let (calls, a) = proceed n s.calls s.att in record s { att = a; calls = calls }

unfoldable pub run : Env → System → List Event → System
run env s [] = s
run env s (e ∷ es) = run env (step env s e) es
