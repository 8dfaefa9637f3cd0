-- ===== src/Terminal/Attachment/Quiet.antt =====
-- hub/internal/terminal/attachment.go: what is still unsent while the staging buffer is not flushed, or
-- when `writePump` has returned.
use visual_tmux_client.Prelude.{
  ◌≡◌, refl, ◌∙◌, Bool, true, false, List, [], ◌∷◌, ◌++◌, append-nil, Bytes, arith, any, if_cases,
  bytes_eq,
}
use visual_tmux_client.Prelude.Int.{pos, ltb_ℤ}
use visual_tmux_client.Terminal.Staging
use visual_tmux_client.Terminal.Queue.{
  OutputQueue, should_read, pop, Popped, chunk, drained, blocked,
}
use visual_tmux_client.Terminal.Effect.{sent, sent-append, proc_read, proc_resize, send_ready}
use visual_tmux_client.Terminal.Attachment.{Attachment, Env, deliver, mark_ready_and_flush}
use visual_tmux_client.Terminal.Attachment.Calls.{
  Call, reading_ended, on_output_end, on_client_gone, shutdown_calls, force_close_calls,
}
use visual_tmux_client.Terminal.Attachment.Frame.{
  Keeps, Keeps-refl, emit-Keeps, should_read-Keeps, proceed-Keeps, write_input-Keeps,
  handle_control-Keeps,
}
use visual_tmux_client.Terminal.Attachment.System.{
  System, Reader, reading, Writer, popping, sending, Starter, created, announced, flushed, started,
  repainting, shrunk, Message, binary, text, other, gone, Event, ask, reads, ends, take, sends,
  message, announce, flush, measure, shrink, restore, shuts_down, closes, proceeds, step, run,
  ask_queue, read_output, take_chunk, took, send_result, receive, start_step, reader_step,
  writer_step,
}

-- Whether a step of `Start` flushes the staging buffer.
abbrev pub is_flush : Event → Bool
is_flush flush = true
is_flush _ = false

-- What a step leaves alone: that the peer is not ready, unless it flushes; and, when `writePump` has
-- returned, what was sent.
record IsQuiet (s t : System) (flushes : Bool) : Type 0 where
  same_ready : flushes ≡ false → t.att.ready ≡ s.att.ready
  same_sent : s.writer ≡ Writer.stopped → sent t.att.log ≡ sent s.att.log
  same_writer : s.writer ≡ Writer.stopped → t.writer ≡ Writer.stopped

unchanged : (s : System) (f : Bool) → IsQuiet s s f
unchanged s f = record { same_ready = λ _. refl; same_sent = λ _. refl; same_writer = λ w. w }

kept :
    (s : System) (a : Attachment) (r : Reader) (i : Bool) (p : Starter) (cs : List (List Call))
    (f : Bool)
    → Keeps s.att a
    → IsQuiet s
        (record { att = a; reader = r; writer = s.writer; input_open = i; starter = p; calls = cs })
        f
kept s a r i p cs f k = record {
  same_ready = λ _. k.same_ready;
  same_sent = λ _. k.same_sent;
  same_writer = λ w. w;
}

read_output-quiet :
    (a : Attachment) (b : Bytes)
    → ((read_output a b).ready ≡ a.ready) × (sent (read_output a b).log ≡ sent a.log)
unfolding read_output deliver
read_output-quiet a [] = (refl, rw (sent-append a.log (proc_read [] ∷ [])) (append-nil _))
read_output-quiet a (x ∷ b) =
    let e : sent (a.log ++ proc_read (x ∷ b) ∷ []) ≡ sent a.log =
      rw (sent-append a.log (proc_read (x ∷ b) ∷ [])) (append-nil _) in
    if_cases (λ (c : Attachment). (c.ready ≡ a.ready) × (sent c.log ≡ sent a.log)) a.ready
      (λ r. (refl, e)) (λ r. (refl, e))

reads-quiet :
    (s : System) (b : Bytes) (r : Reader) (cs : List (List Call)) (f : Bool)
    → IsQuiet s (record s { att = read_output s.att b; reader = r; calls = cs }) f
reads-quiet s b r cs f = record {
  same_ready = λ _. (read_output-quiet s.att b).0;
  same_sent = λ _. (read_output-quiet s.att b).1;
  same_writer = λ w. w;
}

reader_step-quiet :
    (s : System) (r : Reader) (e : Event) (f : Bool) → IsQuiet s (reader_step s r e) f
unfolding step ask_queue
reader_step-quiet s Reader.asking ask f =
    let asked = should_read-Keeps s.att in
    if_cases (λ t. IsQuiet s t f) s.att.cancelled
      (λ _.
        kept s s.att Reader.stopped s.input_open s.starter (reading_ended ∷ s.calls) f
          (Keeps-refl s.att))
      (λ _.
        if_cases (λ t. IsQuiet s t f) (should_read s.att.queue).1.closed
          (λ _. kept s _ Reader.stopped s.input_open s.starter (reading_ended ∷ s.calls) f asked)
          (λ _. kept s _ _ s.input_open s.starter s.calls f asked))
reader_step-quiet s reading (reads b) f = reads-quiet s b Reader.asking s.calls f
reader_step-quiet s reading (ends b code) f =
    reads-quiet s b Reader.stopped (on_output_end code ∷ s.calls) f
reader_step-quiet s _ _ f = unchanged s f

took-ready :
    (s : System) (q : OutputQueue) (p : Popped)
    → (took s (record (s.att) { queue = q }) p).att.ready ≡ s.att.ready
unfolding take_chunk
took-ready s q (chunk c) = refl
took-ready s q drained = refl
took-ready s q blocked = refl

writer_step-quiet :
    (s : System) (w : Writer) (e : Event) (f : Bool)
    → s.writer ≡ w
    → IsQuiet s (writer_step s w e) f
unfolding step take_chunk send_result
writer_step-quiet s popping take f here = record {
  same_ready = λ _. took-ready s (pop s.att.queue).0 (pop s.att.queue).1;
  same_sent = λ w. cc;
  same_writer = λ w. cc;
}
writer_step-quiet s sending (sends true) f here = record {
  same_ready = λ _. refl;
  same_sent = λ _. refl;
  same_writer = λ w. cc;
}
writer_step-quiet s sending (sends false) f here = record {
  same_ready = λ _. refl;
  same_sent = λ _. refl;
  same_writer = λ w. refl;
}
writer_step-quiet s _ _ f here = unchanged s f

receive-quiet : (env : Env) (s : System) (m : Message) (f : Bool) → IsQuiet s (receive env s m) f
unfolding receive
receive-quiet env s (binary d) f =
    kept s _ s.reader s.input_open s.starter s.calls f (write_input-Keeps env s.att d)
receive-quiet env s (text d) f =
    kept s _ s.reader s.input_open s.starter s.calls f (handle_control-Keeps env s.att d)
receive-quiet env s (other d) f = unchanged s f
receive-quiet env s gone f =
    kept s s.att s.reader false s.starter (on_client_gone ∷ s.calls) f (Keeps-refl s.att)

start_step-quiet :
    (s : System) (p : Starter) (e : Event) → IsQuiet s (start_step s p e) (is_flush e)
unfolding start_step mark_ready_and_flush Staging.drain
start_step-quiet s created announce =
    kept s _ s.reader s.input_open announced s.calls false
      (emit-Keeps s.att (send_ready _ _ _) refl refl)
start_step-quiet s announced flush = record {
  same_ready = λ h. cc;
  same_sent = λ _. refl;
  same_writer = λ w. w;
}
start_step-quiet s flushed measure =
    if_cases (λ t. IsQuiet s t false) (ltb_ℤ s.att.rows (pos 2))
      (λ _. kept s s.att s.reader s.input_open started s.calls false (Keeps-refl s.att))
      (λ _.
        kept s s.att s.reader s.input_open (repainting s.att.cols s.att.rows) s.calls false
          (Keeps-refl s.att))
start_step-quiet s (repainting c r) shrink =
    kept s _ s.reader s.input_open (shrunk c r) s.calls false
      (emit-Keeps s.att (proc_resize _ _) refl refl)
start_step-quiet s (shrunk c r) restore =
    kept s _ s.reader s.input_open started s.calls false
      (emit-Keeps s.att (proc_resize _ _) refl refl)
start_step-quiet s _ e = unchanged s (is_flush e)

step-quiet : (env : Env) (s : System) (e : Event) → IsQuiet s (step env s e) (is_flush e)
unfolding step
step-quiet env s ask = reader_step-quiet s s.reader ask false
step-quiet env s (reads b) = reader_step-quiet s s.reader (reads b) false
step-quiet env s (ends b code) = reader_step-quiet s s.reader (ends b code) false
step-quiet env s take = writer_step-quiet s s.writer take false refl
step-quiet env s (sends ok) = writer_step-quiet s s.writer (sends ok) false refl
step-quiet env s (message m) =
    if_cases (λ t. IsQuiet s t false) s.input_open (λ _. receive-quiet env s m false)
      (λ _. unchanged s false)
step-quiet env s announce = start_step-quiet s s.starter announce
step-quiet env s flush = start_step-quiet s s.starter flush
step-quiet env s measure = start_step-quiet s s.starter measure
step-quiet env s shrink = start_step-quiet s s.starter shrink
step-quiet env s restore = start_step-quiet s s.starter restore
step-quiet env s shuts_down =
    kept s s.att s.reader s.input_open s.starter (shutdown_calls ∷ s.calls) false (Keeps-refl s.att)
step-quiet env s closes =
    kept s s.att s.reader s.input_open s.starter (force_close_calls ∷ s.calls) false
      (Keeps-refl s.att)
step-quiet env s (proceeds n) =
    kept s _ s.reader s.input_open s.starter _ false (proceed-Keeps n s.calls s.att)

pub run-unready :
    (env : Env) (s : System) (es : List Event)
    → any is_flush es ≡ false
    → (run env s es).att.ready ≡ s.att.ready
unfolding run
run-unready env s [] h = refl
run-unready env s (e ∷ es) h =
    run-unready env (step env s e) es (ground (arith, h))
    ∙ (step-quiet env s e).same_ready (ground (arith, h))

pub run-stopped :
    (env : Env) (s : System) (es : List Event)
    → s.writer ≡ Writer.stopped
    → sent (run env s es).att.log ≡ sent s.att.log
unfolding run
run-stopped env s [] w = refl
run-stopped env s (e ∷ es) w =
    let q = step-quiet env s e in
    run-stopped env (step env s e) es (q.same_writer w) ∙ q.same_sent w
