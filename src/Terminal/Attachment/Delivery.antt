-- ===== src/Terminal/Attachment/Delivery.antt =====
-- Every schedule delivers the output in order.
use visual_tmux_client.Prelude.{
  ℕ, ◌≡◌, ◌≢◌, inl, inr, refl, Bool, true, false, List, [], ◌∷◌, ◌++◌, append-nil, append_assoc,
  Bytes, arith, All, All-drop, if_cases, Bool-cases,
}
use visual_tmux_client.Prelude.Int.{ℤ}
use visual_tmux_client.Terminal.Options.{Options}
use visual_tmux_client.Terminal.Staging.{drain, new_staging_buffer}
use visual_tmux_client.Terminal.Staging.Eviction
use visual_tmux_client.Terminal.Staging.Eviction.{total}
use visual_tmux_client.Terminal.Queue.{
  new_output_queue, OutputQueue, pop, pop_from, should_read, Popped, chunk, drained, blocked,
}
use visual_tmux_client.Terminal.Effect.{
  Effect, outputs, sent, outputs-append, sent-append, outputs-nonempty, proc_read, proc_resize,
  send_binary, send_ready,
}
use visual_tmux_client.Terminal.Attachment.{
  Attachment, Env, emit, mark_ready_and_flush, new_attachment,
}
use visual_tmux_client.Terminal.Attachment.Frame.{
  Keeps, Keeps-refl, should_read-Keeps, emit-Keeps, proceed-Keeps, write_input-Keeps,
  handle_control-Keeps,
}
use visual_tmux_client.Terminal.Attachment.Order.{
  InOrder, Keeps-InOrder, deliver-InOrder, push_all-append, staged_are, sent_are, nothing_sent,
  nothing_staged,
}
use visual_tmux_client.Terminal.Attachment.System.{
  System, Reader, reading, Writer, popping, sending, Starter, created, announced, flushed,
  repainting, shrunk, Message, binary, text, other, gone, Event, ask, reads, ends, take, sends,
  message, announce, flush, measure, shrink, restore, shuts_down, closes, proceeds, step, run,
  start, ask_queue, read_output, take_chunk, took, send_result, receive, start_step, reader_step,
  writer_step,
}

abbrev pub Delivers : Attachment → Type 0
Delivers a = (k : ℕ) × InOrder a k

Keeps-Delivers : (a b : Attachment) → Keeps a b → Delivers a → Delivers b
Keeps-Delivers a b f v = (v.0, Keeps-InOrder a b v.0 f v.1)

-- The step from staging to the queue.
flush-InOrder : (a : Attachment) (k : ℕ) → InOrder a k → InOrder (mark_ready_and_flush a) k
unfolding mark_ready_and_flush drain
flush-InOrder a k v = elim (Bool-cases a.ready) [
  | inl r ↦ record {
    placed = inr (refl, refl, rw (nothing_staged a k v r) (sent_are a k v r));
    within = v.within;
    staged = Eviction.drain-IsValid a.stage;
    overflown = v.overflown;
  }
  | inr r ↦
      let e = staged_are a k v r in
      let n = nothing_sent a k v r in
      let full : All (λ c. c ≢ []) a.stage.chunks =
        rw e (All-drop _ k (outputs a.log) (outputs-nonempty a.log)) in
      record {
        placed = inr (refl, refl, rw (push_all-append a.queue a.stage.chunks full, n.0, n.1) e);
        within = v.within;
        staged = Eviction.drain-IsValid a.stage;
        overflown = v.overflown;
      }
]

-- Taking the oldest chunk of the queue, to send it.
took-InOrder :
    (a : Attachment) (cs : List Bytes) (k : ℕ)
    → a.queue.chunks ≡ cs
    → InOrder a k
    → (c : Bytes) → (pop_from a.queue cs).1 ≡ chunk c
    → InOrder (emit (record a { queue = (pop_from a.queue cs).0 }) (send_binary c)) k
unfolding pop
took-InOrder a [] k e v c p = ground arith
took-InOrder a (x ∷ cs) k e v c p =
    let same : c ≡ x = ground arith in
    let ready_now : a.ready ≡ true = elim (Bool-cases a.ready) [
      | inl r ↦ r
      | inr r ↦ ground (arith, (nothing_sent a k v r).1)
    ] in
    let outs : outputs (a.log ++ send_binary c ∷ []) ≡ outputs a.log =
      rw outputs-append (append-nil _) in
    record {
      placed = inr (
        ready_now,
        nothing_staged a k v ready_now,
        rw (outs, sent-append, append_assoc, same, ← e) (sent_are a k v ready_now),
      );
      within = rw outs v.within;
      staged = v.staged;
      overflown = rw outs v.overflown;
    }

drained_same :
    (q : OutputQueue) (cs : List Bytes) → (pop_from q cs).1 ≡ drained → (pop_from q cs).0 ≡ q
unfolding pop
drained_same q [] e = refl
drained_same q (c ∷ cs) e = cc

took-Delivers :
    (s : System) (p : Popped)
    → (pop s.att.queue).1 ≡ p
    → Delivers s.att
    → Delivers (took s (record (s.att) { queue = (pop s.att.queue).0 }) p).att
unfolding take_chunk pop
took-Delivers s (chunk c) e v = (v.0, took-InOrder s.att s.att.queue.chunks v.0 refl v.1 c e)
took-Delivers s drained e v = rw (drained_same s.att.queue s.att.queue.chunks e) v
took-Delivers s blocked e v = v

pub ask_queue-Keeps : (s : System) → Keeps s.att (ask_queue s).att
unfolding ask_queue
ask_queue-Keeps s =
    let a = s.att in
    let asked = should_read-Keeps a in
    if_cases (λ (t : System). Keeps a t.att) a.cancelled (λ _. Keeps-refl a)
      (λ _.
        if_cases (λ (t : System). Keeps a t.att) (should_read a.queue).1.closed (λ _. asked)
          (λ _. asked))

module _ (s : System) (v : Delivers s.att) where
  read_output-Delivers : (b : Bytes) → Delivers (read_output s.att b)
  unfolding read_output
  read_output-Delivers [] = Keeps-Delivers s.att _ (emit-Keeps s.att (proc_read []) refl refl) v
  read_output-Delivers (x ∷ b) = deliver-InOrder s.att v (x ∷ b) (cc) refl

  send_result-Delivers : (ok : Bool) → Delivers (send_result s ok).att
  unfolding send_result
  send_result-Delivers true = v
  send_result-Delivers false = v

  receive-Delivers : (env : Env) (m : Message) → Delivers (receive env s m).att
  unfolding receive
  receive-Delivers env (binary d) = Keeps-Delivers s.att _ (write_input-Keeps env s.att d) v
  receive-Delivers env (text d) = Keeps-Delivers s.att _ (handle_control-Keeps env s.att d) v
  receive-Delivers env (other d) = v
  receive-Delivers env gone = v

  reader_step-Delivers : (r : Reader) (e : Event) → Delivers (reader_step s r e).att
  unfolding step
  reader_step-Delivers Reader.asking ask = Keeps-Delivers s.att _ (ask_queue-Keeps s) v
  reader_step-Delivers reading (reads b) = read_output-Delivers b
  reader_step-Delivers reading (ends b code) = read_output-Delivers b
  reader_step-Delivers _ _ = v

  writer_step-Delivers : (w : Writer) (e : Event) → Delivers (writer_step s w e).att
  unfolding step
  writer_step-Delivers popping take = unfold take_chunk in took-Delivers s _ refl v
  writer_step-Delivers sending (sends ok) = send_result-Delivers ok
  writer_step-Delivers _ _ = v

  emit-Delivers :
      (e : Effect) → outputs (e ∷ []) ≡ [] → sent (e ∷ []) ≡ [] → Delivers (emit s.att e)
  emit-Delivers e o t = Keeps-Delivers s.att _ (emit-Keeps s.att e o t) v

  start_step-Delivers : (p : Starter) (e : Event) → Delivers (start_step s p e).att
  unfolding start_step
  start_step-Delivers created announce = emit-Delivers (send_ready _ _ _) refl refl
  start_step-Delivers announced flush = (v.0, flush-InOrder s.att v.0 v.1)
  start_step-Delivers flushed measure =
      if_cases (λ (t : System). Delivers t.att) _ (λ _. v) (λ _. v)
  start_step-Delivers (repainting c r) shrink = emit-Delivers (proc_resize _ _) refl refl
  start_step-Delivers (shrunk c r) restore = emit-Delivers (proc_resize _ _) refl refl
  start_step-Delivers _ _ = v

  step-Delivers : (env : Env) (e : Event) → Delivers (step env s e).att
  unfolding step
  step-Delivers env ask = reader_step-Delivers s.reader ask
  step-Delivers env (reads b) = reader_step-Delivers s.reader (reads b)
  step-Delivers env (ends b code) = reader_step-Delivers s.reader (ends b code)
  step-Delivers env take = writer_step-Delivers s.writer take
  step-Delivers env (sends ok) = writer_step-Delivers s.writer (sends ok)
  step-Delivers env (message m) =
      if_cases (λ (t : System). Delivers t.att) s.input_open (λ _. receive-Delivers env m) (λ _. v)
  step-Delivers env announce = start_step-Delivers s.starter announce
  step-Delivers env flush = start_step-Delivers s.starter flush
  step-Delivers env measure = start_step-Delivers s.starter measure
  step-Delivers env shrink = start_step-Delivers s.starter shrink
  step-Delivers env restore = start_step-Delivers s.starter restore
  step-Delivers env shuts_down = v
  step-Delivers env closes = v
  step-Delivers env (proceeds n) = Keeps-Delivers s.att _ (proceed-Keeps n s.calls s.att) v

run-Delivers :
    (env : Env) (s : System) (es : List Event) → Delivers s.att → Delivers (run env s es).att
unfolding run
run-Delivers env s [] v = v
run-Delivers env s (e ∷ es) v = run-Delivers env (step env s e) es (step-Delivers s v env e)

-- In every schedule of a new attachment, the output of the process without its first `k` chunks is
-- in order: while the peer is not ready it is the staged chunks and nothing was sent; from then on
-- it is what was sent and then what is queued. `k` is 0 unless the output exceeds the capacity of
-- the staging buffer.
pub run-InOrder :
    (env : Env) (opts : Options) (session : Bytes) (cols rows : ℤ) (owned watched : Bool)
    (es : List Event)
    → (k : ℕ) × InOrder
        (run env (start (new_attachment opts session cols rows owned watched)) es).att
        k
unfolding start new_attachment new_output_queue new_staging_buffer
run-InOrder env opts session cols rows owned watched es =
    run-Delivers env (start (new_attachment opts session cols rows owned watched)) es (
      0,
      record {
        placed = inl (refl, refl, refl, refl);
        within = omega arith;
        staged = record { counted = refl; fits = inl (omega arith) };
        overflown = inl refl;
      },
    )
