-- ===== src/Terminal/Attachment/Settling.antt =====
-- hub/internal/terminal/attachment.go: the steps of the goroutines that begin to end an attachment.
use visual_tmux_client.Prelude.{
  ◌≡◌, refl, Bool, true, List, [], ◌∷◌, Option, Bytes, arith, any, if_cases, if◌then◌else◌,
}
use visual_tmux_client.Prelude.Int.{ℤ}
use visual_tmux_client.Terminal.Queue.{
  OutputQueue, pop, pop_from, should_read, Popped, chunk, drained, blocked,
}
use visual_tmux_client.Terminal.Effect.{is_released, proc_read, send_binary}
use visual_tmux_client.Terminal.Attachment.{Attachment, emit}
use visual_tmux_client.Terminal.Attachment.Calls.{
  Call, reading_ended, on_output_end, close_drained, close_failed, on_client_gone, shutdown_calls,
  force_close_calls,
}
use visual_tmux_client.Terminal.Attachment.Lifecycle.{
  IsOrderly, emit-IsOrderly, queue-IsOrderly, deliver-IsOrderly, pop_from-closed,
}
use visual_tmux_client.Terminal.Attachment.Letting.{
  lets_go, is_safe, AreSafe, IsLater, IsLater-refl, AreSafe-later,
}
use visual_tmux_client.Terminal.Attachment.Later.{
  IsLater-trans, emit-IsLater, queue-IsLater, deliver-IsLater,
}
use visual_tmux_client.Terminal.Attachment.System.{
  System, Reader, Writer, sending, Starter, begins, ask_queue, read_output, take_chunk, took,
}

-- The attachment is in order, and so is every method that has begun to end it.
unfoldable pub EndsInOrder : System → Type 0
EndsInOrder s = AreSafe s.calls s.att × IsOrderly (any lets_go s.calls) s.att

-- A step of an attachment that begins no method.
pub moved :
    (s : System) (a : Attachment) (r : Reader) (w : Writer) (i : Bool) (p : Starter)
    → IsLater s.att a
    → (IsOrderly (any lets_go s.calls) s.att → IsOrderly (any lets_go s.calls) a)
    → EndsInOrder s
    → EndsInOrder
        (record { att = a; reader = r; writer = w; input_open = i; starter = p; calls = s.calls })
unfolding EndsInOrder
moved s a r w i p later keeps v = (AreSafe-later s.calls s.att a later v.0, keeps v.1)

pub begins-EndsInOrder :
    (c : List Call) (s : System)
    → is_safe s.att.queue.closed (is_released s.att.log) c ≡ true
    → EndsInOrder s
    → EndsInOrder (begins c s)
unfolding EndsInOrder
begins-EndsInOrder c s safe v = ((safe, v.0), ground (arith, v.1))

-- Most methods need nothing of the attachment that they begin on.
pub safe_anyway :
    (closed released : Bool)
    → ((code : Option ℤ) → is_safe closed released (on_output_end code) ≡ true)
      × (is_safe closed released close_failed ≡ true)
      × (is_safe closed released on_client_gone ≡ true)
      × (is_safe closed released shutdown_calls ≡ true)
      × (is_safe closed released force_close_calls ≡ true)
safe_anyway closed released =
    (λ code. ground arith, ground arith, ground arith, ground arith, ground arith)

drained-IsSafe : (released : Bool) → is_safe true released close_drained ≡ true
drained-IsSafe released = ground arith

should_read-closed : (q : OutputQueue) → (should_read q).0.closed ≡ q.closed
unfolding should_read
should_read-closed q = ground arith

pub ask_queue-EndsInOrder : (s : System) → EndsInOrder s → EndsInOrder (ask_queue s)
unfolding ask_queue
ask_queue-EndsInOrder s v =
    let q = (should_read s.att.queue).0 in
    let same = should_read-closed s.att.queue in
    let asked = λ (r : Reader).
      moved s (record (s.att) { queue = q }) r s.writer s.input_open s.starter
        (queue-IsLater s.att q same) (queue-IsOrderly s.att q same) v in
    if_cases EndsInOrder s.att.cancelled
      (λ _. begins-EndsInOrder reading_ended _ refl (
        moved s s.att Reader.stopped s.writer s.input_open s.starter (IsLater-refl s.att) (λ w. w)
          v))
      (λ _.
        if_cases EndsInOrder (should_read s.att.queue).1.closed
          (λ _. begins-EndsInOrder reading_ended _ refl (asked Reader.stopped))
          (λ _. asked (if (should_read s.att.queue).1.read then Reader.reading else Reader.asking)))

pub read_output-IsLater : (a : Attachment) (b : Bytes) → IsLater a (read_output a b)
unfolding read_output
read_output-IsLater a [] = emit-IsLater a (proc_read [])
read_output-IsLater a (x ∷ b) =
    IsLater-trans a (emit a (proc_read (x ∷ b))) _ (emit-IsLater a (proc_read (x ∷ b)))
      (deliver-IsLater (emit a (proc_read (x ∷ b))) (x ∷ b))

pub read_output-IsOrderly :
    {pending : Bool} (a : Attachment) (b : Bytes)
    → IsOrderly pending a
    → IsOrderly pending (read_output a b)
unfolding read_output
read_output-IsOrderly a [] v = emit-IsOrderly a (proc_read []) refl v
read_output-IsOrderly a (x ∷ b) v =
    deliver-IsOrderly (emit a (proc_read (x ∷ b))) (x ∷ b)
      (emit-IsOrderly a (proc_read (x ∷ b)) refl v)

-- A drained answer means that the queue is closed.
pop_from-drained :
    (q : OutputQueue) (cs : List Bytes)
    → (pop_from q cs).1 ≡ drained
    → (pop_from q cs).0.closed ≡ true
unfolding pop
pop_from-drained q [] e = ground arith
pop_from-drained q (c ∷ cs) e = cc

took-EndsInOrder :
    (s : System) (q : OutputQueue) (p : Popped)
    → q.closed ≡ s.att.queue.closed
    → (p ≡ drained → q.closed ≡ true)
    → EndsInOrder s
    → EndsInOrder (took s (record (s.att) { queue = q }) p)
unfolding take_chunk
took-EndsInOrder s q (chunk c) same d v =
    let a = record (s.att) { queue = q } in
    moved s (emit a (send_binary c)) s.reader sending s.input_open s.starter
      (IsLater-trans s.att a _ (queue-IsLater s.att q same) (emit-IsLater a (send_binary c)))
      (λ w. emit-IsOrderly a (send_binary c) refl (queue-IsOrderly s.att q same w)) v
took-EndsInOrder s q drained same d v =
    begins-EndsInOrder close_drained _ (rw (d refl) (drained-IsSafe (is_released s.att.log))) (
      moved s (record (s.att) { queue = q }) s.reader Writer.stopped s.input_open s.starter
        (queue-IsLater s.att q same) (queue-IsOrderly s.att q same) v)
took-EndsInOrder s q blocked same d v = v

pub take_chunk-EndsInOrder : (s : System) → EndsInOrder s → EndsInOrder (take_chunk s)
unfolding take_chunk pop
take_chunk-EndsInOrder s v =
    let q = s.att.queue in
    took-EndsInOrder s (pop q).0 (pop q).1 (pop_from-closed q q.chunks)
      (pop_from-drained q q.chunks) v
