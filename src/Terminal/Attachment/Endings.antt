-- ===== src/Terminal/Attachment/Endings.antt =====
-- Every schedule of the goroutines of an attachment ends it in order.
use visual_tmux_client.Prelude.{inl, refl, Bool, true, false, List, [], ◌∷◌, Bytes, any, if_cases}
use visual_tmux_client.Prelude.Int.{ℤ, pos, ltb_ℤ}
use visual_tmux_client.Terminal.Options.{Options}
use visual_tmux_client.Terminal.Queue.{new_output_queue}
use visual_tmux_client.Terminal.Effect.{is_released, proc_resize, send_ready}
use visual_tmux_client.Terminal.Attachment.{Attachment, Env, new_attachment}
use visual_tmux_client.Terminal.Attachment.Calls.{
  on_output_end, close_failed, on_client_gone, shutdown_calls, force_close_calls,
}
use visual_tmux_client.Terminal.Attachment.Lifecycle.{
  IsOrderly, emit-IsOrderly, write_input-IsOrderly, handle_control-IsOrderly,
  mark_ready_and_flush-IsOrderly,
}
use visual_tmux_client.Terminal.Attachment.Letting.{
  lets_go, IsLater, IsLater-refl, proceed-AreSafe, proceed-IsOrderly,
}
use visual_tmux_client.Terminal.Attachment.Later.{
  emit-IsLater, flush-IsLater, write_input-IsLater, handle_control-IsLater,
}
use visual_tmux_client.Terminal.Attachment.System.{
  System, Reader, reading, Writer, popping, sending, Starter, created, announced, flushed, started,
  repainting, shrunk, Message, binary, text, other, gone, Event, ask, reads, ends, take, sends,
  message, announce, flush, measure, shrink, restore, shuts_down, closes, proceeds, step, run,
  start, read_output, send_result, receive, start_step, reader_step, writer_step,
}
use visual_tmux_client.Terminal.Attachment.Settling.{
  EndsInOrder, moved, begins-EndsInOrder, safe_anyway, ask_queue-EndsInOrder, read_output-IsLater,
  read_output-IsOrderly, take_chunk-EndsInOrder,
}

module _ (s : System) (v : EndsInOrder s) where
  -- A step that changes the attachment at most.
  settled :
      (a : Attachment)
      → IsLater s.att a
      → (IsOrderly (any lets_go s.calls) s.att → IsOrderly (any lets_go s.calls) a)
      → (i : Bool) (p : Starter) → EndsInOrder (record s { att = a; input_open = i; starter = p })
  settled a later keeps i p = moved s a s.reader s.writer i p later keeps v

  send_result-EndsInOrder : (ok : Bool) → EndsInOrder (send_result s ok)
  unfolding send_result
  send_result-EndsInOrder true =
      moved s s.att s.reader popping s.input_open s.starter (IsLater-refl s.att) (λ w. w) v
  send_result-EndsInOrder false =
      begins-EndsInOrder close_failed _ ((safe_anyway _ _).1) (
        moved s s.att s.reader Writer.stopped s.input_open s.starter (IsLater-refl s.att) (λ w. w)
          v)

  receive-EndsInOrder : (env : Env) (m : Message) → EndsInOrder (receive env s m)
  unfolding receive
  receive-EndsInOrder env (binary d) =
      settled _ (write_input-IsLater env s.att d) (write_input-IsOrderly env s.att d) s.input_open
        s.starter
  receive-EndsInOrder env (text d) =
      settled _ (handle_control-IsLater env s.att d) (handle_control-IsOrderly env s.att d)
        s.input_open s.starter
  receive-EndsInOrder env (other d) = v
  receive-EndsInOrder env gone =
      begins-EndsInOrder on_client_gone _ ((safe_anyway _ _).2)
        (settled s.att (IsLater-refl s.att) (λ w. w) false s.starter)

  reader_step-EndsInOrder : (r : Reader) (e : Event) → EndsInOrder (reader_step s r e)
  unfolding step
  reader_step-EndsInOrder Reader.asking ask = ask_queue-EndsInOrder s v
  reader_step-EndsInOrder reading (reads b) =
      moved s _ Reader.asking s.writer s.input_open s.starter (read_output-IsLater s.att b)
        (read_output-IsOrderly s.att b) v
  reader_step-EndsInOrder reading (ends b code) =
      begins-EndsInOrder (on_output_end code) _
        ((safe_anyway (read_output s.att b).queue.closed (is_released (read_output s.att b).log)).0
          code)
        (moved s _ Reader.stopped s.writer s.input_open s.starter (read_output-IsLater s.att b)
          (read_output-IsOrderly s.att b) v)
  reader_step-EndsInOrder _ _ = v

  writer_step-EndsInOrder : (w : Writer) (e : Event) → EndsInOrder (writer_step s w e)
  unfolding step
  writer_step-EndsInOrder popping take = take_chunk-EndsInOrder s v
  writer_step-EndsInOrder sending (sends ok) = send_result-EndsInOrder ok
  writer_step-EndsInOrder _ _ = v

  start_step-EndsInOrder : (p : Starter) (e : Event) → EndsInOrder (start_step s p e)
  unfolding start_step
  start_step-EndsInOrder created announce =
      settled _ (emit-IsLater s.att (send_ready _ _ _))
        (emit-IsOrderly s.att (send_ready _ _ _) refl) s.input_open announced
  start_step-EndsInOrder announced flush =
      settled _ (flush-IsLater s.att) (mark_ready_and_flush-IsOrderly s.att) s.input_open flushed
  start_step-EndsInOrder flushed measure =
      let same = settled s.att (IsLater-refl s.att) (λ w. w) s.input_open in
      if_cases EndsInOrder (ltb_ℤ s.att.rows (pos 2)) (λ _. same started)
        (λ _. same (repainting s.att.cols s.att.rows))
  start_step-EndsInOrder (repainting c r) shrink =
      settled _ (emit-IsLater s.att (proc_resize _ _)) (emit-IsOrderly s.att (proc_resize _ _) refl)
        s.input_open _
  start_step-EndsInOrder (shrunk c r) restore =
      settled _ (emit-IsLater s.att (proc_resize _ _)) (emit-IsOrderly s.att (proc_resize _ _) refl)
        s.input_open _
  start_step-EndsInOrder _ _ = v

  pub step-EndsInOrder : (env : Env) (e : Event) → EndsInOrder (step env s e)
  unfolding step EndsInOrder
  step-EndsInOrder env ask = reader_step-EndsInOrder s.reader ask
  step-EndsInOrder env (reads b) = reader_step-EndsInOrder s.reader (reads b)
  step-EndsInOrder env (ends b code) = reader_step-EndsInOrder s.reader (ends b code)
  step-EndsInOrder env take = writer_step-EndsInOrder s.writer take
  step-EndsInOrder env (sends ok) = writer_step-EndsInOrder s.writer (sends ok)
  step-EndsInOrder env (message m) =
      if_cases EndsInOrder s.input_open (λ _. receive-EndsInOrder env m) (λ _. v)
  step-EndsInOrder env announce = start_step-EndsInOrder s.starter announce
  step-EndsInOrder env flush = start_step-EndsInOrder s.starter flush
  step-EndsInOrder env measure = start_step-EndsInOrder s.starter measure
  step-EndsInOrder env shrink = start_step-EndsInOrder s.starter shrink
  step-EndsInOrder env restore = start_step-EndsInOrder s.starter restore
  step-EndsInOrder env shuts_down = begins-EndsInOrder shutdown_calls s ((safe_anyway _ _).3) v
  step-EndsInOrder env closes = begins-EndsInOrder force_close_calls s ((safe_anyway _ _).4) v
  step-EndsInOrder env (proceeds n) =
      (proceed-AreSafe n s.calls s.att v.0, proceed-IsOrderly n s.calls false s.att v.0 v.1)

run-EndsInOrder :
    (env : Env) (s : System) (es : List Event) → EndsInOrder s → EndsInOrder (run env s es)
unfolding run
run-EndsInOrder env s [] v = v
run-EndsInOrder env s (e ∷ es) v =
    run-EndsInOrder env (step env s e) es (step-EndsInOrder s v env e)

-- In every schedule of a new attachment, between any two calls of the methods that end it, the owner
-- has been told at most once that it is over, and only if it is finished; a finished attachment has
-- a closed queue and a cancelled context; and a closed queue means that the process was closed or
-- detached from, or that a method which has begun is still to do so.
pub run-start-IsOrderly :
    (env : Env) (opts : Options) (session : Bytes) (cols rows : ℤ) (owned watched : Bool)
    (es : List Event)
    → let s = run env (start (new_attachment opts session cols rows owned watched)) es in
      IsOrderly (any lets_go s.calls) s.att
unfolding start new_attachment new_output_queue EndsInOrder
run-start-IsOrderly env opts session cols rows owned watched es =
    (run-EndsInOrder env (start (new_attachment opts session cols rows owned watched)) es
      (tt, record { once = refl; released = inl refl; ended = inl refl })).1
