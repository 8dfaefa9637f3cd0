-- ===== src/Terminal/Attachment/Later.antt =====
-- hub/internal/terminal/attachment.go: no call of an attachment opens its queue again, or takes its
-- process back.
use visual_tmux_client.Prelude.{
  ℕ, zero, suc, ◌≡◌, inl, inr, ◌∙◌, [], ◌∷◌, ◌++◌, Bytes, arith, length, Option-cases, take, drop,
}
use visual_tmux_client.Prelude.Int.{ℤ}
use visual_tmux_client.Terminal.Staging.{drain}
use visual_tmux_client.Terminal.Queue.{OutputQueue}
use visual_tmux_client.Terminal.Effect.{
  Effect, is_released-append, proc_write, proc_resize, send_pong, resized,
}
use visual_tmux_client.Terminal.Attachment.{
  Attachment, Env, emit, mark_ready_and_flush, deliver, write_loop, write_input, handle_control,
  apply_resize, chunk_size,
}
use visual_tmux_client.Terminal.Attachment.Lifecycle.{push-closed, push_all-closed}
use visual_tmux_client.Terminal.Attachment.Letting.{IsLater, IsLater-refl}

pub IsLater-trans : (a b c : Attachment) → IsLater a b → IsLater b c → IsLater a c
IsLater-trans a b c k l = record {
  still_closed = λ e. l.still_closed (k.still_closed e);
  still_released = λ e. l.still_released (k.still_released e);
}

pub emit-IsLater : (a : Attachment) (e : Effect) → IsLater a (emit a e)
emit-IsLater a e = record {
  still_closed = λ h. h;
  still_released = λ h. is_released-append a.log (e ∷ []) ∙ ground (arith, h);
}

pub queue-IsLater :
    (a : Attachment) (q : OutputQueue)
    → q.closed ≡ a.queue.closed
    → IsLater a (record a { queue = q })
queue-IsLater a q e = record { still_closed = λ h. e ∙ h; still_released = λ h. h }

pub deliver-IsLater : (a : Attachment) (b : Bytes) → IsLater a (deliver a b)
unfolding deliver
deliver-IsLater a b = ground (arith, push-closed a.queue b)

pub flush-IsLater : (a : Attachment) → IsLater a (mark_ready_and_flush a)
unfolding mark_ready_and_flush drain
flush-IsLater a = record {
  still_closed = λ h. push_all-closed a.queue a.stage.chunks ∙ h;
  still_released = λ h. h;
}

apply_resize-IsLater : (a : Attachment) (cols rows : ℤ) → IsLater a (apply_resize a cols rows)
unfolding apply_resize
apply_resize-IsLater a cols rows = ground (
  arith,
  is_released-append a.log (proc_resize cols rows ∷ []),
  is_released-append (a.log ++ proc_resize cols rows ∷ []) (resized cols rows ∷ []),
)

module _ (env : Env) where
  write_loop-IsLater : (f n : ℕ) (d : Bytes) (a : Attachment) → IsLater a (write_loop env f n d a)
  unfolding write_loop
  write_loop-IsLater zero n d a = IsLater-refl a
  write_loop-IsLater (suc f) n [] a = IsLater-refl a
  write_loop-IsLater (suc f) n (x ∷ d) a =
      let piece = take n (x ∷ d) in
      let b = emit a (proc_write piece) in
      let l = emit-IsLater a (proc_write piece) in
      let ih = IsLater-trans a b _ l (write_loop-IsLater f n (drop n (x ∷ d)) b) in
      ground (arith, l, ih)

  pub write_input-IsLater : (a : Attachment) (d : Bytes) → IsLater a (write_input env a d)
  unfolding write_input
  write_input-IsLater a d = write_loop-IsLater (length d) (chunk_size a.opts) d a

  pub handle_control-IsLater : (a : Attachment) (d : Bytes) → IsLater a (handle_control env a d)
  unfolding handle_control
  handle_control-IsLater a d = elim (Option-cases (env.unmarshal d)) [
    | inl e ↦ rw (e, handle_control) (IsLater-refl a)
    | inr (msg, e) ↦
        rw (e, handle_control)
          (ground (arith, apply_resize-IsLater a msg.cols msg.rows, emit-IsLater a send_pong))
  ]
