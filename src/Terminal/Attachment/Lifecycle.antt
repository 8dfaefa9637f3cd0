-- ===== src/Terminal/Attachment/Lifecycle.antt =====
-- How an attachment ends: it is untracked once, and never without releasing its process.
use visual_tmux_client.Prelude.{
  ℕ, zero, suc, ◌≡◌, ◌⊎◌, inl, inr, refl, Bool, true, false, ◌&&◌, ◌||◌, List, [], ◌∷◌, Bytes,
  arith, length, Option-cases, take, drop, if◌then◌else◌,
}
use visual_tmux_client.Prelude.Int.{ℤ}
use visual_tmux_client.Terminal.Staging.{drain}
use visual_tmux_client.Terminal.Queue.{OutputQueue, push, pop, pop_from}
use visual_tmux_client.Terminal.Effect.{
  Effect, untrack_count, is_released, untrack_count-append, is_released-append, proc_write,
  proc_resize, send_pong, resized, untracked,
}
use visual_tmux_client.Terminal.Attachment.{
  Attachment, Env, emit, finish, mark_ready_and_flush, push_all, deliver, write_loop, write_input,
  handle_control, apply_resize, chunk_size,
}

-- `pending` says that some method is still to close the process or detach from it.
pub record IsOrderly (pending : Bool) (a : Attachment) : Type 0 where
  -- the owner is told at most once, and exactly when the attachment is finished
  pub once : untrack_count a.log ≡ (if a.finished && a.has_untrack then 1 else 0)
  -- a closed queue means that the process was closed or detached from, or is about to be
  pub released : (a.queue.closed ≡ false) ⊎ ((is_released a.log || pending) ≡ true)
  pub ended : (a.finished ≡ false) ⊎ ((a.queue.closed ≡ true) × (a.cancelled ≡ true))

pub finish-IsOrderly :
    {pending : Bool} (a : Attachment)
    → a.queue.closed ≡ true
    → IsOrderly pending a
    → IsOrderly pending (finish a)
unfolding finish
finish-IsOrderly a h v =
    ground (
      arith,
      untrack_count-append a.log (untracked ∷ []),
      is_released-append a.log (untracked ∷ []),
    )

pub emit-IsOrderly :
    {pending : Bool} (a : Attachment) (e : Effect)
    → untrack_count (e ∷ []) ≡ 0
    → IsOrderly pending a
    → IsOrderly pending (emit a e)
emit-IsOrderly a e h v =
    ground (arith, untrack_count-append a.log (e ∷ []), is_released-append a.log (e ∷ []))

-- A change of the queue that leaves its flag `closed`.
pub queue-IsOrderly :
    {pending : Bool} (a : Attachment) (q : OutputQueue)
    → q.closed ≡ a.queue.closed
    → IsOrderly pending a
    → IsOrderly pending (record a { queue = q })
queue-IsOrderly a q h v = ground arith

pub push-closed : (q : OutputQueue) (b : Bytes) → (push q b).closed ≡ q.closed
unfolding push
push-closed q [] = refl
push-closed q (x ∷ b) = refl

pub push_all-closed : (q : OutputQueue) (cs : List Bytes) → (push_all q cs).closed ≡ q.closed
unfolding push_all
push_all-closed q [] = refl
push_all-closed q (c ∷ cs) = ground (arith, push_all-closed (push q c) cs, push-closed q c)

pub pop_from-closed : (q : OutputQueue) (cs : List Bytes) → (pop_from q cs).0.closed ≡ q.closed
unfolding pop
pop_from-closed q [] = refl
pop_from-closed q (c ∷ cs) = refl

pub deliver-IsOrderly :
    {pending : Bool} (a : Attachment) (b : Bytes)
    → IsOrderly pending a
    → IsOrderly pending (deliver a b)
unfolding deliver
deliver-IsOrderly a b v = ground (arith, push-closed a.queue b)

pub mark_ready_and_flush-IsOrderly :
    {pending : Bool} (a : Attachment)
    → IsOrderly pending a
    → IsOrderly pending (mark_ready_and_flush a)
unfolding mark_ready_and_flush drain
mark_ready_and_flush-IsOrderly a v = ground (arith, push_all-closed a.queue a.stage.chunks)

module _ {pending : Bool} (a : Attachment) (v : IsOrderly pending a) where
  pub apply_resize-IsOrderly : (cols rows : ℤ) → IsOrderly pending (apply_resize a cols rows)
  unfolding apply_resize
  apply_resize-IsOrderly cols rows =
      let b = emit-IsOrderly a (proc_resize cols rows) refl v in
      let c : IsOrderly pending
          (record (emit a (proc_resize cols rows)) { cols = cols; rows = rows }) =
        ground arith in
      let d =
        emit-IsOrderly (record (emit a (proc_resize cols rows)) { cols = cols; rows = rows })
          (resized cols rows) refl c in
      ground (arith, c, d)

module _ {pending : Bool} (env : Env) where
  pub write_loop-IsOrderly :
      (f n : ℕ) (d : Bytes) (a : Attachment)
      → IsOrderly pending a
      → IsOrderly pending (write_loop env f n d a)
  unfolding write_loop
  write_loop-IsOrderly zero n d a v = v
  write_loop-IsOrderly (suc f) n [] a v = v
  write_loop-IsOrderly (suc f) n (x ∷ d) a v =
      let piece = take n (x ∷ d) in
      let w = emit-IsOrderly a (proc_write piece) refl v in
      let ih = write_loop-IsOrderly f n (drop n (x ∷ d)) (emit a (proc_write piece)) w in
      ground (arith, w, ih)

  pub write_input-IsOrderly :
      (a : Attachment) (d : Bytes) → IsOrderly pending a → IsOrderly pending (write_input env a d)
  unfolding write_input
  write_input-IsOrderly a d v = write_loop-IsOrderly (length d) (chunk_size a.opts) d a v

  pub handle_control-IsOrderly :
      (a : Attachment) (d : Bytes)
      → IsOrderly pending a
      → IsOrderly pending (handle_control env a d)
  unfolding handle_control
  handle_control-IsOrderly a d v = elim (Option-cases (env.unmarshal d)) [
    | inl e ↦ rw (e, handle_control) v
    | inr (msg, e) ↦
        rw (e, handle_control)
          (ground (
            arith,
            apply_resize-IsOrderly a v msg.cols msg.rows,
            emit-IsOrderly a send_pong refl v,
          ))
  ]
