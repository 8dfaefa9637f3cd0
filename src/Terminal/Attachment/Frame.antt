-- ===== src/Terminal/Attachment/Frame.antt =====
-- The calls of an attachment that leave the output on its way alone.
use visual_tmux_client.Prelude.{
  ℕ, zero, suc, ◌≡◌, refl, true, List, [], ◌∷◌, append-nil, Bytes, arith, take, drop, length,
  Option-cases, inl, inr,
}
use visual_tmux_client.Prelude.Int.{ℤ}
use visual_tmux_client.Terminal.Queue.{close_abnormal, close_with_exit, get_exit_code, should_read}
use visual_tmux_client.Terminal.Effect.{
  Effect, outputs, sent, outputs-append, sent-append, proc_write, proc_resize, proc_detach,
  proc_close, proc_wait, send_pong, send_exit, peer_close, peer_close_now, resized, untracked,
}
use visual_tmux_client.Terminal.Attachment.{
  Attachment, Env, emit, finish, write_loop, write_input, handle_control, apply_resize, chunk_size,
}
use visual_tmux_client.Terminal.Attachment.Calls.{
  Call, closes_queue, cancels, finishes, closes_with, closes_process, waits, detaches, sends_exit,
  drops, hangs_up, call,
}
use visual_tmux_client.Terminal.Attachment.System.{proceed}

-- `b` comes from `a` with the buffers, and what was read and sent, unchanged.
pub record Keeps (a b : Attachment) : Type 0 where
  pub same_ready : b.ready ≡ a.ready
  pub same_stage : b.stage ≡ a.stage
  pub same_chunks : b.queue.chunks ≡ a.queue.chunks
  pub same_bytes : b.queue.bytes ≡ a.queue.bytes
  pub same_high : b.queue.high_water ≡ a.queue.high_water
  pub same_low : b.queue.low_water ≡ a.queue.low_water
  pub same_outputs : outputs b.log ≡ outputs a.log
  pub same_sent : sent b.log ≡ sent a.log

pub Keeps-refl : (a : Attachment) → Keeps a a
Keeps-refl a = ground arith

pub Keeps-trans : (a b c : Attachment) → Keeps a b → Keeps b c → Keeps a c
Keeps-trans a b c k l = ground arith

pub emit-Keeps :
    (a : Attachment) (e : Effect) → outputs (e ∷ []) ≡ [] → sent (e ∷ []) ≡ [] → Keeps a (emit a e)
emit-Keeps a e o s = record {
  same_ready = refl;
  same_stage = refl;
  same_chunks = refl;
  same_bytes = refl;
  same_high = refl;
  same_low = refl;
  same_outputs = rw (outputs-append, o) (append-nil _);
  same_sent = rw (sent-append, s) (append-nil _);
}

pub then_emit :
    (a b : Attachment) (e : Effect)
    → outputs (e ∷ []) ≡ []
    → sent (e ∷ []) ≡ []
    → Keeps a b
    → Keeps a (emit b e)
then_emit a b e o s k = Keeps-trans a b (emit b e) k (emit-Keeps b e o s)

pub finish-Keeps : (a : Attachment) → Keeps a (finish a)
unfolding finish
finish-Keeps a =
    let b = record a { finished = true; cancelled = true } in
    ground (arith, emit-Keeps b untracked refl refl)

pub should_read-Keeps : (a : Attachment) → Keeps a (record a { queue = (should_read a.queue).0 })
unfolding should_read
should_read-Keeps a = ground arith

pub call-Keeps : (c : Call) (a : Attachment) → Keeps a (call c a)
unfolding call close_abnormal close_with_exit
call-Keeps closes_queue a = ground arith
call-Keeps cancels a = ground arith
call-Keeps finishes a = finish-Keeps a
call-Keeps (closes_with code) a = ground arith
call-Keeps closes_process a = emit-Keeps a proc_close refl refl
call-Keeps waits a = emit-Keeps a proc_wait refl refl
call-Keeps detaches a = emit-Keeps a proc_detach refl refl
call-Keeps sends_exit a = elim (Option-cases (get_exit_code a.queue)) [
  | inl e ↦ rw e (Keeps-refl a)
  | inr (code, e) ↦ rw e (emit-Keeps a (send_exit code) refl refl)
]
call-Keeps drops a = emit-Keeps a peer_close_now refl refl
call-Keeps (hangs_up status reason) a = emit-Keeps a (peer_close status reason) refl refl

pub proceed-Keeps : (n : ℕ) (cs : List (List Call)) (a : Attachment) → Keeps a (proceed n cs a).1
unfolding proceed
proceed-Keeps n [] a = Keeps-refl a
proceed-Keeps zero ([] ∷ cs) a = Keeps-refl a
proceed-Keeps zero ((x ∷ c) ∷ cs) a = call-Keeps x a
proceed-Keeps (suc n) (c ∷ cs) a = proceed-Keeps n cs a

pub apply_resize-Keeps : (a : Attachment) (cols rows : ℤ) → Keeps a (apply_resize a cols rows)
unfolding apply_resize
apply_resize-Keeps a cols rows =
    let b = emit a (proc_resize cols rows) in
    let k = emit-Keeps a (proc_resize cols rows) refl refl in
    let l = emit-Keeps (record b { cols = cols; rows = rows }) (resized cols rows) refl refl in
    ground (arith, k, l)

module _ (env : Env) where
  write_loop-Keeps : (f n : ℕ) (d : Bytes) (a : Attachment) → Keeps a (write_loop env f n d a)
  unfolding write_loop
  write_loop-Keeps zero n d a = Keeps-refl a
  write_loop-Keeps (suc f) n [] a = Keeps-refl a
  write_loop-Keeps (suc f) n (x ∷ d) a =
      let piece = take n (x ∷ d) in
      let b = emit a (proc_write piece) in
      let k = emit-Keeps a (proc_write piece) refl refl in
      let ih = write_loop-Keeps f n (drop n (x ∷ d)) b in
      ground (arith, Keeps-refl a, k, Keeps-trans a b (write_loop env f n (drop n (x ∷ d)) b) k ih)

  pub write_input-Keeps : (a : Attachment) (d : Bytes) → Keeps a (write_input env a d)
  unfolding write_input
  write_input-Keeps a d = write_loop-Keeps (length d) (chunk_size a.opts) d a

  pub handle_control-Keeps : (a : Attachment) (d : Bytes) → Keeps a (handle_control env a d)
  unfolding handle_control
  handle_control-Keeps a d = elim (Option-cases (env.unmarshal d)) [
    | inl e ↦ rw (e, handle_control) (Keeps-refl a)
    | inr (msg, e) ↦
        rw (e, handle_control)
          (ground (
            arith,
            Keeps-refl a,
            apply_resize-Keeps a msg.cols msg.rows,
            emit-Keeps a send_pong refl refl,
          ))
  ]
