-- ===== src/Terminal/Attachment/Memory.antt =====
-- How many bytes of output an attachment may hold at a time.
pub mod Schedules
use visual_tmux_client.Prelude.{
  ℕ, zero, suc, ◌+◌, ◌-◌, ◌≤◌, ◌<◌, ◌≡◌, ◌≢◌, ◌⊎◌, inl, inr, refl, sym, ap, ◌∙◌, Bool, true, false,
  ◌||◌, List, [], ◌∷◌, ◌++◌, Option, none, some, Bytes, arith, drop, length, All, if_cases,
  Bool-cases, if◌then◌else◌,
}
use visual_tmux_client.Prelude.Int.{ℤ}
use visual_tmux_client.Terminal.Options.{Options}
use visual_tmux_client.Terminal.Staging
use visual_tmux_client.Terminal.Staging.{drain, evict, StagingBuffer}
use visual_tmux_client.Terminal.Staging.Eviction
use visual_tmux_client.Terminal.Staging.Eviction.{total, evict-Evicts}
use visual_tmux_client.Terminal.Queue.{
  OutputQueue, push, pop, pop_from, should_read, Popped, chunk, drained, blocked,
}
use visual_tmux_client.Terminal.Effect.{
  Effect, outputs, sent, proc_read, proc_detach, proc_wait, proc_resize, send_binary, send_ready,
}
use visual_tmux_client.Terminal.Attachment.{
  Attachment, Env, emit, finish, deliver, mark_ready_and_flush, push_all, new_attachment,
}
use visual_tmux_client.Terminal.Attachment.Frame.{
  Keeps, Keeps-refl, then_emit, emit-Keeps, write_input-Keeps, handle_control-Keeps,
}
use visual_tmux_client.Terminal.Attachment.System.{
  System, Reader, reading, Writer, popping, sending, Starter, created, announced, flushed, started,
  repainting, shrunk, Message, binary, text, other, gone, Event, ask, reads, ends, take, sends,
  message, announce, flush, measure, shrink, restore, shuts_down, closes, step, run, start,
  ask_queue, read_output, take_chunk, took, send_result, receive, start_step, measured, reader_step,
  writer_step,
}

-- `m` bounds the watermarks, the staging buffer and the chunks that are read, `n` only these.
-- `busy` says that a `Read` is under way.
pub record IsBounded (m n : ℕ) (busy : Bool) (a : Attachment) : Type 0 where
  pub queued : a.queue.bytes ≤ (if busy then m else m + n)
  pub staged : a.stage.size ≤ m
  pub valid : Eviction.IsValid a.stage
  pub unready : (a.ready ≡ true) ⊎ (a.queue.bytes ≡ 0)
  pub flushed_once : (a.ready ≡ false) ⊎ (a.stage.size ≡ 0)
  pub high_le : a.queue.high_water ≤ m
  pub low_le : a.queue.low_water ≤ m
  pub cap_le : a.stage.cap ≤ m
  pub chunk_le : n ≤ m

module _ (m n : ℕ) where
  pub Keeps-IsBounded :
      (busy : Bool) (a b : Attachment) → Keeps a b → IsBounded m n busy a → IsBounded m n busy b
  Keeps-IsBounded busy a b f v = record {
    queued = rw f.same_bytes v.queued;
    staged = rw f.same_stage v.staged;
    valid = rw f.same_stage v.valid;
    unready = rw (f.same_ready, f.same_bytes) v.unready;
    flushed_once = rw (f.same_ready, f.same_stage) v.flushed_once;
    high_le = rw f.same_high v.high_le;
    low_le = rw f.same_low v.low_le;
    cap_le = rw f.same_stage v.cap_le;
    chunk_le = v.chunk_le;
  }

  pub relax : (busy : Bool) (a : Attachment) → IsBounded m n busy a → IsBounded m n false a
  relax true a v = ground arith
  relax false a v = v

  push-bytes : (q : OutputQueue) (b : Bytes) → (push q b).bytes ≡ q.bytes + length b
  unfolding push
  push-bytes q [] = omega arith
  push-bytes q (x ∷ b) = refl

  push-waters :
      (q : OutputQueue) (b : Bytes)
      → ((push q b).high_water ≡ q.high_water) × ((push q b).low_water ≡ q.low_water)
  unfolding push
  push-waters q [] = (refl, refl)
  push-waters q (x ∷ b) = (refl, refl)

  push_all-bytes : (q : OutputQueue) (cs : List Bytes) → (push_all q cs).bytes ≡ q.bytes + total cs
  unfolding mark_ready_and_flush
  push_all-bytes q [] = omega arith
  push_all-bytes q (c ∷ cs) = omega (arith, push_all-bytes (push q c) cs, push-bytes q c)

  push_all-waters :
      (q : OutputQueue) (cs : List Bytes)
      → ((push_all q cs).high_water ≡ q.high_water) × ((push_all q cs).low_water ≡ q.low_water)
  unfolding mark_ready_and_flush
  push_all-waters q [] = (refl, refl)
  push_all-waters q (c ∷ cs) = ground (arith, push_all-waters (push q c) cs, push-waters q c)

  write-size :
      (b : StagingBuffer) (p : Bytes)
      → Eviction.IsValid b
      → b.cap ≤ m
      → b.size ≤ m
      → length p ≤ m
      → ((Staging.write b p).0.size ≤ m) × ((Staging.write b p).0.cap ≡ b.cap)
  unfolding Staging.write
  write-size b [] v c s p = (s, refl)
  write-size b (x ∷ p) v c s le =
      let ev = (evict-Evicts b.cap (length (x ∷ p)) b.size b.chunks v.counted).1 in
      ground (arith, ev.size_is, ev.enough, ap total (ev.kept_is))

  -- `Read` has returned at most `n` bytes.
  pub deliver-IsBounded :
      (a : Attachment) (b : Bytes)
      → length b ≤ n
      → IsBounded m n true a
      → IsBounded m n false (deliver a b)
  unfolding deliver
  deliver-IsBounded a b le v = ground (
    arith,
    push-bytes a.queue b,
    push-waters a.queue b,
    write-size a.stage b v.valid,
    Eviction.write-IsValid a.stage b v.valid,
  )

  pub flush-IsBounded :
      (busy : Bool) (a : Attachment)
      → IsBounded m n busy a
      → IsBounded m n busy (mark_ready_and_flush a)
  unfolding mark_ready_and_flush drain
  flush-IsBounded busy a v = record {
    queued = ground (arith, push_all-bytes a.queue a.stage.chunks, v.valid.counted);
    staged = omega arith;
    valid = Eviction.drain-IsValid a.stage;
    unready = inl refl;
    flushed_once = inr refl;
    high_le = omega (arith, push_all-waters a.queue a.stage.chunks);
    low_le = omega (arith, push_all-waters a.queue a.stage.chunks);
    cap_le = v.cap_le;
    chunk_le = v.chunk_le;
  }

  pub pop_from-IsBounded :
      (busy : Bool) (a : Attachment) (cs : List Bytes)
      → IsBounded m n busy a
      → IsBounded m n busy (record a { queue = (pop_from a.queue cs).0 })
  unfolding pop
  pop_from-IsBounded busy a [] v = v
  pop_from-IsBounded busy a (c ∷ cs) v = ground arith
