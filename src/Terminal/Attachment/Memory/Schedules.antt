-- ===== src/Terminal/Attachment/Memory/Schedules.antt =====
-- The bound on the queued output, in every schedule.
use native.Mathlib.Nat.{le_trans}
use visual_tmux_client.Prelude.{
  ℕ, ◌+◌, ◌≤◌, ◌≡◌, inl, inr, refl, Bool, true, false, List, [], ◌∷◌, Bytes, arith, length, All,
  if_cases, Bool-cases, if◌then◌else◌,
}
use visual_tmux_client.Prelude.Int.{ℤ}
use visual_tmux_client.Terminal.Options.{Options}
use visual_tmux_client.Terminal.Staging
use visual_tmux_client.Terminal.Staging.{drain, evict, StagingBuffer}
use visual_tmux_client.Terminal.Queue.{
  new_output_queue, pop, should_read, Popped, chunk, drained, blocked,
}
use visual_tmux_client.Terminal.Effect.{proc_read, proc_resize, send_ready}
use visual_tmux_client.Terminal.Attachment.{Attachment, Env, new_attachment}
use visual_tmux_client.Terminal.Attachment.Frame.{
  Keeps, should_read-Keeps, emit-Keeps, proceed-Keeps, write_input-Keeps, handle_control-Keeps,
}
use visual_tmux_client.Terminal.Attachment.System.{
  System, Reader, reading, Writer, popping, sending, Starter, created, announced, flushed,
  repainting, shrunk, Message, binary, text, other, gone, Event, ask, reads, ends, take, sends,
  message, announce, flush, measure, shrink, restore, shuts_down, closes, proceeds, step, run,
  start, ask_queue, read_output, take_chunk, took, send_result, receive, start_step, reader_step,
  writer_step,
}
use visual_tmux_client.Terminal.Attachment.Memory.{
  IsBounded, Keeps-IsBounded, relax, deliver-IsBounded, flush-IsBounded, pop_from-IsBounded,
}

-- The size of the buffer that `Read` fills.
abbrev pub Fits : ℕ → Event → Type 0
Fits n (reads b) = length b ≤ n
Fits n (ends b code) = length b ≤ n
Fits n _ = Unit {0}

abbrev is_busy : Reader → Bool
is_busy reading = true
is_busy _ = false

module _ (m n : ℕ) where
  abbrev Bounds : System → Type 0
  Bounds s = IsBounded m n (is_busy s.reader) s.att

  kept :
      (s : System) (b : Attachment) → Keeps s.att b → Bounds s → IsBounded m n (is_busy s.reader) b
  kept s b f v = Keeps-IsBounded m n (is_busy s.reader) s.att b f v

  -- `ShouldRead` says yes only below a watermark.
  asked-IsBounded :
      (s : System)
      → IsBounded m n false s.att
      → (should_read s.att.queue).1.read ≡ true
      → IsBounded m n true (record (s.att) { queue = (should_read s.att.queue).0 })
  unfolding should_read
  asked-IsBounded s v r = ground arith

  ask_queue-Bounds : (s : System) → IsBounded m n false s.att → Bounds (ask_queue s)
  unfolding ask_queue
  ask_queue-Bounds s v =
      let a = s.att in
      let asked = should_read-Keeps a in
      if_cases Bounds a.cancelled (λ _. v)
        (λ _.
          if_cases Bounds (should_read a.queue).1.closed
            (λ _. Keeps-IsBounded m n false a _ asked v)
            (λ _. elim (Bool-cases (should_read a.queue).1.read) [
              | inl r ↦ rw r (asked-IsBounded s v r)
              | inr r ↦ rw r (Keeps-IsBounded m n false a _ asked v)
            ]))

  read_output-IsBounded :
      (a : Attachment) (b : Bytes)
      → length b ≤ n
      → IsBounded m n true a
      → IsBounded m n false (read_output a b)
  unfolding read_output
  read_output-IsBounded a [] le v =
      relax m n true _ (Keeps-IsBounded m n true a _ (emit-Keeps a (proc_read []) refl refl) v)
  read_output-IsBounded a (x ∷ b) le v = deliver-IsBounded m n _ (x ∷ b) le (ground arith)

  took-Bounds :
      (s : System) (p : Popped)
      → Bounds s
      → Bounds (took s (record (s.att) { queue = (pop s.att.queue).0 }) p)
  unfolding take_chunk pop
  took-Bounds s (chunk c) v =
      let busy = is_busy s.reader in
      let w = pop_from-IsBounded m n busy s.att s.att.queue.chunks v in ground (arith, w)
  took-Bounds s drained v = pop_from-IsBounded m n (is_busy s.reader) s.att s.att.queue.chunks v
  took-Bounds s blocked v = v

  receive-Bounds : (env : Env) (s : System) (e : Message) → Bounds s → Bounds (receive env s e)
  unfolding receive
  receive-Bounds env s (binary d) v = kept s _ (write_input-Keeps env s.att d) v
  receive-Bounds env s (text d) v = kept s _ (handle_control-Keeps env s.att d) v
  receive-Bounds env s (other d) v = v
  receive-Bounds env s gone v = v

  reader_step-Bounds :
      (s : System) (r : Reader) (e : Event)
      → Fits n e
      → s.reader ≡ r
      → Bounds s
      → Bounds (reader_step s r e)
  unfolding step
  reader_step-Bounds s Reader.asking ask fits here v =
      ask_queue-Bounds s (relax m n (is_busy s.reader) s.att v)
  reader_step-Bounds s reading (reads b) fits here v =
      read_output-IsBounded s.att b fits (rw here at v)
  reader_step-Bounds s reading (ends b code) fits here v =
      read_output-IsBounded s.att b fits (rw here at v)
  reader_step-Bounds s _ _ fits here v = v

  writer_step-Bounds : (s : System) (w : Writer) (e : Event) → Bounds s → Bounds (writer_step s w e)
  unfolding step
  writer_step-Bounds s popping take v = unfold take_chunk in took-Bounds s (pop s.att.queue).1 v
  writer_step-Bounds s sending (sends true) v = unfold send_result in v
  writer_step-Bounds s sending (sends false) v = unfold send_result in v
  writer_step-Bounds s _ _ v = v

  start_step-Bounds : (s : System) (p : Starter) (e : Event) → Bounds s → Bounds (start_step s p e)
  unfolding start_step
  start_step-Bounds s created announce v =
      kept s _ (emit-Keeps s.att (send_ready _ _ _) refl refl) v
  start_step-Bounds s announced flush v = flush-IsBounded m n (is_busy s.reader) s.att v
  start_step-Bounds s flushed measure v = if_cases Bounds _ (λ _. v) (λ _. v)
  start_step-Bounds s (repainting c r) shrink v =
      kept s _ (emit-Keeps s.att (proc_resize _ _) refl refl) v
  start_step-Bounds s (shrunk c r) restore v =
      kept s _ (emit-Keeps s.att (proc_resize _ _) refl refl) v
  start_step-Bounds s _ _ v = v

  step-Bounds : (env : Env) (s : System) (e : Event) → Fits n e → Bounds s → Bounds (step env s e)
  unfolding step
  step-Bounds env s ask f v = reader_step-Bounds s s.reader ask f refl v
  step-Bounds env s (reads b) f v = reader_step-Bounds s s.reader (reads b) f refl v
  step-Bounds env s (ends b code) f v = reader_step-Bounds s s.reader (ends b code) f refl v
  step-Bounds env s take f v = writer_step-Bounds s s.writer take v
  step-Bounds env s (sends ok) f v = writer_step-Bounds s s.writer (sends ok) v
  step-Bounds env s (message e) f v =
      if_cases Bounds s.input_open (λ _. receive-Bounds env s e v) (λ _. v)
  step-Bounds env s announce f v = start_step-Bounds s s.starter announce v
  step-Bounds env s flush f v = start_step-Bounds s s.starter flush v
  step-Bounds env s measure f v = start_step-Bounds s s.starter measure v
  step-Bounds env s shrink f v = start_step-Bounds s s.starter shrink v
  step-Bounds env s restore f v = start_step-Bounds s s.starter restore v
  step-Bounds env s shuts_down f v = v
  step-Bounds env s closes f v = v
  step-Bounds env s (proceeds n) f v = kept s _ (proceed-Keeps n s.calls s.att) v

  pub run-Bounds :
      (env : Env) (s : System) (es : List Event)
      → All (Fits n) es
      → IsBounded m n (is_busy s.reader) s.att
      → IsBounded m n (is_busy (run env s es).reader) (run env s es).att
  unfolding run
  run-Bounds env s [] f v = v
  run-Bounds env s (e ∷ es) f v = run-Bounds env (step env s e) es f.1 (step-Bounds env s e f.0 v)

-- If no `Read` returns more than `n` bytes, then at no time does the output queue of a new
-- attachment hold more than `m + n` bytes, and its staging buffer never more than `m`, where `m` is
-- at least the watermarks, the staging capacity and `n`.
pub run-bounded :
    (m n : ℕ) (env : Env) (opts : Options) (session : Bytes) (cols rows : ℤ) (owned watched : Bool)
    (es : List Event)
    → opts.output_high_water_bytes ≤ m
    → opts.output_low_water_bytes ≤ m
    → (Staging.new_staging_buffer opts.staging_buffer_bytes).cap ≤ m
    → n ≤ m
    → All (Fits n) es
    → let a = (run env (start (new_attachment opts session cols rows owned watched)) es).att in
      (a.queue.bytes ≤ m + n) × (a.stage.size ≤ m)
unfolding start new_attachment new_output_queue Staging.new_staging_buffer
run-bounded m n env opts session cols rows owned watched es high low cap chunk_le fits =
    let s = start (new_attachment opts session cols rows owned watched) in
    let before : IsBounded m n false s.att = record {
      queued = omega arith;
      staged = omega arith;
      valid = record { counted = refl; fits = inl (omega arith) };
      unready = inr refl;
      flushed_once = inl refl;
      high_le = high;
      low_le = low;
      cap_le = cap;
      chunk_le = chunk_le;
    } in
    let v = run-Bounds m n env s es fits before in
    (le_trans v.queued (busy_le (run env s es).reader), v.staged)
  where
    busy_le : (r : Reader) → (if is_busy r then m else m + n) ≤ m + n
    busy_le r = ground arith
