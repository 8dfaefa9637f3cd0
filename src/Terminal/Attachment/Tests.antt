-- ===== src/Terminal/Attachment/Tests.antt =====
-- The theorems on attachments at concrete inputs: an environment, and a schedule in which a process
-- puts out two chunks, one before and one after the peer is ready, and the client types and leaves.
use visual_tmux_client.Prelude.{
  ℕ, ◌+◌, ◌≤◌, ◌≡◌, refl, true, false, List, [], ◌∷◌, some, any, codes, arith,
}
use visual_tmux_client.Prelude.Int.{pos}
use visual_tmux_client.Terminal.Options.{default_options}
use visual_tmux_client.Terminal.Staging
use visual_tmux_client.Terminal.Effect.{sent}
use visual_tmux_client.Terminal.Attachment.{Attachment, Env, new_attachment, deliver}
use visual_tmux_client.Terminal.Queue.{should_read, new_output_queue, pop, close_with_exit}
use visual_tmux_client.Terminal.Attachment.System.{
  System, Reader, Writer, flushed, Event, ask, reads, take, sends, message, binary, gone, announce,
  ends, proceeds, flush, start, run, step, ask_queue, read_output, take_chunk,
}
use visual_tmux_client.Terminal.Attachment.Order.{InOrder}
use visual_tmux_client.Terminal.Attachment.Delivery.{run-InOrder}
use visual_tmux_client.Terminal.Attachment.Lifecycle.{IsOrderly}
use visual_tmux_client.Terminal.Attachment.Letting.{lets_go}
use visual_tmux_client.Terminal.Attachment.Endings.{run-start-IsOrderly}
use visual_tmux_client.Terminal.Attachment.Memory.Schedules.{run-bounded}
use visual_tmux_client.Terminal.Attachment.Dimensions.{Size, IsSized, size_of, proc_size}
use visual_tmux_client.Terminal.Attachment.Races.{early_exit_loses_output, crossing, repaint_race}

-- Everything goes well, and every control message asks for 100 columns and 30 rows.
abbrev calm : Env
calm = record {
  cancels = λ l. false;
  accepts = λ l p. true;
  unmarshal = λ d. some (record { type = codes "resize"; cols = pos 100; rows = pos 30 });
}

abbrev new_one : Attachment
new_one = new_attachment default_options (codes "work") (pos 80) (pos 24) true true

abbrev schedule : List Event
schedule =
    ask
    ∷ reads (codes "hello")
    ∷ announce
    ∷ flush
    ∷ take
    ∷ ask
    ∷ reads (codes "world")
    ∷ sends true
    ∷ message (binary (codes "ls"))
    ∷ take
    ∷ sends false
    ∷ proceeds 0
    ∷ message gone
    ∷ proceeds 0
    ∷ proceeds 1
    ∷ []

run-InOrder_example : (k : ℕ) × InOrder (run calm (start new_one) schedule).att k
run-InOrder_example =
    run-InOrder calm default_options (codes "work") (pos 80) (pos 24) true true schedule

run-start-IsOrderly_example :
    IsOrderly
      (any lets_go (run calm (start new_one) schedule).calls)
      (run calm (start new_one) schedule).att
run-start-IsOrderly_example =
    run-start-IsOrderly calm default_options (codes "work") (pos 80) (pos 24) true true schedule

run-bounded_example :
    ((run calm (start new_one) schedule).att.queue.bytes ≤ 2_097_152 + 32_768)
    × ((run calm (start new_one) schedule).att.stage.size ≤ 2_097_152)
unfolding Staging.new_staging_buffer
run-bounded_example =
    run-bounded 2_097_152 32_768 calm default_options (codes "work") (pos 80) (pos 24) true true
      schedule (omega arith) (omega arith) (omega arith) (omega arith) (ground arith)

abbrev first_size : Size
first_size = record { width = pos 80; height = pos 24 }

new_one-IsSized : IsSized first_size new_one
unfolding new_attachment
new_one-IsSized = record {
  cols_within = (omega arith, omega arith);
  rows_within = (omega arith, omega arith);
  synced = refl;
}

-- The process writes and exits before the peer has got the ready frame.
abbrev early_exit : List Event
early_exit =
    ask
    ∷ reads (codes "oops")
    ∷ ask
    ∷ ends [] (some (pos 1))
    ∷ proceeds 0
    ∷ proceeds 0
    ∷ proceeds 0
    ∷ take
    ∷ []

abbrev too_late : List Event
too_late = proceeds 0 ∷ announce ∷ flush ∷ take ∷ proceeds 0 ∷ proceeds 0 ∷ []

writer_stopped : (run calm (start new_one) early_exit).writer ≡ Writer.stopped
unfolding run start new_attachment step ask_queue should_read new_output_queue read_output deliver
    take_chunk pop close_with_exit
writer_stopped = refl

early_exit_loses_output_example :
    sent (run calm (run calm (start new_one) early_exit) too_late).att.log ≡ []
early_exit_loses_output_example =
    early_exit_loses_output calm default_options (codes "work") (pos 80) (pos 24) true true
      early_exit too_late refl writer_stopped

-- `Start` has flushed.
abbrev flushed_one : System
flushed_one = record {
  att = new_one;
  reader = Reader.asking;
  writer = Writer.popping;
  input_open = true;
  starter = flushed;
  calls = [];
}

repaint_race_example :
    (size_of (run calm flushed_one (crossing (codes "{}"))).att
      ≡ record { width = pos 100; height = pos 30 })
    × (proc_size first_size (run calm flushed_one (crossing (codes "{}"))).att.log
        ≡ size_of new_one)
unfolding new_attachment
repaint_race_example =
    repaint_race first_size calm flushed_one (codes "{}") (pos 100) (pos 30) refl refl (omega arith)
      (omega arith, omega arith) (omega arith, omega arith) refl
