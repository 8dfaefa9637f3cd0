-- ===== src/Terminal/Queue.antt =====
-- hub/internal/terminal/queue.go: the queue between the reader of the process and the writer to the
-- peer. A call is one critical section of the queue's mutex; `Pop` waits on the condition variable
-- while it answers `blocked`.
pub mod Fifo
pub mod Backpressure
use visual_tmux_client.Prelude.{
  ℕ, ◌+◌, ◌-◌, Bool, true, false, List, [], ◌∷◌, ◌++◌, Option, none, some, Bytes, length, ltb, leb,
  if◌then◌else◌,
}
use visual_tmux_client.Prelude.Int.{ℤ}

pub record OutputQueue : Type 0 where
  pub chunks : List Bytes
  pub bytes : ℕ
  pub paused : Bool
  pub closed : Bool
  pub exit_code : Option ℤ
  pub high_water : ℕ
  pub low_water : ℕ

unfoldable pub new_output_queue : ℕ → ℕ → OutputQueue
new_output_queue high low = record {
  chunks = [];
  bytes = 0;
  paused = false;
  closed = false;
  exit_code = none;
  high_water = high;
  low_water = low;
}

unfoldable pub push : OutputQueue → Bytes → OutputQueue
push q [] = q
push q (x ∷ b) = record q { chunks = q.chunks ++ (x ∷ b) ∷ []; bytes = q.bytes + length (x ∷ b) }

-- What `ShouldRead` answers: the flags `read` and `closed`.
pub record Answer : Type 0 where
  pub read : Bool
  pub closed : Bool

abbrev go_on : Answer
go_on = record { read = true; closed = false }

abbrev wait : Answer
wait = record { read = false; closed = false }

abbrev ended : Answer
ended = record { read = false; closed = true }

unfoldable pub should_read : OutputQueue → OutputQueue × Answer
should_read q =
    if q.closed
    then (q, ended)
    else if q.paused
    then (if ltb q.bytes q.low_water then (record q { paused = false }, go_on) else (q, wait))
    else if leb q.high_water q.bytes
    then (record q { paused = true }, wait)
    else (q, go_on)

pub data Popped : Type 0 where
  chunk : Bytes → Popped
  drained blocked : Popped

pub pop_from : OutputQueue → List Bytes → OutputQueue × Popped
pop_from q [] = (q, if q.closed then drained else blocked)
pop_from q (c ∷ cs) = (record q { chunks = cs; bytes = q.bytes - length c }, chunk c)

unfoldable pub pop : OutputQueue → OutputQueue × Popped
unfolding pop_from
pop q = pop_from q q.chunks

unfoldable pub close_with_exit : OutputQueue → Option ℤ → OutputQueue
close_with_exit q code = record q { closed = true; exit_code = code }

unfoldable pub close_abnormal : OutputQueue → OutputQueue
close_abnormal q = record q { closed = true }

unfoldable pub get_exit_code : OutputQueue → Option ℤ
get_exit_code q = q.exit_code
