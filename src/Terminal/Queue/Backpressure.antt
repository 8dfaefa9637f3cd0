-- ===== src/Terminal/Queue/Backpressure.antt =====
-- The two watermarks: when the reader of the process has to wait, and that it may go on again.
use visual_tmux_client.Prelude.{
  ◌-◌, ◌≤◌, ◌<◌, ◌≡◌, refl, true, false, ◌||◌, List, [], ◌∷◌, arith, length, Bytes, ap,
}
use visual_tmux_client.Terminal.Staging.Eviction.{total}
use visual_tmux_client.Terminal.Queue.{
  OutputQueue, push, should_read, pop, pop_from, close_with_exit, close_abnormal,
}
use visual_tmux_client.Terminal.Queue.Fifo.{
  Call, pushes, asks, pops, exits, aborts, call, calls, times, IsValid, pop_from-IsValid,
}

-- The queue holds at least its low watermark now and after each of the calls.
abbrev pub StaysAbove : OutputQueue → List Call → Type 0
StaysAbove q [] = q.low_water ≤ q.bytes
StaysAbove q (c ∷ cs) = (q.low_water ≤ q.bytes) × StaysAbove (call q c).0 cs

abbrev IsHeld : OutputQueue → Type 0
IsHeld q = (q.closed || q.paused) ≡ true

refusal-IsHeld : (q : OutputQueue) → (should_read q).1.read ≡ false → IsHeld (should_read q).0
unfolding should_read
refusal-IsHeld q h = ground arith

IsHeld-refuses :
    (q : OutputQueue) → IsHeld q → q.low_water ≤ q.bytes → (should_read q).1.read ≡ false
unfolding should_read
IsHeld-refuses q h above = ground arith

pop_from-IsHeld : (q : OutputQueue) (cs : List Bytes) → IsHeld q → IsHeld (pop_from q cs).0
unfolding pop_from
pop_from-IsHeld q [] h = h
pop_from-IsHeld q (c ∷ cs) h = h

push-IsHeld : (q : OutputQueue) (b : Bytes) → IsHeld q → IsHeld (push q b)
unfolding push
push-IsHeld q [] h = h
push-IsHeld q (x ∷ b) h = h

call-IsHeld : (q : OutputQueue) (c : Call) → IsHeld q → q.low_water ≤ q.bytes → IsHeld (call q c).0
unfolding call pop close_with_exit close_abnormal
call-IsHeld q (pushes b) h above = push-IsHeld q b h
call-IsHeld q asks h above = refusal-IsHeld q (IsHeld-refuses q h above)
call-IsHeld q pops h above = pop_from-IsHeld q q.chunks h
call-IsHeld q (exits code) h above = refl
call-IsHeld q aborts h above = refl

calls-refuse :
    (q : OutputQueue) (cs : List Call)
    → IsHeld q
    → StaysAbove q cs
    → (should_read (calls q cs).0).1.read ≡ false
unfolding calls
calls-refuse q [] h above = IsHeld-refuses q h above
calls-refuse q (c ∷ cs) h above = calls-refuse (call q c).0 cs (call-IsHeld q c h above.0) above.1

-- Hysteresis: once `ShouldRead` has refused, it refuses after any further calls, as long as the
-- queue did not fall below its low watermark in between.
pub should_read_hysteresis :
    (q : OutputQueue) (cs : List Call)
    → (should_read q).1.read ≡ false
    → StaysAbove (should_read q).0 cs
    → (should_read (calls (should_read q).0 cs).0).1.read ≡ false
should_read_hysteresis q cs h above = calls-refuse (should_read q).0 cs (refusal-IsHeld q h) above

-- It never lets the reader go on at or above the high watermark, if the low one is not higher.
pub should_read-lt-high_water :
    (q : OutputQueue)
    → q.low_water ≤ q.high_water
    → (should_read q).1.read ≡ true
    → q.bytes < q.high_water
unfolding should_read
should_read-lt-high_water q h r = ground arith

drained_reads :
    (q : OutputQueue)
    → q.chunks ≡ []
    → IsValid q
    → q.closed ≡ false
    → 0 < q.low_water
    → 0 < q.high_water
    → (should_read q).1.read ≡ true
unfolding should_read
drained_reads q e v running lo hi =
    let none_left : q.bytes ≡ 0 = omega (arith, v.counted, ap total e) in ground arith

empty_reads :
    (q : OutputQueue) (cs : List Bytes)
    → q.chunks ≡ cs
    → IsValid q
    → q.closed ≡ false
    → 0 < q.low_water
    → 0 < q.high_water
    → (should_read (calls q (times (length cs) pops)).0).1.read ≡ true
unfolding calls call pop pop_from
empty_reads q [] e v running lo hi = drained_reads q e v running lo hi
empty_reads q (c ∷ cs) e v running lo hi = rw e (
    empty_reads (record q { chunks = cs; bytes = q.bytes - length c }) cs refl
      (pop_from-IsValid q (c ∷ cs) e v) running lo hi)

-- A reader that had to wait may go on once the writer has taken every chunk.
pub should_read_emptied :
    (q : OutputQueue)
    → IsValid q
    → q.closed ≡ false
    → 0 < q.low_water
    → 0 < q.high_water
    → (should_read (calls q (times (length q.chunks) pops)).0).1.read ≡ true
should_read_emptied q v = empty_reads q q.chunks refl v
