-- ===== src/Terminal/Queue/Fifo.antt =====
-- The queue over a history of calls: what comes out, and what the counters say.
use visual_tmux_client.Prelude.{
  ℕ, zero, suc, ◌-◌, ◌≡◌, ◌≢◌, refl, true, List, [], ◌∷◌, ◌++◌, Option, Bytes, length, All,
  All-append, arith, append-nil, append_assoc, sym, ap, ◌∙◌,
}
use visual_tmux_client.Prelude.Int.{ℤ}
use visual_tmux_client.Terminal.Staging.Eviction.{total, total-append}
use visual_tmux_client.Terminal.Queue.{
  OutputQueue, push, should_read, pop, pop_from, Popped, chunk, drained, blocked, close_with_exit,
  close_abnormal,
}

pub data Call : Type 0 where
  pushes : Bytes → Call
  asks pops : Call
  exits : Option ℤ → Call
  aborts : Call

abbrev popped_chunk : Popped → List Bytes
popped_chunk (chunk c) = c ∷ []
popped_chunk drained = []
popped_chunk blocked = []

-- A call, and the chunk that it hands out.
unfoldable pub call : OutputQueue → Call → OutputQueue × List Bytes
call q (pushes b) = (push q b, [])
call q asks = ((should_read q).0, [])
call q pops = ((pop q).0, popped_chunk (pop q).1)
call q (exits code) = (close_with_exit q code, [])
call q aborts = (close_abnormal q, [])

unfoldable pub calls : OutputQueue → List Call → OutputQueue × List Bytes
calls q [] = (q, [])
calls q (c ∷ cs) = let (q', out) = call q c in let (q'', outs) = calls q' cs in (q'', out ++ outs)

-- What one call puts in; an empty chunk is not queued.
abbrev put_in : Call → List Bytes
put_in (pushes (x ∷ b)) = (x ∷ b) ∷ []
put_in _ = []

abbrev pub all_put_in : List Call → List Bytes
all_put_in [] = []
all_put_in (c ∷ cs) = put_in c ++ all_put_in cs

pub record IsValid (q : OutputQueue) : Type 0 where
  pub counted : q.bytes ≡ total q.chunks
  pub no_empty : All (λ c. c ≢ []) q.chunks

pop_from-chunks :
    (q : OutputQueue) (cs : List Bytes)
    → q.chunks ≡ cs
    → popped_chunk (pop_from q cs).1 ++ (pop_from q cs).0.chunks ≡ cs
unfolding pop_from
pop_from-chunks q [] e = ground arith
pop_from-chunks q (c ∷ cs) e = refl

should_read-chunks : (q : OutputQueue) → (should_read q).0.chunks ≡ q.chunks
unfolding should_read
should_read-chunks q = ground arith

pub push-chunks : (q : OutputQueue) (b : Bytes) → (push q b).chunks ≡ q.chunks ++ put_in (pushes b)
unfolding push
push-chunks q [] = sym (append-nil q.chunks)
push-chunks q (x ∷ b) = refl

call-chunks :
    (q : OutputQueue) (c : Call) → (call q c).1 ++ (call q c).0.chunks ≡ q.chunks ++ put_in c
unfolding call pop close_with_exit close_abnormal
call-chunks q (pushes b) = push-chunks q b
call-chunks q asks = rw append-nil (should_read-chunks q)
call-chunks q pops = rw append-nil (pop_from-chunks q q.chunks refl)
call-chunks q (exits code) = sym (append-nil q.chunks)
call-chunks q aborts = sym (append-nil q.chunks)

-- Over any history of calls, the chunks popped and then those still queued are those queued at
-- first and then those pushed, in the same order: nothing is lost, doubled or reordered.
pub calls-chunks :
    (q : OutputQueue) (cs : List Call)
    → (calls q cs).1 ++ (calls q cs).0.chunks ≡ q.chunks ++ all_put_in cs
unfolding calls
calls-chunks q [] = sym (append-nil q.chunks)
calls-chunks q (c ∷ cs) =
    let q' = (call q c).0 in
    let rest = calls q' cs in
    append_assoc (call q c).1 rest.1 rest.0.chunks
    ∙ ap (◌++◌ (call q c).1) (calls-chunks q' cs)
    ∙ sym (append_assoc (call q c).1 q'.chunks (all_put_in cs))
    ∙ ap (λ (l : List Bytes). l ++ all_put_in cs) (call-chunks q c)
    ∙ append_assoc q.chunks (put_in c) (all_put_in cs)

pub push-IsValid : (q : OutputQueue) (b : Bytes) → IsValid q → IsValid (push q b)
unfolding push
push-IsValid q [] v = v
push-IsValid q (x ∷ b) v = record {
  counted = omega (arith, total-append q.chunks ((x ∷ b) ∷ []), v.counted);
  no_empty = All-append _ q.chunks ((x ∷ b) ∷ []) v.no_empty (cc, tt);
}

pub pop_from-IsValid :
    (q : OutputQueue) (cs : List Bytes) → q.chunks ≡ cs → IsValid q → IsValid (pop_from q cs).0
unfolding pop_from
pop_from-IsValid q [] e v = v
pop_from-IsValid q (c ∷ cs) e v =
    let h : All (λ c. c ≢ []) (c ∷ cs) = rw e at v.no_empty in
    record { counted = omega (arith, v.counted, ap total e); no_empty = h.1 }

pub pop-IsValid : (q : OutputQueue) → IsValid q → IsValid (pop q).0
unfolding pop
pop-IsValid q v = pop_from-IsValid q q.chunks refl v

pub should_read-IsValid : (q : OutputQueue) → IsValid q → IsValid (should_read q).0
unfolding should_read
should_read-IsValid q v = ground arith

pub call-IsValid : (q : OutputQueue) (c : Call) → IsValid q → IsValid (call q c).0
unfolding call close_with_exit close_abnormal
call-IsValid q (pushes b) v = push-IsValid q b v
call-IsValid q asks v = should_read-IsValid q v
call-IsValid q pops v = pop-IsValid q v
call-IsValid q (exits code) v = record { counted = v.counted; no_empty = v.no_empty }
call-IsValid q aborts v = record { counted = v.counted; no_empty = v.no_empty }

-- Over any history of calls the byte count is the sum of the queued chunks, none of them empty.
pub calls-IsValid : (q : OutputQueue) (cs : List Call) → IsValid q → IsValid (calls q cs).0
unfolding calls
calls-IsValid q [] v = v
calls-IsValid q (c ∷ cs) v = calls-IsValid (call q c).0 cs (call-IsValid q c v)

abbrev pub times : ℕ → Call → List Call
times zero c = []
times (suc n) c = c ∷ times n c

drain_from :
    (q : OutputQueue) (cs : List Bytes)
    → q.chunks ≡ cs
    → q.closed ≡ true
    → ((calls q (times (length cs) pops)).1 ≡ cs)
      × ((pop (calls q (times (length cs) pops)).0).1 ≡ drained)
unfolding calls call pop pop_from
drain_from q [] e h = (refl, ground arith)
drain_from q (c ∷ cs) e h =
    let ih = drain_from (record q { chunks = cs; bytes = q.bytes - length c }) cs refl h in
    rw e (ap (◌∷◌ c) ih.0, ih.1)

-- A closed queue hands out all that it holds, in order, and only then says that it is drained.
pub closed_drains :
    (q : OutputQueue)
    → q.closed ≡ true
    → ((calls q (times (length q.chunks) pops)).1 ≡ q.chunks)
      × ((pop (calls q (times (length q.chunks) pops)).0).1 ≡ drained)
closed_drains q h = drain_from q q.chunks refl h
