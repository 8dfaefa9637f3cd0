-- ===== src/Terminal/Attachment/Order.antt =====
-- The output of the process reaches the peer in order, and without a gap once it has begun.
use visual_tmux_client.Prelude.{
  ℕ, zero, suc, ◌+◌, ◌≤◌, ◌<◌, ◌≡◌, ◌≢◌, ◌⊎◌, inl, inr, refl, sym, ap, ◌∙◌, true, false, List, [],
  ◌∷◌, ◌++◌, append-nil, append_assoc, Bytes, arith, drop, length, drop-append, drop-drop,
  length-append, if_cases, All, length-drop,
}
use visual_tmux_client.Terminal.Staging
use visual_tmux_client.Terminal.Staging.{StagingBuffer}
use visual_tmux_client.Terminal.Staging.Eviction
use visual_tmux_client.Terminal.Staging.Eviction.{total, Writes, write-Writes}
use visual_tmux_client.Terminal.Queue.{OutputQueue, push}
use visual_tmux_client.Terminal.Effect.{outputs, sent, outputs-append, sent-append, proc_read}
use visual_tmux_client.Terminal.Attachment.{
  Attachment, emit, deliver, mark_ready_and_flush, push_all,
}
use visual_tmux_client.Terminal.Attachment.Frame.{Keeps}

-- Of all that the process put out, the first `k` chunks were dropped; the rest waits in the staging
-- buffer until the peer is ready, and from then on was sent or waits in the queue, in its order.
pub record InOrder (a : Attachment) (k : ℕ) : Type 0 where
  pub placed :
      ((a.ready ≡ false)
        × (sent a.log ≡ [])
        × (a.queue.chunks ≡ [])
        × (a.stage.chunks ≡ drop k (outputs a.log)))
      ⊎ ((a.ready ≡ true)
          × (a.stage.chunks ≡ [])
          × (sent a.log ++ a.queue.chunks ≡ drop k (outputs a.log)))
  pub within : k ≤ length (outputs a.log)
  pub staged : Eviction.IsValid a.stage
  -- chunks are dropped only if the output is larger than the staging buffer
  pub overflown : (k ≡ 0) ⊎ (a.stage.cap < total (outputs a.log))

pub Keeps-InOrder : (a b : Attachment) (k : ℕ) → Keeps a b → InOrder a k → InOrder b k
Keeps-InOrder a b k f v = record {
  placed = rw (f.same_ready, f.same_stage, f.same_chunks, f.same_outputs, f.same_sent) v.placed;
  within = rw f.same_outputs v.within;
  staged = rw f.same_stage v.staged;
  overflown = rw (f.same_stage, f.same_outputs) v.overflown;
}

pub push-append : (q : OutputQueue) (b : Bytes) → b ≢ [] → (push q b).chunks ≡ q.chunks ++ b ∷ []
unfolding push
push-append q [] h = absurd (h refl)
push-append q (x ∷ b) h = refl

total-append_one : (xs : List Bytes) (b : Bytes) → total (xs ++ b ∷ []) ≡ total xs + length b
total-append_one xs b = omega (arith, Eviction.total-append xs (b ∷ []))

drop_more :
    (cs xs : List Bytes) (k j : ℕ) (b : Bytes)
    → cs ≡ drop k xs
    → k + j ≤ length xs
    → drop j cs ++ b ∷ [] ≡ drop (k + j) (xs ++ b ∷ [])
drop_more cs xs k j b e h = rw (e, drop-drop j k xs) (sym (drop-append (k + j) xs (b ∷ []) h))

module _ (a : Attachment) (k : ℕ) (v : InOrder a k) where
  pub staged_are : a.ready ≡ false → a.stage.chunks ≡ drop k (outputs a.log)
  staged_are r = ground arith

  pub sent_are : a.ready ≡ true → sent a.log ++ a.queue.chunks ≡ drop k (outputs a.log)
  sent_are r = ground arith

  pub nothing_sent : a.ready ≡ false → (sent a.log ≡ []) × (a.queue.chunks ≡ [])
  nothing_sent r = (ground arith, ground arith)

  pub nothing_staged : a.ready ≡ true → a.stage.chunks ≡ []
  nothing_staged r = ground arith

  staged_within :
      (j : ℕ) → a.ready ≡ false → j ≤ length a.stage.chunks → k + j ≤ length (outputs a.log)
  staged_within j r h =
      omega (arith, v.within, ap length (staged_are r), length-drop k (outputs a.log))

  staged_overflow :
      (b : Bytes) (j : ℕ) (b' : StagingBuffer)
      → a.ready ≡ false
      → Writes a.stage b b' j
      → (k + j ≡ 0) ⊎ (a.stage.cap < total (outputs a.log) + length b)
  staged_overflow b zero b' r w = elim (v.overflown) [
    | inl e ↦ inl (omega arith)
    | inr lt ↦ inr (omega arith)
  ]
  staged_overflow b (suc j) b' r w = inr (
      omega (
        arith,
        w.minimal 0 (omega arith),
        ap total (staged_are r),
        Eviction.total-drop-le k (outputs a.log),
      ))

  -- A chunk is read while the peer is not ready.
  stage_InOrder :
      (b : Bytes)
      → a.ready ≡ false
      → b ≢ []
      → outputs (proc_read b ∷ []) ≡ b ∷ []
      → (j : ℕ) × InOrder (record (emit a (proc_read b)) { stage = (Staging.write a.stage b).0 }) j
  stage_InOrder b r ne o =
      let (j, w) = write-Writes a.stage b v.staged ne in
      let log' : outputs (a.log ++ proc_read b ∷ []) ≡ outputs a.log ++ b ∷ [] =
        rw (outputs-append, o) in
      (
        k + j,
        record {
          placed = inl (
            r,
            rw sent-append (rw append-nil ((nothing_sent r).0)),
            (nothing_sent r).1,
            w.chunks_are
                ∙ drop_more a.stage.chunks (outputs a.log) k j b (staged_are r)
                    (staged_within j r w.within)
                ∙ ap (drop (k + j)) (sym log'),
          );
          within =
              rw log'
                (omega (arith, staged_within j r w.within, length-append (outputs a.log) (b ∷ [])));
          staged = Eviction.write-IsValid a.stage b v.staged;
          overflown =
              rw (w.same_cap, log', total-append_one (outputs a.log) b) (staged_overflow b j _ r w);
        },
      )

  -- A chunk is read while the peer is ready.
  queue_InOrder :
      (b : Bytes)
      → a.ready ≡ true
      → b ≢ []
      → outputs (proc_read b ∷ []) ≡ b ∷ []
      → InOrder (record (emit a (proc_read b)) { queue = push a.queue b }) k
  queue_InOrder b r ne o =
      let log' : outputs (a.log ++ proc_read b ∷ []) ≡ outputs a.log ++ b ∷ [] =
        rw (outputs-append, o) in
      record {
        placed = inr (
          r,
          nothing_staged r,
          rw (
            sent-append,
            append-nil,
            push-append a.queue b ne,
            log',
            drop-append k (outputs a.log) (b ∷ []) v.within,
            ← append_assoc,
            sent_are r,
          ),
        );
        within = rw log' (omega (arith, v.within, length-append (outputs a.log) (b ∷ [])));
        staged = v.staged;
        overflown =
            rw (log', total-append_one (outputs a.log) b)
              (elim (v.overflown) [ inl e ↦ inl e | inr lt ↦ inr (omega arith) ]);
      }

module _ (a : Attachment) (v : (k : ℕ) × InOrder a k) where
  pub deliver-InOrder :
      (b : Bytes)
      → b ≢ []
      → outputs (proc_read b ∷ []) ≡ b ∷ []
      → (k : ℕ) × InOrder (deliver (emit a (proc_read b)) b) k
  unfolding deliver
  deliver-InOrder b ne o =
      if_cases (λ c. (k : ℕ) × InOrder c k) a.ready (λ r. (v.0, queue_InOrder a v.0 v.1 b r ne o))
        (λ r. stage_InOrder a v.0 v.1 b r ne o)

pub push_all-append :
    (q : OutputQueue) (cs : List Bytes)
    → All (λ c. c ≢ []) cs
    → (push_all q cs).chunks ≡ q.chunks ++ cs
unfolding mark_ready_and_flush
push_all-append q [] h = sym (append-nil q.chunks)
push_all-append q (c ∷ cs) h =
    push_all-append (push q c) cs h.1 ∙ rw (push-append q c h.0) (append_assoc q.chunks (c ∷ []) cs)
