-- ===== src/Terminal/Attachment/Letting.antt =====
-- hub/internal/terminal/attachment.go: the methods that end an attachment, one call at a time.
use visual_tmux_client.Prelude.{
  ℕ, zero, suc, ◌≡◌, inl, inr, refl, sym, subst, ◌∙◌, All, any, Bool, true, false, not, ◌&&◌, ◌||◌,
  List, [], ◌∷◌, arith, Option-cases,
}
use visual_tmux_client.Terminal.Queue.{get_exit_code, close_abnormal, close_with_exit}
use visual_tmux_client.Terminal.Effect.{
  is_released, untrack_count-append, is_released-append, proc_detach, proc_close, proc_wait,
  send_exit, peer_close, peer_close_now, untracked,
}
use visual_tmux_client.Terminal.Attachment.{Attachment, finish}
use visual_tmux_client.Terminal.Attachment.Calls.{
  Call, closes_queue, cancels, finishes, closes_with, closes_process, waits, detaches, sends_exit,
  drops, hangs_up, call,
}
use visual_tmux_client.Terminal.Attachment.System.{proceed}
use visual_tmux_client.Terminal.Attachment.Lifecycle.{IsOrderly, finish-IsOrderly, emit-IsOrderly}

-- The calls that close the process or detach from it, that close the queue, and that finish.
abbrev pub releases_by : Call → Bool
releases_by detaches = true
releases_by closes_process = true
releases_by _ = false

abbrev pub closes_by : Call → Bool
closes_by closes_queue = true
closes_by (closes_with code) = true
closes_by _ = false

abbrev pub finishes_by : Call → Bool
finishes_by finishes = true
finishes_by _ = false

abbrev pub lets_go : List Call → Bool
lets_go [] = false
lets_go (x ∷ c) = releases_by x || lets_go c

-- What is left of a method closes the queue only before or after it lets the process go, and
-- finishes only when the queue is closed.
abbrev pub is_safe : Bool → Bool → List Call → Bool
is_safe closed released [] = true
is_safe closed released (x ∷ c) =
    (not (closes_by x) || (released || lets_go c))
    && ((not (finishes_by x) || closed)
        && is_safe (closed || closes_by x) (released || releases_by x) c)

pub is_safe-later :
    (c : List Call) (closed released closed' released' : Bool)
    → (closed ≡ true → closed' ≡ true)
    → (released ≡ true → released' ≡ true)
    → is_safe closed released c ≡ true
    → is_safe closed' released' c ≡ true
is_safe-later [] closed released closed' released' f g h = refl
is_safe-later (x ∷ c) closed released closed' released' f g h =
    let ih =
      is_safe-later c (closed || closes_by x) (released || releases_by x) (closed' || closes_by x)
        (released' || releases_by x) (λ e. ground (arith, f, e)) (λ e. ground (arith, g, e))
        (ground (arith, h)) in
    ground (arith, ih, f, g, h)

finish-closed : (a : Attachment) → (finish a).queue ≡ a.queue
unfolding finish
finish-closed a = ground arith

finish-released : (a : Attachment) → is_released (finish a).log ≡ is_released a.log
unfolding finish
finish-released a = ground (arith, is_released-append a.log (untracked ∷ []))

pub call-closed :
    (x : Call) (a : Attachment) → (call x a).queue.closed ≡ (a.queue.closed || closes_by x)
unfolding call close_abnormal close_with_exit
call-closed closes_queue a = ground arith
call-closed cancels a = ground arith
call-closed finishes a = rw (finish-closed a) (ground arith)
call-closed (closes_with code) a = ground arith
call-closed closes_process a = ground arith
call-closed waits a = ground arith
call-closed detaches a = ground arith
call-closed sends_exit a = elim (Option-cases (get_exit_code a.queue)) [
  | inl e ↦ rw e (ground arith)
  | inr (code, e) ↦ rw e (ground arith)
]
call-closed drops a = ground arith
call-closed (hangs_up status reason) a = ground arith

pub call-released :
    (x : Call) (a : Attachment) → is_released (call x a).log ≡ (is_released a.log || releases_by x)
unfolding call
call-released closes_queue a = ground arith
call-released cancels a = ground arith
call-released finishes a = rw (finish-released a) (ground arith)
call-released (closes_with code) a = ground arith
call-released closes_process a = is_released-append a.log (proc_close ∷ [])
call-released waits a = is_released-append a.log (proc_wait ∷ [])
call-released detaches a = is_released-append a.log (proc_detach ∷ [])
call-released sends_exit a = elim (Option-cases (get_exit_code a.queue)) [
  | inl e ↦ rw e (ground arith)
  | inr (code, e) ↦ rw e (is_released-append a.log (send_exit code ∷ []))
]
call-released drops a = is_released-append a.log (peer_close_now ∷ [])
call-released (hangs_up status reason) a = is_released-append a.log (peer_close status reason ∷ [])

swapped : (p q r : Bool) → ((p || r) || q) ≡ (p || (q || r))
swapped p q r = ground arith

grouped : (p q r : Bool) → ((p || q) || r) ≡ (p || (q || r))
grouped p q r = ground arith

-- One call of a method, of which `c` is left; `others` says that another method lets go.
pub call-IsOrderly :
    (x : Call) (c : List Call) (others : Bool) (a : Attachment)
    → is_safe a.queue.closed (is_released a.log) (x ∷ c) ≡ true
    → IsOrderly (others || lets_go (x ∷ c)) a
    → IsOrderly (others || lets_go c) (call x a)
unfolding call close_abnormal close_with_exit
call-IsOrderly closes_queue c others a h v = ground arith
call-IsOrderly cancels c others a h v = ground arith
call-IsOrderly finishes c others a h v = finish-IsOrderly a (ground (arith, h)) v
call-IsOrderly (closes_with code) c others a h v = ground arith
call-IsOrderly closes_process c others a h v = ground (
  arith,
  untrack_count-append a.log (proc_close ∷ []),
  is_released-append a.log (proc_close ∷ []),
)
call-IsOrderly waits c others a h v = emit-IsOrderly a proc_wait refl v
call-IsOrderly detaches c others a h v = ground (
  arith,
  untrack_count-append a.log (proc_detach ∷ []),
  is_released-append a.log (proc_detach ∷ []),
)
call-IsOrderly sends_exit c others a h v = elim (Option-cases (get_exit_code a.queue)) [
  | inl e ↦ rw e v
  | inr (code, e) ↦ rw e (emit-IsOrderly a (send_exit code) refl v)
]
call-IsOrderly drops c others a h v = emit-IsOrderly a peer_close_now refl v
call-IsOrderly (hangs_up status reason) c others a h v =
    emit-IsOrderly a (peer_close status reason) refl v

-- Every method that has begun is safe.
abbrev pub AreSafe : List (List Call) → Attachment → Type 0
AreSafe cs a = All (λ c. is_safe a.queue.closed (is_released a.log) c ≡ true) cs

-- The queue is still closed, and the process still let go.
pub record IsLater (a b : Attachment) : Type 0 where
  pub still_closed : a.queue.closed ≡ true → b.queue.closed ≡ true
  pub still_released : is_released a.log ≡ true → is_released b.log ≡ true

pub IsLater-refl : (a : Attachment) → IsLater a a
IsLater-refl a = record { still_closed = λ e. e; still_released = λ e. e }

pub AreSafe-later :
    (cs : List (List Call)) (a b : Attachment) → IsLater a b → AreSafe cs a → AreSafe cs b
AreSafe-later [] a b l h = tt
AreSafe-later (c ∷ cs) a b l h =
    (is_safe-later c _ _ _ _ l.still_closed l.still_released h.0, AreSafe-later cs a b l h.1)

proceed-IsLater : (n : ℕ) (cs : List (List Call)) (a : Attachment) → IsLater a (proceed n cs a).1
unfolding proceed
proceed-IsLater n [] a = IsLater-refl a
proceed-IsLater zero ([] ∷ cs) a = IsLater-refl a
proceed-IsLater zero ((x ∷ c) ∷ cs) a = record {
  still_closed = λ e. call-closed x a ∙ ground (arith, e);
  still_released = λ e. call-released x a ∙ ground (arith, e);
}
proceed-IsLater (suc n) (c ∷ cs) a = proceed-IsLater n cs a

pub proceed-AreSafe :
    (n : ℕ) (cs : List (List Call)) (a : Attachment)
    → AreSafe cs a
    → AreSafe (proceed n cs a).0 (proceed n cs a).1
unfolding proceed
proceed-AreSafe n [] a h = tt
proceed-AreSafe zero ([] ∷ cs) a h = h
proceed-AreSafe zero ((x ∷ c) ∷ cs) a h = (
  rw (call-closed x a, call-released x a) (ground (arith, h.0)),
  AreSafe-later cs a (call x a) (proceed-IsLater zero ((x ∷ c) ∷ cs) a) h.1,
)
proceed-AreSafe (suc n) (c ∷ cs) a h =
    let l = proceed-IsLater n cs a in
    (is_safe-later c _ _ _ _ l.still_closed l.still_released h.0, proceed-AreSafe n cs a h.1)

pub proceed-IsOrderly :
    (n : ℕ) (cs : List (List Call)) (others : Bool) (a : Attachment)
    → AreSafe cs a
    → IsOrderly (others || any lets_go cs) a
    → IsOrderly (others || any lets_go (proceed n cs a).0) (proceed n cs a).1
unfolding proceed
proceed-IsOrderly n [] others a h v = v
proceed-IsOrderly zero ([] ∷ cs) others a h v = v
proceed-IsOrderly zero ((x ∷ c) ∷ cs) others a h v =
    let rest = any lets_go cs in
    subst (λ p. IsOrderly p (call x a)) (swapped others (lets_go c) rest)
      (call-IsOrderly x c (others || rest) a h.0
        (subst (λ p. IsOrderly p a) (sym (swapped others (lets_go (x ∷ c)) rest)) v))
proceed-IsOrderly (suc n) (c ∷ cs) others a h v =
    subst (λ p. IsOrderly p (proceed n cs a).1)
      (grouped others (lets_go c) (any lets_go (proceed n cs a).0))
      (proceed-IsOrderly n cs (others || lets_go c) a h.1
        (subst (λ p. IsOrderly p a) (sym (grouped others (lets_go c) (any lets_go cs))) v))
