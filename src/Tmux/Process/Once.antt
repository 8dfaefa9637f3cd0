-- ===== src/Tmux/Process/Once.antt =====
-- A process under any sequence of calls (hub/internal/tmux/process.go).
use visual_tmux_client.Prelude.{
  ℕ, ◌+◌, ◌≡◌, refl, inl, inr, Bool, true, false, not, ◌||◌, ◌&&◌, List, [], ◌∷◌, ◌++◌, ◌⊎◌, Bytes,
  arith, if◌then◌else◌, if_cases,
}
use visual_tmux_client.Prelude.Int.{ℤ}
use visual_tmux_client.Tmux.Process.{
  PtyProcess, Syscall, os_read, os_write, os_setsize, os_close, os_kill, os_wait, Ended, exited,
  wait_failed, new_process, calls_os, uint16, pty_read, pty_write, pty_resize, pty_close,
  pty_detach, pty_wait,
}

pub data Use : Type 0 where
  reads closes detaches : Use
  writes : Bytes → Use
  resizes : ℤ → ℤ → Use
  waits : Ended → Use

unfoldable pub use_once : PtyProcess → Use → PtyProcess
unfolding pty_read pty_write pty_resize pty_close pty_detach pty_wait
use_once p reads = (pty_read p).0
use_once p (writes b) = (pty_write p b).0
use_once p (resizes cols rows) = pty_resize p cols rows
use_once p closes = pty_close p
use_once p detaches = pty_detach p
use_once p (waits e) = pty_wait p e

unfoldable pub use_all : PtyProcess → List Use → PtyProcess
unfolding use_once
use_all p [] = p
use_all p (u ∷ us) = use_all (use_once p u) us

abbrev closes_in : Syscall → ℕ
closes_in os_close = 1
closes_in _ = 0

abbrev waits_in : Syscall → ℕ
waits_in os_wait = 1
waits_in _ = 0

-- How often the log closes the terminal, and how often it waits for the child.
abbrev pub close_count : List Syscall → ℕ
close_count [] = 0
close_count (c ∷ cs) = closes_in c + close_count cs

abbrev pub wait_count : List Syscall → ℕ
wait_count [] = 0
wait_count (c ∷ cs) = waits_in c + wait_count cs

abbrev resizes_in : Syscall → Bool
resizes_in (os_setsize c r) = true
resizes_in _ = false

abbrev any_resize : List Syscall → Bool
any_resize [] = false
any_resize (c ∷ cs) = resizes_in c || any_resize cs

abbrev is_close : Syscall → Bool
is_close os_close = true
is_close _ = false

-- The log sets a size after it has closed the terminal.
abbrev pub resizes_closed : List Syscall → Bool
resizes_closed [] = false
resizes_closed (c ∷ cs) = if is_close c then any_resize cs else resizes_closed cs

close_count-append :
    (xs ys : List Syscall) → close_count (xs ++ ys) ≡ close_count xs + close_count ys
close_count-append [] ys = omega arith
close_count-append (x ∷ xs) ys = omega (arith, close_count-append xs ys)

wait_count-append : (xs ys : List Syscall) → wait_count (xs ++ ys) ≡ wait_count xs + wait_count ys
wait_count-append [] ys = omega arith
wait_count-append (x ∷ xs) ys = omega (arith, wait_count-append xs ys)

any_resize-snoc :
    (xs : List Syscall) (c : Syscall) → any_resize (xs ++ c ∷ []) ≡ (any_resize xs || resizes_in c)
any_resize-snoc [] c = ground arith
any_resize-snoc (x ∷ xs) c = ground (arith, any_resize-snoc xs c)

-- A call that sets no size keeps the log free of such, and so does any before the first close.
resizes_closed-snoc :
    (xs : List Syscall) (c : Syscall)
    → resizes_closed xs ≡ false
    → (resizes_in c ≡ false) ⊎ (close_count xs ≡ 0)
    → resizes_closed (xs ++ c ∷ []) ≡ false
resizes_closed-snoc [] c h k = ground arith
resizes_closed-snoc (os_close ∷ xs) c h k = ground (arith, any_resize-snoc xs c)
resizes_closed-snoc (_ ∷ xs) c h k = resizes_closed-snoc xs c h (ground arith)

-- The terminal was closed once if it is closed, the child was waited for once if it was, and no size
-- was set after the close.
pub record IsTidy (p : PtyProcess) : Type 0 where
  pub closes : close_count p.log ≡ (if p.pty_closed then 1 else 0)
  pub waits : wait_count p.log ≡ (if p.waited && p.has_child then 1 else 0)
  pub sizes : resizes_closed p.log ≡ false

-- A call that is neither a close nor a wait, and no resize of a closed terminal.
calls_os-IsTidy :
    (p : PtyProcess) (c : Syscall)
    → closes_in c ≡ 0
    → waits_in c ≡ 0
    → (resizes_in c ≡ false) ⊎ (p.pty_closed ≡ false)
    → IsTidy p
    → IsTidy (calls_os p c)
calls_os-IsTidy p c no_close no_wait ok_size v =
    let unclosed : (resizes_in c ≡ false) ⊎ (close_count p.log ≡ 0) = ground (arith, v.closes) in
    record {
      closes = omega (arith, close_count-append p.log (c ∷ []), v.closes);
      waits = omega (arith, wait_count-append p.log (c ∷ []), v.waits);
      sizes = resizes_closed-snoc p.log c v.sizes unclosed;
    }

pty_close-IsTidy : (p : PtyProcess) → IsTidy p → IsTidy (pty_close p)
unfolding pty_close
pty_close-IsTidy p v =
    let closed = resizes_closed-snoc p.log os_close v.sizes (inl refl) in
    ground (
      arith,
      v.closes,
      v.waits,
      v.sizes,
      closed,
      close_count-append p.log (os_close ∷ []),
      wait_count-append p.log (os_close ∷ []),
    )

pty_wait-IsTidy : (p : PtyProcess) (e : Ended) → IsTidy p → IsTidy (pty_wait p e)
unfolding pty_wait
pty_wait-IsTidy p (exited code) v =
    let waited = resizes_closed-snoc p.log os_wait v.sizes (inl refl) in
    ground (
      arith,
      v.closes,
      v.waits,
      v.sizes,
      waited,
      close_count-append p.log (os_wait ∷ []),
      wait_count-append p.log (os_wait ∷ []),
    )
pty_wait-IsTidy p wait_failed v =
    let waited = resizes_closed-snoc p.log os_wait v.sizes (inl refl) in
    ground (
      arith,
      v.closes,
      v.waits,
      v.sizes,
      waited,
      close_count-append p.log (os_wait ∷ []),
      wait_count-append p.log (os_wait ∷ []),
    )

pty_detach-IsTidy : (p : PtyProcess) → IsTidy p → IsTidy (pty_detach p)
unfolding pty_detach
pty_detach-IsTidy p v =
    if_cases IsTidy p.has_child
      (λ child. calls_os-IsTidy (pty_close p) os_kill refl refl (inl refl) (pty_close-IsTidy p v))
      (λ none_there. pty_close-IsTidy p v)

use_once-IsTidy : (p : PtyProcess) (u : Use) → IsTidy p → IsTidy (use_once p u)
unfolding use_once
use_once-IsTidy p reads v =
    if_cases (λ (x : PtyProcess × Bool). IsTidy x.0) p.has_ptmx
      (λ here. calls_os-IsTidy p os_read refl refl (inl refl) v) (λ gone. v)
use_once-IsTidy p (writes b) v =
    if_cases (λ (x : PtyProcess × Bool). IsTidy x.0) p.has_ptmx
      (λ here. calls_os-IsTidy p (os_write b) refl refl (inl refl) v) (λ gone. v)
use_once-IsTidy p (resizes cols rows) v =
    if_cases IsTidy (p.pty_closed || not p.has_ptmx) (λ gone. v)
      (λ here.
        calls_os-IsTidy p (os_setsize (uint16 cols) (uint16 rows)) refl refl (inr (ground arith)) v)
use_once-IsTidy p closes v = pty_close-IsTidy p v
use_once-IsTidy p detaches v = pty_detach-IsTidy p v
use_once-IsTidy p (waits e) v = pty_wait-IsTidy p e v

use_all-IsTidy : (p : PtyProcess) (us : List Use) → IsTidy p → IsTidy (use_all p us)
unfolding use_all
use_all-IsTidy p [] v = v
use_all-IsTidy p (u ∷ us) v = use_all-IsTidy (use_once p u) us (use_once-IsTidy p u v)

-- Under any sequence of calls on a new process the terminal is closed at most once, the child is
-- waited for at most once, and no size is set on the terminal after it was closed.
pub use_all-new_process : (us : List Use) → IsTidy (use_all new_process us)
unfolding new_process
use_all-new_process us =
    use_all-IsTidy new_process us (record { closes = refl; waits = refl; sizes = refl })
