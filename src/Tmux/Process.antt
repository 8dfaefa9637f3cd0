-- ===== src/Tmux/Process.antt =====
-- hub/internal/tmux/process.go: the process behind a pseudo-terminal. `log` records the calls to the
-- operating system; a call that holds the mutex, or runs in `waitOnce`, is one step.
pub mod Once
use visual_tmux_client.Prelude.{
  ℕ, ◌-◌, ◌%◌, ◌^◌, Bool, true, false, not, ◌||◌, List, [], ◌∷◌, ◌++◌, Option, none, some, Bytes,
  if◌then◌else◌,
}
use visual_tmux_client.Prelude.Int.{ℤ, pos, negsuc}

pub data Syscall : Type 0 where
  os_read : Syscall
  os_write : Bytes → Syscall
  os_setsize : ℕ → ℕ → Syscall
  os_close os_kill os_wait : Syscall

-- How the child ended, as `cmd.Wait` reports it.
pub data Ended : Type 0 where
  exited : ℤ → Ended
  wait_failed : Ended

pub record PtyProcess : Type 0 where
  -- `ptmx`, and `cmd` with a process, are there
  pub has_ptmx : Bool
  pub has_child : Bool
  pub pty_closed : Bool
  -- `waitOnce` has run
  pub waited : Bool
  pub exit_code : Option ℤ
  pub wait_err : Bool
  pub log : List Syscall

unfoldable pub new_process : PtyProcess
new_process = record {
  has_ptmx = true;
  has_child = true;
  pty_closed = false;
  waited = false;
  exit_code = none;
  wait_err = false;
  log = [];
}

abbrev pub calls_os : PtyProcess → Syscall → PtyProcess
calls_os p c = record p { log = p.log ++ c ∷ [] }

-- uint16(n)
abbrev pub uint16 : ℤ → ℕ
uint16 (pos n) = n % 2 ^ 16
uint16 (negsuc n) = 2 ^ 16 - 1 - n % 2 ^ 16

-- `false` where the answer is os.ErrClosed
unfoldable pub pty_read : PtyProcess → PtyProcess × Bool
pty_read p = if p.has_ptmx then (calls_os p os_read, true) else (p, false)

unfoldable pub pty_write : PtyProcess → Bytes → PtyProcess × Bool
pty_write p b = if p.has_ptmx then (calls_os p (os_write b), true) else (p, false)

unfoldable pub pty_resize : PtyProcess → ℤ → ℤ → PtyProcess
pty_resize p cols rows =
    if p.pty_closed || not p.has_ptmx
    then p
    else calls_os p (os_setsize (uint16 cols) (uint16 rows))

unfoldable pub pty_close : PtyProcess → PtyProcess
pty_close p =
    if p.pty_closed || not p.has_ptmx then p else record (calls_os p os_close) { pty_closed = true }

unfoldable pub pty_detach : PtyProcess → PtyProcess
unfolding pty_close
pty_detach p = if p.has_child then calls_os (pty_close p) os_kill else pty_close p

abbrev record_end : PtyProcess → Ended → PtyProcess
record_end p (exited code) = record p { exit_code = some code }
record_end p wait_failed = record p { wait_err = true }

-- The body of `waitOnce.Do`, where the child ends as `e` says.
unfoldable pub pty_wait : PtyProcess → Ended → PtyProcess
pty_wait p e =
    if p.waited
    then p
    else let q = record p { waited = true } in
      if q.has_child then record_end (calls_os q os_wait) e else q
