-- ===== src/Tmux/Starting.antt =====
-- `EnsureGlobalOptions` of hub/internal/tmux/client.go and `NewProcess` of process.go. What
-- `pty.StartWithSize` answers is an argument.
use visual_tmux_client.Prelude.{
  ℕ, not, List, [], ◌∷◌, ◌++◌, Option, none, some, Bytes, bytes_eq, codes, ◌==◌, is_empty, ◌&&◌,
  if◌then◌else◌,
}
use visual_tmux_client.Prelude.Int.{ℤ, pos, int_eq}
use visual_tmux_client.Prelude.Utf8.{runes}
use visual_tmux_client.Session.Model.{Error, Result, ok, err, not_found, other}
use visual_tmux_client.Session.Service.{Action}
use visual_tmux_client.Session.Validation.{is_space}
use visual_tmux_client.Tmux.Commands.{GlobalOption, global_options}
use visual_tmux_client.Tmux.Client.{Client, Ran, ran, not_run, exec, client_has, attach_command}
use visual_tmux_client.Tmux.Process.{PtyProcess, new_process, uint16}

trim_front : List ℕ → List ℕ
trim_front [] = []
trim_front (r ∷ rs) = let rest = trim_front rs in if is_space r then rest else r ∷ rs

trim_back : List ℕ → List ℕ
trim_back [] = []
trim_back (r ∷ rs) = let rest = trim_back rs in if is_empty rest && is_space r then [] else r ∷ rest

-- strings.TrimSpace, as code points
unfoldable pub trim_space : Bytes → List ℕ
unfolding trim_front trim_back runes
trim_space s = trim_back (trim_front (runes s))

abbrev pub show_args : GlobalOption → List Bytes
show_args o = codes "show-options" ∷ (o.scope ++ codes "v") ∷ o.name ∷ []

abbrev pub set_args : GlobalOption → List Bytes
set_args o = codes "set-option" ∷ o.scope ∷ o.name ∷ o.value ∷ []

module _ {W : Type 0} where
  after_set : Action W (Option Error) → W × Ran → W × Option Error
  after_set rest (w, not_run e) = (w, some e)
  after_set rest (w, ran out stderr code) =
      if not (code == pos 0) then (w, some (other stderr)) else rest w

  after_show : Client W → GlobalOption → Action W (Option Error) → W × Ran → W × Option Error
  unfolding after_set exec trim_space
  after_show c o rest (w, not_run e) = (w, some e)
  after_show c o rest (w, ran out stderr code) =
      if not (code == pos 0)
      then (w, some (other stderr))
      else if trim_space out == o.value
      then rest w
      else after_set rest (exec c (set_args o) w)

  -- The loop over the options. The values are ASCII, so that they are their own code points.
  unfoldable pub ensure_options : Client W → List GlobalOption → Action W (Option Error)
  unfolding after_show
  ensure_options c [] w = (w, none)
  ensure_options c (o ∷ os) w = after_show c o (ensure_options c os) (exec c (show_args o) w)

  ensure_unless : Option Error → Client W → Action W (Option Error)
  unfolding ensure_options
  ensure_unless (some e) c w = (w, some e)
  ensure_unless none c w = ensure_options c global_options w

  unfoldable pub ensure_global_options : Client W → Action W (Option Error)
  unfolding ensure_unless
  ensure_global_options c = ensure_unless c.broken c

  started : Option Error → W × Option Error → W × Result PtyProcess
  unfolding new_process
  started failure (w, some e) = (w, err e)
  started none (w, none) = (w, ok new_process)
  started (some e) (w, none) = (w, err e)

  start_unless :
      Option Error
      → Client W
      → (List Bytes × List Bytes → ℕ → ℕ → Option Error)
      → List Bytes
      → Bytes
      → ℤ
      → ℤ
      → Action W (Result PtyProcess)
  unfolding client_has ensure_global_options attach_command started
  start_unless (some e) c starts env name cols rows w = (w, err e)
  start_unless none c starts env name cols rows w =
      let v = (client_has c name w).0 in
      if not (client_has c name w).1
      then (v, err not_found)
      else started (starts (attach_command c env name) (uint16 cols) (uint16 rows))
          (ensure_global_options c v)

  unfoldable pub start_process :
      Client W
      → (List Bytes × List Bytes → ℕ → ℕ → Option Error)
      → List Bytes
      → Bytes
      → ℤ
      → ℤ
      → Action W (Result PtyProcess)
  unfolding start_unless
  start_process c = start_unless c.broken c
