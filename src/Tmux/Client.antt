-- ===== src/Tmux/Client.antt =====
-- hub/internal/tmux/client.go, and the operations of the client in panes.go. The tmux executable is a
-- function from arguments and a state; `home` is what `homeDirectory` finds, and `base` the name that
-- the clock gives. An error that wraps another is that other one; one that tmux reports is its text.
pub mod Names
pub mod Server
use visual_tmux_client.Prelude.{
  ℕ, zero, suc, Bool, true, false, not, ◌||◌, List, [], ◌∷◌, ◌++◌, Option, none, some, Bytes,
  bytes_eq, codes, contains, is_empty, ◌==◌, nat_eq, if◌then◌else◌,
}
use visual_tmux_client.Prelude.Int.{ℤ, pos, int_eq}
use visual_tmux_client.Prelude.Decimal.{itoa}
use visual_tmux_client.Session.Model.{
  Session, Pane, Error, Result, ok, err, not_found, name_in_use, other,
}
use visual_tmux_client.Session.Service.{Action, Backend, find_session, then_ok}
use visual_tmux_client.Tmux.Commands.{
  list_args, has_session_args, create_args, rename_args, kill_args, attach_args, list_panes_args,
  working_directory_args,
}
use visual_tmux_client.Tmux.Env.{child_env}
use visual_tmux_client.Tmux.Sessions.{parse_sessions, is_no_server}
use visual_tmux_client.Tmux.Panes.{parse_panes}

-- The command ran, with its outputs and exit code; or it could not be run.
pub data Ran : Type 0 where
  ran : Bytes → Bytes → ℤ → Ran
  not_run : Error → Ran

pub record Client (W : Type 0) : Type 0 where
  -- what `NewClient` recorded where it did not find tmux
  pub broken : Option Error
  pub socket : Bytes
  pub tmux : List Bytes → Action W Ran
  pub home : Bytes
  pub base : Bytes

abbrev pub max_retries : ℕ
max_retries = 10

abbrev pub succeeded : Ran → Bool
succeeded (not_run e) = false
succeeded (ran out stderr code) = code == pos 0

-- What a listing makes of the reply.
unfoldable pub listed : {A : Type 0} → (Bytes → List A) → Ran → Result (List A)
unfolding is_no_server
listed parse (not_run e) = err e
listed parse (ran out stderr code) =
    if code == pos 0
    then ok (parse out)
    else if is_no_server stderr
    then ok []
    else err (other stderr)

-- The `i`-th name that is tried.
abbrev pub candidate : Bytes → ℕ → Bytes
candidate base zero = base
candidate base (suc i) = base ++ codes "-" ++ itoa (suc i)

-- What is said of a failed command.
abbrev pub rename_refusal : Bytes → Error
rename_refusal stderr =
    if contains stderr (codes "duplicate session")
    then name_in_use
    else if contains stderr (codes "can't find session")
    then not_found
    else other stderr

abbrev pub kill_refusal : Bytes → Error
kill_refusal stderr =
    if contains stderr (codes "can't find session") then not_found else other stderr

abbrev pub outcome : (Bytes → Error) → Ran → Option Error
outcome refusal (not_run e) = some e
outcome refusal (ran out stderr code) = if code == pos 0 then none else some (refusal stderr)

-- strings.TrimSuffix(stdout, "\n")
unfoldable pub trim_newline : Bytes → Bytes
trim_newline [] = []
trim_newline (c ∷ []) = if c == 10 then [] else c ∷ []
trim_newline (c ∷ d ∷ s) = c ∷ trim_newline (d ∷ s)

abbrev path_or_missing : Bytes → Result Bytes
path_or_missing path = if is_empty path then err not_found else ok path

abbrev pub directory_reply : Ran → Result Bytes
unfolding trim_newline is_no_server
directory_reply (not_run e) = err e
directory_reply (ran out stderr code) =
    if not (code == pos 0)
    then err (
        if contains stderr (codes "can't find session") || is_no_server stderr
        then not_found
        else other stderr)
    else path_or_missing (trim_newline out)

module _ {W : Type 0} where
  -- `args`, on the selected socket
  abbrev pub with_socket : Client W → List Bytes → List Bytes
  with_socket c args = if is_empty c.socket then args else codes "-L" ∷ c.socket ∷ args

  abbrev exec_unless : Option Error → Action W Ran → Action W Ran
  exec_unless none act w = act w
  exec_unless (some e) act w = (w, not_run e)

  unfoldable pub exec : Client W → List Bytes → Action W Ran
  exec c args = exec_unless c.broken (c.tmux (with_socket c args))

  unfoldable pub client_has : Client W → Bytes → Action W Bool
  unfolding exec
  client_has c name w =
      ((exec c (has_session_args name) w).0, succeeded (exec c (has_session_args name) w).1)

  unfoldable pub client_list : Client W → Action W (Result (List Session))
  unfolding exec listed parse_sessions
  client_list c w = ((exec c list_args w).0, listed parse_sessions (exec c list_args w).1)

  unfoldable pub client_list_panes : Client W → Action W (Result (List Pane))
  unfolding exec listed parse_panes
  client_list_panes c w =
      ((exec c list_panes_args w).0, listed parse_panes (exec c list_panes_args w).1)

  unfoldable pub client_get : Client W → Bytes → Action W (Result Session)
  unfolding client_list find_session
  client_get c name w = then_ok (client_list c w) (λ sessions v. (v, find_session name sessions))

  -- The loop of `generateUniqueName`, with `k` rounds left.
  unfoldable pub unique_from : Client W → ℕ → ℕ → Action W (Result Bytes)
  unfolding client_has itoa
  unique_from c zero i w = (w, err name_in_use)
  unique_from c (suc k) i w =
      let name = candidate c.base i in
      let rest = unique_from c k (suc i) (client_has c name w).0 in
      if (client_has c name w).1 then rest else ((client_has c name w).0, ok name)

  unfoldable pub generate_unique_name : Client W → Action W (Result Bytes)
  unfolding unique_from
  generate_unique_name c = unique_from c max_retries 0

  abbrev after_create : Client W → Bytes → W × Ran → W × Result Session
  unfolding client_get
  after_create c name (w, not_run e) = (w, err e)
  after_create c name (w, ran out stderr code) = if code == pos 0 then client_get c name w else (
    w,
    err (if contains stderr (codes "duplicate session") then name_in_use else other stderr),
  )

  abbrev create_named : Client W → Bytes → Action W (Result Session)
  unfolding client_has exec after_create
  create_named c name w =
      let v = (client_has c name w).0 in
      if (client_has c name w).1
      then (v, err name_in_use)
      else after_create c name (exec c (create_args name c.home) v)

  abbrev create_unless : Option Error → Client W → Bytes → Action W (Result Session)
  unfolding create_named generate_unique_name
  create_unless (some e) c name w = (w, err e)
  create_unless none c name w =
      if is_empty name
      then then_ok (generate_unique_name c w) (create_named c)
      else create_named c name w

  unfoldable pub client_create : Client W → Bytes → Action W (Result Session)
  unfolding create_unless
  client_create c name = create_unless c.broken c name

  abbrev pub rename_unless : Option Error → Client W → Bytes → Bytes → Action W (Option Error)
  unfolding client_has exec
  rename_unless (some e) c old new w = (w, some e)
  rename_unless none c old new w =
      let v = (client_has c old w).0 in
      let u = (client_has c new v).0 in
      let renamed = exec c (rename_args old new) u in
      if not (client_has c old w).1
      then (v, some not_found)
      else if old == new
      then (v, none)
      else if (client_has c new v).1
      then (u, some name_in_use)
      else (renamed.0, outcome rename_refusal renamed.1)

  unfoldable pub client_rename : Client W → Bytes → Bytes → Action W (Option Error)
  unfolding rename_unless
  client_rename c old new = rename_unless c.broken c old new

  abbrev pub kill_unless : Option Error → Client W → Bytes → Action W (Option Error)
  unfolding client_has exec
  kill_unless (some e) c name w = (w, some e)
  kill_unless none c name w =
      let v = (client_has c name w).0 in
      let killed = exec c (kill_args name) v in
      if not (client_has c name w).1
      then (v, some not_found)
      else (killed.0, outcome kill_refusal killed.1)

  unfoldable pub client_kill : Client W → Bytes → Action W (Option Error)
  unfolding kill_unless
  client_kill c name = kill_unless c.broken c name

  unfoldable pub client_directory : Client W → Bytes → Action W (Result Bytes)
  unfolding exec directory_reply
  client_directory c name w = (
    (exec c (working_directory_args name) w).0,
    directory_reply (exec c (working_directory_args name) w).1,
  )

  -- The arguments and the environment of `tmux attach-session`.
  unfoldable pub attach_command : Client W → List Bytes → Bytes → List Bytes × List Bytes
  unfolding child_env
  attach_command c env name = (with_socket c (attach_args name), child_env env)

  -- The client as the backend of the session service, with all its optional interfaces.
  unfoldable pub client_backend : Client W → Backend W
  unfolding client_list client_create client_rename client_kill client_list_panes client_get
      client_has client_directory
  client_backend c = record {
    list_all = client_list c;
    create = client_create c;
    rename = client_rename c;
    kill = client_kill c;
    list_panes = some (client_list_panes c);
    get = some (client_get c);
    has = some (client_has c);
    directory = some (client_directory c);
  }
