-- ===== src/Tmux/Commands.antt =====
-- hub/internal/tmux/commands.go: the argument lists of the tmux commands. With them, the targets and
-- formats of parse.go and panes.go, and the options of client.go.
use visual_tmux_client.Prelude.{List, [], ◌∷◌, ◌++◌, Bytes, codes}

abbrev pub session_format : Bytes
session_format = codes "#{session_name}|#{session_windows}|#{session_attached}|#{session_created}"

abbrev pub exact_target : Bytes → Bytes
exact_target name = b'=' ∷ name

abbrev pub pane_target_of : Bytes → Bytes
pane_target_of name = exact_target name ++ codes ":"

abbrev pub framed_pane_field : Bytes → Bytes
framed_pane_field name = codes "#{n:" ++ name ++ codes "}:#{" ++ name ++ codes "}"

abbrev framed_all : List Bytes → Bytes
framed_all [] = []
framed_all (f ∷ fs) = framed_pane_field f ++ framed_all fs

abbrev pub pane_format_fields : List Bytes
pane_format_fields =
    codes "session_name"
    ∷ codes "window_index"
    ∷ codes "pane_index"
    ∷ codes "window_active"
    ∷ codes "pane_active"
    ∷ codes "pane_dead"
    ∷ codes "window_name"
    ∷ codes "pane_title"
    ∷ codes "pane_current_command"
    ∷ []

abbrev pub pane_format : Bytes
pane_format = framed_all pane_format_fields

pub record GlobalOption : Type 0 where
  pub scope : Bytes
  pub name : Bytes
  pub value : Bytes

abbrev option_of : Bytes → Bytes → Bytes → GlobalOption
option_of scope name value = record { scope = scope; name = name; value = value }

abbrev pub global_options : List GlobalOption
global_options =
    option_of (codes "-g") (codes "window-size") (codes "latest")
    ∷ option_of (codes "-g") (codes "mouse") (codes "on")
    ∷ option_of (codes "-s") (codes "exit-unattached") (codes "off")
    ∷ option_of (codes "-g") (codes "destroy-unattached") (codes "off")
    ∷ option_of (codes "-gw") (codes "remain-on-exit") (codes "failed")
    ∷ []

abbrev pub list_args : List Bytes
list_args = codes "list-sessions" ∷ codes "-F" ∷ session_format ∷ []

abbrev pub has_session_args : Bytes → List Bytes
has_session_args name = codes "has-session" ∷ codes "-t" ∷ exact_target name ∷ []

abbrev set_options : List GlobalOption → List Bytes
set_options [] = []
set_options (o ∷ os) = codes ";" ∷ codes "set-option" ∷ o.scope ∷ o.name ∷ o.value ∷ set_options os

abbrev pub create_args : Bytes → Bytes → List Bytes
create_args name home =
    codes "start-server" ∷ set_options global_options
    ++ codes ";" ∷ codes "new-session" ∷ codes "-d" ∷ codes "-s" ∷ name ∷ codes "-c" ∷ home ∷ []

abbrev pub rename_args : Bytes → Bytes → List Bytes
rename_args old new = codes "rename-session" ∷ codes "-t" ∷ exact_target old ∷ codes "--" ∷ new ∷ []

abbrev pub kill_args : Bytes → List Bytes
kill_args name = codes "kill-session" ∷ codes "-t" ∷ exact_target name ∷ []

abbrev pub attach_args : Bytes → List Bytes
attach_args name = codes "attach-session" ∷ codes "-t" ∷ exact_target name ∷ []

abbrev pub list_panes_args : List Bytes
list_panes_args = codes "list-panes" ∷ codes "-a" ∷ codes "-F" ∷ pane_format ∷ []

abbrev pub working_directory_args : Bytes → List Bytes
working_directory_args name =
    codes "display-message"
    ∷ codes "-p"
    ∷ codes "-t"
    ∷ pane_target_of name
    ∷ codes "#{pane_current_path}"
    ∷ []
