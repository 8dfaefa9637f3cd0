-- ===== src/Tmux/Client/Server.antt =====
-- Killing and renaming sessions, as the set of sessions changes (hub/internal/tmux/client.go).
use visual_tmux_client.Prelude.{
  ◌≡◌, refl, ap, ◌∙◌, inl, inr, Bool, true, false, not, List, [], ◌∷◌, codes, ◌&&◌, ◌||◌, none,
  some, Option, Bytes, bytes_eq, ◌==◌, if◌then◌else◌, Bool-cases,
}
use visual_tmux_client.Prelude.Int.{int_eq}
use visual_tmux_client.Session.Model.{Error, not_found, name_in_use}
use visual_tmux_client.Tmux.Commands.{has_session_args, rename_args, kill_args}
use visual_tmux_client.Tmux.Client.{
  Client, Ran, ran, not_run, exec, succeeded, outcome, client_has, client_kill, client_rename,
  kill_unless, rename_unless, kill_refusal, rename_refusal,
}

-- A command that names a session exactly, as tmux documents it: `command -t =name`, and more.
abbrev pub command_on : Bytes → Bytes → List Bytes → List Bytes
command_on command name more = command ∷ codes "-t" ∷ (b'=' ∷ name) ∷ more

-- What tmux documents of its commands, for the set of session names: `has-session -t =name` says
-- whether a session is there, and `kill-session -t =name` and `rename-session -t =old -- new` do what
-- they say where they can.
pub record IsServer {W : Type 0} (c : Client W) (names : W → Bytes → Bool) : Type 0 where
  pub working : c.broken ≡ none
  pub checks :
      (name : Bytes) (w : W)
      → ((exec c (command_on (codes "has-session") name []) w).0 ≡ w)
        × (succeeded (exec c (command_on (codes "has-session") name []) w).1 ≡ names w name)
  pub kills :
      (name : Bytes) (w : W)
      → names w name ≡ true
      → (succeeded (exec c (command_on (codes "kill-session") name []) w).1 ≡ true)
        × ((n : Bytes)
            → names (exec c (command_on (codes "kill-session") name []) w).0 n
              ≡ (names w n && not (n == name)))
  pub renames :
      (old new : Bytes) (w : W)
      → names w old ≡ true
      → names w new ≡ false
      → let ran_by = exec c (command_on (codes "rename-session") old (codes "--" ∷ new ∷ [])) w in
        (succeeded ran_by.1 ≡ true)
        × ((n : Bytes) → names ran_by.0 n ≡ (n == new || names w n && not (n == old)))

outcome-none : (refusal : Bytes → Error) (r : Ran) → succeeded r ≡ true → outcome refusal r ≡ none
outcome-none refusal (not_run e) h = cc
outcome-none refusal (ran out stderr code) h = rw h

-- What `Kill` does to the set of names.
pub data Killed (before after : Bytes → Bool) (name : Bytes) : Option Error → Type 0 where
  killed :
      before name ≡ true
      → ((n : Bytes) → after n ≡ (before n && not (n == name)))
      → Killed before after name none
  missing :
      before name ≡ false
      → ((n : Bytes) → after n ≡ before n)
      → Killed before after name (some not_found)

-- What `Rename` does to it.
pub data Renamed (before after : Bytes → Bool) (old new : Bytes) : Option Error → Type 0 where
  renamed :
      before old ≡ true
      → before new ≡ false
      → ((n : Bytes) → after n ≡ (n == new || before n && not (n == old)))
      → Renamed before after old new none
  same_name :
      before old ≡ true
      → old ≡ new
      → ((n : Bytes) → after n ≡ before n)
      → Renamed before after old new none
  in_use :
      before old ≡ true
      → before new ≡ true
      → ((n : Bytes) → after n ≡ before n)
      → Renamed before after old new (some name_in_use)
  missing :
      before old ≡ false
      → ((n : Bytes) → after n ≡ before n)
      → Renamed before after old new (some not_found)

module _ {W : Type 0} (c : Client W) (names : W → Bytes → Bool) (server : IsServer c names) where
  has_is : (name : Bytes) (w : W) → client_has c name w ≡ (w, names w name)
  unfolding client_has
  has_is name w =
      let (same, there) = server.checks name w in
      ap (λ v. (v, succeeded (exec c (has_session_args name) w).1)) same ∙ ap (λ b. (w, b)) there

  abbrev then_kill : Bytes → W × Bool → W × Option Error
  then_kill name p =
      let q = exec c (kill_args name) p.0 in
      if not p.1 then (p.0, some not_found) else (q.0, outcome kill_refusal q.1)

  kill_unless-then :
      (name : Bytes) (w : W) → kill_unless none c name w ≡ then_kill name (client_has c name w)
  unfolding kill_unless
  kill_unless-then name w = refl

  kill_step : (name : Bytes) (w : W) → client_kill c name w ≡ then_kill name (w, names w name)
  unfolding client_kill
  kill_step name w =
      ap (λ b. kill_unless b c name w) server.working
      ∙ kill_unless-then name w
      ∙ ap (then_kill name) (has_is name w)

  abbrev then_rename : Bytes → Bytes → W → Bool → W × Bool → W × Option Error
  then_rename old new v known p =
      let q = exec c (rename_args old new) p.0 in
      if not known
      then (v, some not_found)
      else if old == new
      then (v, none)
      else if p.1
      then (p.0, some name_in_use)
      else (q.0, outcome rename_refusal q.1)

  rename_unless-then :
      (old new : Bytes) (w : W)
      → rename_unless none c old new w
        ≡ then_rename old new
            (client_has c old w).0
            (client_has c old w).1
            (client_has c new (client_has c old w).0)
  unfolding rename_unless
  rename_unless-then old new w = refl

  rename_step :
      (old new : Bytes) (w : W)
      → client_rename c old new w ≡ then_rename old new w (names w old) (w, names w new)
  unfolding client_rename
  rename_step old new w =
      ap (λ b. rename_unless b c old new w) server.working
      ∙ rename_unless-then old new w
      ∙ ap (λ (p : W × Bool). then_rename old new p.0 p.1 (client_has c new p.0)) (has_is old w)
      ∙ ap (then_rename old new w (names w old)) (has_is new w)

-- Over a tmux that does what it documents, `Kill` removes exactly the session of the name, or
-- reports that there is none and removes nothing.
pub client_kill-Killed :
    {W : Type 0} (c : Client W) (names : W → Bytes → Bool) (name : Bytes) (w : W)
    → IsServer c names
    → Killed (names w) (names (client_kill c name w).0) name (client_kill c name w).1
client_kill-Killed c names name w server = elim (Bool-cases (names w name)) [
  | inr none_there ↦
      rw (kill_step c names server name w, none_there) (missing none_there (λ n. refl))
  | inl there ↦
      let (done, gone) = server.kills name w there in
      rw (kill_step c names server name w, there, outcome-none kill_refusal _ done)
        (killed there gone)
]

pub client_rename-Renamed :
    {W : Type 0} (c : Client W) (names : W → Bytes → Bool) (old new : Bytes) (w : W)
    → IsServer c names
    → Renamed (names w) (names (client_rename c old new w).0) old new (client_rename c old new w).1
client_rename-Renamed c names old new w server = elim (Bool-cases (names w old)) [
  | inr none_there ↦
      rw (rename_step c names server old new w, none_there) (missing none_there (λ n. refl))
  | inl there ↦ elim (Bool-cases (old == new)) [
    | inl same ↦
        rw (rename_step c names server old new w, there, same)
          (same_name there ((bytes_eq.matches_iff old new).0 same) (λ n. refl))
    | inr differ ↦ elim (Bool-cases (names w new)) [
      | inl taken ↦
          rw (rename_step c names server old new w, there, differ, taken)
            (in_use there taken (λ n. refl))
      | inr free ↦
          let (done, changed) = server.renames old new w there free in
          rw
            (
              rename_step c names server old new w,
              there,
              differ,
              free,
              outcome-none rename_refusal _ done,
            )
            (renamed there free changed)
    ]
  ]
]
