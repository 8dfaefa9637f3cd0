-- ===== src/Session/Service.antt =====
-- hub/internal/session/service.go and backend.go: the operations on sessions, over a backend.
pub mod Guards
pub mod Listing
pub mod Getting
use visual_tmux_client.Prelude.{
  ◌≡◌, Bool, true, false, List, [], ◌∷◌, Option, none, some, Bytes, bytes_eq, is_empty, ◌==◌,
  if◌then◌else◌,
}
use visual_tmux_client.Prelude.Map.{lookup}
use visual_tmux_client.Session.Model.{
  Session, PaneSummary, Pane, Error, Reason, Result, ok, err, invalid_name, not_found,
}
use visual_tmux_client.Session.Validation.{validate_session_name}
use visual_tmux_client.Session.Pane.{select_pane_summaries}

-- An action on the state of the backend.
abbrev pub Action {ℓ} : Type ℓ → Type ℓ → Type ℓ
Action W A = W → W × A

-- `Backend`, with the optional interfaces `paneLister`, `fastGetter`, `fastChecker` and
-- `paneDirectoryReader` that a backend may also have.
pub record Backend (W : Type 0) : Type 0 where
  pub list_all : Action W (Result (List Session))
  pub create : Bytes → Action W (Result Session)
  pub rename : Bytes → Bytes → Action W (Option Error)
  pub kill : Bytes → Action W (Option Error)
  pub list_panes : Option (Action W (Result (List Pane)))
  pub get : Option (Bytes → Action W (Result Session))
  pub has : Option (Bytes → Action W Bool)
  pub directory : Option (Bytes → Action W (Result Bytes))

-- if summary, found := summaries[name]; found { sessions[i].Pane = &summary }
abbrev pub with_summary : Session → Option PaneSummary → Session
with_summary s none = s
with_summary s (some summary) = record {
  name = s.name;
  windows = s.windows;
  attached = s.attached;
  created = s.created;
  pane = some summary;
}

unfoldable pub annotate : List (Bytes × PaneSummary) → Session → Session
unfolding lookup
annotate summaries s = with_summary s (lookup s.name summaries)

unfoldable pub annotate_all : List (Bytes × PaneSummary) → List Session → List Session
unfolding annotate
annotate_all summaries [] = []
annotate_all summaries (s ∷ sessions) = annotate summaries s ∷ annotate_all summaries sessions

-- for i := range sessions { if sessions[i].Name == name { return &sessions[i], nil } }
unfoldable pub find_session : Bytes → List Session → Result Session
find_session name [] = err not_found
find_session name (s ∷ sessions) = if s.name == name then ok s else find_session name sessions

abbrev pub with_panes : List Session → Result (List Pane) → List Session
unfolding annotate_all select_pane_summaries
with_panes sessions (err e) = sessions
with_panes sessions (ok panes) = annotate_all (select_pane_summaries panes) sessions

abbrev pub then_ok : {W A B : Type 0} → W × Result A → (A → Action W (Result B)) → W × Result B
then_ok (w, err e) f = (w, err e)
then_ok (w, ok a) f = f a w

-- if err := ValidateSessionName(name); err != nil { return refusal }
abbrev pub guard_by : {W A : Type 0} → Option Reason → (Error → A) → Action W A → Action W A
guard_by none refusal act w = act w
guard_by (some reason) refusal act w = (w, refusal (invalid_name reason))

unfoldable pub guarded : {W A : Type 0} → Bytes → (Error → A) → Action W A → Action W A
unfolding validate_session_name
guarded name = guard_by (validate_session_name name)

abbrev pub is_ok : {A : Type 0} → Result A → Bool
is_ok (ok a) = true
is_ok (err e) = false

module _ {W : Type 0} where
  abbrev pub add_panes :
      Option (Action W (Result (List Pane))) → List Session → Action W (Result (List Session))
  add_panes none sessions w = (w, ok sessions)
  add_panes (some panes) sessions w = ((panes w).0, ok (with_panes sessions (panes w).1))

  unfoldable pub list_sessions : Backend W → Action W (Result (List Session))
  list_sessions b w = then_ok (b.list_all w) (add_panes b.list_panes)

  unfoldable pub create_session : Backend W → Bytes → Action W (Result Session)
  unfolding guarded
  create_session b name w =
      if is_empty name then b.create name w else guarded name err (b.create name) w

  unfoldable pub rename_session : Backend W → Bytes → Bytes → Action W (Option Error)
  unfolding guarded
  rename_session b old_name new_name =
      guarded old_name some (guarded new_name some (b.rename old_name new_name))

  unfoldable pub kill_session : Backend W → Bytes → Action W (Option Error)
  unfolding guarded
  kill_session b name = guarded name some (b.kill name)

  abbrev pub get_by :
      Backend W → Option (Bytes → Action W (Result Session)) → Bytes → Action W (Result Session)
  unfolding find_session
  get_by b (some get) name w = get name w
  get_by b none name w = then_ok (b.list_all w) (λ sessions v. (v, find_session name sessions))

  unfoldable pub get_session : Backend W → Bytes → Action W (Result Session)
  unfolding guarded
  get_session b name = guarded name err (get_by b b.get name)

  abbrev pub has_by : Backend W → Option (Bytes → Action W Bool) → Bytes → Action W Bool
  unfolding get_session
  has_by b (some has) name w = has name w
  has_by b none name w = ((get_session b name w).0, is_ok (get_session b name w).1)

  unfoldable pub has_session : Backend W → Bytes → Action W Bool
  unfolding guarded
  has_session b name = guarded name (λ e. false) (has_by b b.has name)

  abbrev pub directory_by :
      Option (Bytes → Action W (Result Bytes)) → Bytes → Action W (Result Bytes)
  directory_by none name w = (w, err not_found)
  directory_by (some directory) name w = directory name w

  unfoldable pub pane_working_directory : Backend W → Bytes → Action W (Result Bytes)
  unfolding guarded
  pane_working_directory b name = guarded name err (directory_by b.directory name)
