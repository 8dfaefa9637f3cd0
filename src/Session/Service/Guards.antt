-- ===== src/Session/Service/Guards.antt =====
-- Which names reach the backend (hub/internal/session/service.go).
use visual_tmux_client.Prelude.{
  ◌≡◌, refl, ap, inl, inr, Bool, false, [], ◌∷◌, Option, none, some, Bytes, Option-cases,
}
use visual_tmux_client.Session.Model.{Session, Error, Result, err}
use visual_tmux_client.Session.Validation.{validate_session_name}
use visual_tmux_client.Session.Service.{
  Action, Backend, is_ok, guarded, get_by, has_by, directory_by, list_sessions, create_session,
  rename_session, kill_session, get_session, has_session, pane_working_directory,
}

abbrev IsValid : Bytes → Type 0
IsValid name = validate_session_name name ≡ none

module _ {W A : Type 0} where
  guarded_valid :
      (name : Bytes) (refusal : Error → A) (f g : Action W A)
      → (IsValid name → f ≡ g)
      → guarded name refusal f ≡ guarded name refusal g
  unfolding guarded
  guarded_valid name refusal f g h = elim (Option-cases (validate_session_name name)) [
    | inl valid ↦ rw (h valid)
    | inr (reason, refused) ↦ rw refused refl
  ]

  -- Enough that the optional interface, if there is one, answers alike on valid names.
  pub data AgreeOn : Option (Bytes → Action W A) → Option (Bytes → Action W A) → Type 0 where
    absent : AgreeOn none none
    present :
        {f g : Bytes → Action W A}
        → ((name : Bytes) → IsValid name → f name ≡ g name)
        → AgreeOn (some f) (some g)

-- Two backends that give the same answers where the names are valid. A backend makes up a name
-- for an empty one.
pub record Agree {W : Type 0} (b c : Backend W) : Type 0 where
  pub lists : b.list_all ≡ c.list_all
  pub creates : (name : Bytes) → IsValid name → b.create name ≡ c.create name
  pub makes_up : b.create [] ≡ c.create []
  pub renames : (old new : Bytes) → IsValid old → IsValid new → b.rename old new ≡ c.rename old new
  pub kills : (name : Bytes) → IsValid name → b.kill name ≡ c.kill name
  pub lists_panes : b.list_panes ≡ c.list_panes
  pub gets : AgreeOn b.get c.get
  pub checks : AgreeOn b.has c.has
  pub finds : AgreeOn b.directory c.directory

module _ {W : Type 0} (b c : Backend W) (agree : Agree b c) where
  get_agrees :
      (name : Bytes) (f g : Option (Bytes → Action W (Result Session)))
      → AgreeOn f g
      → IsValid name
      → get_by b f name ≡ get_by c g name
  unfolding get_by
  get_agrees name _ _ absent valid = rw agree.lists
  get_agrees name _ _ (present h) valid = h name valid

  get_session_agrees : (name : Bytes) → get_session b name ≡ get_session c name
  unfolding get_session
  get_session_agrees name =
      guarded_valid name err (get_by b b.get name) (get_by c c.get name)
        (get_agrees name b.get c.get agree.gets)

  has_agrees :
      (name : Bytes) (f g : Option (Bytes → Action W Bool))
      → AgreeOn f g
      → IsValid name
      → has_by b f name ≡ has_by c g name
  unfolding has_by
  has_agrees name _ _ absent valid =
      ap (λ act w. ((act w).0, is_ok (act w).1)) (get_session_agrees name)
  has_agrees name _ _ (present h) valid = h name valid

  directory_agrees :
      (name : Bytes) (f g : Option (Bytes → Action W (Result Bytes)))
      → AgreeOn f g
      → IsValid name
      → directory_by f name ≡ directory_by g name
  directory_agrees name _ _ absent valid = refl
  directory_agrees name _ _ (present h) valid = h name valid

  create_agrees : (name : Bytes) → create_session b name ≡ create_session c name
  unfolding create_session
  create_agrees [] = agree.makes_up
  create_agrees (x ∷ xs) =
      guarded_valid (x ∷ xs) err (b.create (x ∷ xs)) (c.create (x ∷ xs)) (agree.creates (x ∷ xs))

  rename_agrees : (old new : Bytes) → rename_session b old new ≡ rename_session c old new
  unfolding rename_session
  rename_agrees old new =
      guarded_valid old some _ _ (λ h. guarded_valid new some _ _ (λ k. agree.renames old new h k))

-- The service over one backend does what it does over the other.
pub record SameService {W : Type 0} (b c : Backend W) : Type 0 where
  pub lists : list_sessions b ≡ list_sessions c
  pub creates : (name : Bytes) → create_session b name ≡ create_session c name
  pub renames : (old new : Bytes) → rename_session b old new ≡ rename_session c old new
  pub kills : (name : Bytes) → kill_session b name ≡ kill_session c name
  pub gets : (name : Bytes) → get_session b name ≡ get_session c name
  pub checks : (name : Bytes) → has_session b name ≡ has_session c name
  pub finds : (name : Bytes) → pane_working_directory b name ≡ pane_working_directory c name

-- No name that is not valid reaches the backend: two backends that agree on valid names (and on
-- making up a name for an empty one) give the same service, whatever they do with other names.
pub Agree-SameService : {W : Type 0} (b c : Backend W) → Agree b c → SameService b c
unfolding list_sessions kill_session has_session pane_working_directory
Agree-SameService b c agree = record {
  lists = rw (agree.lists, agree.lists_panes);
  creates = create_agrees b c agree;
  renames = rename_agrees b c agree;
  kills = λ name. guarded_valid name some _ _ (agree.kills name);
  gets = get_session_agrees b c agree;
  checks = λ name.
      guarded_valid name (λ e. false) _ _ (has_agrees b c agree name b.has c.has agree.checks);
  finds = λ name.
      guarded_valid name err _ _
        (directory_agrees b c agree name b.directory c.directory agree.finds);
}
