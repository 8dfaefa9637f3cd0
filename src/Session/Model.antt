-- ===== src/Session/Model.antt =====
-- hub/internal/session/model.go, errors.go, and the types of pane.go.
use visual_tmux_client.Prelude.{ℕ, Bool, Option, Bytes}
use visual_tmux_client.Prelude.Int.{ℤ}

pub record PaneSummary : Type 0 where
  pub window_name : Bytes
  pub title : Bytes
  pub current_command : Bytes
  pub window_active : Bool

pub record Session : Type 0 where
  pub name : Bytes
  pub windows : ℤ
  pub attached : ℤ
  pub created : ℤ
  pub pane : Option PaneSummary

pub record Pane : Type 0 where
  pub session : Bytes
  pub window_index : ℤ
  pub pane_index : ℤ
  pub window_active : Bool
  pub pane_active : Bool
  pub dead : Bool
  pub window_name : Bytes
  pub title : Bytes
  pub current_command : Bytes

-- Why a name is refused; each reason wraps `ErrInvalidName`.
pub data Reason : Type 0 where
  not_utf8 empty_name too_long outer_space control_character : Reason
  target_syntax path_separator full_width command_separator : ℕ → Reason

-- The sentinel errors, and any other error with its text.
pub data Error : Type 0 where
  tmux_not_found name_in_use not_found : Error
  invalid_name : Reason → Error
  other : Bytes → Error

pub data Result {ℓ} (A : Type ℓ) : Type ℓ where
  ok : A → Result A
  err : Error → Result A
