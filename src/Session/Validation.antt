-- ===== src/Session/Validation.antt =====
-- hub/internal/session/validation.go: which names a session may have.
pub mod Rules
use visual_tmux_client.Prelude.{
  ℕ, zero, suc, Bool, true, false, not, ◌&&◌, ◌||◌, List, [], ◌∷◌, Option, none, some, Bytes,
  length, ltb, leb, ◌==◌, nat_eq, if◌then◌else◌,
}
use visual_tmux_client.Prelude.Utf8.{runes, valid_string}
use visual_tmux_client.Session.Model.{
  Reason, not_utf8, empty_name, too_long, outer_space, control_character, target_syntax,
  path_separator, full_width, command_separator,
}

abbrev pub max_session_name_runes : ℕ
max_session_name_runes = 64

-- unicode.IsControl
abbrev pub is_control : ℕ → Bool
is_control r = ltb r 0x20 || leb 0x7F r && leb r 0x9F

-- unicode.IsSpace
abbrev pub is_space : ℕ → Bool
is_space r =
    leb 0x09 r && leb r 0x0D
    || r == 0x20
    || r == 0x85
    || r == 0xA0
    || r == 0x1680
    || leb 0x2000 r && leb r 0x200A
    || r == 0x2028
    || r == 0x2029
    || r == 0x202F
    || r == 0x205F
    || r == 0x3000

unfoldable pub validate_rune : ℕ → Option Reason
validate_rune r =
    if is_control r
    then some control_character
    else if r == b':' || r == b'.'
    then some (target_syntax r)
    else if r == b'/' || r == b'\\'
    then some (path_separator r)
    else if r == 0xFF1A || r == 0xFF0E
    then some (full_width r)
    else if r == b';' || r == 0xFF1B
    then some (command_separator r)
    else none

or_else : Option Reason → Option Reason → Option Reason
or_else none later = later
or_else (some e) later = some e

-- The loop over the runes: the first refusal.
validate_runes : List ℕ → Option Reason
unfolding validate_rune or_else
validate_runes [] = none
validate_runes (r ∷ rs) = or_else (validate_rune r) (validate_runes rs)

abbrev pub last_or : ℕ → List ℕ → ℕ
last_or r [] = r
last_or r (x ∷ xs) = last_or x xs

check_runes : List ℕ → Option Reason
unfolding validate_runes
check_runes [] = some empty_name
check_runes (r ∷ rs) =
    if ltb max_session_name_runes (length (r ∷ rs))
    then some too_long
    else or_else (validate_runes (r ∷ rs))
        (if is_space r || is_space (last_or r rs) then some outer_space else none)

unfoldable pub validate_session_name : Bytes → Option Reason
unfolding check_runes
validate_session_name name =
    if not (valid_string name) then some not_utf8 else check_runes (runes name)
