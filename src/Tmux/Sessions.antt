-- ===== src/Tmux/Sessions.antt =====
-- hub/internal/tmux/parse.go: reading the output of `list-sessions`.
pub mod Splitting
pub mod RoundTrip
use visual_tmux_client.Prelude.{
  ℕ, zero, suc, ◌-◌, Bool, ◌||◌, List, [], ◌∷◌, ◌++◌, none, Bytes, codes, contains, length, take,
  ltb, is_empty, ◌==◌, nat_eq, if◌then◌else◌,
}
use visual_tmux_client.Session.Model.{Session}
use visual_tmux_client.Tmux.Panes.{field, atoi_or_zero}

pub cons_head : ℕ → List Bytes → List Bytes
cons_head c [] = (c ∷ []) ∷ []
cons_head c (w ∷ ws) = (c ∷ w) ∷ ws

-- strings.Split, at one byte
unfoldable pub split : ℕ → Bytes → List Bytes
unfolding cons_head
split b [] = [] ∷ []
split b (c ∷ s) = if c == b then [] ∷ split b s else cons_head c (split b s)

-- strings.Join, with one byte
unfoldable pub join : ℕ → List Bytes → Bytes
join b [] = []
join b (w ∷ []) = w
join b (w ∷ v ∷ ws) = w ++ b ∷ join b (v ∷ ws)

-- strings.TrimSuffix(line, "\r")
unfoldable pub trim_cr : Bytes → Bytes
trim_cr [] = []
trim_cr (c ∷ []) = if c == 13 then [] else c ∷ []
trim_cr (c ∷ d ∷ s) = c ∷ trim_cr (d ∷ s)

unfoldable pub is_no_server : Bytes → Bool
is_no_server stderr =
    contains stderr (codes "no server running") || contains stderr (codes "error connecting to")

-- A line in `n` parts; what is before the last three is the name.
unfoldable pub session_of : ℕ → List Bytes → Session
unfolding join atoi_or_zero
session_of n parts = record {
  name = join b'|' (take (n - 3) parts);
  windows = atoi_or_zero (field (n - 3) parts);
  attached = atoi_or_zero (field (n - 2) parts);
  created = atoi_or_zero (field (n - 1) parts);
  pane = none;
}

unfoldable pub parse_parts : List Bytes → List Session
unfolding session_of
parse_parts parts = if ltb (length parts) 4 then [] else session_of (length parts) parts ∷ []

-- One round of the loop: the session of a line, if it has one.
unfoldable pub parse_line : Bytes → List Session
unfolding parse_parts split
parse_line line = if is_empty line then [] else parse_parts (split b'|' line)

unfoldable pub parse_lines : List Bytes → List Session
unfolding parse_line trim_cr
parse_lines [] = []
parse_lines (line ∷ lines) = parse_line (trim_cr line) ++ parse_lines lines

unfoldable pub parse_sessions : Bytes → List Session
unfolding parse_lines split
parse_sessions out = parse_lines (split 10 out)
