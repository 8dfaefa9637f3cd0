-- ===== src/Tmux/Panes.antt =====
-- hub/internal/tmux/panes.go: reading the length-prefixed records of `list-panes`.
pub mod Framing
pub mod Progress
pub mod RoundTrip
use visual_tmux_client.Prelude.{
  ℕ, zero, suc, ◌+◌, ◌-◌, Bool, true, false, ◌||◌, List, [], ◌∷◌, ◌++◌, Option, none, some, Bytes,
  bytes_eq, codes, length, take, drop, is_empty, has_prefix, index_byte, ◌==◌, nat_eq,
  if◌then◌else◌,
}
use visual_tmux_client.Prelude.Int.{ℤ, pos, ltb_ℤ, pos_part}
use visual_tmux_client.Prelude.Decimal.{atoi}
use visual_tmux_client.Session.Model.{Pane}

abbrev pub pane_field_count : ℕ
pane_field_count = 9

abbrev pub tmux_true : Bytes
tmux_true = codes "1"

abbrev pub crlf : Bytes
crlf = 13 ∷ 10 ∷ []

abbrev pub newline : Bytes
newline = 10 ∷ []

abbrev pub or_zero : Option ℤ → ℤ
or_zero none = pos 0
or_zero (some n) = n

unfoldable pub atoi_or_zero : Bytes → ℤ
unfolding atoi
atoi_or_zero s = or_zero (atoi s)

-- fields[i]
abbrev pub field : ℕ → List Bytes → Bytes
field i [] = []
field zero (f ∷ fs) = f
field (suc i) (f ∷ fs) = field i fs

unfoldable pub pane_of : List Bytes → Pane
unfolding atoi_or_zero
pane_of fields = record {
  session = field 0 fields;
  window_index = atoi_or_zero (field 1 fields);
  pane_index = atoi_or_zero (field 2 fields);
  window_active = field 3 fields == tmux_true;
  pane_active = field 4 fields == tmux_true;
  dead = field 5 fields == tmux_true;
  window_name = field 6 fields;
  title = field 7 fields;
  current_command = field 8 fields;
}

-- A value of `n` bytes, if the input has so many.
pub cut_value : Bytes → Option ℤ → Option (Bytes × Bytes)
cut_value input none = none
cut_value input (some n) =
    if ltb_ℤ n (pos 0) || ltb_ℤ (pos (length input)) n
    then none
    else some (take (pos_part n) input, drop (pos_part n) input)

pub after_colon : Bytes → Option ℕ → Option (Bytes × Bytes)
unfolding cut_value atoi
after_colon input none = none
after_colon input (some zero) = none
after_colon input (some (suc c)) = cut_value (drop (suc (suc c)) input) (atoi (take (suc c) input))

-- One round of the loop of `parsePaneRecord`: a value, and what follows it.
unfoldable pub parse_field : Bytes → Option (Bytes × Bytes)
unfolding after_colon
parse_field input = after_colon input (index_byte input b':')

pub prepend : Bytes → Option (List Bytes × Bytes) → Option (List Bytes × Bytes)
prepend f none = none
prepend f (some (fs, rest)) = some (f ∷ fs, rest)

pub and_more :
    (Bytes → Option (List Bytes × Bytes)) → Option (Bytes × Bytes) → Option (List Bytes × Bytes)
unfolding prepend
and_more more none = none
and_more more (some (f, rest)) = prepend f (more rest)

unfoldable pub parse_fields : ℕ → Bytes → Option (List Bytes × Bytes)
unfolding parse_field and_more
parse_fields zero input = some ([], input)
parse_fields (suc n) input = and_more (parse_fields n) (parse_field input)

-- The line ending that tmux appends.
pub end_record : Option (List Bytes × Bytes) → Option (List Bytes × Bytes)
end_record none = none
end_record (some (fields, input)) =
    if has_prefix input crlf
    then some (fields, drop 2 input)
    else if has_prefix input newline
    then some (fields, drop 1 input)
    else if is_empty input
    then some (fields, input)
    else none

unfoldable pub parse_pane_record : Bytes → Option (List Bytes × Bytes)
unfolding end_record parse_fields
parse_pane_record input = end_record (parse_fields pane_field_count input)

abbrev pub then_panes : Pane → Option (List Pane) → Option (List Pane)
then_panes p none = none
then_panes p (some ps) = some (p ∷ ps)

pub add_pane : (Bytes → Option (List Pane)) → Option (List Bytes × Bytes) → Option (List Pane)
unfolding pane_of
add_pane more none = some []
add_pane more (some (fields, rest)) = then_panes (pane_of fields) (more rest)

-- The loop of `ParsePanes`, on fuel; `none` when it is used up before the input.
unfoldable pub parse_loop : ℕ → Bytes → Option (List Pane)
unfolding parse_pane_record add_pane
parse_loop f [] = some []
parse_loop zero (c ∷ out) = none
parse_loop (suc f) (c ∷ out) =
    let skip_two = parse_loop f (drop 2 (c ∷ out)) in
    let skip_one = parse_loop f out in
    let read = add_pane (parse_loop f) (parse_pane_record (c ∷ out)) in
    if has_prefix (c ∷ out) crlf
    then skip_two
    else if has_prefix (c ∷ out) newline
    then skip_one
    else read

abbrev pub or_none : Option (List Pane) → List Pane
or_none none = []
or_none (some ps) = ps

-- The fuel is enough, so that `or_none` never meets `none`.
unfoldable pub parse_panes : Bytes → List Pane
unfolding parse_loop
parse_panes out = or_none (parse_loop (length out) out)
