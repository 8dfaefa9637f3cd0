-- ===== src/Tmux/Sessions/RoundTrip.antt =====
-- What tmux prints for its sessions is read back, also where a name has the separator in it.
use visual_tmux_client.Prelude.{
  ℕ, ◌+◌, ◌-◌, ◌≤◌, ◌≡◌, ◌≢◌, refl, ap, ◌∙◌, false, List, [], ◌∷◌, ◌++◌, none, Bytes, length,
  length-append, take, take-length-append, All, All-append, Lacks, is_empty, ltb, nat_eq, arith,
}
use visual_tmux_client.Prelude.Int.{pos}
use visual_tmux_client.Prelude.Decimal.{itoa, atoi-itoa, itoa-Lacks, max_int, is_digit}
use visual_tmux_client.Session.Model.{Session}
use visual_tmux_client.Tmux.Panes.{field, atoi_or_zero}
use visual_tmux_client.Tmux.Sessions.{
  split, join, trim_cr, session_of, parse_parts, parse_line, parse_lines, parse_sessions,
}
use visual_tmux_client.Tmux.Sessions.Splitting.{
  split_nonempty, split-append, split-Lacks, join-split, field-append, trim_cr-append,
}

-- What tmux knows of a session, and the line that it prints for it.
pub record Listed : Type 0 where
  pub name : Bytes
  pub windows : ℕ
  pub attached : ℕ
  pub created : ℕ

abbrev pub numbers : Listed → List ℕ
numbers l = l.windows ∷ l.attached ∷ l.created ∷ []

abbrev pub print_line : Listed → Bytes
print_line l =
    l.name ++ b'|' ∷ (itoa l.windows ++ b'|' ∷ (itoa l.attached ++ b'|' ∷ itoa l.created))

abbrev pub session_for : Listed → Session
session_for l = record {
  name = l.name;
  windows = pos l.windows;
  attached = pos l.attached;
  created = pos l.created;
  pane = none;
}

-- A name on one line, and numbers that an int holds.
pub record IsListed (l : Listed) : Type 0 where
  pub one_line : Lacks 10 l.name
  pub fits : All (λ n. n ≤ max_int) (numbers l)

abbrev tail_parts : Listed → List Bytes
tail_parts l = itoa l.windows ∷ itoa l.attached ∷ itoa l.created ∷ []

split-print_line : (l : Listed) → split b'|' (print_line l) ≡ split b'|' l.name ++ tail_parts l
split-print_line l =
    let no_bar = λ (n : ℕ). split-Lacks b'|' (itoa n) (itoa-Lacks b'|' n refl) in
    split-append b'|' l.name (itoa l.windows ++ b'|' ∷ (itoa l.attached ++ b'|' ∷ itoa l.created))
    ∙ ap (◌++◌ (split b'|' l.name)) (
        split-append b'|' (itoa l.windows) (itoa l.attached ++ b'|' ∷ itoa l.created)
        ∙ rw (no_bar l.windows) (
            ap (◌∷◌ (itoa l.windows)) (
              split-append b'|' (itoa l.attached) (itoa l.created)
              ∙ rw (no_bar l.attached, no_bar l.created) refl)))

atoi_or_zero-itoa : (n : ℕ) → n ≤ max_int → atoi_or_zero (itoa n) ≡ pos n
unfolding atoi_or_zero
atoi_or_zero-itoa n le = rw (atoi-itoa n le) refl

-- The last three parts are the numbers, and those before them the name.
session_of-parts :
    (ws : List Bytes) (l : Listed) (n : ℕ)
    → n ≡ length ws + 3
    → All (λ k. k ≤ max_int) (numbers l)
    → join b'|' ws ≡ l.name
    → session_of n (ws ++ tail_parts l) ≡ session_for l
unfolding session_of
session_of-parts ws l n e fit joined =
    let vs = tail_parts l in
    let at0 : n - 3 ≡ length ws = omega arith in
    let first : field (n - 3) (ws ++ vs) ≡ itoa l.windows =
      let z : n - 3 ≡ length ws + 0 = omega arith in rw z (field-append ws vs 0) in
    let second : field (n - 2) (ws ++ vs) ≡ itoa l.attached =
      let z : n - 2 ≡ length ws + 1 = omega arith in rw z (field-append ws vs 1) in
    let third : field (n - 1) (ws ++ vs) ≡ itoa l.created =
      let z : n - 1 ≡ length ws + 2 = omega arith in rw z (field-append ws vs 2) in
    let front : take (n - 3) (ws ++ vs) ≡ ws = rw at0 (take-length-append ws vs) in
    rw (first, second, third, front, joined, atoi_or_zero-itoa l.windows fit.0)
      (rw (atoi_or_zero-itoa l.attached fit.1.0, atoi_or_zero-itoa l.created fit.1.1.0) refl)

parse_parts-line :
    (l : Listed) → IsListed l → parse_parts (split b'|' l.name ++ tail_parts l) ≡ session_for l ∷ []
unfolding parse_parts
parse_parts-line l h =
    let ws = split b'|' l.name in
    let (w, more, e) = split_nonempty b'|' l.name in
    let n : length (ws ++ tail_parts l) ≡ length ws + 3 =
      omega (arith, length-append ws (tail_parts l)) in
    let long : ltb (length (ws ++ tail_parts l)) 4 ≡ false =
      ground (arith, n, ap (λ (x : List Bytes). length x) e) in
    rw long (
      ap (λ s. s ∷ [])
        (session_of-parts ws l (length (ws ++ tail_parts l)) n h.fits (join-split b'|' l.name)))

append_nonempty : (xs : Bytes) (b : ℕ) (ys : Bytes) → is_empty (xs ++ b ∷ ys) ≡ false
append_nonempty [] b ys = refl
append_nonempty (x ∷ xs) b ys = refl

abbrev numbers_part : Listed → Bytes
numbers_part l = itoa l.windows ++ b'|' ∷ (itoa l.attached ++ b'|' ∷ itoa l.created)

numbers_part-Lacks : (b : ℕ) (l : Listed) → is_digit b ≡ false → b'|' ≢ b → Lacks b (numbers_part l)
numbers_part-Lacks b l no_digit no_bar =
    let digits = λ (n : ℕ). itoa-Lacks b n no_digit in
    All-append _ (itoa l.windows) (b'|' ∷ (itoa l.attached ++ b'|' ∷ itoa l.created))
      (digits l.windows)
      (
        no_bar,
        All-append _ (itoa l.attached) (b'|' ∷ itoa l.created) (digits l.attached)
            (no_bar, digits l.created),
      )

parse_line-print : (l : Listed) → IsListed l → parse_line (print_line l) ≡ session_for l ∷ []
unfolding parse_line
parse_line-print l h =
    rw (append_nonempty l.name b'|' (numbers_part l))
      (ap parse_parts (split-print_line l) ∙ parse_parts-line l h)

print_line-Lacks : (l : Listed) → IsListed l → Lacks 10 (print_line l)
print_line-Lacks l h =
    All-append _ l.name (b'|' ∷ numbers_part l) h.one_line
      (omega arith, numbers_part-Lacks 10 l refl (omega arith))

trim_cr-print_line : (l : Listed) → trim_cr (print_line l) ≡ print_line l
trim_cr-print_line l =
    trim_cr-append l.name (b'|' ∷ numbers_part l) (cc)
      (omega arith, numbers_part-Lacks 13 l refl (omega arith))

abbrev pub print_lines : List Listed → Bytes
print_lines [] = []
print_lines (l ∷ ls) = print_line l ++ 10 ∷ print_lines ls

abbrev pub sessions_for : List Listed → List Session
sessions_for [] = []
sessions_for (l ∷ ls) = session_for l ∷ sessions_for ls

parse_lines_step :
    (line : Bytes) (lines : List Bytes)
    → parse_lines (line ∷ lines) ≡ parse_line (trim_cr line) ++ parse_lines lines
unfolding parse_lines
parse_lines_step line lines = refl

parse_lines-print :
    (ls : List Listed) → All IsListed ls → parse_lines (split 10 (print_lines ls)) ≡ sessions_for ls
parse_lines-print [] h = unfold parse_lines split trim_cr parse_line in refl
parse_lines-print (l ∷ ls) h =
    ap parse_lines (
      split-append 10 (print_line l) (print_lines ls)
      ∙ rw (split-Lacks 10 (print_line l) (print_line-Lacks l h.0)) refl)
    ∙ parse_lines_step (print_line l) (split 10 (print_lines ls))
    ∙ rw (trim_cr-print_line l, parse_line-print l h.0)
        (ap (◌∷◌ (session_for l)) (parse_lines-print ls h.1))

-- The lines that tmux prints are read back to the same sessions, whose names may hold the
-- separator `|` and anything else but a newline, if each number fits an int.
pub parse_sessions-print :
    (ls : List Listed) → All IsListed ls → parse_sessions (print_lines ls) ≡ sessions_for ls
unfolding parse_sessions
parse_sessions-print ls h = parse_lines-print ls h
