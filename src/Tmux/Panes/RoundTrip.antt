-- ===== src/Tmux/Panes/RoundTrip.antt =====
-- The whole output of `list-panes`: what is read back, and how long the loop takes.
use visual_tmux_client.Prelude.{
  ℕ, zero, suc, ◌≤◌, ◌<◌, ◌≡◌, ◌≢◌, refl, ap, ◌∙◌, Bool, true, false, List, [], ◌∷◌, ◌++◌, sym,
  Option, some, Bytes, length, length-append, length-drop, drop, All, has_prefix, ◌==◌, nat_eq,
  arith, if◌then◌else◌,
}
use visual_tmux_client.Prelude.Decimal.{itoa, itoa_nonempty, itoa-All, is_digit}
use visual_tmux_client.Session.Model.{Pane}
use visual_tmux_client.Tmux.Panes.{
  pane_of, parse_pane_record, add_pane, then_panes, or_none, parse_loop, parse_panes, crlf, newline,
}
use visual_tmux_client.Tmux.Panes.Framing.{
  frame, frames, IsRecord, print_record, print_records, panes_of, parse_pane_record-print,
}
use visual_tmux_client.Tmux.Panes.Progress.{EndsAlike, add_pane-EndsAlike, parse_pane_record-Leaves}

loop-EndsAlike :
    (f g : ℕ) (out : Bytes)
    → length out ≤ f
    → length out ≤ g
    → EndsAlike (parse_loop f out) (parse_loop g out)
unfolding parse_loop
loop-EndsAlike f g [] h k = record { panes = []; first = refl; second = refl }
loop-EndsAlike zero g (c ∷ out) h k = absurd (omega arith)
loop-EndsAlike (suc f) zero (c ∷ out) h k = absurd (omega arith)
loop-EndsAlike (suc f) (suc g) (c ∷ out) h k =
    let two =
      loop-EndsAlike f g (drop 1 out) (omega (arith, length-drop 1 out))
        (omega (arith, length-drop 1 out)) in
    let one = loop-EndsAlike f g out (omega arith) (omega arith) in
    let read =
      add_pane-EndsAlike (length out) (parse_loop f) (parse_loop g) (parse_pane_record (c ∷ out))
        (λ rest le. loop-EndsAlike f g rest (omega arith) (omega arith))
        (parse_pane_record-Leaves c out) in
    if_both (has_prefix (c ∷ out) crlf) two (if_both (has_prefix (c ∷ out) newline) one read)
  where
    if_both :
        (b : Bool) {x y x' y' : Option (List Pane)}
        → EndsAlike x x'
        → EndsAlike y y'
        → EndsAlike (if b then x else y) (if b then x' else y')
    if_both true p q = p
    if_both false p q = q

-- The loop ends by itself: every fuel from the length of the output on is enough for it to come to
-- the end, and to the panes that `ParsePanes` returns.
pub parse_loop_fuel :
    (f : ℕ) (out : Bytes) → length out ≤ f → parse_loop f out ≡ some (parse_panes out)
unfolding parse_panes
parse_loop_fuel f out h =
    let e = loop-EndsAlike f (length out) out h (omega arith) in
    e.first ∙ ap some (sym (ap or_none e.second))

abbrev StartsDigit : Bytes → Type 0
StartsDigit [] = ⊥
StartsDigit (c ∷ s) = is_digit c ≡ true

StartsDigit-append : (xs ys : Bytes) → StartsDigit xs → StartsDigit (xs ++ ys)
StartsDigit-append [] ys h = absurd h
StartsDigit-append (x ∷ xs) ys h = h

StartsDigit-itoa : (s : Bytes) → s ≢ [] → All (λ c. is_digit c ≡ true) s → StartsDigit s
StartsDigit-itoa [] ne h = absurd (ne refl)
StartsDigit-itoa (c ∷ s) ne h = h.0

StartsDigit-record : (vs : List Bytes) → IsRecord vs → StartsDigit (print_record vs)
StartsDigit-record [] h = absurd (omega (arith, h.nine))
StartsDigit-record (v ∷ vs) h =
    let n = length v in
    StartsDigit-append (frame v ++ frames vs) newline (
      StartsDigit-append (frame v) (frames vs) (
        StartsDigit-append (itoa n) (b':' ∷ v)
          (StartsDigit-itoa (itoa n) (itoa_nonempty n) (itoa-All n))))

-- Where a digit stands there is no blank line to skip.
parse_loop-digit :
    (f : ℕ) (out : Bytes)
    → StartsDigit out
    → parse_loop (suc f) out ≡ add_pane (parse_loop f) (parse_pane_record out)
unfolding parse_loop
parse_loop-digit f [] h = absurd h
parse_loop-digit f (c ∷ out) h =
    let no_lf : (c == 10) ≡ false = ground (arith, h) in
    let no_cr : (c == 13) ≡ false = ground (arith, h) in rw (no_lf, no_cr) refl

length-print : (vs : List Bytes) (rest : Bytes) → length rest < length (print_record vs ++ rest)
length-print vs rest =
    omega (arith, length-append (print_record vs) rest, length-append (frames vs) newline)

add_pane-some :
    (f : Bytes → Option (List Pane)) (vs : List Bytes) (rest : Bytes)
    → add_pane f (some (vs, rest)) ≡ then_panes (pane_of vs) (f rest)
unfolding add_pane
add_pane-some f vs rest = refl

parse_loop-print :
    (f : ℕ) (vss : List (List Bytes))
    → All IsRecord vss
    → length (print_records vss) ≤ f
    → parse_loop f (print_records vss) ≡ some (panes_of vss)
parse_loop-print f [] h le = unfold parse_loop in refl
parse_loop-print zero (vs ∷ vss) h le = absurd (omega (arith, length-print vs (print_records vss)))
parse_loop-print (suc f) (vs ∷ vss) h le =
    let rest = print_records vss in
    parse_loop-digit f (print_record vs ++ rest)
      (StartsDigit-append (print_record vs) rest (StartsDigit-record vs h.0))
    ∙ ap (add_pane (parse_loop f)) (parse_pane_record-print vs rest h.0)
    ∙ add_pane-some (parse_loop f) vs rest
    ∙ ap (then_panes (pane_of vs))
        (parse_loop-print f vss h.1 (omega (arith, length-print vs rest)))

-- Records that tmux prints with their length prefixes are all read back, whatever bytes their
-- values have, if each has nine of them and none is longer than the largest int.
pub parse_panes-print :
    (vss : List (List Bytes)) → All IsRecord vss → parse_panes (print_records vss) ≡ panes_of vss
unfolding parse_panes
parse_panes-print vss h =
    ap or_none (parse_loop-print (length (print_records vss)) vss h (omega arith))
