-- ===== src/Tmux/Panes/Framing.antt =====
-- Reading back what the format of `list-panes` prints.
use visual_tmux_client.Prelude.{
  ℕ, suc, ◌≤◌, ◌≡◌, ◌≢◌, refl, ap, subst, ◌∙◌, List, [], ◌∷◌, ◌++◌, append_assoc, some, Bytes,
  length, length-append, take, drop, take-length-append, drop-length-append, All, Lacks, index_byte,
  nat_eq, arith,
}
use visual_tmux_client.Prelude.Int.{pos}
use visual_tmux_client.Prelude.Decimal.{itoa, atoi, atoi-itoa, itoa_nonempty, itoa-Lacks, max_int}
use visual_tmux_client.Session.Model.{Pane}
use visual_tmux_client.Tmux.Panes.{
  pane_of, cut_value, after_colon, parse_field, and_more, prepend, parse_fields, end_record,
  parse_pane_record, newline,
}

-- A value as the format prints it: its length, a colon, and its bytes.
abbrev pub frame : Bytes → Bytes
frame v = itoa (length v) ++ b':' ∷ v

-- The values of a record.
abbrev pub frames : List Bytes → Bytes
frames [] = []
frames (v ∷ vs) = frame v ++ frames vs

index_byte-append :
    (b : ℕ) (xs ys : Bytes) → Lacks b xs → index_byte (xs ++ b ∷ ys) b ≡ some (length xs)
index_byte-append b [] ys h = ground arith
index_byte-append b (x ∷ xs) ys h =
    let ih = index_byte-append b xs ys h.1 in ground (arith, h.0, ih)

drop_past : (xs : Bytes) (b : ℕ) (ys : Bytes) → drop (suc (length xs)) (xs ++ b ∷ ys) ≡ ys
drop_past [] b ys = refl
drop_past (x ∷ xs) b ys = drop_past xs b ys

pub after_colon-cut_value :
    (input : Bytes) (c : ℕ)
    → after_colon input (some (suc c))
      ≡ cut_value (drop (suc (suc c)) input) (atoi (take (suc c) input))
unfolding after_colon
after_colon-cut_value input c = refl

cut_value-append : (v rest : Bytes) → cut_value (v ++ rest) (some (pos (length v))) ≡ some (v, rest)
unfolding cut_value
cut_value-append v rest =
    rw (take-length-append v rest, drop-length-append v rest) (ground (arith, length-append v rest))

after_colon-frame :
    (digits v rest : Bytes)
    → digits ≢ []
    → atoi digits ≡ some (pos (length v))
    → after_colon (digits ++ (b':' ∷ (v ++ rest))) (some (length digits)) ≡ some (v, rest)
after_colon-frame [] v rest ne h = absurd (ne refl)
after_colon-frame (d ∷ ds) v rest ne h =
    let input : Bytes = (d ∷ ds) ++ (b':' ∷ (v ++ rest)) in
    let front : take (suc (length ds)) input ≡ d ∷ ds =
      take-length-append (d ∷ ds) (b':' ∷ (v ++ rest)) in
    after_colon-cut_value input (length ds)
    ∙ ap (cut_value (drop (suc (suc (length ds))) input)) (ap atoi front ∙ h)
    ∙ ap (λ x. cut_value x (some (pos (length v)))) (drop_past (d ∷ ds) b':' (v ++ rest))
    ∙ cut_value-append v rest

-- A framed value is read back, whatever bytes it has.
pub parse_field-frame :
    (v rest : Bytes) → length v ≤ max_int → parse_field (frame v ++ rest) ≡ some (v, rest)
unfolding parse_field
parse_field-frame v rest le = rw (append_assoc (itoa (length v)) (b':' ∷ v) rest) (
    ap (after_colon (itoa (length v) ++ (b':' ∷ (v ++ rest))))
      (index_byte-append b':' (itoa (length v)) (v ++ rest) (itoa-Lacks b':' (length v) refl))
    ∙ after_colon-frame (itoa (length v)) v rest (itoa_nonempty (length v))
        (atoi-itoa (length v) le))

abbrev pub AllFit : List Bytes → Type 0
AllFit = All (λ v. length v ≤ max_int)

parse_fields-frames :
    (vs : List Bytes) (rest : Bytes)
    → AllFit vs
    → parse_fields (length vs) (frames vs ++ rest) ≡ some (vs, rest)
unfolding parse_fields
parse_fields-frames [] rest h = refl
parse_fields-frames (v ∷ vs) rest h = rw (append_assoc (frame v) (frames vs) rest) (
    ap (and_more (parse_fields (length vs))) (parse_field-frame v (frames vs ++ rest) h.0)
    ∙ ap (prepend v) (parse_fields-frames vs rest h.1))

-- A record, with its nine fields and the line ending.
pub record IsRecord (vs : List Bytes) : Type 0 where
  pub nine : length vs ≡ 9
  pub fit : AllFit vs

abbrev pub print_record : List Bytes → Bytes
print_record vs = frames vs ++ newline

end_record-newline :
    (vs : List Bytes) (rest : Bytes) → end_record (some (vs, newline ++ rest)) ≡ some (vs, rest)
unfolding end_record
end_record-newline vs rest = refl

pub parse_pane_record-print :
    (vs : List Bytes) (rest : Bytes)
    → IsRecord vs
    → parse_pane_record (print_record vs ++ rest) ≡ some (vs, rest)
unfolding parse_pane_record
parse_pane_record-print vs rest h = rw (append_assoc (frames vs) newline rest) (
    ap end_record (
      subst (λ n. parse_fields n (frames vs ++ (newline ++ rest)) ≡ some (vs, newline ++ rest))
        h.nine (parse_fields-frames vs (newline ++ rest) h.fit))
    ∙ end_record-newline vs rest)

abbrev pub print_records : List (List Bytes) → Bytes
print_records [] = []
print_records (vs ∷ vss) = print_record vs ++ print_records vss

abbrev pub panes_of : List (List Bytes) → List Pane
panes_of [] = []
panes_of (vs ∷ vss) = pane_of vs ∷ panes_of vss
