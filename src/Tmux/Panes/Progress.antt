-- ===== src/Tmux/Panes/Progress.antt =====
-- Each step of reading the output of `list-panes` takes a byte off.
use visual_tmux_client.Prelude.{
  ℕ, zero, suc, ◌≤◌, ◌≡◌, refl, ap, ◌||◌, List, [], ◌∷◌, Option, none, some, Bytes, length,
  length-drop, take, drop, index_byte, nat_eq, arith, if_cases,
}
use visual_tmux_client.Prelude.Int.{ℤ, pos, pos_part, ltb_ℤ}
use visual_tmux_client.Session.Model.{Pane}
use visual_tmux_client.Tmux.Panes.{
  pane_of, cut_value, after_colon, parse_field, and_more, prepend, parse_fields, end_record,
  parse_pane_record, add_pane, then_panes,
}
use visual_tmux_client.Tmux.Panes.Framing.{after_colon-cut_value}

-- A result that leaves less than `n` bytes.
abbrev pub Leaves {ℓ} : {A : Type ℓ} → ℕ → Option (A × Bytes) → Type 0
Leaves n none = Unit
Leaves n (some (a, rest)) = length rest ≤ n

cut_value-Leaves : (input : Bytes) (o : Option ℤ) → Leaves (length input) (cut_value input o)
unfolding cut_value
cut_value-Leaves input none = tt
cut_value-Leaves input (some n) =
    if_cases (Leaves {A = Bytes} (length input)) (ltb_ℤ n (pos 0) || ltb_ℤ (pos (length input)) n)
      {x = none} {y = some (take (pos_part n) input, drop (pos_part n) input)} (λ bad. tt)
      (λ fits. omega (arith, length-drop (pos_part n) input))

after_colon-Leaves :
    (c : ℕ) (input : Bytes) (o : Option ℕ) → Leaves (length input) (after_colon (c ∷ input) o)
after_colon-Leaves c input none = unfold after_colon in tt
after_colon-Leaves c input (some zero) = unfold after_colon in tt
after_colon-Leaves c input (some (suc k)) =
    rw (after_colon-cut_value (c ∷ input) k)
      (weaken (cut_value (drop (suc k) input) _) (cut_value-Leaves (drop (suc k) input) _))
  where
    weaken :
        (o : Option (Bytes × Bytes))
        → Leaves (length (drop (suc k) input)) o
        → Leaves (length input) o
    weaken none h = tt
    weaken (some (v, r)) h = omega (arith, length-drop (suc k) input)

parse_field-Leaves : (c : ℕ) (input : Bytes) → Leaves (length input) (parse_field (c ∷ input))
unfolding parse_field
parse_field-Leaves c input = after_colon-Leaves c input (index_byte (c ∷ input) b':')

parse_field-le : (input : Bytes) → Leaves (length input) (parse_field input)
parse_field-le [] = unfold parse_field after_colon in tt
parse_field-le (c ∷ input) = weaken (parse_field (c ∷ input)) (parse_field-Leaves c input)
  where
    weaken : (o : Option (Bytes × Bytes)) → Leaves (length input) o → Leaves (suc (length input)) o
    weaken none h = tt
    weaken (some (v, r)) h = omega (arith, h)

prepend-Leaves :
    (v : Bytes) (m n : ℕ) (o : Option (List Bytes × Bytes))
    → m ≤ n
    → Leaves m o
    → Leaves n (prepend v o)
unfolding parse_fields
prepend-Leaves v m n none le h = tt
prepend-Leaves v m n (some (vs, r)) le h = omega (arith, h)

and_more-Leaves :
    (n : ℕ) (more : Bytes → Option (List Bytes × Bytes)) (o : Option (Bytes × Bytes))
    → ((rest : Bytes) → Leaves (length rest) (more rest))
    → Leaves n o
    → Leaves n (and_more more o)
unfolding and_more
and_more-Leaves n more none all_shrink h = tt
and_more-Leaves n more (some (v, rest)) all_shrink h =
    prepend-Leaves v (length rest) n (more rest) h (all_shrink rest)

parse_fields-Leaves : (n : ℕ) (input : Bytes) → Leaves (length input) (parse_fields n input)
unfolding parse_fields
parse_fields-Leaves zero input = omega arith
parse_fields-Leaves (suc n) input =
    and_more-Leaves (length input) (parse_fields n) (parse_field input) (parse_fields-Leaves n)
      (parse_field-le input)

end_record-Leaves : (n : ℕ) (o : Option (List Bytes × Bytes)) → Leaves n o → Leaves n (end_record o)
unfolding end_record
end_record-Leaves n none h = tt
end_record-Leaves n (some (vs, [])) h = h
end_record-Leaves n (some (vs, c ∷ [])) h = ground (arith, h)
end_record-Leaves n (some (vs, c ∷ d ∷ r)) h = ground (arith, h)

-- A record takes a byte at least.
pub parse_pane_record-Leaves :
    (c : ℕ) (input : Bytes) → Leaves (length input) (parse_pane_record (c ∷ input))
unfolding parse_pane_record
parse_pane_record-Leaves c input =
    end_record-Leaves (length input) (and_more (parse_fields 8) (parse_field (c ∷ input))) (
      and_more-Leaves (length input) (parse_fields 8) (parse_field (c ∷ input))
        (parse_fields-Leaves 8) (parse_field-Leaves c input))

-- The loop has ended, with these panes, for either fuel.
pub record EndsAlike (x y : Option (List Pane)) : Type 0 where
  pub panes : List Pane
  pub first : x ≡ some panes
  pub second : y ≡ some panes

pub add_pane-EndsAlike :
    (n : ℕ) (f g : Bytes → Option (List Pane)) (o : Option (List Bytes × Bytes))
    → ((rest : Bytes) → length rest ≤ n → EndsAlike (f rest) (g rest))
    → Leaves n o
    → EndsAlike (add_pane f o) (add_pane g o)
unfolding add_pane
add_pane-EndsAlike n f g none same h = record { panes = []; first = refl; second = refl }
add_pane-EndsAlike n f g (some (vs, rest)) same h =
    let e = same rest h in
    record {
      panes = pane_of vs ∷ e.panes;
      first = ap (then_panes (pane_of vs)) e.first;
      second = ap (then_panes (pane_of vs)) e.second;
    }
