-- ===== src/Tmux/Sessions/Splitting.antt =====
-- Splitting, joining and trimming of lines.
use native.Mathlib.Nat.{zero-add}
use visual_tmux_client.Prelude.{
  ℕ, suc, ◌+◌, ◌≡◌, ◌≢◌, refl, sym, ap, ◌∙◌, inl, inr, false, List, [], ◌∷◌, ◌++◌, Bytes, length,
  Lacks, ◌==◌, nat_eq, arith, Bool-cases,
}
use visual_tmux_client.Tmux.Panes.{field}
use visual_tmux_client.Tmux.Sessions.{split, join, trim_cr, cons_head}

module _ (b : ℕ) where
  pub split_nonempty : (s : Bytes) → (w : Bytes) × (ws : List Bytes) × (split b s ≡ w ∷ ws)
  unfolding split
  split_nonempty [] = ([], [], refl)
  split_nonempty (c ∷ s) = elim (Bool-cases (c == b)) [
    | inl at ↦ ([], split b s, rw at refl)
    | inr other ↦ let (w, ws, e) = split_nonempty s in (c ∷ w, ws, rw (other, e) refl)
  ]

  -- Splitting at a separator that stands between two texts.
  pub split-append : (xs ys : Bytes) → split b (xs ++ b ∷ ys) ≡ split b xs ++ split b ys
  unfolding split
  split-append [] ys = ground arith
  split-append (x ∷ xs) ys = elim (Bool-cases (x == b)) [
    | inl at ↦ rw at (ap (◌∷◌ []) (split-append xs ys))
    | inr other ↦
        let (w, ws, e) = split_nonempty xs in
        rw other (ap (cons_head x) (split-append xs ys) ∙ rw e refl)
  ]

  pub split-Lacks : (s : Bytes) → Lacks b s → split b s ≡ s ∷ []
  unfolding split
  split-Lacks [] h = refl
  split-Lacks (c ∷ s) h =
      let other : (c == b) ≡ false = ground (arith, h.0) in
      rw other (ap (cons_head c) (split-Lacks s h.1))

  join-cons_head :
      (c : ℕ) (w : Bytes) (ws : List Bytes) → join b ((c ∷ w) ∷ ws) ≡ c ∷ join b (w ∷ ws)
  unfolding join
  join-cons_head c w [] = refl
  join-cons_head c w (v ∷ ws) = refl

  join_empty : (w : Bytes) (ws : List Bytes) → join b ([] ∷ w ∷ ws) ≡ b ∷ join b (w ∷ ws)
  unfolding join
  join_empty w ws = refl

  pub join-split : (s : Bytes) → join b (split b s) ≡ s
  unfolding split
  join-split [] = unfold join in refl
  join-split (c ∷ s) = elim (Bool-cases (c == b)) [
    | inl at ↦
        let same : b ≡ c = ground arith in
        let (w, ws, e) = split_nonempty s in
        rw (at, e)
          (join_empty w ws
            ∙ ap (λ l. b ∷ join b l) (sym e)
            ∙ ap (◌∷◌ b) (join-split s)
            ∙ ap (λ x. x ∷ s) same)
    | inr other ↦
        let (w, ws, e) = split_nonempty s in
        rw (other, e)
          (join-cons_head c w ws ∙ ap (λ l. c ∷ join b l) (sym e) ∙ ap (◌∷◌ c) (join-split s))
  ]

pub field-append : (ws vs : List Bytes) (i : ℕ) → field (length ws + i) (ws ++ vs) ≡ field i vs
field-append [] vs i = rw zero-add
field-append (w ∷ ws) vs i =
    let e : suc (length ws) + i ≡ suc (length ws + i) = omega arith in rw e (field-append ws vs i)

trim_cr-Lacks : (s : Bytes) → Lacks 13 s → trim_cr s ≡ s
unfolding trim_cr
trim_cr-Lacks [] h = refl
trim_cr-Lacks (c ∷ []) h = ground (arith, h.0)
trim_cr-Lacks (c ∷ d ∷ s) h = ap (◌∷◌ c) (trim_cr-Lacks (d ∷ s) h.1)

trim_cr_step : (x z : ℕ) (s : Bytes) → trim_cr (x ∷ z ∷ s) ≡ x ∷ trim_cr (z ∷ s)
unfolding trim_cr
trim_cr_step x z s = refl

pub trim_cr-append : (xs ys : Bytes) → ys ≢ [] → Lacks 13 ys → trim_cr (xs ++ ys) ≡ xs ++ ys
trim_cr-append [] ys ne h = trim_cr-Lacks ys h
trim_cr-append (x ∷ []) [] ne h = absurd (ne refl)
trim_cr-append (x ∷ []) (y ∷ ys) ne h = unfold trim_cr in ap (◌∷◌ x) (trim_cr-Lacks (y ∷ ys) h)
trim_cr-append (x ∷ z ∷ xs) ys ne h =
    trim_cr_step x z (xs ++ ys) ∙ ap (◌∷◌ x) (trim_cr-append (z ∷ xs) ys ne h)
