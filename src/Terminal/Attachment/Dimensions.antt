-- ===== src/Terminal/Attachment/Dimensions.antt =====
-- The size of the terminal: what the attachment records, and what the process was told.
use visual_tmux_client.Prelude.{
  ◌≡◌, refl, ◌∙◌, List, [], ◌∷◌, ◌++◌, Bytes, codes, arith, if_cases, Option-cases, inl, inr, ◌==◌,
  bytes_eq,
}
use visual_tmux_client.Prelude.Int.{ℤ, pos, ltb_ℤ, ◌≤ℤ◌, ◌-ℤ◌}
use visual_tmux_client.Terminal.Effect.{Effect, proc_resize, resized, send_pong}
use visual_tmux_client.Terminal.Attachment.{
  Attachment, Env, apply_resize, force_repaint, handle_control,
}

-- A size of a terminal, in columns and rows.
pub record Size : Type 0 where
  pub width : ℤ
  pub height : ℤ

abbrev after_effect : Size → Effect → Size
after_effect s (proc_resize c r) = record { width = c; height = r }
after_effect s _ = s

-- The size that the process has after a log of effects.
abbrev pub proc_size : Size → List Effect → Size
proc_size s [] = s
proc_size s (e ∷ es) = proc_size (after_effect s e) es

pub proc_size-append :
    (s : Size) (xs ys : List Effect) → proc_size s (xs ++ ys) ≡ proc_size (proc_size s xs) ys
proc_size-append s [] ys = refl
proc_size-append s (e ∷ xs) ys = proc_size-append (after_effect s e) xs ys

abbrev pub size_of : Attachment → Size
size_of a = record { width = a.cols; height = a.rows }

abbrev pub IsWithin : ℤ → ℤ → Type 0
IsWithin m n = (pos 1 ≤ℤ n) × (n ≤ℤ m)

-- The recorded size is in range, and is the size of the process.
pub record IsSized (first : Size) (a : Attachment) : Type 0 where
  pub cols_within : IsWithin a.opts.max_dimension a.cols
  pub rows_within : IsWithin a.opts.max_dimension a.rows
  pub synced : proc_size first a.log ≡ size_of a

module _ (first : Size) where
  apply_resize-IsSized :
      (a : Attachment) (c r : ℤ) → IsSized first a → IsSized first (apply_resize a c r)
  unfolding apply_resize
  apply_resize-IsSized a c r v =
      let one = proc_size-append first a.log (proc_resize c r ∷ []) in
      let two = proc_size-append first (a.log ++ proc_resize c r ∷ []) (resized c r ∷ []) in
      ground (arith, one, two)

  force_repaint-IsSized : (a : Attachment) → IsSized first a → IsSized first (force_repaint a)
  unfolding force_repaint
  force_repaint-IsSized a v =
      let c = a.cols in
      let r = a.rows in
      let one = a.log ++ proc_resize c (r -ℤ pos 1) ∷ [] in
      let e = proc_size-append first one (proc_resize c r ∷ []) in
      if_cases (IsSized first) (ltb_ℤ a.rows (pos 2)) (λ _. v)
        (λ _. record { cols_within = v.cols_within; rows_within = v.rows_within; synced = e })

  handle_control-IsSized :
      (env : Env) (a : Attachment) (d : Bytes)
      → IsSized first a
      → IsSized first (handle_control env a d)
  unfolding handle_control
  handle_control-IsSized env a d v = elim (Option-cases (env.unmarshal d)) [
    | inl e ↦ rw (e, handle_control) v
    | inr (msg, e) ↦
        rw (e, handle_control)
          (if_cases (IsSized first) (msg.type == codes "resize")
            (λ _. apply_resize-IsSized a msg.cols msg.rows v)
            (λ _.
              if_cases (IsSized first) (msg.type == codes "ping")
                (λ _. record {
                  cols_within = v.cols_within;
                  rows_within = v.rows_within;
                  synced = proc_size-append first a.log (send_pong ∷ []) ∙ v.synced;
                })
                (λ _. v)))
  ]

-- What may change the size: a control message, or the repaint of `Start`.
pub data Turn : Type 0 where
  control : Bytes → Turn
  repaint : Turn

unfoldable pub take_turns : Env → Attachment → List Turn → Attachment
take_turns env a [] = a
take_turns env a (control d ∷ ts) = take_turns env (handle_control env a d) ts
take_turns env a (repaint ∷ ts) = take_turns env (force_repaint a) ts

-- If control messages and repaints run one after the other, whatever the messages are, the recorded
-- size stays between 1 and the maximum, and the process has that size.
pub take_turns-IsSized :
    (first : Size) (env : Env) (a : Attachment) (ts : List Turn)
    → IsSized first a
    → IsSized first (take_turns env a ts)
unfolding take_turns
take_turns-IsSized first env a [] v = v
take_turns-IsSized first env a (control d ∷ ts) v =
    take_turns-IsSized first env (handle_control env a d) ts
      (handle_control-IsSized first env a d v)
take_turns-IsSized first env a (repaint ∷ ts) v =
    take_turns-IsSized first env (force_repaint a) ts (force_repaint-IsSized first a v)
