-- ===== src/Terminal/Attachment/Input.antt =====
-- Keyboard input on its way to the process.
use visual_tmux_client.Prelude.{
  ℕ, zero, suc, ◌≤◌, ◌<◌, ◌≡◌, refl, sym, ap, ◌∙◌, true, false, ◌||◌, List, [], ◌∷◌, ◌++◌,
  append_assoc, append-nil, Bytes, arith, take, drop, length, length-take, length-drop,
  take-append-drop, concat, All, if_cases, if◌then◌else◌,
}
use visual_tmux_client.Prelude.Int.{ℤ, pos, pos_part, leb_ℤ}
use visual_tmux_client.Terminal.Effect.{Effect, inputs, inputs-append, proc_write}
use visual_tmux_client.Terminal.Attachment.{
  Attachment, Env, emit, write_loop, write_input, chunk_size,
}

-- The context stays open and the process takes every write.
pub record Willing (env : Env) (a : Attachment) : Type 0 where
  pub open_ : a.cancelled ≡ false
  pub stays : (l : List Effect) → env.cancels l ≡ false
  pub takes : (l : List Effect) (p : Bytes) → env.accepts l p ≡ true

-- From `a` to `b` the process was given a beginning of `d`, in pieces of 1 to `n` bytes, and all of
-- `d` if nothing stopped it.
pub record Written (env : Env) (n : ℕ) (d : Bytes) (a b : Attachment) : Type 0 where
  pub pieces : List Bytes
  pub rest : Bytes
  pub logged : inputs b.log ≡ inputs a.log ++ pieces
  pub splits : concat pieces ++ rest ≡ d
  pub sized : All (λ p. (0 < length p) × (length p ≤ n)) pieces
  pub complete : Willing env a → rest ≡ []

chunk_size_pos : (z : ℤ) → 0 < (if leb_ℤ z (pos 0) then 32_768 else pos_part z)
chunk_size_pos z = ground arith

module _ (env : Env) (n : ℕ) (pos_n : 0 < n) where
  Written-stop : (d : Bytes) (a : Attachment) → (Willing env a → d ≡ []) → Written env n d a a
  Written-stop d a h = record {
    pieces = [];
    rest = d;
    logged = sym (append-nil _);
    splits = refl;
    sized = tt;
    complete = h;
  }

  -- One more piece in front.
  Written-piece :
      (d : Bytes) (a b : Attachment)
      → 0 < length d
      → Written env n (drop n d) (emit a (proc_write (take n d))) b
      → Written env n d a b
  Written-piece d a b ne w = record {
    pieces = take n d ∷ w.pieces;
    rest = w.rest;
    logged = w.logged ∙ rw inputs-append (append_assoc (inputs a.log) (take n d ∷ []) w.pieces);
    splits =
        append_assoc (take n d) (concat w.pieces) w.rest
        ∙ ap (◌++◌ (take n d)) w.splits
        ∙ take-append-drop n d;
    sized = (omega (arith, length-take n d), w.sized);
    complete = λ h. w.complete (record { open_ = h.open_; stays = h.stays; takes = h.takes });
  }

  refused-Written :
      (d : Bytes) (a : Attachment)
      → env.accepts a.log (take n d) ≡ false
      → Written env n (drop n d) (emit a (proc_write (take n d))) (emit a (proc_write (take n d)))
  refused-Written d a no_ = Written-stop _ _ (λ w. cc (w.takes a.log (take n d), no_))

  write_loop-Written :
      (f : ℕ) (d : Bytes) (a : Attachment)
      → length d ≤ f
      → Written env n d a (write_loop env f n d a)
  unfolding write_loop
  write_loop-Written zero [] a le = Written-stop [] a (λ _. refl)
  write_loop-Written zero (x ∷ d) a le = absurd (omega arith)
  write_loop-Written (suc f) [] a le = Written-stop [] a (λ _. refl)
  write_loop-Written (suc f) (x ∷ d) a le =
      let piece = take n (x ∷ d) in
      let ih =
        write_loop-Written f (drop n (x ∷ d)) (emit a (proc_write piece))
          (omega (arith, length-drop n (x ∷ d))) in
      if_cases (Written env n (x ∷ d) a) (a.cancelled || env.cancels a.log)
        (λ e. Written-stop (x ∷ d) a (λ w. ground (arith, w.stays a.log, w.open_)))
        (λ _.
          if_cases (Written env n (x ∷ d) a) (env.accepts a.log piece)
            (λ _. Written-piece (x ∷ d) a _ (omega arith) ih)
            (λ e. Written-piece (x ∷ d) a _ (omega arith) (refused-Written (x ∷ d) a e)))

-- `writeInput` hands the process a beginning of the input, in order, in pieces of at least one byte
-- and at most the chunk size; and all of it, if the context stays open and each write succeeds.
pub write_input-Written :
    (env : Env) (a : Attachment) (d : Bytes)
    → Written env (chunk_size a.opts) d a (write_input env a d)
unfolding write_input
write_input-Written env a d =
    write_loop-Written env (chunk_size a.opts) (chunk_size_pos a.opts.input_chunk_size) (length d) d
      a (omega arith)
