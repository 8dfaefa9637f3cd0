-- ===== src/Tmux/Client/Names.antt =====
-- The name that the hub makes up for a session (hub/internal/tmux/client.go).
use visual_tmux_client.Prelude.{
  ℕ, zero, suc, ◌+◌, ◌≤◌, ◌<◌, ◌≡◌, refl, ap, ◌∙◌, subst, inl, inr, Bool, true, false, Bytes, ltb,
  arith, if◌then◌else◌, Bool-cases,
}
use visual_tmux_client.Session.Model.{Result, ok, err, name_in_use}
use visual_tmux_client.Tmux.Client.{
  Client, candidate, client_has, unique_from, generate_unique_name,
}

-- The check for a session says whether `exists`, and changes nothing.
abbrev pub Checks : {W : Type 0} → Client W → (Bytes → Bool) → Type 0
Checks {W} c exists = (name : Bytes) (w : W) → client_has c name w ≡ (w, exists name)

-- What the search from the candidate `i` on, over `k` candidates, may give.
pub data Search (base : Bytes) (exists : Bytes → Bool) (i k : ℕ) : Result Bytes → Type 0 where
  first_free :
      (j : ℕ)
      → i ≤ j
      → j < i + k
      → ((n : ℕ) → i ≤ n → n < j → exists (candidate base n) ≡ true)
      → exists (candidate base j) ≡ false
      → Search base exists i k (ok (candidate base j))
  all_taken :
      ((n : ℕ) → i ≤ n → n < i + k → exists (candidate base n) ≡ true)
      → Search base exists i k (err name_in_use)

module _ {W : Type 0} (c : Client W) (exists : Bytes → Bool) (checks : Checks c exists) where
  at_or_after :
      (i n : ℕ)
      → exists (candidate c.base i) ≡ true
      → (suc i ≤ n → exists (candidate c.base n) ≡ true)
      → i ≤ n
      → exists (candidate c.base n) ≡ true
  at_or_after i n h later le = elim (Bool-cases (ltb i n)) [
    | inl lt ↦ later (ground arith)
    | inr ge ↦ let e : i ≡ n = ground arith in subst (λ m. exists (candidate c.base m) ≡ true) e h
  ]

  widen :
      (i k : ℕ) (r : Result Bytes)
      → exists (candidate c.base i) ≡ true
      → Search c.base exists (suc i) k r
      → Search c.base exists i (suc k) r
  widen i k _ h (first_free j le lt taken free) =
      first_free j (omega arith) (omega arith) (λ n a b. at_or_after i n h (λ s. taken n s b) a)
        free
  widen i k _ h (all_taken taken) =
      all_taken (λ n a b. at_or_after i n h (λ s. taken n s (omega arith)) a)

  abbrev round : ℕ → ℕ → W × Bool → W × Result Bytes
  round k i p = if p.1 then unique_from c k (suc i) p.0 else (p.0, ok (candidate c.base i))

  unique_from-round :
      (k i : ℕ) (w : W)
      → unique_from c (suc k) i w ≡ round k i (client_has c (candidate c.base i) w)
  unfolding unique_from
  unique_from-round k i w = refl

  -- One round, once the check is answered.
  unique_from_step :
      (k i : ℕ) (w : W) → unique_from c (suc k) i w ≡ round k i (w, exists (candidate c.base i))
  unique_from_step k i w = unique_from-round k i w ∙ ap (round k i) (checks (candidate c.base i) w)

  unique_from-Search : (k i : ℕ) (w : W) → Search c.base exists i k (unique_from c k i w).1
  unique_from-Search zero i w = unfold unique_from in all_taken (λ n a b. absurd (omega arith))
  unique_from-Search (suc k) i w = elim (Bool-cases (exists (candidate c.base i))) [
    | inl taken ↦
        rw (unique_from_step k i w, taken) (widen i k _ taken (unique_from-Search k (suc i) w))
    | inr free ↦
        rw (unique_from_step k i w, free)
          (first_free i (omega arith) (omega arith) (λ n a b. absurd (omega arith)) free)
  ]

-- The made-up name is the first of ten candidates that no session has; if all ten are taken, the
-- answer is that the name is in use.
pub generate_unique_name-Search :
    {W : Type 0} (c : Client W) (exists : Bytes → Bool) (w : W)
    → Checks c exists
    → Search c.base exists 0 10 (generate_unique_name c w).1
unfolding generate_unique_name
generate_unique_name-Search c exists w checks = unique_from-Search c exists checks 10 0 w
