-- ===== src/Session/Pane/Ranking.antt =====
-- The order on the panes of a session (hub/internal/session/pane.go).
use visual_tmux_client.Prelude.{
  ◌+◌, ◌<◌, ◌≡◌, ◌⊎◌, inl, inr, true, false, bytes_eq, ◌==◌, arith, Bool-cases,
}
use visual_tmux_client.Prelude.Int.{ℤ, pos_part, neg_part, int_eq}
use visual_tmux_client.Session.Model.{Pane}
use visual_tmux_client.Session.Pane.{PaneChoice, better, pane_rank, pane_rank_excluded}

pub rank_excluded_iff : (p : Pane) → (pane_rank p == pane_rank_excluded) ≡ p.dead
unfolding pane_rank
rank_excluded_iff p = ground arith

pub better_irrefl : (a : PaneChoice) → better a a ≡ false
unfolding better
better_irrefl a = ground arith

abbrev SameAs : ℤ → ℤ → Type 0
SameAs a b = pos_part a + neg_part b ≡ pos_part b + neg_part a

abbrev Less : ℤ → ℤ → Type 0
Less a b = pos_part a + neg_part b < pos_part b + neg_part a

-- The order on choices, written out: rank first, then the indices.
abbrev Beats : PaneChoice → PaneChoice → Type 0
Beats a b =
    Less b.rank a.rank
    ⊎ SameAs a.rank b.rank
      × (Less a.window_index b.window_index
          ⊎ SameAs a.window_index b.window_index × Less a.pane_index b.pane_index)

Beats-better : (a b : PaneChoice) → Beats a b → better a b ≡ true
unfolding better
Beats-better a b h = ground arith

better-Beats : (a b : PaneChoice) → better a b ≡ true → Beats a b
unfolding better
better-Beats a b h = ground arith

Beats-trans : (a b c : PaneChoice) → Beats a b → Beats b c → Beats a c
Beats-trans a b c h k = ground arith

pub better_total : (a b : PaneChoice) → better a b ≡ false → better b a ≡ false → a ≡ b
unfolding better
better_total a b h k = ground arith

-- What is held off by the incumbent is held off by what displaces the incumbent.
pub better_trans :
    (new old q : PaneChoice) → better new old ≡ true → better q old ≡ false → better q new ≡ false
better_trans new old q h k = elim (Bool-cases (better q new)) [
  | inr held ↦ held
  | inl beaten ↦
      let chain =
        Beats-better q old
          (Beats-trans q new old (better-Beats q new beaten) (better-Beats new old h)) in
      absurd (cc)
]
