-- ===== src/Session/Pane/Selection.antt =====
-- Which pane stands for a session (hub/internal/session/pane.go).
use mathlib.Core.List.{Memᴰ}
use visual_tmux_client.Prelude.{
  ◌≡◌, inl, inr, subst, true, false, List, [], ◌∷◌, ◌++◌, append_assoc, append-nil, Option, none,
  some, Bytes, bytes_eq, ◌==◌, arith, if_cases, Bool-cases,
}
use visual_tmux_client.Prelude.Int.{int_eq}
use visual_tmux_client.Prelude.Map.{lookup, insert, lookup-insert}
use visual_tmux_client.Session.Model.{Pane, PaneSummary}
use visual_tmux_client.Session.Pane.{
  PaneChoice, Choices, pane_rank, pane_rank_excluded, choice_of, summary_of, keeps, consider,
  consider_all, select_pane_summaries,
}
use visual_tmux_client.Session.Pane.Ranking.{rank_excluded_iff}
use visual_tmux_client.Session.Pane.Standing.{
  IsLive, IsRepresentative, Standing, nobody, winner, skip_irrelevant, skip_beaten, displace,
}

module _ (s : Bytes) where
  Holds : Choices → List Pane → Type 0
  Holds c seen = Standing s seen (lookup s c.chosen) (lookup s c.best)

  -- One pane, by the session it is in.
  other_pane : (p : Pane) → (p.session == s) ≡ false → IsLive s p → ⊥
  other_pane p other l = ground (arith, other, (bytes_eq.matches_iff p.session s).1 l.session_eq)

  dead_pane : (p : Pane) → (pane_rank p == pane_rank_excluded) ≡ true → IsLive s p → ⊥
  dead_pane p gone l = ground (arith, l.alive, gone, rank_excluded_iff p)

  held_off :
      (c : Choices) (p : Pane) (seen : List Pane)
      → keeps (lookup p.session c.chosen) (choice_of p) ≡ true
      → Holds c seen
      → Holds c (seen ++ p ∷ [])
  unfolding Holds
  held_off c p seen held h = elim (Bool-cases (p.session == s)) [
    | inl same ↦
        let e = (bytes_eq.matches_iff p.session s).0 same in
        skip_beaten s p seen _ _
          (subst (λ k. keeps (lookup k c.chosen) (choice_of p) ≡ true) e held) h
    | inr other ↦ skip_irrelevant s p seen _ _ (other_pane p other) h
  ]

  takes :
      (c : Choices) (p : Pane) (seen : List Pane)
      → p.dead ≡ false
      → keeps (lookup p.session c.chosen) (choice_of p) ≡ false
      → Holds c seen
      → Standing s
          (seen ++ p ∷ [])
          (lookup s (insert p.session (choice_of p) c.chosen))
          (lookup s (insert p.session (summary_of p) c.best))
  unfolding Holds
  takes c p seen alive free h = elim (Bool-cases (p.session == s)) [
    | inl same ↦
        let e = (bytes_eq.matches_iff p.session s).0 same in
        rw (lookup-insert p.session s (choice_of p) c.chosen) (
          rw (lookup-insert p.session s (summary_of p) c.best) (
            rw same (
              displace s p seen _ _ (record { session_eq = e; alive = alive })
                (subst (λ k. keeps (lookup k c.chosen) (choice_of p) ≡ false) e free) h)))
    | inr other ↦ rw (lookup-insert p.session s (choice_of p) c.chosen) (
        rw (lookup-insert p.session s (summary_of p) c.best)
          (rw other (skip_irrelevant s p seen _ _ (other_pane p other) h)))
  ]

  consider-Holds :
      (c : Choices) (p : Pane) (seen : List Pane)
      → Holds c seen
      → Holds (consider c p) (seen ++ p ∷ [])
  unfolding consider Holds
  consider-Holds c p seen h =
      if_cases (λ x. Holds x (seen ++ p ∷ [])) (pane_rank p == pane_rank_excluded)
        (λ gone. skip_irrelevant s p seen _ _ (dead_pane p gone) h)
        (λ live.
          if_cases (λ x. Holds x (seen ++ p ∷ [])) (keeps (lookup p.session c.chosen) (choice_of p))
            (λ held. held_off c p seen held h)
            (λ free. takes c p seen (ground (arith, live, rank_excluded_iff p)) free h))

  consider_all-Holds :
      (c : Choices) (ps seen : List Pane) → Holds c seen → Holds (consider_all c ps) (seen ++ ps)
  unfolding consider_all
  consider_all-Holds c [] seen h = rw append-nil h
  consider_all-Holds c (p ∷ ps) seen h =
      subst (Holds (consider_all (consider c p) ps)) (append_assoc seen (p ∷ []) ps)
        (consider_all-Holds (consider c p) ps (seen ++ p ∷ []) (consider-Holds c p seen h))

-- What the listing shows of a session.
pub data Shown (s : Bytes) (panes : List Pane) : Option PaneSummary → Type 0 where
  nothing : ((p : Pane) → Memᴰ p panes → IsLive s p → ⊥) → Shown s panes none
  pane_of : (p : Pane) → IsRepresentative s panes p → Shown s panes (some (summary_of p))

-- For every session, the selection holds the summary of a live pane of that session that no
-- live pane of it beats, and holds nothing exactly when the session has no live pane.
pub select_pane_summaries-Shown :
    (panes : List Pane) (s : Bytes) → Shown s panes (lookup s (select_pane_summaries panes))
unfolding select_pane_summaries Holds
select_pane_summaries-Shown panes s = shown _ _ (
    consider_all-Holds s (record { best = []; chosen = [] }) panes []
      (unfold lookup in nobody (λ q m l. elim m [ ])))
  where
    shown :
        (k : Option PaneChoice) (v : Option PaneSummary) → Standing s panes k v → Shown s panes v
    shown _ _ (nobody f) = nothing f
    shown _ _ (winner p r) = pane_of p r
