-- ===== src/Session/Pane/Order.antt =====
-- The order in which tmux lists the panes does not matter (hub/internal/session/pane.go).
use mathlib.Core.List.{Memᴰ}
use visual_tmux_client.Prelude.{◌≡◌, refl, ap, ◌↔◌, List, Option, some, Bytes, bytes_eq}
use visual_tmux_client.Prelude.Map.{lookup}
use visual_tmux_client.Session.Model.{Pane, PaneSummary}
use visual_tmux_client.Session.Pane.{choice_of, summary_of, select_pane_summaries}
use visual_tmux_client.Session.Pane.Ranking.{better_total}
use visual_tmux_client.Session.Pane.Standing.{IsLive}
use visual_tmux_client.Session.Pane.Selection.{Shown, nothing, pane_of, select_pane_summaries-Shown}

-- Two live panes of a session differ in the rank, the window or the pane index.
abbrev pub IsIndexed : List Pane → Type 0
IsIndexed panes =
    (s : Bytes) (p q : Pane)
    → Memᴰ p panes
    → Memᴰ q panes
    → IsLive s p
    → IsLive s q
    → choice_of p ≡ choice_of q
    → p ≡ q

module _ (panes others : List Pane) (indexed : IsIndexed panes)
    (same : (p : Pane) → Memᴰ p panes ↔ Memᴰ p others) (s : Bytes) where
  agree : (v w : Option PaneSummary) → Shown s panes v → Shown s others w → v ≡ w
  agree _ _ (nothing f) (nothing g) = refl
  agree _ _ (nothing f) (pane_of q r) = absurd (f q ((same q).1 r.member) r.live)
  agree _ _ (pane_of p r) (nothing g) = absurd (g p ((same p).0 r.member) r.live)
  agree _ _ (pane_of p r) (pane_of q t) =
      ap (λ x. some (summary_of x))
        (indexed s p q r.member ((same q).1 t.member) r.live t.live (
          better_total (choice_of p) (choice_of q) (t.unbeaten p ((same p).0 r.member) r.live)
            (r.unbeaten q ((same q).1 t.member) t.live)))

  -- Where the live panes of a session differ in rank or index, two listings of the same panes
  -- in any order select the same summary for every session.
  pub select_pane_summaries_order :
      lookup s (select_pane_summaries panes) ≡ lookup s (select_pane_summaries others)
  select_pane_summaries_order =
      agree _ _ (select_pane_summaries-Shown panes s) (select_pane_summaries-Shown others s)
