-- ===== src/Session/Pane.antt =====
-- hub/internal/session/pane.go: the pane that stands for its session in a listing.
pub mod Clamp
pub mod Ranking
pub mod Standing
pub mod Selection
pub mod Order
use visual_tmux_client.Prelude.{
  ℕ, Bool, true, false, not, ◌&&◌, ◌||◌, List, [], ◌∷◌, Option, none, some, Bytes, bytes_eq, length,
  take, leb, ltb, ◌==◌, if◌then◌else◌,
}
use visual_tmux_client.Prelude.Int.{ℤ, pos, negsuc, ltb_ℤ, int_eq}
use visual_tmux_client.Prelude.Map.{lookup, insert}
use visual_tmux_client.Prelude.Utf8.{runes, encode_all}
use visual_tmux_client.Session.Model.{Pane, PaneSummary}

abbrev pub pane_rank_excluded : ℤ
pane_rank_excluded = negsuc 0

abbrev pub max_pane_field_runes : ℕ
max_pane_field_runes = 200

pub record PaneChoice : Type 0 where
  pub rank : ℤ
  pub window_index : ℤ
  pub pane_index : ℤ

unfoldable pub better : PaneChoice → PaneChoice → Bool
better candidate incumbent =
    if not (candidate.rank == incumbent.rank)
    then ltb_ℤ incumbent.rank candidate.rank
    else if not (candidate.window_index == incumbent.window_index)
    then ltb_ℤ candidate.window_index incumbent.window_index
    else ltb_ℤ candidate.pane_index incumbent.pane_index

unfoldable pub clamp_field : Bytes → Bytes
clamp_field value =
    if leb (length (runes value)) max_pane_field_runes
    then value
    else encode_all (take max_pane_field_runes (runes value))

unfoldable pub pane_rank : Pane → ℤ
pane_rank p =
    if p.dead
    then pane_rank_excluded
    else if p.window_active && p.pane_active
    then pos 3
    else if p.pane_active
    then pos 2
    else if p.window_active
    then pos 1
    else pos 0

-- The maps `best` and `chosen` of the loop.
pub record Choices : Type 0 where
  pub best : List (Bytes × PaneSummary)
  pub chosen : List (Bytes × PaneChoice)

abbrev pub choice_of : Pane → PaneChoice
choice_of p = record {
  rank = pane_rank p;
  window_index = p.window_index;
  pane_index = p.pane_index;
}

unfoldable pub summary_of : Pane → PaneSummary
unfolding clamp_field
summary_of p = record {
  window_name = clamp_field p.window_name;
  title = clamp_field p.title;
  current_command = clamp_field p.current_command;
  window_active = p.window_active;
}

-- incumbent, ok := chosen[p.Session]; ok && !better(candidate, incumbent)
unfoldable pub keeps : Option PaneChoice → PaneChoice → Bool
unfolding better
keeps none candidate = false
keeps (some incumbent) candidate = not (better candidate incumbent)

-- One pane of the loop.
unfoldable pub consider : Choices → Pane → Choices
unfolding pane_rank keeps summary_of lookup insert
consider c p =
    if pane_rank p == pane_rank_excluded
    then c
    else if keeps (lookup p.session c.chosen) (choice_of p)
    then c
    else record {
      best = insert p.session (summary_of p) c.best;
      chosen = insert p.session (choice_of p) c.chosen;
    }

unfoldable pub consider_all : Choices → List Pane → Choices
unfolding consider
consider_all c [] = c
consider_all c (p ∷ ps) = consider_all (consider c p) ps

unfoldable pub select_pane_summaries : List Pane → List (Bytes × PaneSummary)
unfolding consider_all
select_pane_summaries panes = (consider_all (record { best = []; chosen = [] }) panes).best
