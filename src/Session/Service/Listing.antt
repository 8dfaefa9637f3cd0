-- ===== src/Session/Service/Listing.antt =====
-- What a listing returns (hub/internal/session/service.go).
use visual_tmux_client.Prelude.{◌≡◌, refl, List, [], ◌∷◌, Option, none, some, bytes_eq}
use visual_tmux_client.Session.Model.{Session, Pane, PaneSummary, Error, Result, ok, err}
use visual_tmux_client.Session.Pane.{select_pane_summaries}
use visual_tmux_client.Session.Pane.Selection.{Shown, select_pane_summaries-Shown}
use visual_tmux_client.Session.Service
use visual_tmux_client.Session.Service.{
  Action, Backend, list_sessions, with_summary, annotate, annotate_all, add_panes, then_ok,
}

-- A session of the reply beside the session the backend listed: all but the pane is the same,
-- and the pane is one that stands for the session among the listed panes, where there is one.
pub record IsAnnotation (panes : List Pane) (before after : Session) : Type 0 where
  pub name_eq : after.name ≡ before.name
  pub windows_eq : after.windows ≡ before.windows
  pub attached_eq : after.attached ≡ before.attached
  pub created_eq : after.created ≡ before.created
  pub shown :
      (o : Option PaneSummary) × Shown before.name panes o
      × (after.pane ≡ (elim o [ none ↦ before.pane | some summary ↦ some summary ]))

-- The two listings have the same sessions in the same order.
pub data Annotated (panes : List Pane) : List Session → List Session → Type 0 where
  done : Annotated panes [] []
  next :
      {x y : Session} {xs ys : List Session}
      → IsAnnotation panes x y
      → Annotated panes xs ys
      → Annotated panes (x ∷ xs) (y ∷ ys)

with_summary-IsAnnotation :
    (panes : List Pane) (s : Session) (o : Option PaneSummary)
    → Shown s.name panes o
    → IsAnnotation panes s (with_summary s o)
with_summary-IsAnnotation panes s none h = record {
  name_eq = refl;
  windows_eq = refl;
  attached_eq = refl;
  created_eq = refl;
  shown = (none, h, refl);
}
with_summary-IsAnnotation panes s (some summary) h = record {
  name_eq = refl;
  windows_eq = refl;
  attached_eq = refl;
  created_eq = refl;
  shown = (some summary, h, refl);
}

annotate_all-Annotated :
    (panes : List Pane) (sessions : List Session)
    → Annotated panes sessions (annotate_all (select_pane_summaries panes) sessions)
unfolding annotate_all annotate
annotate_all-Annotated panes [] = done
annotate_all-Annotated panes (s ∷ sessions) =
    next (with_summary-IsAnnotation panes s _ (select_pane_summaries-Shown panes s.name))
      (annotate_all-Annotated panes sessions)

-- Whether the backend lists panes, and what it answers in a state.
abbrev pub pane_reply :
    {W : Type 0} → Option (Action W (Result (List Pane))) → W → Option (Result (List Pane))
pane_reply none w = none
pane_reply (some panes) w = some ((panes w).1)

abbrev pub panes_at : {W : Type 0} → Backend W → W → Option (Result (List Pane))
panes_at b w = pane_reply b.list_panes w

-- The reply of the service beside the reply of the backend.
pub data Reply
    : Option (Result (List Pane)) → Result (List Session) → Result (List Session) → Type 0 where
  failed : {o : Option (Result (List Pane))} (e : Error) → Reply o (err e) (err e)
  no_panes : (sessions : List Session) → Reply none (ok sessions) (ok sessions)
  panes_failed :
      (e : Error) (sessions : List Session) → Reply (some (err e)) (ok sessions) (ok sessions)
  with_panes :
      (panes : List Pane) (sessions out : List Session)
      → Annotated panes sessions out
      → Reply (some (ok panes)) (ok sessions) (ok out)

reply :
    {W : Type 0} (o : Option (Action W (Result (List Pane)))) (w : W) (r : Result (List Session))
    → Reply (pane_reply o w) r (then_ok (w, r) (add_panes o)).1
unfolding annotate_all Service.with_panes
reply o w (err e) = failed e
reply none w (ok sessions) = no_panes sessions
reply (some panes) w (ok sessions) = answered ((panes w).1)
  where
    answered :
        (r : Result (List Pane)) → Reply (some r) (ok sessions) (ok (Service.with_panes sessions r))
    answered (err e) = panes_failed e sessions
    answered (ok l) = with_panes l sessions _ (annotate_all-Annotated l sessions)

-- A listing fails exactly when the backend's own listing fails. Else it has the backend's
-- sessions in their order, unchanged when the panes cannot be listed, and otherwise each with the
-- pane that stands for it.
pub list_sessions-Reply :
    {W : Type 0} (b : Backend W) (w : W)
    → Reply (panes_at b (b.list_all w).0) (b.list_all w).1 (list_sessions b w).1
unfolding list_sessions
list_sessions-Reply b w = reply b.list_panes (b.list_all w).0 (b.list_all w).1
