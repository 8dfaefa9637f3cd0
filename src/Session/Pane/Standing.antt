-- ===== src/Session/Pane/Standing.antt =====
-- What the maps of the loop hold: which pane stands for a session (hub/internal/session/pane.go).
use mathlib.Core.List.{Memᴰ}
use visual_tmux_client.Prelude.{
  ◌≡◌, ◌⊎◌, inl, inr, refl, subst, true, false, List, [], ◌∷◌, ◌++◌, Option, none, some, Bytes,
  bytes_eq, arith,
}
use visual_tmux_client.Prelude.Int.{int_eq}
use visual_tmux_client.Session.Model.{Pane, PaneSummary}
use visual_tmux_client.Session.Pane.{PaneChoice, better, choice_of, summary_of, keeps}
use visual_tmux_client.Session.Pane.Ranking.{better_irrefl, better_trans}

-- A pane that may stand for the session `s`.
pub record IsLive (s : Bytes) (p : Pane) : Type 0 where
  pub session_eq : p.session ≡ s
  pub alive : p.dead ≡ false

-- The pane that stands for `s`: no live pane of `s` is better.
pub record IsRepresentative (s : Bytes) (panes : List Pane) (p : Pane) : Type 0 where
  pub member : Memᴰ p panes
  pub live : IsLive s p
  pub unbeaten : (q : Pane) → Memᴰ q panes → IsLive s q → better (choice_of q) (choice_of p) ≡ false

-- What the maps hold for `s` once the panes `seen` were considered.
pub data Standing (s : Bytes) (seen : List Pane)
    : Option PaneChoice → Option PaneSummary → Type 0 where
  nobody : ((q : Pane) → Memᴰ q seen → IsLive s q → ⊥) → Standing s seen none none
  winner :
      (p : Pane)
      → IsRepresentative s seen p
      → Standing s seen (some (choice_of p)) (some (summary_of p))

module _ (s : Bytes) where
  Mem-snoc : (q p : Pane) (seen : List Pane) → Memᴰ q (seen ++ p ∷ []) → Memᴰ q seen ⊎ (q ≡ p)
  Mem-snoc q p [] (Memᴰ.head e) = inr e
  Mem-snoc q p [] (Memᴰ.tail m) = elim m [ ]
  Mem-snoc q p (x ∷ seen) (Memᴰ.head e) = inl (Memᴰ.head e)
  Mem-snoc q p (x ∷ seen) (Memᴰ.tail m) = elim (Mem-snoc q p seen m) [
    | inl old ↦ inl (Memᴰ.tail old)
    | inr new ↦ inr new
  ]

  Mem-old : (q : Pane) (seen more : List Pane) → Memᴰ q seen → Memᴰ q (seen ++ more)
  Mem-old q [] more m = elim m [ ]
  Mem-old q (x ∷ seen) more (Memᴰ.head e) = Memᴰ.head e
  Mem-old q (x ∷ seen) more (Memᴰ.tail m) = Memᴰ.tail (Mem-old q seen more m)

  Mem-last : (p : Pane) (seen : List Pane) → Memᴰ p (seen ++ p ∷ [])
  Mem-last p [] = Memᴰ.head refl
  Mem-last p (x ∷ seen) = Memᴰ.tail (Mem-last p seen)

  -- A pane that does not count, or that the incumbent holds off, changes nothing.
  pub skip_irrelevant :
      (p : Pane) (seen : List Pane) (k : Option PaneChoice) (v : Option PaneSummary)
      → (IsLive s p → ⊥)
      → Standing s seen k v
      → Standing s (seen ++ p ∷ []) k v
  skip_irrelevant p seen _ _ idle (nobody f) = nobody (λ q m live. elim (Mem-snoc q p seen m) [
    | inl old ↦ f q old live
    | inr new ↦ idle (subst (IsLive s) new live)
  ])
  skip_irrelevant p seen _ _ idle (winner w r) = winner w (record {
    member = Mem-old w seen (p ∷ []) r.member;
    live = r.live;
    unbeaten = λ q m live. elim (Mem-snoc q p seen m) [
      | inl old ↦ r.unbeaten q old live
      | inr new ↦ absurd (idle (subst (IsLive s) new live))
    ];
  })

  -- A pane that the incumbent holds off.
  pub skip_beaten :
      (p : Pane) (seen : List Pane) (k : Option PaneChoice) (v : Option PaneSummary)
      → keeps k (choice_of p) ≡ true
      → Standing s seen k v
      → Standing s (seen ++ p ∷ []) k v
  unfolding keeps
  skip_beaten p seen _ _ held (nobody f) = absurd (cc)
  skip_beaten p seen _ _ held (winner w r) = winner w (record {
    member = Mem-old w seen (p ∷ []) r.member;
    live = r.live;
    unbeaten = λ q m live. elim (Mem-snoc q p seen m) [
      | inl old ↦ r.unbeaten q old live
      | inr new ↦ rw new (ground arith)
    ];
  })

  -- A live pane that takes the place.
  pub displace :
      (p : Pane) (seen : List Pane) (k : Option PaneChoice) (v : Option PaneSummary)
      → IsLive s p
      → keeps k (choice_of p) ≡ false
      → Standing s seen k v
      → Standing s (seen ++ p ∷ []) (some (choice_of p)) (some (summary_of p))
  unfolding keeps
  displace p seen _ _ live free (nobody f) = winner p (record {
    member = Mem-last p seen;
    live = live;
    unbeaten = λ q m l. elim (Mem-snoc q p seen m) [
      | inl old ↦ absurd (f q old l)
      | inr new ↦ rw new (better_irrefl (choice_of p))
    ];
  })
  displace p seen _ _ live free (winner w r) = winner p (record {
    member = Mem-last p seen;
    live = live;
    unbeaten = λ q m l. elim (Mem-snoc q p seen m) [
      | inl old ↦
          better_trans (choice_of p) (choice_of w) (choice_of q) (ground arith) (r.unbeaten q old l)
      | inr new ↦ rw new (better_irrefl (choice_of p))
    ];
  })
