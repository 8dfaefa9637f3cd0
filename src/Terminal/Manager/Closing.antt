-- ===== src/Terminal/Manager/Closing.antt =====
-- What closing a host, or the manager, leaves behind.
use visual_tmux_client.Prelude.{
  ℕ, ◌≡◌, inl, inr, refl, ap, ◌∙◌, Bool, true, false, not, ◌&&◌, List, [], ◌∷◌, keep, arith, ◌==◌,
  nat_eq, bytes_eq, nat_beq_iff, if◌then◌else◌, Bool-cases,
}
use visual_tmux_client.Terminal.Attachment.{Attachment, finish}
use visual_tmux_client.Terminal.Attachment.Calls.{force_close, shutdown, call_all, call}
use visual_tmux_client.Terminal.Manager.{World, member, delete, settle, end_all, untrack}

-- Whoever is registered has not finished, and reports when it does.
pub record IsLive (w : World) : Type 0 where
  pub open_ : (id : ℕ) → member id w.manager.attachments ≡ true → (w.at id).finished ≡ false
  pub reports : (id : ℕ) → member id w.manager.attachments ≡ true → (w.at id).has_untrack ≡ true

member-delete : (i j : ℕ) (ids : List ℕ) → member i (delete j ids) ≡ (member i ids && not (j == i))
member-delete i j [] = refl
member-delete i j (x ∷ ids) = ground (arith, member-delete i j ids)

pub member-keep :
    (i : ℕ) (p : ℕ → Bool) (ids : List ℕ) → member i (keep p ids) ≡ (member i ids && p i)
member-keep i p [] = refl
member-keep i p (x ∷ ids) = elim (Bool-cases (x == i)) [
  | inl e ↦ let same : x ≡ i = ground arith in ground (arith, member-keep i p ids, ap p same)
  | inr e ↦ ground (arith, member-keep i p ids)
]

-- A way to end an attachment: it is finished then, of the same host, with the same callback.
pub record Ends (f : Attachment → Attachment) : Type 0 where
  pub finishes : (a : Attachment) → (f a).finished ≡ true
  pub same_host : (a : Attachment) → (f a).host_id ≡ a.host_id
  pub same_callback : (a : Attachment) → (f a).has_untrack ≡ a.has_untrack

pub force_close-Ends : Ends force_close
unfolding force_close call_all call finish
force_close-Ends = record {
  finishes = λ a. ground arith;
  same_host = λ a. ground arith;
  same_callback = λ a. ground arith;
}

pub shutdown-Ends : Ends shutdown
unfolding shutdown call_all call finish
shutdown-Ends = record {
  finishes = λ a. ground arith;
  same_host = λ a. ground arith;
  same_callback = λ a. ground arith;
}

module _ (f : Attachment → Attachment) (ends : Ends f) (w : World) (v : IsLive w) where
  settle-member :
      (i j : ℕ)
      → member i (settle w j (f (w.at j))).manager.attachments
        ≡ (member i w.manager.attachments && not (j == i))
  unfolding settle
  settle-member i j = ground (
    arith,
    member-delete i j w.manager.attachments,
    ends.finishes (w.at j),
    ends.same_callback (w.at j),
    v.open_ i,
    v.reports i,
    nat_beq_iff j i,
  )

  settle-at : (i j : ℕ) → (settle w j (f (w.at j))).at i ≡ (if j == i then f (w.at j) else w.at i)
  unfolding settle
  settle-at i j = refl

  settle-IsLive : (j : ℕ) → IsLive (settle w j (f (w.at j)))
  settle-IsLive j = record {
    open_ = λ i h. rw settle-at (ground (arith, settle-member i j, v.open_ i));
    reports = λ i h. rw settle-at (ground (arith, settle-member i j, v.reports i));
  }

module _ (f : Attachment → Attachment) (ends : Ends f) where
  pub end_all-IsLive : (w : World) (ids : List ℕ) → IsLive w → IsLive (end_all f w ids)
  unfolding end_all
  end_all-IsLive w [] v = v
  end_all-IsLive w (j ∷ ids) v =
      end_all-IsLive (settle w j (f (w.at j))) ids (settle-IsLive f ends w v j)

  pub end_all-member :
      (w : World) (ids : List ℕ) (i : ℕ)
      → IsLive w
      → member i (end_all f w ids).manager.attachments
        ≡ (member i w.manager.attachments && not (member i ids))
  unfolding end_all
  end_all-member w [] i v = ground arith
  end_all-member w (j ∷ ids) i v =
      let w' = settle w j (f (w.at j)) in
      end_all-member w' ids i (settle-IsLive f ends w v j)
      ∙ rw (settle-member f ends w v i j) (ground arith)

  -- An attachment that is not in the loop is as it was.
  pub end_all-at_other :
      (w : World) (ids : List ℕ) (i : ℕ) → member i ids ≡ false → (end_all f w ids).at i ≡ w.at i
  unfolding end_all settle
  end_all-at_other w [] i h = refl
  end_all-at_other w (j ∷ ids) i h =
      ground (arith, end_all-at_other (settle w j (f (w.at j))) ids i)

  pub end_all-same_host :
      (w : World) (ids : List ℕ) (i : ℕ) → ((end_all f w ids).at i).host_id ≡ (w.at i).host_id
  unfolding end_all settle
  end_all-same_host w [] i = refl
  end_all-same_host w (j ∷ ids) i = ground (
    arith,
    end_all-same_host (settle w j (f (w.at j))) ids i,
    ends.same_host (w.at j),
    nat_beq_iff j i,
  )

  pub end_all-closing :
      (w : World) (ids : List ℕ) → (end_all f w ids).manager.closing ≡ w.manager.closing
  unfolding end_all settle untrack
  end_all-closing w [] = refl
  end_all-closing w (j ∷ ids) = ground (arith, end_all-closing (settle w j (f (w.at j))) ids)

  -- One in the loop is finished.
  end_all-keeps_finished :
      (w : World) (ids : List ℕ) (i : ℕ)
      → (w.at i).finished ≡ true
      → ((end_all f w ids).at i).finished ≡ true
  unfolding end_all settle
  end_all-keeps_finished w [] i h = h
  end_all-keeps_finished w (j ∷ ids) i h =
      end_all-keeps_finished (settle w j (f (w.at j))) ids i
        (ground (arith, ends.finishes (w.at j)))

  pub end_all-finished :
      (w : World) (ids : List ℕ) (i : ℕ)
      → member i ids ≡ true
      → ((end_all f w ids).at i).finished ≡ true
  unfolding end_all settle
  end_all-finished w [] i h = cc
  end_all-finished w (j ∷ ids) i h = elim (Bool-cases (j == i)) [
    | inl e ↦
        end_all-keeps_finished (settle w j (f (w.at j))) ids i
          (ground (arith, ends.finishes (w.at j)))
    | inr e ↦ end_all-finished (settle w j (f (w.at j))) ids i (ground arith)
  ]
