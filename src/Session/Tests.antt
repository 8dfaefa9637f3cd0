-- ===== src/Session/Tests.antt =====
-- The theorems on sessions at concrete inputs: two panes, and a backend that lists them.
use mathlib.Core.List.{Memᴰ}
use visual_tmux_client.Prelude.{
  ℕ, ◌≡◌, ◌↔◌, ◌⊎◌, inl, inr, refl, ap, sym, ◌∙◌, fun_ext, subst, ◌+◌, ◌==◌, if◌then◌else◌,
  Bool-cases, Bool, true, false, [], ◌∷◌, none, some, Bytes, bytes_eq, codes, arith,
}
use visual_tmux_client.Prelude.Int.{ℤ, pos}
use visual_tmux_client.Prelude.Map.{lookup}
use visual_tmux_client.Prelude.Utf8.{runes, valid_string, decode}
use visual_tmux_client.Session.Model.{Session, Pane, Reason, target_syntax, ok}
use visual_tmux_client.Session.Validation.{validate_session_name}
use visual_tmux_client.Session.Validation.Rules.{
  IsName, IsSafeBytes, validate_session_name_iff, validate_session_name-IsSafeBytes,
}
use visual_tmux_client.Session.Pane.{select_pane_summaries, choice_of, PaneChoice}
use visual_tmux_client.Session.Pane.Selection.{Shown, select_pane_summaries-Shown}
use visual_tmux_client.Session.Pane.Order.{IsIndexed}
use visual_tmux_client.Session.Service.{Backend}
use visual_tmux_client.Session.Service.Guards.{Agree, absent, SameService, Agree-SameService}

work-valid : validate_session_name (codes "work") ≡ none
unfolding validate_session_name valid_string runes decode
work-valid = refl

validate_session_name_iff_example :
    (validate_session_name (codes "a:b") ≡ none)
    ↔ ((valid_string (codes "a:b") ≡ true) × IsName (runes (codes "a:b")))
validate_session_name_iff_example = validate_session_name_iff (codes "a:b")

validate_session_name-IsSafeBytes_example : IsSafeBytes (codes "work")
validate_session_name-IsSafeBytes_example =
    validate_session_name-IsSafeBytes (codes "work") work-valid

abbrev pane_with : ℤ → Bool → Bytes → Pane
pane_with index active command = record {
  session = codes "work";
  window_index = index;
  pane_index = pos 0;
  window_active = active;
  pane_active = true;
  dead = false;
  window_name = codes "w";
  title = codes "t";
  current_command = command;
}

abbrev editor : Pane
editor = pane_with (pos 1) true (codes "vim")

abbrev shell : Pane
shell = pane_with (pos 0) false (codes "zsh")

select_pane_summaries-Shown_example :
    Shown
      (codes "work")
      (shell ∷ editor ∷ [])
      (lookup (codes "work") (select_pane_summaries (shell ∷ editor ∷ [])))
select_pane_summaries-Shown_example =
    select_pane_summaries-Shown (shell ∷ editor ∷ []) (codes "work")

either : (p : Pane) → Memᴰ p (shell ∷ editor ∷ []) → (p ≡ shell) ⊎ (p ≡ editor)
either p (Memᴰ.head e) = inl e
either p (Memᴰ.tail (Memᴰ.head e)) = inr e
either p (Memᴰ.tail (Memᴰ.tail m)) = elim m [ ]

differ : choice_of shell ≡ choice_of editor → ⊥
differ e = ground (arith, ap (λ (c : PaneChoice). c.window_index) e)

listed-IsIndexed : IsIndexed (shell ∷ editor ∷ [])
listed-IsIndexed s p q mp mq lp lq e = same (either p mp) (either q mq)
  where
    same : (p ≡ shell) ⊎ (p ≡ editor) → (q ≡ shell) ⊎ (q ≡ editor) → p ≡ q
    same (inl a) (inl b) = cc
    same (inl a) (inr b) = absurd (differ (ap choice_of (sym a) ∙ e ∙ ap choice_of b))
    same (inr a) (inl b) = absurd (differ (ap choice_of (sym b) ∙ sym e ∙ ap choice_of a))
    same (inr a) (inr b) = cc

swap : (a b p : Pane) → Memᴰ p (a ∷ b ∷ []) → Memᴰ p (b ∷ a ∷ [])
swap a b p (Memᴰ.head e) = Memᴰ.tail (Memᴰ.head e)
swap a b p (Memᴰ.tail (Memᴰ.head e)) = Memᴰ.head e
swap a b p (Memᴰ.tail (Memᴰ.tail m)) = elim m [ ]

abbrev work : Session
work = record {
  name = codes "work";
  windows = pos 2;
  attached = pos 0;
  created = pos 1_700_000_000;
  pane = none;
}

-- A backend whose state is the number of its calls.
abbrev counting : Backend ℕ
counting = record {
  list_all = λ n. (n + 1, ok (work ∷ []));
  create = λ name n. (n + 1, ok (record work { name = name }));
  rename = λ old new n. (n + 1, none);
  kill = λ name n. (n + 1, none);
  list_panes = some (λ n. (n + 1, ok (shell ∷ editor ∷ [])));
  get = none;
  has = none;
  directory = none;
}

-- The same, but it kills a session `:` without counting.
abbrev sloppy : Backend ℕ
sloppy = record counting { kill = λ name n. if name == codes ":" then (n, none) else (n + 1, none) }

colon-refused : validate_session_name (codes ":") ≡ some (target_syntax b':')
unfolding validate_session_name valid_string runes decode
colon-refused = refl

colon-invalid : validate_session_name (codes ":") ≡ none → ⊥
colon-invalid h = some_none (sym colon-refused ∙ h)
  where
    some_none : {r : Reason} → some r ≡ none → ⊥
    some_none e = cc

kills_alike :
    (name : Bytes) → validate_session_name name ≡ none → counting.kill name ≡ sloppy.kill name
kills_alike name h = elim (Bool-cases (name == codes ":")) [
  | inl e ↦ absurd (
      colon-invalid (
        subst (λ n. validate_session_name n ≡ none) ((bytes_eq.matches_iff name (codes ":")).0 e)
          h))
  | inr e ↦ fun_ext (λ n. rw e)
]

counting-Agree : Agree counting sloppy
counting-Agree = record {
  lists = refl;
  creates = λ name h. refl;
  makes_up = refl;
  renames = λ old new h k. refl;
  kills = kills_alike;
  lists_panes = refl;
  gets = absent;
  checks = absent;
  finds = absent;
}

Agree-SameService_example : SameService counting sloppy
Agree-SameService_example = Agree-SameService counting sloppy counting-Agree
