-- ===== src/Session/Service/Getting.antt =====
-- Getting one session from a backend that only lists (hub/internal/session/service.go).
use mathlib.Core.List.{Memᴰ}
use visual_tmux_client.Prelude.{
  ◌≡◌, refl, ap, sym, ◌∙◌, subst, ◌≢◌, false, List, [], ◌∷◌, none, Bytes, bytes_eq, ◌==◌, arith,
  if_cases,
}
use visual_tmux_client.Session.Model.{Session, Error, Result, ok, err, not_found}
use visual_tmux_client.Session.Validation.{validate_session_name}
use visual_tmux_client.Session.Service.{
  Action, Backend, get_session, has_session, get_by, has_by, find_session, then_ok, guarded, is_ok,
}

-- What a search for a name in a listing gives.
pub data Found (name : Bytes) (sessions : List Session) : Result Session → Type 0 where
  found : (s : Session) → Memᴰ s sessions → s.name ≡ name → Found name sessions (ok s)
  missing : ((s : Session) → Memᴰ s sessions → s.name ≢ name) → Found name sessions (err not_found)

find_session-Found :
    (name : Bytes) (sessions : List Session) → Found name sessions (find_session name sessions)
unfolding find_session
find_session-Found name [] = missing (λ s m. elim m [ ])
find_session-Found name (s ∷ sessions) =
    if_cases (Found name (s ∷ sessions)) (s.name == name)
      (λ same. found s (Memᴰ.head refl) ((bytes_eq.matches_iff s.name name).0 same))
      (λ other. later other (find_session name sessions) (find_session-Found name sessions))
  where
    absent :
        (s.name == name) ≡ false
        → ((t : Session) → Memᴰ t sessions → t.name ≢ name)
        → (t : Session) → Memᴰ t (s ∷ sessions)
        → t.name ≢ name
    absent other f t (Memᴰ.head e) h =
        ground (arith, other, (bytes_eq.matches_iff s.name name).1 (ap (λ x. x.name) (sym e) ∙ h))
    absent other f t (Memᴰ.tail m) h = f t m h

    later :
        (s.name == name) ≡ false
        → (r : Result Session) → Found name sessions r
        → Found name (s ∷ sessions) r
    later other _ (found t m e) = found t (Memᴰ.tail m) e
    later other _ (missing f) = missing (absent other f)

guarded_ok :
    {W A : Type 0} (name : Bytes) (refusal : Error → A) (act : Action W A)
    → validate_session_name name ≡ none
    → guarded name refusal act ≡ act
unfolding guarded
guarded_ok name refusal act valid = rw valid refl

then_ok-Found :
    {W : Type 0} (name : Bytes) (sessions : List Session) (q : W × Result (List Session))
    → q.1 ≡ ok sessions
    → Found name sessions (then_ok q (λ l v. (v, find_session name l))).1
then_ok-Found name sessions (v, r) h = rw h (find_session-Found name sessions)

-- Where the backend has neither a getter nor a checker of its own and lists its sessions, getting
-- a session by a valid name finds a listed session of that name, or reports that there is
-- none, and the check for a session says which.
pub get_session-Found :
    {W : Type 0} (b : Backend W) (name : Bytes) (w : W) (sessions : List Session)
    → b.get ≡ none
    → b.has ≡ none
    → validate_session_name name ≡ none
    → (b.list_all w).1 ≡ ok sessions
    → Found name sessions (get_session b name w).1
      × ((has_session b name w).1 ≡ is_ok (get_session b name w).1)
unfolding get_session has_session get_by has_by
get_session-Found b name w sessions no_get no_has valid listed =
    let gets : get_session b name ≡ get_by b none name =
      guarded_ok name err (get_by b b.get name) valid ∙ ap (λ o. get_by b o name) no_get in
    let checks : has_session b name ≡ has_by b none name =
      guarded_ok name (λ e. false) (has_by b b.has name) valid ∙ ap (λ o. has_by b o name) no_has in
    (
      subst (λ act. Found name sessions (act w).1) (sym gets)
          (then_ok-Found name sessions (b.list_all w) listed),
      ap (λ act. (act w).1) checks,
    )
