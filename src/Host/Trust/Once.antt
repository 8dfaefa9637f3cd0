-- ===== src/Host/Trust/Once.antt =====
-- hub/internal/host/trust.go: a challenge is confirmed at most once.
use visual_tmux_client.Prelude.{
  ℕ, ◌+◌, ◌≡◌, refl, ◌∙◌, false, Bytes, Option, none, some, List, [], ◌∷◌, ◌==◌, bytes_eq, nat_eq,
  arith, Bool-cases, inl, inr, ==-refl,
}
use visual_tmux_client.Prelude.Map.{lookup, remove, lookup-insert, lookup-remove, lookup-prune-none}
use visual_tmux_client.Host.Trust.{
  challenge_expired, TrustChallenge, PublicKey, TrustStore, sweep_challenges, is_over,
  with_challenges, challenge_of, create_challenge, confirmed, refused, is_other, confirm_found,
  confirm,
}

-- A call of the store other than the one under consideration.
pub data TrustCall : Type 0 where
  create_call : ℕ → ℕ → Option Bytes → Bytes → ℕ → Bytes → PublicKey → TrustCall
  confirm_call : ℕ → ℕ → Bytes → Bytes → ℕ → Bytes → TrustCall

unfoldable pub trust_call : TrustCall → TrustStore → TrustStore
unfolding create_challenge confirm
trust_call (create_call swept now token host revision endpoint key) s =
    (create_challenge swept now token host revision endpoint key s).0
trust_call (confirm_call swept now token host revision endpoint) s =
    (confirm swept now token host revision endpoint s).0

unfoldable pub run_trust : List TrustCall → TrustStore → TrustStore
unfolding trust_call
run_trust [] s = s
run_trust (c ∷ calls) s = run_trust calls (trust_call c s)

-- The random source does not hand out the token again.
abbrev pub IsSpared : Bytes → List TrustCall → Type 0
IsSpared token [] = Unit
IsSpared token (create_call swept now none host revision endpoint key ∷ calls) =
    IsSpared token calls
IsSpared token (create_call swept now (some made) host revision endpoint key ∷ calls) =
    ((made == token) ≡ false) × IsSpared token calls
IsSpared token (confirm_call swept now t host revision endpoint ∷ calls) = IsSpared token calls

abbrev pub IsGone : Bytes → TrustStore → Type 0
IsGone token s = lookup token s.challenges ≡ none

sweep-IsGone :
    (swept : ℕ) (token : Bytes) (s : TrustStore)
    → IsGone token s
    → IsGone token (sweep_challenges swept s)
unfolding sweep_challenges
sweep-IsGone swept token s h = lookup-prune-none (λ t c. is_over swept c) token s.challenges h

remove-IsGone :
    (t token : Bytes) (s : TrustStore)
    → IsGone token s
    → IsGone token (with_challenges (remove t s.challenges) s)
remove-IsGone t token s h = rw (lookup-remove t token s.challenges) (ground (arith, h))

removed :
    (token : Bytes) (s : TrustStore) → IsGone token (with_challenges (remove token s.challenges) s)
removed token s = rw (lookup-remove token token s.challenges, ==-refl token) refl

confirm_found-IsGone :
    (now : ℕ) (t token host : Bytes) (revision : ℕ) (endpoint : Bytes) (s : TrustStore)
    (found : Option TrustChallenge)
    → IsGone token s
    → IsGone token (confirm_found now t host revision endpoint s found).0
unfolding remove
confirm_found-IsGone now t token host revision endpoint s none h = remove-IsGone t token s h
confirm_found-IsGone now t token host revision endpoint s (some c) h =
    elim (Bool-cases (is_over now c)) [
      | inl over ↦ rw over (remove-IsGone t token s h)
      | inr alive ↦ rw alive (elim (Bool-cases (is_other c host revision endpoint)) [
        | inl other ↦ rw other h
        | inr same ↦ rw same (remove-IsGone t token s h)
      ])
    ]

trust_call-IsGone :
    (c : TrustCall) (token : Bytes) (s : TrustStore)
    → IsSpared token (c ∷ [])
    → IsGone token s
    → IsGone token (trust_call c s)
unfolding trust_call create_challenge confirm
trust_call-IsGone (create_call swept now none host revision endpoint key) token s spared h =
    sweep-IsGone swept token s h
trust_call-IsGone (create_call swept now (some made) host revision endpoint key) token s spared h =
    lookup-insert made token (challenge_of made host revision endpoint key (now + s.ttl))
      (sweep_challenges swept s).challenges
    ∙ rw (spared.0) (sweep-IsGone swept token s h)
trust_call-IsGone (confirm_call swept now t host revision endpoint) token s spared h =
    confirm_found-IsGone now t token host revision endpoint (sweep_challenges swept s)
      (lookup t (sweep_challenges swept s).challenges) (sweep-IsGone swept token s h)

run_trust-IsGone :
    (calls : List TrustCall) (token : Bytes) (s : TrustStore)
    → IsSpared token calls
    → IsGone token s
    → IsGone token (run_trust calls s)
unfolding run_trust
run_trust-IsGone [] token s spared h = h
run_trust-IsGone (create_call a b none host r e key ∷ calls) token s spared h =
    run_trust-IsGone calls token (trust_call (create_call a b none host r e key) s) spared
      (trust_call-IsGone (create_call a b none host r e key) token s tt h)
run_trust-IsGone (create_call a b (some made) host r e key ∷ calls) token s spared h =
    run_trust-IsGone calls token (trust_call (create_call a b (some made) host r e key) s) spared.1
      (trust_call-IsGone (create_call a b (some made) host r e key) token s (spared.0, tt) h)
run_trust-IsGone (confirm_call a b t host r e ∷ calls) token s spared h =
    run_trust-IsGone calls token (trust_call (confirm_call a b t host r e) s) spared
      (trust_call-IsGone (confirm_call a b t host r e) token s tt h)

confirm_found-used :
    (now : ℕ) (token host : Bytes) (revision : ℕ) (endpoint : Bytes) (s : TrustStore)
    (found : Option TrustChallenge) (key : Bytes)
    → (confirm_found now token host revision endpoint s found).1 ≡ confirmed key
    → IsGone token (confirm_found now token host revision endpoint s found).0
unfolding remove
confirm_found-used now token host revision endpoint s none key h = removed token s
confirm_found-used now token host revision endpoint s (some c) key h =
    elim (Bool-cases (is_over now c)) [
      | inl over ↦ rw over (removed token s)
      | inr alive ↦ elim (Bool-cases (is_other c host revision endpoint)) [
        | inl other ↦ let absurd : ⊥ = ground (arith, h, alive, other) in elim absurd [ ]
        | inr same ↦ rw (alive, same) (removed token s)
      ]
    ]

confirm_gone :
    (swept now : ℕ) (token host : Bytes) (revision : ℕ) (endpoint : Bytes) (s : TrustStore)
    → IsGone token s
    → (confirm swept now token host revision endpoint s).1 ≡ refused challenge_expired
unfolding confirm remove
confirm_gone swept now token host revision endpoint s h =
    let gone : lookup token (sweep_challenges swept s).challenges ≡ none =
      sweep-IsGone swept token s h in
    rw gone refl

-- Once a token was confirmed, Confirm refuses it as expired whatever happens in between, as long
-- as the random source does not hand it out again.
pub confirm_once :
    (swept now : ℕ) (token host : Bytes) (revision : ℕ) (endpoint : Bytes) (s : TrustStore)
    (key : Bytes) (calls : List TrustCall) (swept' now' : ℕ) (host' : Bytes) (revision' : ℕ)
    (endpoint' : Bytes)
    → (confirm swept now token host revision endpoint s).1 ≡ confirmed key
    → IsSpared token calls
    → (confirm swept' now' token host' revision' endpoint'
        (run_trust calls (confirm swept now token host revision endpoint s).0)).1
      ≡ refused challenge_expired
unfolding confirm
confirm_once swept now token host revision endpoint s key calls a b host' r' e' used spared =
    confirm_gone a b token host' r' e'
      (run_trust calls (confirm swept now token host revision endpoint s).0)
      (run_trust-IsGone calls token (confirm swept now token host revision endpoint s).0 spared (
        confirm_found-used now token host revision endpoint (sweep_challenges swept s)
          (lookup token (sweep_challenges swept s).challenges) key used))
