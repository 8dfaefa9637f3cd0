-- ===== src/Host/Trust/Confirming.antt =====
-- hub/internal/host/trust.go: what Confirm answers.
use visual_tmux_client.Prelude.{
  ℕ, ◌≡◌, refl, ap, ◌∙◌, ◌||◌, Bytes, none, some, if◌then◌else◌, bytes_eq, nat_eq, Bool-cases, inl,
  inr,
}
use visual_tmux_client.Prelude.Map.{lookup, remove, lookup-prune, IsUnique, unless}
use visual_tmux_client.Host.Trust.{
  challenge_expired, challenge_mismatch, TrustChallenge, TrustStore, sweep_challenges, is_over,
  Confirmation, confirmed, refused, is_other, confirm,
}

-- What Confirm answers to a fresh challenge, by the clock and the target.
abbrev pub answer_to : TrustChallenge → ℕ → ℕ → Bytes → ℕ → Bytes → Confirmation
answer_to c swept now host revision endpoint =
    if is_over swept c || is_over now c
    then refused challenge_expired
    else if is_other c host revision endpoint
    then refused challenge_mismatch
    else confirmed c.host_key

lookup-sweep :
    (swept : ℕ) (token : Bytes) (s : TrustStore)
    → IsUnique s.challenges
    → lookup token (sweep_challenges swept s).challenges
      ≡ unless (is_over swept) (lookup token s.challenges)
unfolding sweep_challenges
lookup-sweep swept token s u = lookup-prune (λ t c. is_over swept c) token s.challenges u

-- Confirm answers to a challenge that is in the store by its expiry first, then by its target.
pub confirm_known :
    (swept now : ℕ) (token host : Bytes) (revision : ℕ) (endpoint : Bytes) (s : TrustStore)
    (c : TrustChallenge)
    → IsUnique s.challenges
    → lookup token s.challenges ≡ some c
    → (confirm swept now token host revision endpoint s).1
      ≡ answer_to c swept now host revision endpoint
unfolding confirm remove
confirm_known swept now token host revision endpoint s c u found =
    let there : lookup token (sweep_challenges swept s).challenges
        ≡ (if is_over swept c then none else some c) =
      lookup-sweep swept token s u ∙ ap (unless (is_over swept)) found in
    rw there (elim (Bool-cases (is_over swept c)) [
      | inl swept_away ↦ rw swept_away refl
      | inr stays ↦ rw stays (elim (Bool-cases (is_over now c)) [
        | inl over ↦ rw over refl
        | inr alive ↦ rw alive (elim (Bool-cases (is_other c host revision endpoint)) [
          | inl other ↦ rw other refl
          | inr same ↦ rw same refl
        ])
      ])
    ])
