-- ===== src/Host/Trust.antt =====
-- hub/internal/host/trust.go: the challenges by which a user confirms a host key. Keys, their
-- fingerprints and random tokens come from libraries and are arguments.
pub mod Confirming
pub mod Once
mod Tests
use visual_tmux_client.Prelude.{
  ℕ, ◌+◌, Bool, true, false, not, ◌||◌, Bytes, Option, none, some, List, [], if◌then◌else◌, ◌==◌,
  ltb, bytes_eq, nat_eq, is_empty,
}
use visual_tmux_client.Prelude.Map.{lookup, insert, remove, prune}

pub data TrustError : Type 0 where
  host_key_mismatch trust_required challenge_expired challenge_mismatch : TrustError

pub record TrustChallenge : Type 0 where
  pub token : Bytes
  pub host_id : Bytes
  pub revision : ℕ
  pub endpoint : Bytes
  pub host_key : Bytes
  pub fingerprint : Bytes
  pub key_type : Bytes
  pub expires_at : ℕ

pub record ProbeResult : Type 0 where
  pub challenge_token : Bytes
  pub fingerprint : Bytes
  pub key_type : Bytes
  pub host_key : Bytes
  pub expires_at : ℕ

-- ssh.PublicKey, with what Marshal, FingerprintSHA256 and Type say of it.
pub record PublicKey : Type 0 where
  pub marshaled : Bytes
  pub fingerprint : Bytes
  pub key_type : Bytes

pub record TrustStore : Type 0 where
  pub ttl : ℕ
  pub challenges : List (Bytes × TrustChallenge)

-- Five minutes, in nanoseconds.
abbrev pub default_trust_ttl : ℕ
default_trust_ttl = 300000000000

-- NewTrustStore; 0 stands for every duration that is not positive
unfoldable pub new_trust_store : ℕ → TrustStore
new_trust_store ttl = record { ttl = if ttl == 0 then default_trust_ttl else ttl; challenges = [] }

-- now.After(v.ExpiresAt)
abbrev pub is_over : ℕ → TrustChallenge → Bool
is_over now c = ltb c.expires_at now

-- sweepLocked
unfoldable pub sweep_challenges : ℕ → TrustStore → TrustStore
unfolding prune
sweep_challenges now s = record {
  ttl = s.ttl;
  challenges = prune (λ token c. is_over now c) s.challenges;
}

abbrev pub with_challenges : List (Bytes × TrustChallenge) → TrustStore → TrustStore
with_challenges challenges s = record { ttl = s.ttl; challenges = challenges }

abbrev pub challenge_of : Bytes → Bytes → ℕ → Bytes → PublicKey → ℕ → TrustChallenge
challenge_of token host revision endpoint key expires_at = record {
  token = token;
  host_id = host;
  revision = revision;
  endpoint = endpoint;
  host_key = key.marshaled;
  fingerprint = key.fingerprint;
  key_type = key.key_type;
  expires_at = expires_at;
}

abbrev pub probe_of : Bytes → PublicKey → ℕ → ProbeResult
probe_of token key expires_at = record {
  challenge_token = token;
  fingerprint = key.fingerprint;
  key_type = key.key_type;
  host_key = key.marshaled;
  expires_at = expires_at;
}

-- CreateChallenge; `swept` and `now` are its two readings of the clock, `token` is `none` if
-- rand.Read fails
unfoldable pub create_challenge :
    ℕ
    → ℕ
    → Option Bytes
    → Bytes
    → ℕ
    → Bytes
    → PublicKey
    → TrustStore
    → TrustStore × Option ProbeResult
unfolding sweep_challenges insert
create_challenge swept now none host revision endpoint key s = (sweep_challenges swept s, none)
create_challenge swept now (some token) host revision endpoint key s = (
  with_challenges
      (insert token (challenge_of token host revision endpoint key (now + s.ttl))
        (sweep_challenges swept s).challenges)
      (sweep_challenges swept s),
  some (probe_of token key (now + s.ttl)),
)

pub data Confirmation : Type 0 where
  confirmed : Bytes → Confirmation
  refused : TrustError → Confirmation

abbrev pub is_other : TrustChallenge → Bytes → ℕ → Bytes → Bool
is_other c host revision endpoint =
    not (c.host_id == host) || not (c.revision == revision) || not (c.endpoint == endpoint)

abbrev pub confirm_found :
    ℕ → Bytes → Bytes → ℕ → Bytes → TrustStore → Option TrustChallenge → TrustStore × Confirmation
unfolding remove
confirm_found now token host revision endpoint s none =
    (with_challenges (remove token s.challenges) s, refused challenge_expired)
confirm_found now token host revision endpoint s (some c) =
    if is_over now c
    then (with_challenges (remove token s.challenges) s, refused challenge_expired)
    else if is_other c host revision endpoint
    then (s, refused challenge_mismatch)
    else (with_challenges (remove token s.challenges) s, confirmed c.host_key)

-- Confirm
unfoldable pub confirm : ℕ → ℕ → Bytes → Bytes → ℕ → Bytes → TrustStore → TrustStore × Confirmation
unfolding sweep_challenges lookup remove
confirm swept now token host revision endpoint s =
    confirm_found now token host revision endpoint (sweep_challenges swept s)
      (lookup token (sweep_challenges swept s).challenges)

-- PinnedHostKeyCallback; `none` accepts the key
unfoldable pub pinned_host_key : Bytes → PublicKey → Option TrustError
pinned_host_key pinned key =
    if is_empty pinned
    then some trust_required
    else if key.marshaled == pinned
    then none
    else some host_key_mismatch
