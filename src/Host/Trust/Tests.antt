-- ===== src/Host/Trust/Tests.antt =====
-- A challenge that is confirmed.
use visual_tmux_client.Prelude.{◌≡◌, refl, codes, List, [], ◌∷◌, bytes_eq}
use visual_tmux_client.Prelude.Map.{lookup, prune, remove}
use visual_tmux_client.Host.Trust.{
  TrustChallenge, TrustStore, confirm, confirmed, refused, challenge_expired, sweep_challenges,
}
use visual_tmux_client.Host.Trust.Once.{TrustCall, confirm_call, run_trust, confirm_once}

abbrev observed : TrustChallenge
observed = record {
  token = codes "t";
  host_id = codes "a";
  revision = 2;
  endpoint = codes "10.0.0.1:22";
  host_key = codes "key";
  fingerprint = codes "SHA256:x";
  key_type = codes "ssh-ed25519";
  expires_at = 100;
}

abbrev one_challenge : TrustStore
one_challenge = record { ttl = 50; challenges = (codes "t", observed) ∷ [] }

abbrev in_between : List TrustCall
in_between = confirm_call 60 60 (codes "u") (codes "a") 2 (codes "10.0.0.1:22") ∷ []

was_confirmed :
    (confirm 50 51 (codes "t") (codes "a") 2 (codes "10.0.0.1:22") one_challenge).1
    ≡ confirmed (codes "key")
unfolding confirm sweep_challenges lookup prune remove
was_confirmed = refl

confirm_once_example :
    (confirm 70 71 (codes "t") (codes "a") 2 (codes "10.0.0.1:22") (
      run_trust in_between
        (confirm 50 51 (codes "t") (codes "a") 2 (codes "10.0.0.1:22") one_challenge).0)).1
    ≡ refused challenge_expired
confirm_once_example =
    confirm_once 50 51 (codes "t") (codes "a") 2 (codes "10.0.0.1:22") one_challenge (codes "key")
      in_between 70 71 (codes "a") 2 (codes "10.0.0.1:22") was_confirmed tt
