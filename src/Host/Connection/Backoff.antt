-- ===== src/Host/Connection/Backoff.antt =====
-- hub/internal/host/connection.go: how long a host is left alone after failures.
use native.Mathlib.Nat.{pow-suc}
use visual_tmux_client.Prelude.{
  ℕ, zero, suc, ◌*◌, ◌^◌, ◌≤◌, ◌≡◌, min, if◌then◌else◌, ltb, arith, Bool-cases, inl, inr,
}
use visual_tmux_client.Host.Connection.{compute_backoff, base_backoff_duration}

doubled : (n : ℕ) → 2 ^ suc n ≡ 2 ^ n * 2
doubled n = pow-suc 2 n

positive : (n : ℕ) → 1 ≤ 2 ^ n
positive zero = omega arith
positive (suc n) = omega (arith, doubled n, positive n)

grown : (n : ℕ) → 2 ^ min n 6 ≤ 2 ^ min (suc n) 6
grown n = elim (Bool-cases (ltb n 6)) [
  | inl below ↦
      let here : min n 6 ≡ n = ground (arith, below) in
      let next : min (suc n) 6 ≡ suc n = ground (arith, below) in
      rw (here, next) (omega (arith, doubled n))
  | inr above ↦
      let here : min n 6 ≡ 6 = ground (arith, above) in
      let next : min (suc n) 6 ≡ 6 = ground (arith, above) in rw (here, next) (omega arith)
]

pub compute_backoff-bounds :
    (failures max_backoff : ℕ)
    → (compute_backoff failures max_backoff ≤ max_backoff)
      × (min base_backoff_duration max_backoff ≤ compute_backoff failures max_backoff)
      × (compute_backoff failures max_backoff ≤ compute_backoff (suc failures) max_backoff)
unfolding compute_backoff
compute_backoff-bounds failures max_backoff =
    (capped _, ground (arith, positive (min failures 6)), ground (arith, grown failures))
  where
    capped : (b : ℕ) → (if ltb max_backoff b then max_backoff else b) ≤ max_backoff
    capped b = ground arith
