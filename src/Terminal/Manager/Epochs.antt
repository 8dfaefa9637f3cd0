-- ===== src/Terminal/Manager/Epochs.antt =====
-- A registration that was prepared before its host was closed.
use visual_tmux_client.Prelude.{
  ℕ, ◌+◌, ◌%◌, ◌^◌, ◌<◌, ◌≡◌, ◌≢◌, inl, inr, true, List, [], ◌∷◌, some, Bytes, arith, ◌==◌,
  bytes_eq, nat_eq, bytes_beq_iff, nat_beq_iff, if◌then◌else◌, Bool-cases,
}
use visual_tmux_client.Prelude.Map.{lookup, lookup-insert}
use visual_tmux_client.Terminal.Attachment.{Attachment}
use visual_tmux_client.Terminal.Manager.{
  Manager, manager_closing, host_closed, current_epoch, register, untrack, bump_epoch, or_zero,
}

-- What the critical sections of other calls do to the manager: `closes_host` is the first part of
-- `CloseHost`, and `shuts_down` that of `Shutdown`.
pub data Section : Type 0 where
  registers : ℕ → Attachment → Section
  untracks : ℕ → Section
  closes_host : Bytes → Section
  shuts_down : Section

unfoldable pub enter : Manager → Section → Manager
enter m (registers id a) = (register m id a).0
enter m (untracks id) = untrack m id
enter m (closes_host host) = bump_epoch m host
enter m shuts_down = record m { closing = true }

unfoldable pub enter_all : Manager → List Section → Manager
enter_all m [] = m
enter_all m (s ∷ ss) = enter_all (enter m s) ss

abbrev closings_in : Bytes → Section → ℕ
closings_in host (closes_host h) = if h == host then 1 else 0
closings_in host _ = 0

-- How often the host is closed.
abbrev pub closings : Bytes → List Section → ℕ
closings host [] = 0
closings host (s ∷ ss) = closings_in host s + closings host ss

register-epoch :
    (m : Manager) (id : ℕ) (a : Attachment) (host : Bytes)
    → current_epoch (register m id a).0 host ≡ current_epoch m host
unfolding register current_epoch
register-epoch m id a host = ground arith

bump_epoch-epoch :
    (m : Manager) (h host : Bytes)
    → current_epoch (bump_epoch m h) host
      ≡ (if h == host then (current_epoch m h + 1) % 2 ^ 64 else current_epoch m host)
unfolding bump_epoch
bump_epoch-epoch m h host =
    rw (lookup-insert h host ((or_zero (lookup h m.host_epochs) + 1) % 2 ^ 64) m.host_epochs)
      (ground arith)

enter-epoch :
    (m : Manager) (s : Section) (host : Bytes)
    → current_epoch m host < 2 ^ 64
    → current_epoch (enter m s) host ≡ (current_epoch m host + closings_in host s) % 2 ^ 64
unfolding enter untrack
enter-epoch m (registers id a) host lt = omega (arith, register-epoch m id a host)
enter-epoch m (untracks id) host lt = unfold current_epoch in omega arith
enter-epoch m (closes_host h) host lt = elim (Bool-cases (h == host)) [
  | inl e ↦
      let same : h ≡ host = (bytes_beq_iff h host).0 e in rw (bump_epoch-epoch m h host, e, same)
  | inr e ↦ rw (bump_epoch-epoch m h host, e) (omega arith)
]
enter-epoch m shuts_down host lt = unfold current_epoch in omega arith

enter_all-epoch :
    (m : Manager) (ss : List Section) (host : Bytes)
    → current_epoch m host < 2 ^ 64
    → current_epoch (enter_all m ss) host ≡ (current_epoch m host + closings host ss) % 2 ^ 64
unfolding enter_all
enter_all-epoch m [] host lt = omega arith
enter_all-epoch m (s ∷ ss) host lt =
    let one = enter-epoch m s host lt in
    omega (arith, one, enter_all-epoch (enter m s) ss host (omega (arith, one)))

register_stale :
    (m : Manager) (id : ℕ) (a : Attachment)
    → a.host_id ≢ []
    → a.epoch ≢ current_epoch m a.host_id
    → register m id a ≡ (m, some (if m.closing then manager_closing else host_closed))
unfolding register
register_stale m id a named stale = ground (arith, nat_beq_iff a.epoch (current_epoch m a.host_id))

-- An attachment that took the epoch of its host, and whose host was closed after that, whatever else
-- happened and fewer than 2^64 times, is refused and changes nothing.
pub register_after_close :
    (m : Manager) (ss : List Section) (id : ℕ) (a : Attachment)
    → a.host_id ≢ []
    → current_epoch m a.host_id < 2 ^ 64
    → a.epoch ≡ current_epoch m a.host_id
    → 0 < closings a.host_id ss
    → closings a.host_id ss < 2 ^ 64
    → let m' = enter_all m ss in
      register m' id a ≡ (m', some (if m'.closing then manager_closing else host_closed))
register_after_close m ss id a named fits taken once few =
    register_stale (enter_all m ss) id a named
      (λ e. omega (arith, enter_all-epoch m ss a.host_id fits))
