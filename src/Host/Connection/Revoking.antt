-- ===== src/Host/Connection/Revoking.antt =====
-- hub/internal/host/connection.go: what Invalidate ends, and what a dial that it overtakes leaves.
use visual_tmux_client.Prelude.{
  ℕ, ◌≡◌, refl, sym, ap, subst, ◌∙◌, true, false, Bytes, none, some, any, ◌==◌, ==-refl, bytes_eq,
  nat_eq,
}
use visual_tmux_client.Prelude.Map.{lookup, remove, lookup-remove}
use visual_tmux_client.Host.Identity.{err, stale_revision}
use visual_tmux_client.Host.Connection.{
  HostConnPool, Connections, record_success, revoke_pool, invalidate,
}
use visual_tmux_client.Host.Connection.Leasing.{ClientLease, check_valid, revoked_pool}
use visual_tmux_client.Host.Connection.Dialing.{
  dial_succeeded, lease_control, open_dedicated, new_client, install_control, with_control,
  control_of,
}
use visual_tmux_client.Host.Connection.Closing.{
  lookup-update_pool, pools-update_pool, ended-update_pool, IsRevoked, HasEnded,
  revoke_pool-Revokes,
}

check_valid-revoked :
    (l : ClientLease) (n : ℕ) (q : HostConnPool) (m : Connections)
    → l.pool ≡ some n
    → lookup n m.heap ≡ some q
    → q.revoked ≡ true
    → check_valid l m ≡ some stale_revision
unfolding check_valid
check_valid-revoked l n q m held there gone = rw (held, there, gone) refl

module _ (id : Bytes) (n : ℕ) (p : HostConnPool) (m : Connections) where
  invalidate-is :
      lookup id m.pools ≡ some n
      → invalidate id m ≡ revoke_pool n (record m { pools = remove id m.pools })
  unfolding invalidate
  invalidate-is named = rw named refl

  -- Invalidate takes the pool of the host away, ends its control client, and makes every lease on
  -- it stale: the lease gets neither the control client nor a dedicated connection, and changes
  -- nothing.
  pub invalidate-Revokes :
      lookup id m.pools ≡ some n
      → lookup n m.heap ≡ some p
      → (l : ClientLease) → l.pool ≡ some n
      → (lookup id (invalidate id m).pools ≡ none)
        × IsRevoked n (invalidate id m)
        × HasEnded p.control_client (invalidate id m)
        × (lease_control l (invalidate id m) ≡ (invalidate id m, err stale_revision))
        × ((now : ℕ)
            → open_dedicated l now (invalidate id m) ≡ (invalidate id m, err stale_revision))
  unfolding lease_control open_dedicated
  invalidate-Revokes named found l held =
      let cleared : Connections = record m { pools = remove id m.pools } in
      let (same, revoked, ended) = revoke_pool-Revokes n p cleared found in
      let e : invalidate id m ≡ revoke_pool n cleared = invalidate-is named in
      let (q, there, gone, none_left) = subst (IsRevoked n) (sym e) revoked in
      (
        ap (λ x. lookup id x.pools) e
            ∙ (ap (lookup id) same ∙ (lookup-remove id id m.pools ∙ rw (==-refl id) refl)),
        (q, there, gone, none_left),
        subst (HasEnded p.control_client) (sym e) ended,
        rw (stale q there gone) refl,
        λ now. rw (stale q there gone) refl,
      )
    where
      stale :
          (q : HostConnPool)
          → lookup n (invalidate id m).heap ≡ some q
          → q.revoked ≡ true
          → check_valid l (invalidate id m) ≡ some stale_revision
      stale q there gone = check_valid-revoked l n q (invalidate id m) held there gone

  -- A control client whose dial Invalidate overtakes, and whose number no client that ended has, is
  -- put into the pool that was revoked and is not ended, while the host has no pool.
  pub late_control :
      lookup id m.pools ≡ some n
      → lookup n m.heap ≡ some p
      → any (λ c. c == (invalidate id m).next) (invalidate id m).ended ≡ false
      → let later = invalidate id m in
        let (dialed, client) = dial_succeeded n later in
        let left = install_control n client dialed in
        (lookup id left.pools ≡ none)
        × (revoked_pool (lookup n left.heap) ≡ true)
        × (control_of (lookup n left.heap) ≡ some client)
        × (any (λ c. c == client) left.ended ≡ false)
  unfolding dial_succeeded install_control record_success
  late_control named found fresh =
      let later : Connections = invalidate id m in
      let dialed : Connections = (dial_succeeded n later).0 in
      let left : Connections = install_control n later.next dialed in
      let (gone, (q, there, revoked, _), _, _, _) =
        invalidate-Revokes named found (record { target = p.target; pool = some n }) refl in
      let dialed_pool : lookup n dialed.heap ≡ some (record_success q) =
        lookup-update_pool record_success n n (new_client later) ∙ rw (==-refl n, there) refl in
      let left_pool : lookup n left.heap ≡ some (with_control later.next (record_success q)) =
        lookup-update_pool (with_control later.next) n n dialed
        ∙ rw (==-refl n, dialed_pool) refl in
      (
        ap (lookup id) (
              pools-update_pool (with_control later.next) n dialed
              ∙ pools-update_pool record_success n (new_client later))
            ∙ gone,
        ap revoked_pool left_pool ∙ revoked,
        rw left_pool refl,
        ap (any (λ c. c == later.next)) (
              ended-update_pool (with_control later.next) n dialed
              ∙ ended-update_pool record_success n (new_client later))
            ∙ fresh,
      )
