-- ===== src/Host/Connection/Closing.antt =====
-- hub/internal/host/connection.go: what closing a pool and its connections leaves.
use visual_tmux_client.Prelude.{
  ℕ, ◌≡◌, refl, sym, ap, subst, ◌∙◌, ◌⊎◌, inl, inr, true, false, Option, none, some, List, [], ◌∷◌,
  any, if◌then◌else◌, ◌==◌, ==-refl, bytes_eq, nat_eq, arith, Bool-cases, Option-cases, if_cases,
}
use visual_tmux_client.Prelude.Map.{lookup, insert, lookup-insert}
use visual_tmux_client.Host.Connection.{
  HostConnPool, ManagedConn, Connections, update_pool, release, forget, emptied, end_client,
  end_control, close_found, close_managed, close_all, revoke_pool,
}

abbrev pub map_pool : (HostConnPool → HostConnPool) → Option HostConnPool → Option HostConnPool
map_pool f none = none
map_pool f (some p) = some (f p)

pub lookup-update_pool :
    (f : HostConnPool → HostConnPool) (n j : ℕ) (m : Connections)
    → lookup j (update_pool f n m).heap
      ≡ (if n == j then map_pool f (lookup n m.heap) else lookup j m.heap)
unfolding update_pool
lookup-update_pool f n j m = elim (Option-cases (lookup n m.heap)) [
  | inl absent ↦ rw absent (elim (Bool-cases (n == j)) [
    | inl same ↦ rw same (ground (arith, absent, same))
    | inr other ↦ rw other refl
  ])
  | inr (p, e) ↦ rw e (lookup-insert n j (f p) m.heap)
]

pub pools-update_pool :
    (f : HostConnPool → HostConnPool) (n : ℕ) (m : Connections)
    → (update_pool f n m).pools ≡ m.pools
unfolding update_pool
pools-update_pool f n m = elim (Option-cases (lookup n m.heap)) [
  | inl absent ↦ rw absent refl
  | inr (p, e) ↦ rw e refl
]

pub ended-update_pool :
    (f : HostConnPool → HostConnPool) (n : ℕ) (m : Connections)
    → (update_pool f n m).ended ≡ m.ended
unfolding update_pool
ended-update_pool f n m = elim (Option-cases (lookup n m.heap)) [
  | inl absent ↦ rw absent refl
  | inr (p, e) ↦ rw e refl
]

-- A pool that is revoked and has no control client.
abbrev pub IsRevoked : ℕ → Connections → Type 0
IsRevoked n m =
    (p : HostConnPool) × (lookup n m.heap ≡ some p) × (p.revoked ≡ true) × (p.control_client ≡ none)

-- What closing connections leaves as it is: the pools that are named, and what is revoked; and the
-- clients that were ended stay so.
abbrev pub IsEnded : ℕ → Connections → Type 0
IsEnded client m = any (λ c. c == client) m.ended ≡ true

-- The client, if there is one, was ended.
abbrev pub HasEnded : Option ℕ → Connections → Type 0
HasEnded none m = Unit
HasEnded (some client) m = IsEnded client m

abbrev KeptBy : Connections → Connections → ℕ → ℕ → Type 0
KeptBy m later n client =
    (later.pools ≡ m.pools)
    × (IsRevoked n m → IsRevoked n later)
    × (IsEnded client m → IsEnded client later)

KeptBy-trans :
    (a b c : Connections) (n client : ℕ)
    → KeptBy a b n client
    → KeptBy b c n client
    → KeptBy a c n client
KeptBy-trans a b c n client h k = (k.0 ∙ h.0, λ r. k.1 (h.1 r), λ e. k.2 (h.2 e))

-- A change of a pool that opens nothing.
abbrev OpensNothing : (HostConnPool → HostConnPool) → Type 0
OpensNothing f =
    (p : HostConnPool) → ((f p).revoked ≡ p.revoked) × ((f p).control_client ≡ p.control_client)

release-OpensNothing : OpensNothing release
release-OpensNothing p =
    if_cases {A = HostConnPool}
      (λ q. (q.revoked ≡ p.revoked) × (q.control_client ≡ p.control_client)) (p.permits == 0)
      (λ _. (refl, refl)) (λ _. (refl, refl))

update_pool-KeptBy :
    (f : HostConnPool → HostConnPool) (k : ℕ) (m : Connections) (n client : ℕ)
    → OpensNothing f
    → KeptBy m (update_pool f k m) n client
update_pool-KeptBy f k m n client same = (
  pools-update_pool f k m,
  λ r. revoked r (Bool-cases (k == n)),
  λ e. subst (λ ended. any (λ c. c == client) ended ≡ true) (sym (ended-update_pool f k m)) e,
)
  where
    revoked :
        IsRevoked n m → ((k == n) ≡ true) ⊎ ((k == n) ≡ false) → IsRevoked n (update_pool f k m)
    revoked (p, found, gone, closed) (inl here) = (
      f p,
      lookup-update_pool f k n m
          ∙ rw here (
              ap (λ j. map_pool f (lookup j m.heap)) (ground (arith, here))
              ∙ ap (map_pool f) found),
      (same p).0 ∙ gone,
      (same p).1 ∙ closed,
    )
    revoked (p, found, gone, closed) (inr other) =
        (p, lookup-update_pool f k n m ∙ rw other found, gone, closed)

end_client-KeptBy : (c : ℕ) (m : Connections) (n client : ℕ) → KeptBy m (end_client c m) n client
end_client-KeptBy c m n client = (refl, λ r. r, λ e. ground (arith, e))

close_found-KeptBy :
    (k : ℕ) (o : Option ManagedConn) (m : Connections) (n client : ℕ)
    → KeptBy m (close_found k o m) n client
unfolding close_managed
close_found-KeptBy k none m n client = (refl, λ r. r, λ e. e)
close_found-KeptBy k (some c) m n client =
    if_cases (λ later. KeptBy m later n client) c.closed (λ twice. (refl, λ r. r, λ e. e))
      (λ first.
        KeptBy-trans m unlisted (update_pool release c.permit_pool unlisted) n client
          (KeptBy-trans m ending unlisted n client (end_client-KeptBy c.client marked n client)
            (update_pool-KeptBy (forget k) c.pool ending n client (λ p. (refl, refl))))
          (update_pool-KeptBy release c.permit_pool unlisted n client release-OpensNothing))
  where
    marked : Connections
    marked = record m { managed = insert k (record c { closed = true }) m.managed }

    ending : Connections
    ending = end_client c.client marked

    unlisted : Connections
    unlisted = update_pool (forget k) c.pool ending

close_all-KeptBy :
    (ks : List ℕ) (m : Connections) (n client : ℕ) → KeptBy m (close_all ks m) n client
unfolding close_all close_managed
close_all-KeptBy [] m n client = (refl, λ r. r, λ e. e)
close_all-KeptBy (k ∷ ks) m n client =
    KeptBy-trans m (close_managed k m) (close_all ks (close_managed k m)) n client
      (close_found-KeptBy k (lookup k m.managed) m n client)
      (close_all-KeptBy ks (close_managed k m) n client)

-- A pool that is revoked stays in the heap, revoked and without a control client, and its control
-- client has been ended.
pub revoke_pool-Revokes :
    (n : ℕ) (p : HostConnPool) (m : Connections)
    → lookup n m.heap ≡ some p
    → ((revoke_pool n m).pools ≡ m.pools)
      × IsRevoked n (revoke_pool n m)
      × HasEnded p.control_client (revoke_pool n m)
unfolding revoke_pool
revoke_pool-Revokes n p m found = rw found (closed p.control_client refl)
  where
    emptying : Connections
    emptying = update_pool emptied n m

    revoked : IsRevoked n emptying
    revoked = (emptied p, lookup-update_pool emptied n n m ∙ rw (==-refl n, found) refl, refl, refl)

    closed :
        (o : Option ℕ)
        → p.control_client ≡ o
        → ((close_all p.dedicated (end_control o emptying)).pools ≡ m.pools)
          × IsRevoked n (close_all p.dedicated (end_control o emptying))
          × HasEnded o (close_all p.dedicated (end_control o emptying))
    closed none e =
        let (same, keeps, _) = close_all-KeptBy p.dedicated emptying n 0 in
        (same ∙ pools-update_pool emptied n m, keeps revoked, tt)
    closed (some client) e =
        let (same, keeps, ends) =
          close_all-KeptBy p.dedicated (end_client client emptying) n client in
        (same ∙ pools-update_pool emptied n m, keeps revoked, ends (ground (arith, ==-refl client)))
