-- ===== src/Host/Store/Bounds.antt =====
-- hub/internal/host/store.go: no host has more than fifty pending cleanups.
use visual_tmux_client.Prelude.{
  ℕ, ◌+◌, ◌-◌, ◌≤◌, ◌≡◌, refl, ap, sym, subst, bytes_beq_iff, true, Bytes, [], ◌∷◌, ◌++◌, length,
  take, drop, take-append-drop, length-take, All, leb→le, if◌then◌else◌, ◌==◌, ==-refl, bytes_eq,
  arith, Bool-cases, inl, inr, if_cases, leb,
}
use visual_tmux_client.Prelude.Map.{remove}
use visual_tmux_client.Host.Outcome.{Settles-any}
use visual_tmux_client.Host.Store.{PendingCleanup, Database, Driver}
use visual_tmux_client.Host.Store.Cleanups.{
  Cleanups, add_pending_cleanup, remove_pending_cleanup, upsert_cleanup, evict_oldest, stamped,
  count_host, order_by_age, of_host, has_id, delete_all, max_pending_cleanups_per_host,
  insert_by_age,
}
use visual_tmux_client.Host.Store.Evictions.{
  Adds, add_pending_cleanup-Adds, Removes, remove_pending_cleanup-Removes,
}

-- How many entries are among those to be deleted.
unfoldable count_in : Cleanups → Cleanups → ℕ
count_in gone [] = 0
count_in gone (c ∷ cleanups) =
    if has_id c.0 gone then count_in gone cleanups + 1 else count_in gone cleanups

count_host-delete_all :
    (host : Bytes) (gone cleanups : Cleanups)
    → count_host host (delete_all gone cleanups) + count_in gone (of_host host cleanups)
      ≡ count_host host cleanups
unfolding count_host delete_all count_in of_host
count_host-delete_all host gone [] = refl
count_host-delete_all host gone ((id, c) ∷ cleanups) =
    ground (arith, count_host-delete_all host gone cleanups)

length-of_host :
    (host : Bytes) (cleanups : Cleanups) → length (of_host host cleanups) ≡ count_host host cleanups
unfolding of_host count_host
length-of_host host [] = refl
length-of_host host ((id, c) ∷ cleanups) = ground (arith, length-of_host host cleanups)

length-insert_by_age :
    (c : Bytes × PendingCleanup) (cleanups : Cleanups)
    → length (insert_by_age c cleanups) ≡ length cleanups + 1
length-insert_by_age c [] = refl
length-insert_by_age c (d ∷ cleanups) = ground (arith, length-insert_by_age c cleanups)

length-order_by_age : (cleanups : Cleanups) → length (order_by_age cleanups) ≡ length cleanups
unfolding order_by_age
length-order_by_age [] = refl
length-order_by_age (c ∷ cleanups) =
    omega (arith, length-insert_by_age c (order_by_age cleanups), length-order_by_age cleanups)

count_in-insert_by_age :
    (gone : Cleanups) (c : Bytes × PendingCleanup) (cleanups : Cleanups)
    → count_in gone (insert_by_age c cleanups) ≡ count_in gone (c ∷ cleanups)
unfolding count_in
count_in-insert_by_age gone c [] = refl
count_in-insert_by_age gone c (d ∷ cleanups) =
    ground (arith, count_in-insert_by_age gone c cleanups)

count_in-order_by_age :
    (gone cleanups : Cleanups) → count_in gone (order_by_age cleanups) ≡ count_in gone cleanups
unfolding order_by_age count_in
count_in-order_by_age gone [] = refl
count_in-order_by_age gone (c ∷ cleanups) = ground (
  arith,
  count_in-insert_by_age gone c (order_by_age cleanups),
  count_in-order_by_age gone cleanups,
)

count_in-append :
    (gone xs ys : Cleanups) → count_in gone (xs ++ ys) ≡ count_in gone xs + count_in gone ys
unfolding count_in
count_in-append gone [] ys = omega arith
count_in-append gone (c ∷ xs) ys = ground (arith, count_in-append gone xs ys)

abbrev AreIn : Cleanups → Cleanups → Type 0
AreIn gone xs = All (λ c. has_id c.0 gone ≡ true) xs

AreIn-weaken :
    (d : Bytes × PendingCleanup) (gone xs : Cleanups) → AreIn gone xs → AreIn (d ∷ gone) xs
unfolding has_id
AreIn-weaken d gone [] h = tt
AreIn-weaken d gone (c ∷ xs) h = (ground (arith, h.0), AreIn-weaken d gone xs h.1)

AreIn-refl : (xs : Cleanups) → AreIn xs xs
unfolding has_id
AreIn-refl [] = tt
AreIn-refl (c ∷ xs) = (ground (arith, ==-refl c.0), AreIn-weaken c xs xs (AreIn-refl xs))

count_in-AreIn : (gone xs : Cleanups) → AreIn gone xs → count_in gone xs ≡ length xs
unfolding count_in
count_in-AreIn gone [] h = refl
count_in-AreIn gone (c ∷ xs) h = ground (arith, h.0, count_in-AreIn gone xs h.1)

-- The first entries of a host are all of them entries that are deleted.
evicted_many : (n : ℕ) (xs : Cleanups) → n ≤ length xs → n ≤ count_in (take n (order_by_age xs)) xs
evicted_many n xs h =
    let ordered : Cleanups = order_by_age xs in
    let oldest : Cleanups = take n ordered in
    omega (
      arith,
      h,
      count_in-order_by_age oldest xs,
      ap (count_in oldest) (take-append-drop n ordered),
      count_in-append oldest oldest (drop n ordered),
      count_in-AreIn oldest oldest (AreIn-refl oldest),
      length-take n ordered,
      length-order_by_age xs,
    )

count_host-evict_le :
    (host other : Bytes) (xs : Cleanups)
    → count_host other (evict_oldest host xs) ≤ count_host other xs
unfolding evict_oldest
count_host-evict_le host other xs =
    if_cases (λ left. count_host other left ≤ count_host other xs)
      (leb max_pending_cleanups_per_host (count_host host xs))
      (λ full. omega (arith, count_host-delete_all other _ xs)) (λ room. omega arith)

count_host-evict :
    (host : Bytes) (xs : Cleanups)
    → count_host host xs ≤ max_pending_cleanups_per_host
    → count_host host (evict_oldest host xs) + 1 ≤ max_pending_cleanups_per_host
unfolding evict_oldest
count_host-evict host xs bound =
    let n : ℕ = count_host host xs - max_pending_cleanups_per_host + 1 in
    if_cases (λ left. count_host host left + 1 ≤ max_pending_cleanups_per_host)
      (leb max_pending_cleanups_per_host (count_host host xs))
      (λ full. omega (
        arith,
        bound,
        leb→le max_pending_cleanups_per_host (count_host host xs) full,
        count_host-delete_all host (take n (order_by_age (of_host host xs))) xs,
        evicted_many n (of_host host xs)
            (omega (arith, bound, length-of_host host xs, leb→le 50 (count_host host xs) full)),
        length-of_host host xs,
      ))
      (λ room. ground (arith, room))

count_host-upsert :
    (host : Bytes) (c : PendingCleanup) (xs : Cleanups)
    → count_host host (upsert_cleanup c xs)
      ≤ (if c.host_id == host then count_host host xs + 1 else count_host host xs)
unfolding count_host upsert_cleanup
count_host-upsert host c [] = ground arith
count_host-upsert host c ((id, d) ∷ xs) = ground (arith, count_host-upsert host c xs)

count_host-remove :
    (host id : Bytes) (xs : Cleanups) → count_host host (remove id xs) ≤ count_host host xs
unfolding count_host remove
count_host-remove host id [] = omega arith
count_host-remove host id ((j, d) ∷ xs) = ground (arith, count_host-remove host id xs)

upsert_evict :
    (host : Bytes) (now : ℕ) (c : PendingCleanup) (xs : Cleanups)
    → count_host host xs ≤ max_pending_cleanups_per_host
    → count_host host (upsert_cleanup (stamped now c) (evict_oldest c.host_id xs))
      ≤ max_pending_cleanups_per_host
upsert_evict host now c xs h = elim (Bool-cases (c.host_id == host)) [
  | inl same ↦
      let here : c.host_id ≡ host = (bytes_beq_iff c.host_id host).0 same in
      ground (
        arith,
        same,
        count_host-upsert host (stamped now c) (evict_oldest c.host_id xs),
        subst (λ id. count_host host (evict_oldest id xs) + 1 ≤ 50) (sym here)
            (count_host-evict host xs h),
      )
  | inr other ↦ ground (
    arith,
    h,
    other,
    count_host-upsert host (stamped now c) (evict_oldest c.host_id xs),
    count_host-evict_le c.host_id host xs,
  )
]

abbrev pub IsBounded : {B : Type 0} → Database B → Type 0
IsBounded db = (host : Bytes) → count_host host db.pending_cleanups ≤ max_pending_cleanups_per_host

module _ {B : Type 0} (driver : Driver) where
  pub add_pending_cleanup-IsBounded :
      (now : ℕ) (c : PendingCleanup) (db : Database B)
      → IsBounded db
      → IsBounded (add_pending_cleanup driver now c db).0
  add_pending_cleanup-IsBounded now c db h =
      Settles-any IsBounded (Adds driver now c db) db (add_pending_cleanup driver now c db)
        (add_pending_cleanup-Adds driver now c db) h
        (λ changed u a.
          subst IsBounded (sym a.1) (λ host. upsert_evict host now c db.pending_cleanups (h host)))

  pub remove_pending_cleanup-IsBounded :
      (id : Bytes) (db : Database B)
      → IsBounded db
      → IsBounded (remove_pending_cleanup driver id db).0
  remove_pending_cleanup-IsBounded id db h =
      Settles-any IsBounded (Removes driver id db) db (remove_pending_cleanup driver id db)
        (remove_pending_cleanup-Removes driver id db) h
        (λ changed u is.
          subst IsBounded (sym is)
            (λ host. omega (arith, h host, count_host-remove host id db.pending_cleanups)))
