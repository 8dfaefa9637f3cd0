-- ===== src/Host/Store/Cleanups.antt =====
-- hub/internal/host/store.go: the pending cleanups of remote hosts.
use visual_tmux_client.Prelude.{
  ℕ, ◌+◌, ◌-◌, Bool, false, ◌||◌, Bytes, codes, Option, none, List, [], ◌∷◌, take, if◌then◌else◌,
  ◌==◌, leb, bytes_eq, is_empty, nat_eq,
}
use visual_tmux_client.Prelude.Map.{remove}
use visual_tmux_client.Host.Identity.{Error, Result, ok, err, failure, after}
use visual_tmux_client.Host.Store.{PendingCleanup, Database, Driver, transact}

abbrev pub max_pending_cleanups_per_host : ℕ
max_pending_cleanups_per_host = 50

abbrev pub Cleanups : Type 0
Cleanups = List (Bytes × PendingCleanup)

-- SELECT count(*) FROM pending_cleanups WHERE host_id = ?
unfoldable pub count_host : Bytes → Cleanups → ℕ
count_host host [] = 0
count_host host ((id, c) ∷ cleanups) =
    if c.host_id == host then count_host host cleanups + 1 else count_host host cleanups

abbrev pub insert_by_age : Bytes × PendingCleanup → Cleanups → Cleanups
insert_by_age c [] = c ∷ []
insert_by_age c (d ∷ cleanups) =
    if leb (c.1).created_at (d.1).created_at
    then c ∷ (d ∷ cleanups)
    else d ∷ insert_by_age c cleanups

-- ORDER BY created_at ASC, rows of the same age in the order of the table
unfoldable pub order_by_age : Cleanups → Cleanups
order_by_age [] = []
order_by_age (c ∷ cleanups) = insert_by_age c (order_by_age cleanups)

-- WHERE host_id = ?
unfoldable pub of_host : Bytes → Cleanups → Cleanups
of_host host [] = []
of_host host ((id, c) ∷ cleanups) =
    if c.host_id == host then (id, c) ∷ of_host host cleanups else of_host host cleanups

unfoldable pub has_id : Bytes → Cleanups → Bool
has_id id [] = false
has_id id (c ∷ cleanups) = c.0 == id || has_id id cleanups

-- DELETE FROM pending_cleanups WHERE id IN (…)
unfoldable pub delete_all : Cleanups → Cleanups → Cleanups
unfolding has_id
delete_all gone [] = []
delete_all gone (c ∷ cleanups) =
    if has_id c.0 gone then delete_all gone cleanups else c ∷ delete_all gone cleanups

-- if count >= MaxPendingCleanupsPerHost { … }
unfoldable pub evict_oldest : Bytes → Cleanups → Cleanups
unfolding count_host order_by_age of_host delete_all
evict_oldest host cleanups =
    if leb max_pending_cleanups_per_host (count_host host cleanups)
    then delete_all
        (take (count_host host cleanups - max_pending_cleanups_per_host + 1)
          (order_by_age (of_host host cleanups)))
        cleanups
    else cleanups

abbrev pub updated : PendingCleanup → PendingCleanup → PendingCleanup
updated c old = record {
  id = old.id;
  host_id = old.host_id;
  staging_path = c.staging_path;
  token = c.token;
  created_at = c.created_at;
}

-- INSERT … ON CONFLICT(id) DO UPDATE SET …
unfoldable pub upsert_cleanup : PendingCleanup → Cleanups → Cleanups
upsert_cleanup c [] = (c.id, c) ∷ []
upsert_cleanup c (d ∷ cleanups) =
    if d.0 == c.id then (d.0, updated c d.1) ∷ cleanups else d ∷ upsert_cleanup c cleanups

-- if rec.CreatedAt == 0 { rec.CreatedAt = time.Now().Unix() }
abbrev pub stamped : ℕ → PendingCleanup → PendingCleanup
stamped now c = record {
  id = c.id;
  host_id = c.host_id;
  staging_path = c.staging_path;
  token = c.token;
  created_at = if c.created_at == 0 then now else c.created_at;
}

unfoldable pub is_incomplete : PendingCleanup → Bool
is_incomplete c = is_empty c.id || is_empty c.host_id || is_empty c.staging_path || is_empty c.token

module _ {B : Type 0} where
  abbrev pub with_cleanups : Cleanups → Database B → Database B
  with_cleanups cleanups db = record {
    version = db.version;
    hosts = db.hosts;
    settings = db.settings;
    metadata = db.metadata;
    watermarks = db.watermarks;
    pending_cleanups = cleanups;
  }

module _ (driver : Driver) where
  -- The eviction is a statement only at the limit.
  abbrev pub evict_error : ℕ → Option Error
  evict_error count = if leb max_pending_cleanups_per_host count then driver 2 else none

  abbrev pub rows_read : ℕ → Cleanups → Result (List PendingCleanup)
  rows_read k [] = after (driver k) (ok [])
  rows_read k (c ∷ cleanups) = after (driver k) (prefix (rows_read (k + 1) cleanups))
    where
      prefix : Result (List PendingCleanup) → Result (List PendingCleanup)
      prefix (ok rest) = ok (c.1 ∷ rest)
      prefix (err e) = err e

module _ {B : Type 0} (driver : Driver) where
  -- From BeginTx to Commit.
  unfoldable pub add_all : ℕ → PendingCleanup → Database B → Result (Database B × Unit)
  unfolding count_host evict_oldest upsert_cleanup
  add_all now c db = after (driver 0) (
      after (driver 1) (
        after (evict_error driver (count_host c.host_id db.pending_cleanups)) (
          after (driver 3) (
            after (driver 4) (
              ok (
                with_cleanups
                    (upsert_cleanup (stamped now c) (evict_oldest c.host_id db.pending_cleanups))
                    db,
                tt,
              ))))))

  -- AddPendingCleanup
  unfoldable pub add_pending_cleanup : ℕ → PendingCleanup → Database B → Database B × Result Unit
  unfolding is_incomplete add_all
  add_pending_cleanup now c db =
      if is_incomplete c
      then (db, err (failure (codes "invalid pending cleanup record")))
      else transact db (add_all now c db)

  -- RemovePendingCleanup, one statement outside a transaction
  unfoldable pub remove_pending_cleanup : Bytes → Database B → Database B × Result Unit
  unfolding remove
  remove_pending_cleanup id db =
      transact db (after (driver 0) (ok (with_cleanups (remove id db.pending_cleanups) db, tt)))

  -- ListPendingCleanups
  unfoldable pub list_pending_cleanups : Bytes → Database B → Result (List PendingCleanup)
  unfolding order_by_age of_host
  list_pending_cleanups host db = after (driver 0) (
      rows_read driver 1 (
        order_by_age
          (if is_empty host then db.pending_cleanups else of_host host db.pending_cleanups)))
