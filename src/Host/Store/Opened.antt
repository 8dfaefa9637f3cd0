-- ===== src/Host/Store/Opened.antt =====
-- hub/internal/host/store.go: how OpenStore ends.
use visual_tmux_client.Prelude.{
  ℕ, zero, suc, ◌≡◌, refl, sym, subst, true, false, Option, none, some, List, ◌==◌, ==-refl, ◌∙◌,
  nat_eq, arith, if_cases,
}
use visual_tmux_client.Prelude.Int.{ℤ, pos, negsuc, ltb_ℤ, int_eq}
use visual_tmux_client.Prelude.Map.{lookup, insert, remove, lookup-insert}
use visual_tmux_client.Host.Identity.{Error, Result, ok, err}
use visual_tmux_client.Host.Outcome.{
  Ends, Settles, ok-Ends, err-Ends, after-Ends, if-Ends, and_then-Ends, transact-Settles,
}
use visual_tmux_client.Host.Store.{Record, Codec, Database, Driver}
use visual_tmux_client.Host.Store.Files.{
  Answers, verify_state_directory, open_database_file, backup_state,
}
use visual_tmux_client.Host.Store.Fresh.{fresh_database, initialize_all, initialize_fresh_database}
use visual_tmux_client.Host.Store.Migration.{
  HostRowV1, migrated, migrate_all, migrate_database, validate_credentials,
}
use visual_tmux_client.Host.Store.Migrating.{Updates, read_v1_hosts-Updates}
use visual_tmux_client.Host.Store.Opening.{
  Directory, Backup, copy, opened, backed_up, open_old, open_version, ready, open_when, open_store,
}

module _ {B : Type 0} (json : Codec B) where
  -- A migrated database, with the updates that were read from its rows.
  abbrev pub Migrates : Database B → Database B → Unit {0} → Type 0
  Migrates db changed u =
      (updates : List (HostRowV1 B)) × Updates json db.hosts updates
      × (changed ≡ migrated json updates db)

  migrate_all-Migrates :
      (driver : Driver) (validator : Option (Record → Option Error)) (db : Database B)
      → Ends (λ p. Migrates db p.0 p.1) (migrate_all json driver validator db)
  unfolding migrate_all
  migrate_all-Migrates driver validator db = after-Ends (driver 1) (
      after-Ends (driver 2) (
        after-Ends (driver 3) (
          and_then-Ends (read_v1_hosts-Updates json db.hosts) (λ updates h. after-Ends (driver 4) (
            after-Ends (driver 5) (
              and_then-Ends (anything (validate_credentials json validator updates)) (λ u _.
                after-Ends (driver 6) (after-Ends (driver 7) (ok-Ends (updates, h, refl))))))))))
    where
      anything : (r : Result Unit) → Ends (λ u. Unit {0}) r
      anything (ok u) = ok-Ends tt
      anything (err e) = err-Ends

  migrate_database-Migrates :
      (driver : Driver) (validator : Option (Record → Option Error)) (db : Database B)
      → Settles (Migrates db) db (migrate_database json driver validator db)
  unfolding migrate_database
  migrate_database-Migrates driver validator db =
      transact-Settles (Migrates db) db (migrate_all json driver validator db)
        (migrate_all-Migrates driver validator db)

  abbrev pub Initializes : ℕ → Database B → Unit {0} → Type 0
  Initializes tables changed u = (tables ≡ 0) × (changed ≡ fresh_database json)

  initialize-Initializes :
      (driver : Driver) (tables : ℕ) (db : Database B)
      → Settles (Initializes tables) db (initialize_fresh_database json driver tables db)
  unfolding initialize_fresh_database initialize_all
  initialize-Initializes driver tables db =
      transact-Settles (Initializes tables) db (initialize_all json driver tables) (
        after-Ends (driver 1) (
          if-Ends (tables == 0)
            (λ empty. after-Ends (driver 2) (
              after-Ends (driver 3) (
                after-Ends (driver 4) (
                  after-Ends (driver 5) (
                    after-Ends (driver 6) (
                      after-Ends (driver 7) (
                        after-Ends (driver 8)
                          (after-Ends (driver 9) (ok-Ends (ground (arith, empty), refl))))))))))
            (λ other. err-Ends)))

  -- What OpenStore leaves for each version of the schema.
  abbrev pub OpensVersion : ℤ → ℕ → Directory B → Directory B → Type 0
  OpensVersion (pos zero) tables dir left =
      (tables ≡ 0) × (left.database ≡ fresh_database json) × (left.backups ≡ dir.backups)
  OpensVersion (pos (suc zero)) tables dir left =
      Migrates dir.database left.database tt
      × (lookup (pos 1) left.backups ≡ some (copy dir.database))
  OpensVersion (pos (suc (suc zero))) tables dir left =
      (left.database ≡ dir.database) × (left.backups ≡ dir.backups)
  OpensVersion (pos (suc (suc (suc n)))) tables dir left = ⊥
  OpensVersion (negsuc n) tables dir left =
      (left.database ≡ dir.database) × (lookup (negsuc n) left.backups ≡ some (copy dir.database))

  abbrev pub Opens : ℕ → Directory B → Directory B × Result Unit → Type 0
  Opens tables dir (left, err e) = (left.database ≡ dir.database) × (left.locked ≡ false)
  Opens tables dir (left, ok u) =
      (left.locked ≡ true) × OpensVersion dir.database.version tables dir left

  opened-Opens :
      (tables : ℕ) (dir : Directory B) (made kept : List (ℤ × Backup B))
      (Q : Database B → Unit {0} → Type 0) (r : Database B × Result Unit)
      → Settles Q dir.database r
      → ((changed : Database B) (u : Unit)
          → Q changed u
          → OpensVersion dir.database.version tables dir
              (record { database = changed; backups = made; locked = true }))
      → Opens tables dir (opened json made kept r)
  opened-Opens tables dir made kept Q (changed, ok u) h k = (refl, k changed u h)
  opened-Opens tables dir made kept Q (changed, err e) h k = (h, refl)

  -- The backup that was made is there.
  backed_up-copy :
      (dir : Directory B) (v : ℤ)
      → dir.database.version ≡ v
      → lookup v (backed_up json dir) ≡ some (copy dir.database)
  unfolding insert
  backed_up-copy dir v e =
      subst (λ w. lookup w (backed_up json dir) ≡ some (copy dir.database)) e
        (lookup-insert dir.database.version dir.database.version (copy dir.database) dir.backups
          ∙ rw (==-refl dir.database.version) refl)

  -- A version that is neither too new nor 0, 1 or 2 is negative.
  negative-OpensVersion :
      (tables : ℕ) (dir : Directory B) (v : ℤ)
      → dir.database.version ≡ v
      → (v == pos 0) ≡ false
      → ltb_ℤ v (pos 2) ≡ true
      → (v == pos 1) ≡ false
      → OpensVersion v tables dir
          (record { database = dir.database; backups = backed_up json dir; locked = true })
  unfolding insert lookup
  negative-OpensVersion tables dir (pos n) e set old other =
      absurd (ground (arith, set, old, other))
  negative-OpensVersion tables dir (negsuc n) e set old other =
      (refl, backed_up-copy dir (negsuc n) e)

  open_old-Opens :
      (a : Answers) (tables : ℕ) (driver : Driver) (validator : Option (Record → Option Error))
      (backup_error : Option Error) (dir : Directory B)
      → (dir.database.version == pos 0) ≡ false
      → ltb_ℤ dir.database.version (pos 2) ≡ true
      → Opens tables dir (open_old json a driver validator backup_error dir)
  unfolding migrate_database insert remove lookup
  open_old-Opens a tables driver validator (some e) dir set old = (refl, refl)
  open_old-Opens a tables driver validator none dir set old =
      if_cases (Opens tables dir) (dir.database.version == pos 1)
        (λ first.
          let v : dir.database.version ≡ pos 1 = ground (arith, first) in
          opened-Opens tables dir (backed_up json dir)
            (remove dir.database.version (backed_up json dir)) (Migrates dir.database)
            (migrate_database json driver validator dir.database)
            (migrate_database-Migrates driver validator dir.database)
            (λ changed u m.
              subst
                (λ n.
                  OpensVersion n tables dir
                    (record { database = changed; backups = backed_up json dir; locked = true }))
                (sym v) (m, backed_up-copy dir (pos 1) v)))
        (λ other. (refl, negative-OpensVersion tables dir dir.database.version refl set old other))

  open_version-Opens :
      (a : Answers) (tables : ℕ) (driver : Driver) (validator : Option (Record → Option Error))
      (dir : Directory B)
      → Opens tables dir (open_version json a driver validator tables dir)
  unfolding backup_state initialize_fresh_database migrate_database insert remove lookup
  open_version-Opens a tables driver validator dir =
      if_cases (Opens tables dir) (ltb_ℤ (pos 2) dir.database.version) (λ newer. (refl, refl))
        (λ known.
          if_cases (Opens tables dir) (dir.database.version == pos 0)
            (λ blank.
              opened-Opens tables dir dir.backups dir.backups (Initializes tables)
                (initialize_fresh_database json driver tables dir.database)
                (initialize-Initializes driver tables dir.database)
                (λ changed u i.
                  let v : dir.database.version ≡ pos 0 = ground (arith, blank) in
                  subst
                    (λ n.
                      OpensVersion n tables dir
                        (record { database = changed; backups = dir.backups; locked = true }))
                    (sym v) (i.0, i.1, refl)))
            (λ set.
              if_cases (Opens tables dir) (ltb_ℤ dir.database.version (pos 2))
                (λ old. open_old-Opens a tables driver validator (backup_state a) dir set old)
                (λ current.
                  let v : dir.database.version ≡ pos 2 = ground (arith, known, current) in
                  (
                    refl,
                    subst
                        (λ n. OpensVersion n tables dir (record {
                          database = dir.database;
                          backups = dir.backups;
                          locked = true;
                        }))
                        (sym v) (refl, refl),
                  ))))

  pub open_store-Opens :
      (a : Answers) (driver : Driver) (validator : Option (Record → Option Error)) (tables : ℕ)
      (dir : Directory B)
      → Opens tables dir (open_store json a driver validator tables dir)
  unfolding open_store
  open_store-Opens a driver validator tables dir =
      opens_when (ready json (verify_state_directory a) (open_database_file a) (driver 0))
    where
      opens_when :
          (r : Result Unit) → Opens tables dir (open_when json r a driver validator tables dir)
      opens_when (ok u) = open_version-Opens a tables driver validator dir
      opens_when (err e) = (refl, refl)
