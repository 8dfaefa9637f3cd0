-- ===== src/Host/Store/Puts.antt =====
-- hub/internal/host/store.go: how Put and Delete end.
use visual_tmux_client.Prelude.{
  ap, ℕ, ◌≡◌, refl, true, false, ◌&&◌, Bytes, Option, none, some, List, ◌==◌, ltb, bytes_eq, nat_eq,
  arith,
}
use visual_tmux_client.Prelude.Map.{lookup, insert, remove}
use visual_tmux_client.Host.Outcome.{
  Ends, Settles, ok-Ends, err-Ends, after-Ends, if-Ends, and_then-Ends, transact-Settles,
}
use visual_tmux_client.Host.Identity.{Error, is_local}
use visual_tmux_client.Host.Store.{Record, Codec, Row, Database, Driver, with_type, Watermark}
use visual_tmux_client.Host.Store.Hosts.{
  put, put_valid, upsert_host_record, write_host, with_host, row_of, violates_index,
  validate_put_record, finds_row, count_local, exec_error, raise_watermark, put_all,
}
use visual_tmux_client.Host.Store.Removal.{
  clear_default, delete, delete_row, delete_all, raise_stored, raised_by, without_host,
}

module _ {B : Type 0} (json : Codec B) (driver : Driver) where
  -- What a statement that writes a row has found and made.
  abbrev pub Writes : ℕ → Record → List (Bytes × Row B) → List (Bytes × Row B) → Type 0
  Writes expected r rows written =
      (written ≡ insert r.id (row_of r (json.marshal r)) rows)
      × (finds_row r expected rows ≡ true)
      × (violates_index r.id r.connection_type rows ≡ false)

  write_host-Writes :
      (expected : ℕ) (r : Record) (rows : List (Bytes × Row B))
      → Ends (Writes expected r rows) (write_host json driver r expected rows)
  unfolding insert violates_index lookup
  write_host-Writes expected r rows = after-Ends (exec_error (driver 2)) (
      if-Ends (finds_row r expected rows)
        (λ found.
          if-Ends (violates_index r.id r.connection_type rows) (λ second. err-Ends)
            (λ single. after-Ends (driver 3) (ok-Ends (refl, found, single))))
        (λ stale. after-Ends (driver 3) err-Ends))

  upsert-Writes :
      (expected : ℕ) (r : Record) (rows : List (Bytes × Row B))
      → Ends (Writes expected r rows) (upsert_host_record json driver r expected rows)
  unfolding upsert_host_record
  upsert-Writes expected r rows =
      if-Ends (is_local r.connection_type && expected == 0)
        (λ first. after-Ends (driver 1) (
          if-Ends (ltb 0 (count_local rows)) (λ second. err-Ends)
            (λ single. write_host-Writes expected r rows)))
        (λ other. write_host-Writes expected r rows)

  -- What a successful Put leaves.
  abbrev pub Puts : ℕ → Record → Database B → Database B → Unit {0} → Type 0
  Puts expected r db changed u =
      (changed ≡ with_host r db (insert r.id (row_of r (json.marshal r)) db.hosts))
      × (finds_row r expected db.hosts ≡ true)
      × (violates_index r.id r.connection_type db.hosts ≡ false)
      × (validate_put_record r expected ≡ none)

  put_valid-Puts :
      (expected : ℕ) (r : Record) (o : Option Error) (db : Database B)
      → validate_put_record r expected ≡ o
      → Settles (Puts expected r db) db (put_valid json driver r expected o db)
  unfolding insert upsert_host_record raise_watermark
  put_valid-Puts expected r (some e) db valid = refl
  put_valid-Puts expected r none db valid =
      transact-Settles (Puts expected r db) db (put_all json driver r expected db) (
        after-Ends (driver 0) (
          and_then-Ends (upsert-Writes expected r db.hosts) (λ rows w.
            after-Ends (driver 4)
              (after-Ends (driver 5) (ok-Ends (ap (with_host r db) w.0, w.1, w.2, valid))))))

  -- Put installs the record and raises its watermark, or it leaves the database alone.
  pub put-Puts :
      (r : Record) (expected : ℕ) (db : Database B)
      → Settles (Puts expected (with_type r) db) db (put json driver r expected db)
  unfolding put
  put-Puts r expected db =
      put_valid-Puts expected (with_type r) (validate_put_record (with_type r) expected) db refl

  -- What a successful Delete leaves.
  abbrev pub Deletes : Bytes → ℕ → Database B → Database B → Unit {0} → Type 0
  Deletes id expected db changed u =
      (row : Row B) × (lookup id db.hosts ≡ some row)
      × (row.revision ≡ expected)
      × (changed ≡ without_host id db (raised_by (json.unmarshal row.blob) db.watermarks))

  raise_stored_is :
      (o : Option Record) (marks : List (Bytes × Watermark))
      → Ends (λ raised. raised ≡ raised_by o marks) (raise_stored driver o marks)
  unfolding raise_watermark
  raise_stored_is none marks = ok-Ends refl
  raise_stored_is (some r) marks = after-Ends (driver 2) (ok-Ends refl)

  delete_row-Deletes :
      (id : Bytes) (expected : ℕ) (db : Database B) (found : Option (Row B))
      → lookup id db.hosts ≡ found
      → Ends (λ p. Deletes id expected db p.0 p.1) (delete_row json driver id expected db found)
  unfolding raise_watermark remove clear_default
  delete_row-Deletes id expected db none e = err-Ends
  delete_row-Deletes id expected db (some row) e =
      if-Ends (row.revision == expected)
        (λ current.
          and_then-Ends (raise_stored_is (json.unmarshal row.blob) db.watermarks) (λ marks m.
            after-Ends (driver 3) (
              after-Ends (driver 4) (
                after-Ends (driver 5) (
                  after-Ends (driver 6)
                    (ok-Ends (row, e, ground (arith, current), ap (without_host id db) m)))))))
        (λ stale. err-Ends)

  -- Delete removes a row that has the expected revision, or it leaves the database alone.
  pub delete-Deletes :
      (id : Bytes) (expected : ℕ) (db : Database B)
      → Settles (Deletes id expected db) db (delete json driver id expected db)
  unfolding delete lookup
  delete-Deletes id expected db =
      transact-Settles (Deletes id expected db) db (delete_all json driver id expected db) (
        after-Ends (driver 0)
          (after-Ends (driver 1) (delete_row-Deletes id expected db (lookup id db.hosts) refl)))
