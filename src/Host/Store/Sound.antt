-- ===== src/Host/Store/Sound.antt =====
-- hub/internal/host/store.go: the invariant of the database, kept by every call.
use visual_tmux_client.Prelude.{
  ℕ, ◌≤◌, ◌≡◌, refl, sym, subst, Bytes, some, List, ◌==◌, bytes_eq, arith, Bool-cases, inl, inr,
  bytes_beq_iff,
}
use visual_tmux_client.Prelude.Map.{lookup, insert, remove, lookup-insert, lookup-remove}
use visual_tmux_client.Host.Outcome.{Settles-any}
use visual_tmux_client.Host.Store.{Record, Codec, Row, Watermark, Database, Driver, with_type}
use visual_tmux_client.Host.Store.Hosts.{put, count_local, raise_watermark}
use visual_tmux_client.Host.Store.Removal.{delete, raised_by, clear_default}
use visual_tmux_client.Host.Store.Puts.{Puts, put-Puts, Deletes, delete-Deletes}
use visual_tmux_client.Host.Store.Watermarks.{
  Watermarks, Grows, raise_watermark-Reaches, raise_watermark-Grows, raised_by-Grows,
}
use visual_tmux_client.Host.Store.Rows.{
  KnowsDefault, insert-KnowsDefault, clear_default-KnowsDefault, count_local-insert_le,
  count_local-remove,
}

module _ {B : Type 0} where
  -- No row has a revision above the watermark of its host.
  abbrev pub IsCovered : List (Bytes × Row B) → Watermarks → Type 0
  IsCovered rows marks =
      (id : Bytes) (row : Row B)
      → lookup id rows ≡ some row
      → (mark : Watermark) × (lookup id marks ≡ some mark) × (row.revision ≤ mark.revision)

  -- At most one local host, no row above its watermark, and a default host that exists.
  abbrev pub IsSound : Database B → Type 0
  IsSound db =
      (count_local db.hosts ≤ 1)
      × IsCovered db.hosts db.watermarks
      × KnowsDefault db.hosts db.settings

  IsCovered-Grows :
      (rows : List (Bytes × Row B)) (marks later : Watermarks)
      → IsCovered rows marks
      → Grows marks later
      → IsCovered rows later
  IsCovered-Grows rows marks later h g id row e =
      let (mark, found, low) = h id row e in
      let (higher, there, le, _) = g id mark found in (higher, there, omega (arith, low, le))

  insert-IsCovered :
      (r : Record) (row : Row B) (rows : List (Bytes × Row B)) (marks : Watermarks)
      → row.revision ≡ r.revision
      → IsCovered rows marks
      → IsCovered (insert r.id row rows) (raise_watermark r marks)
  insert-IsCovered r row rows marks same h id found e = elim (Bool-cases (r.id == id)) [
    | inl here ↦
        let (mark, there, le, _) = raise_watermark-Reaches r marks in
        let at : r.id ≡ id = (bytes_beq_iff r.id id).0 here in
        let new : row ≡ found = ground (arith, e, here, lookup-insert r.id id row rows) in
        (mark, rw (sym at) there, rw (sym new, same) le)
    | inr other ↦
        IsCovered-Grows rows marks (raise_watermark r marks) h (raise_watermark-Grows r marks) id
          found (ground (arith, e, other, lookup-insert r.id id row rows))
  ]

  remove-IsCovered :
      (id : Bytes) (rows : List (Bytes × Row B)) (marks : Watermarks)
      → IsCovered rows marks
      → IsCovered (remove id rows) marks
  remove-IsCovered id rows marks h j row e = h j row (ground (arith, e, lookup-remove id j rows))

module _ {B : Type 0} (json : Codec B) (driver : Driver) where
  pub put-IsSound :
      (r : Record) (expected : ℕ) (db : Database B)
      → IsSound db
      → IsSound (put json driver r expected db).0
  unfolding raise_watermark
  put-IsSound r expected db (single, covered, known) =
      Settles-any IsSound (Puts json driver expected (with_type r) db) db
        (put json driver r expected db) (put-Puts json driver r expected db)
        (single, covered, known)
        (λ changed u p. subst IsSound (sym p.0) (
          count_local-insert_le _ _ db.hosts p.2 single,
          insert-IsCovered (with_type r) _ db.hosts db.watermarks refl covered,
          insert-KnowsDefault _ _ db.hosts db.settings known,
        ))

  pub delete-IsSound :
      (id : Bytes) (expected : ℕ) (db : Database B)
      → IsSound db
      → IsSound (delete json driver id expected db).0
  unfolding raise_watermark remove clear_default
  delete-IsSound id expected db (single, covered, known) =
      Settles-any IsSound (Deletes json driver id expected db) db
        (delete json driver id expected db) (delete-Deletes json driver id expected db)
        (single, covered, known)
        (λ changed u (row, found, same, is). subst IsSound (sym is) (
          omega (arith, single, count_local-remove id db.hosts),
          remove-IsCovered id db.hosts (raised_by (json.unmarshal row.blob) db.watermarks) (
              IsCovered-Grows db.hosts db.watermarks
                (raised_by (json.unmarshal row.blob) db.watermarks) covered
                (raised_by-Grows (json.unmarshal row.blob) db.watermarks)),
          clear_default-KnowsDefault id db.hosts db.settings known,
        ))
