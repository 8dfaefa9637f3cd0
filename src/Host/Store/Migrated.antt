-- ===== src/Host/Store/Migrated.antt =====
-- hub/internal/host/store.go: a migrated database keeps its hosts and satisfies the invariant.
use visual_tmux_client.Prelude.{
  ◌≤◌, ◌≡◌, ◌≢◌, refl, sym, ap, subst, ◌∙◌, Bytes, none, List, [], ◌==◌, ==-refl, bytes_eq, arith,
  Bool-cases, inl, inr,
}
use visual_tmux_client.Prelude.Map.{lookup, insert, remove, lookup-insert, IsUnique}
use visual_tmux_client.Host.Identity.{local_id}
use visual_tmux_client.Host.Store.{Codec, Row, Database}
use visual_tmux_client.Host.Store.Hosts.{count_local, violates_index}
use visual_tmux_client.Host.Store.Fresh.{fresh_database, local_row, first_mark}
use visual_tmux_client.Host.Store.Migration.{
  HostRowV1, rewrite_hosts, with_type_column, seed_watermarks, bootstrap_local_host,
  bootstrap_watermark, migrated, lacks,
}
use visual_tmux_client.Host.Store.Migrating.{
  Updates, revision_of, rewritten_revision, rewritten_local, seed-present,
}
use visual_tmux_client.Host.Store.Rows.{count_local-insert_le, count_local-remove}
use visual_tmux_client.Host.Store.Sound.{IsSound, IsCovered}
use visual_tmux_client.Host.Store.Watermarks.{Watermarks}

module _ {B : Type 0} (json : Codec B) where
  abbrev rewritten : List (HostRowV1 B) → Database B → List (Bytes × Row B)
  unfolding rewrite_hosts with_type_column
  rewritten updates db = rewrite_hosts updates (with_type_column db.hosts)

  rewritten-IsCovered :
      (updates : List (HostRowV1 B)) (db : Database B)
      → Updates json db.hosts updates
      → IsUnique db.hosts
      → IsCovered
          (rewrite_hosts updates (with_type_column db.hosts))
          (seed_watermarks updates db.watermarks)
  rewritten-IsCovered updates db h u id row e =
      let (mark, found, same) =
        seed-present json id db.hosts updates db.watermarks h u row.revision
          (sym (rewritten_revision id updates db.hosts) ∙ ap revision_of e) in
      (mark, found, omega (arith, same))

  module _ (rows : List (Bytes × Row B)) (marks : Watermarks) where
    bootstrapped-IsCovered :
        IsCovered rows marks
        → IsCovered (insert local_id (local_row json) rows) (insert local_id first_mark marks)
    bootstrapped-IsCovered h id row e = elim (Bool-cases (local_id == id)) [
      | inl here ↦
          let new : row ≡ local_row json =
            ground (arith, e, here, lookup-insert local_id id (local_row json) rows) in
          (
            first_mark,
            lookup-insert local_id id first_mark marks ∙ rw here refl,
            rw new (omega arith),
          )
      | inr other ↦
          let (mark, found, le) =
            h id row (ground (arith, e, other, lookup-insert local_id id (local_row json) rows)) in
          (mark, lookup-insert local_id id first_mark marks ∙ rw other found, le)
    ]

    bootstrap-IsCovered :
        IsCovered rows marks
        → IsCovered (bootstrap_local_host json rows) (bootstrap_watermark json rows marks)
    unfolding bootstrap_local_host bootstrap_watermark
    bootstrap-IsCovered h = elim (Bool-cases (lacks (lookup local_id rows))) [
      | inl new ↦ rw new (bootstrapped-IsCovered h)
      | inr old ↦ rw old h
    ]

  bootstrap_local :
      (rows : List (Bytes × Row B))
      → count_local rows ≡ 0
      → count_local (bootstrap_local_host json rows) ≤ 1
  unfolding bootstrap_local_host violates_index
  bootstrap_local rows h = elim (Bool-cases (lacks (lookup local_id rows))) [
    | inl new ↦ rw new (
        count_local-insert_le local_id (local_row json) rows
          (ground (arith, h, count_local-remove local_id rows)) (omega (arith, h)))
    | inr old ↦ rw old (omega (arith, h))
  ]

  bootstrap_known :
      (rows : List (Bytes × Row B)) → lookup local_id (bootstrap_local_host json rows) ≢ none
  unfolding bootstrap_local_host
  bootstrap_known rows = elim (Bool-cases (lacks (lookup local_id rows))) [
    | inl new ↦
        rw (new, lookup-insert local_id local_id (local_row json) rows, ==-refl local_id)
          (ground arith)
    | inr old ↦ rw old (ground (arith, old))
  ]

  -- The migration of a database whose hosts have different identities, without settings, makes a
  -- sound one.
  pub migrated-IsSound :
      (updates : List (HostRowV1 B)) (db : Database B)
      → Updates json db.hosts updates
      → IsUnique db.hosts
      → db.settings ≡ none
      → IsSound (migrated json updates db)
  unfolding bootstrap_local_host bootstrap_watermark rewrite_hosts seed_watermarks insert
      with_type_column
  migrated-IsSound updates db h u blank = (
    bootstrap_local _ (rewritten_local updates db.hosts),
    bootstrap-IsCovered _ _ (rewritten-IsCovered updates db h u),
    λ s id es ed.
        let here : local_id ≡ id = ground (arith, es, ed, blank) in
        subst
          (λ x.
            lookup x (bootstrap_local_host json (rewrite_hosts updates (with_type_column db.hosts)))
            ≢ none)
          here (bootstrap_known (rewrite_hosts updates (with_type_column db.hosts))),
  )

  none-IsCovered : IsCovered {B = B} [] []
  unfolding lookup
  none-IsCovered id row e = let absurd : ⊥ = ground (arith, e) in elim absurd [ ]

  -- The first database is sound.
  pub fresh_database-IsSound : IsSound (fresh_database json)
  unfolding insert remove count_local
  fresh_database-IsSound = (
    omega arith,
    bootstrapped-IsCovered [] [] none-IsCovered,
    λ s id es ed.
        let here : local_id ≡ id = ground (arith, es, ed) in
        subst (λ x. lookup x (insert local_id (local_row json) []) ≢ none) here
          (rw (lookup-insert local_id local_id (local_row json) [], ==-refl local_id)
            (ground arith)),
  )
