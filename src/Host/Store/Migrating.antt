-- ===== src/Host/Store/Migrating.antt =====
-- hub/internal/host/store.go: what the migration from version 1 makes.
use visual_tmux_client.Prelude.{
  ℕ, ◌≡◌, refl, subst, ◌∙◌, false, Bytes, Option, none, some, List, [], ◌∷◌, ◌==◌, bytes_eq, arith,
  Bool-cases, inl, inr, bytes_beq_iff,
}
use visual_tmux_client.Prelude.Map.{lookup, insert, lookup-insert, IsUnique}
use visual_tmux_client.Host.Outcome.{Ends, ok-Ends, err-Ends, and_then-Ends}
use visual_tmux_client.Host.Store.{Record, Codec, Row, Watermark}
use visual_tmux_client.Host.Store.Hosts.{count_local}
use visual_tmux_client.Host.Store.Migration.{
  HostRowV1, row_v1, read_v1_hosts, with_type_column, set_record, rewrite_hosts, seed_watermarks,
  with_ssh,
}
use visual_tmux_client.Host.Store.Watermarks.{Watermarks}

module _ {B : Type 0} where
  -- The updates are those of the rows, in order.
  abbrev pub Updates : Codec B → List (Bytes × Row B) → List (HostRowV1 B) → Type 0
  Updates json [] [] = Unit
  Updates json [] (u ∷ updates) = ⊥
  Updates json (row ∷ rows) [] = ⊥
  Updates json ((id, row) ∷ rows) (u ∷ updates) =
      (u.id ≡ id)
      × (u.rev ≡ row.revision)
      × ((r : Record) × (json.unmarshal row.blob ≡ some r)
          × (u.blob ≡ json.marshal (with_ssh r))
          × (u.conn_rev ≡ r.connection_revision))
      × Updates json rows updates

  row_v1-is :
      (json : Codec B) (id : Bytes) (row : Row B) (found : Option Record)
      → json.unmarshal row.blob ≡ found
      → Ends
          (λ u.
            (u.id ≡ id)
            × (u.rev ≡ row.revision)
            × ((r : Record) × (json.unmarshal row.blob ≡ some r)
                × (u.blob ≡ json.marshal (with_ssh r))
                × (u.conn_rev ≡ r.connection_revision)))
          (row_v1 json id row.revision found)
  row_v1-is json id row none e = err-Ends
  row_v1-is json id row (some r) e = ok-Ends (refl, refl, (r, e, refl, refl))

  pub read_v1_hosts-Updates :
      (json : Codec B) (rows : List (Bytes × Row B))
      → Ends (Updates json rows) (read_v1_hosts json rows)
  unfolding read_v1_hosts
  read_v1_hosts-Updates json [] = ok-Ends tt
  read_v1_hosts-Updates json ((id, row) ∷ rows) =
      and_then-Ends (row_v1-is json id row (json.unmarshal row.blob) refl) (λ u (a, b, c).
        and_then-Ends (read_v1_hosts-Updates json rows) (λ updates h. ok-Ends (a, b, c, h)))

  -- What the migration keeps of a row.
  abbrev pub revision_of : Option (Row B) → Option ℕ
  revision_of none = none
  revision_of (some row) = some row.revision

  revision_of-set_record :
      (id j : Bytes) (blob : B) (rows : List (Bytes × Row B))
      → revision_of (lookup id (set_record j blob rows)) ≡ revision_of (lookup id rows)
  unfolding lookup set_record
  revision_of-set_record id j blob [] = refl
  revision_of-set_record id j blob ((i, row) ∷ rows) =
      ground (arith, revision_of-set_record id j blob rows)

  revision_of-rewrite :
      (id : Bytes) (updates : List (HostRowV1 B)) (rows : List (Bytes × Row B))
      → revision_of (lookup id (rewrite_hosts updates rows)) ≡ revision_of (lookup id rows)
  unfolding rewrite_hosts
  revision_of-rewrite id [] rows = refl
  revision_of-rewrite id (u ∷ updates) rows =
      revision_of-rewrite id updates (set_record u.id u.blob rows)
      ∙ revision_of-set_record id u.id u.blob rows

  revision_of-column :
      (id : Bytes) (rows : List (Bytes × Row B))
      → revision_of (lookup id (with_type_column rows)) ≡ revision_of (lookup id rows)
  unfolding lookup with_type_column
  revision_of-column id [] = refl
  revision_of-column id ((i, row) ∷ rows) = ground (arith, revision_of-column id rows)

  pub rewritten_revision :
      (id : Bytes) (updates : List (HostRowV1 B)) (rows : List (Bytes × Row B))
      → revision_of (lookup id (rewrite_hosts updates (with_type_column rows)))
        ≡ revision_of (lookup id rows)
  rewritten_revision id updates rows =
      revision_of-rewrite id updates (with_type_column rows) ∙ revision_of-column id rows

  count_local-column : (rows : List (Bytes × Row B)) → count_local (with_type_column rows) ≡ 0
  unfolding count_local with_type_column
  count_local-column [] = refl
  count_local-column ((id, row) ∷ rows) = count_local-column rows

  count_local-set_record :
      (id : Bytes) (blob : B) (rows : List (Bytes × Row B))
      → count_local rows ≡ 0
      → count_local (set_record id blob rows) ≡ 0
  unfolding count_local set_record
  count_local-set_record id blob [] h = refl
  count_local-set_record id blob ((i, row) ∷ rows) h =
      ground (arith, h, count_local-set_record id blob rows)

  count_local-rewrite :
      (updates : List (HostRowV1 B)) (rows : List (Bytes × Row B))
      → count_local rows ≡ 0
      → count_local (rewrite_hosts updates rows) ≡ 0
  unfolding rewrite_hosts
  count_local-rewrite [] rows h = h
  count_local-rewrite (u ∷ updates) rows h =
      count_local-rewrite updates (set_record u.id u.blob rows)
        (count_local-set_record u.id u.blob rows h)

  pub rewritten_local :
      (updates : List (HostRowV1 B)) (rows : List (Bytes × Row B))
      → count_local (rewrite_hosts updates (with_type_column rows)) ≡ 0
  rewritten_local updates rows =
      count_local-rewrite updates (with_type_column rows) (count_local-column rows)

  absent_cons :
      (id i : Bytes) (row : Row B) (rows : List (Bytes × Row B))
      → lookup id ((i, row) ∷ rows) ≡ none
      → ((i == id) ≡ false) × (lookup id rows ≡ none)
  unfolding lookup
  absent_cons id i row rows e = ground (arith, e)

  seed-absent :
      (json : Codec B) (id : Bytes) (rows : List (Bytes × Row B)) (updates : List (HostRowV1 B))
      (marks : Watermarks)
      → Updates json rows updates
      → lookup id rows ≡ none
      → lookup id (seed_watermarks updates marks) ≡ lookup id marks
  unfolding seed_watermarks
  seed-absent json id [] [] marks h e = refl
  seed-absent json id [] (u ∷ updates) marks h e = elim h [ ]
  seed-absent json id (row ∷ rows) [] marks h e = elim h [ ]
  seed-absent json id ((i, row) ∷ rows) (u ∷ updates) marks h e =
      let mark : Watermark = record { revision = u.rev; connection_revision = u.conn_rev } in
      let (apart, rest) = absent_cons id i row rows e in
      seed-absent json id rows updates (insert u.id mark marks) h.3 rest
      ∙ (lookup-insert u.id id mark marks ∙ rw (h.0, apart) refl)

  -- Every migrated row has its revision as the watermark.
  pub seed-present :
      (json : Codec B) (id : Bytes) (rows : List (Bytes × Row B)) (updates : List (HostRowV1 B))
      (marks : Watermarks)
      → Updates json rows updates
      → IsUnique rows
      → (revision : ℕ) → revision_of (lookup id rows) ≡ some revision
      → (mark : Watermark) × (lookup id (seed_watermarks updates marks) ≡ some mark)
        × (mark.revision ≡ revision)
  unfolding seed_watermarks lookup
  seed-present json id [] [] marks h u revision e = elim absurd [ ]
    where
      absurd : ⊥
      absurd = ground (arith, e)
  seed-present json id [] (v ∷ updates) marks h u revision e = elim h [ ]
  seed-present json id (row ∷ rows) [] marks h u revision e = elim h [ ]
  seed-present json id ((i, row) ∷ rows) (v ∷ updates) marks h u revision e =
      let mark : Watermark = record { revision = v.rev; connection_revision = v.conn_rev } in
      let later : Watermarks = insert v.id mark marks in
      let rest = seed-present json id rows updates later h.3 u.1 revision in
      elim (Bool-cases (i == id)) [
        | inl here ↦
            let same : i ≡ id = (bytes_beq_iff i id).0 here in
            (
              mark,
              seed-absent json id rows updates later h.3
                    (subst (λ x. lookup x rows ≡ none) same u.0)
                  ∙ (lookup-insert v.id id mark marks ∙ rw (h.0, here) refl),
              ground (arith, h.1, e, here),
            )
        | inr other ↦ rest (ground (arith, e, other))
      ]
