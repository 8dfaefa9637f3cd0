-- ===== src/Host/Store/Rows.antt =====
-- hub/internal/host/store.go: the rows of the table hosts under a write and a removal.
use visual_tmux_client.Prelude.{
  ◌+◌, ◌≤◌, ◌≡◌, ◌≢◌, refl, subst, bytes_beq_iff, false, Bytes, Option, none, some, List, [], ◌∷◌,
  if◌then◌else◌, ◌==◌, bytes_eq, arith, Bool-cases, inl, inr,
}
use visual_tmux_client.Prelude.Map.{lookup, insert, remove, lookup-insert, lookup-remove}
use visual_tmux_client.Host.Identity.{is_local}
use visual_tmux_client.Host.Store.{Row, SettingsRow}
use visual_tmux_client.Host.Store.Hosts.{count_local, violates_index}
use visual_tmux_client.Host.Store.Removal.{clear_default, is_default}

module _ {B : Type 0} where
  pub count_local-remove :
      (id : Bytes) (rows : List (Bytes × Row B)) → count_local (remove id rows) ≤ count_local rows
  unfolding count_local remove
  count_local-remove id [] = omega arith
  count_local-remove id ((j, row) ∷ rows) = ground (arith, count_local-remove id rows)

  count_local-insert :
      (id : Bytes) (row : Row B) (rows : List (Bytes × Row B))
      → count_local (insert id row rows) ≡ (
          if is_local row.connection_type
          then count_local (remove id rows) + 1
          else count_local (remove id rows))
  unfolding count_local insert
  count_local-insert id row rows = refl

  -- A write that the unique index lets through.
  pub count_local-insert_le :
      (id : Bytes) (row : Row B) (rows : List (Bytes × Row B))
      → violates_index id row.connection_type rows ≡ false
      → count_local rows ≤ 1
      → count_local (insert id row rows) ≤ 1
  unfolding violates_index
  count_local-insert_le id row rows single h =
      rw (count_local-insert id row rows) (ground (arith, single, h, count_local-remove id rows))

  -- Every default host of the settings is a host.
  abbrev pub KnowsDefault : List (Bytes × Row B) → Option SettingsRow → Type 0
  KnowsDefault rows settings =
      (s : SettingsRow) (id : Bytes)
      → settings ≡ some s
      → s.default_host_id ≡ some id
      → lookup id rows ≢ none

  pub insert-KnowsDefault :
      (id : Bytes) (row : Row B) (rows : List (Bytes × Row B)) (settings : Option SettingsRow)
      → KnowsDefault rows settings
      → KnowsDefault (insert id row rows) settings
  insert-KnowsDefault id row rows settings h s d es ed =
      rw (lookup-insert id d row rows) (ground (arith, h s d es ed))

  pub clear_default-KnowsDefault :
      (id : Bytes) (rows : List (Bytes × Row B)) (settings : Option SettingsRow)
      → KnowsDefault rows settings
      → KnowsDefault (remove id rows) (clear_default id settings)
  unfolding clear_default
  clear_default-KnowsDefault id rows none h s d es ed = ground (arith, es)
  clear_default-KnowsDefault id rows (some old) h s d es ed =
      elim (Bool-cases (is_default id old.default_host_id)) [
        | inl gone ↦ ground (arith, es, ed, gone)
        | inr stays ↦
            let kept : old.default_host_id ≡ some d = ground (arith, es, ed, stays) in
            let other : (d == id) ≡ false = subst (λ o. is_default id o ≡ false) kept stays in
            let apart : (id == d) ≡ false =
              ground (arith, other, bytes_beq_iff id d, bytes_beq_iff d id) in
            rw (lookup-remove id d rows, apart) (h old d refl kept)
      ]
