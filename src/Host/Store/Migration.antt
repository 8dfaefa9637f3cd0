-- ===== src/Host/Store/Migration.antt =====
-- hub/internal/host/store.go: the migration from version 1 to version 2.
use visual_tmux_client.Prelude.Int.{pos}
use visual_tmux_client.Prelude.{
  ℕ, Bool, true, false, Bytes, codes, Option, none, some, List, [], ◌∷◌, if◌then◌else◌, ◌==◌,
  bytes_eq, is_empty, nat_eq,
}
use visual_tmux_client.Prelude.Map.{lookup, insert}
use visual_tmux_client.Host.Identity.{
  ConnectionType, Error, Result, ok, err, failure, local_id, after, and_then,
}
use visual_tmux_client.Host.Store.{
  Record, Codec, Row, SettingsRow, Watermark, Database, Driver, transact,
}
use visual_tmux_client.Host.Store.Fresh.{local_row, first_mark, first_settings}

abbrev pub settings_or_first : Option SettingsRow → SettingsRow
settings_or_first none = first_settings
settings_or_first (some row) = row

-- hostRowV1
pub record HostRowV1 (B : Type 0) : Type 0 where
  pub id : Bytes
  pub rev : ℕ
  pub conn_rev : ℕ
  pub blob : B

-- if rec.ConnectionType == "" { rec.ConnectionType = ConnectionTypeSSH }
abbrev pub ssh_unless_set : ConnectionType → ConnectionType
ssh_unless_set ConnectionType.blank = ConnectionType.ssh
ssh_unless_set ConnectionType.local = ConnectionType.local
ssh_unless_set ConnectionType.ssh = ConnectionType.ssh
ssh_unless_set (ConnectionType.unknown t) = ConnectionType.unknown t

abbrev pub with_ssh : Record → Record
with_ssh r = record {
  id = r.id;
  revision = r.revision;
  connection_revision = r.connection_revision;
  name = r.name;
  connection_type = ssh_unless_set r.connection_type;
  address = r.address;
  port = r.port;
  username = r.username;
  credential_type = r.credential_type;
  credential = r.credential;
  host_key = r.host_key;
}

module _ {B : Type 0} (json : Codec B) where
  abbrev pub row_v1 : Bytes → ℕ → Option Record → Result (HostRowV1 B)
  row_v1 id rev none = err (failure (codes "unmarshal host"))
  row_v1 id rev (some r) = ok (record {
    id = id;
    rev = rev;
    conn_rev = r.connection_revision;
    blob = json.marshal (with_ssh r);
  })

  -- readV1Hosts
  unfoldable pub read_v1_hosts : List (Bytes × Row B) → Result (List (HostRowV1 B))
  read_v1_hosts [] = ok []
  read_v1_hosts ((id, row) ∷ rows) =
      and_then (row_v1 id row.revision (json.unmarshal row.blob))
        (λ first. and_then (read_v1_hosts rows) (λ rest. ok (first ∷ rest)))

module _ {B : Type 0} where
  -- ADD COLUMN connection_type TEXT NOT NULL DEFAULT 'ssh'
  unfoldable pub with_type_column : List (Bytes × Row B) → List (Bytes × Row B)
  with_type_column [] = []
  with_type_column ((id, row) ∷ rows) =
      (
        id,
        record { revision = row.revision; connection_type = ConnectionType.ssh; blob = row.blob },
      )
      ∷ with_type_column rows

  -- UPDATE hosts SET record = ?, connection_type = 'ssh' WHERE id = ?
  unfoldable pub set_record : Bytes → B → List (Bytes × Row B) → List (Bytes × Row B)
  set_record id blob [] = []
  set_record id blob ((j, row) ∷ rows) =
      if j == id
      then (
        j,
        record { revision = row.revision; connection_type = ConnectionType.ssh; blob = blob },
      )
        ∷ set_record id blob rows
      else (j, row) ∷ set_record id blob rows

  -- The loop over rowsToUpdate, with its two statements for each row.
  unfoldable pub rewrite_hosts : List (HostRowV1 B) → List (Bytes × Row B) → List (Bytes × Row B)
  unfolding set_record
  rewrite_hosts [] rows = rows
  rewrite_hosts (r ∷ updates) rows = rewrite_hosts updates (set_record r.id r.blob rows)

  unfoldable pub seed_watermarks :
      List (HostRowV1 B) → List (Bytes × Watermark) → List (Bytes × Watermark)
  unfolding insert
  seed_watermarks [] marks = marks
  seed_watermarks (r ∷ updates) marks =
      seed_watermarks updates
        (insert r.id (record { revision = r.rev; connection_revision = r.conn_rev }) marks)

  abbrev pub lacks : Option (Row B) → Bool
  lacks none = true
  lacks (some row) = false

module _ {B : Type 0} (json : Codec B) where
  -- bootstrapLocalHostV1
  unfoldable pub bootstrap_local_host : List (Bytes × Row B) → List (Bytes × Row B)
  unfolding lookup insert
  bootstrap_local_host rows =
      if lacks (lookup local_id rows) then insert local_id (local_row json) rows else rows

  unfoldable pub bootstrap_watermark :
      List (Bytes × Row B) → List (Bytes × Watermark) → List (Bytes × Watermark)
  unfolding lookup insert
  bootstrap_watermark rows marks =
      if lacks (lookup local_id rows) then insert local_id first_mark marks else marks

  -- validateMigratedCredentials
  abbrev pub validate_blob : (Record → Option Error) → Option Record → Option Error
  validate_blob validator none = none
  validate_blob validator (some r) = if is_empty r.credential then none else validator r

  unfoldable pub validate_migrated : (Record → Option Error) → List (HostRowV1 B) → Result Unit
  validate_migrated validator [] = ok tt
  validate_migrated validator (r ∷ updates) =
      after (validate_blob validator (json.unmarshal r.blob)) (validate_migrated validator updates)

  abbrev pub validate_credentials :
      Option (Record → Option Error) → List (HostRowV1 B) → Result Unit
  unfolding validate_migrated
  validate_credentials none updates = ok tt
  validate_credentials (some validator) updates = validate_migrated validator updates

  abbrev pub migrated : List (HostRowV1 B) → Database B → Database B
  unfolding bootstrap_local_host bootstrap_watermark rewrite_hosts seed_watermarks insert
      with_type_column
  migrated updates db = record {
    version = pos 2;
    hosts = bootstrap_local_host (rewrite_hosts updates (with_type_column db.hosts));
    settings = some (settings_or_first db.settings);
    metadata = insert (codes "initialized") (codes "1") db.metadata;
    watermarks =
        bootstrap_watermark (rewrite_hosts updates (with_type_column db.hosts))
          (seed_watermarks updates db.watermarks);
    pending_cleanups = db.pending_cleanups;
  }

  -- From BeginTx to Commit. A statement that fails ends the transaction wherever it stands, so
  -- the statements of one stage share one answer of the driver.
  unfoldable pub migrate_all :
      Driver → Option (Record → Option Error) → Database B → Result (Database B × Unit)
  unfolding read_v1_hosts
  migrate_all driver validator db = after (driver 1) (
      after (driver 2) (
        after (driver 3) (
          and_then (read_v1_hosts json db.hosts) (λ updates. after (driver 4) (
            after (driver 5) (
              and_then (validate_credentials validator updates)
                (λ valid. after (driver 6) (after (driver 7) (ok (migrated updates db, tt))))))))))

  -- migrateDatabaseV1ToV2
  unfoldable pub migrate_database :
      Driver → Option (Record → Option Error) → Database B → Database B × Result Unit
  unfolding migrate_all
  migrate_database driver validator db = transact db (migrate_all driver validator db)
