-- ===== src/Host/Store/Hosts.antt =====
-- hub/internal/host/store.go: List, Get, Put, Delete and NextRevisions.
use visual_tmux_client.Prelude.{
  ℕ, ◌+◌, ◌%◌, ◌^◌, Bool, true, false, not, ◌&&◌, ◌||◌, Bytes, codes, Option, none, some, List, [],
  ◌∷◌, if◌then◌else◌, ◌==◌, ltb, bytes_eq, is_empty, nat_eq, contains,
}
use visual_tmux_client.Prelude.Map.{lookup, insert, remove}
use visual_tmux_client.Host.Identity.{
  ConnectionType, Error, Result, ok, err, host_not_found, stale_revision, duplicate_local, failure,
  is_local, after, and_then,
}
use visual_tmux_client.Host.Store.{
  Record, Codec, Row, Watermark, Database, Driver, transact, with_type,
}

abbrev pub max : ℕ → ℕ → ℕ
max a b = if ltb a b then b else a

-- memcmp, the order of SQLite on TEXT
unfoldable pub bytes_leb : Bytes → Bytes → Bool
bytes_leb [] ys = true
bytes_leb (x ∷ xs) [] = false
bytes_leb (x ∷ xs) (y ∷ ys) = ltb x y || (x == y && bytes_leb xs ys)

module _ {B : Type 0} where
  abbrev pub insert_by_id : Bytes × Row B → List (Bytes × Row B) → List (Bytes × Row B)
  unfolding bytes_leb
  insert_by_id r [] = r ∷ []
  insert_by_id r (q ∷ rows) = if bytes_leb r.0 q.0 then r ∷ (q ∷ rows) else q ∷ insert_by_id r rows

  -- ORDER BY id
  abbrev pub order_by_id : List (Bytes × Row B) → List (Bytes × Row B)
  order_by_id [] = []
  order_by_id (r ∷ rows) = insert_by_id r (order_by_id rows)

  -- SELECT count(*) FROM hosts WHERE connection_type = 'local'
  unfoldable pub count_local : List (Bytes × Row B) → ℕ
  count_local [] = 0
  count_local ((id, row) ∷ rows) =
      if is_local row.connection_type then count_local rows + 1 else count_local rows

  -- The unique index idx_hosts_singleton_local, for a row that is written under `id`.
  unfoldable pub violates_index : Bytes → ConnectionType → List (Bytes × Row B) → Bool
  unfolding count_local remove
  violates_index id kind rows = is_local kind && ltb 0 (count_local (remove id rows))

  -- UPDATE … WHERE id=? AND revision=?
  abbrev pub has_revision : ℕ → Option (Row B) → Bool
  has_revision expected none = false
  has_revision expected (some row) = row.revision == expected

  abbrev pub is_none : Option (Row B) → Bool
  is_none none = true
  is_none (some row) = false

  abbrev pub row_of : Record → B → Row B
  row_of r blob = record { revision = r.revision; connection_type = r.connection_type; blob = blob }

  -- Whether INSERT … ON CONFLICT(id) DO NOTHING or UPDATE … WHERE id=? AND revision=? has a row
  -- to write.
  abbrev pub finds_row : Record → ℕ → List (Bytes × Row B) → Bool
  unfolding lookup
  finds_row r expected rows =
      if expected == 0 then is_none (lookup r.id rows) else has_revision expected (lookup r.id rows)

abbrev pub to_lower : Bytes → Bytes
to_lower [] = []
to_lower (c ∷ s) = (if ltb 64 c && ltb c 91 then c + 32 else c) ∷ to_lower s

-- strings.Contains(strings.ToLower(err.Error()), "unique")
abbrev pub exec_error : Option Error → Option Error
exec_error none = none
exec_error (some (failure t)) =
    if contains (to_lower t) (codes "unique")
    then some (failure (codes "local host already registered"))
    else some (failure t)
exec_error (some e) = some e

abbrev pub unique_error : Option Error
unique_error = some (failure (codes "local host already registered"))

unfoldable pub invalid_identity : Record → ℕ → Bool
invalid_identity r expected =
    is_empty r.id
    || r.revision == 0
    || r.connection_revision == 0
    || ltb r.revision r.connection_revision
    || (ltb 0 expected && not (r.revision == (expected + 1) % 2 ^ 64))

abbrev pub known_type : ConnectionType → Option Error
known_type ConnectionType.local = none
known_type ConnectionType.ssh = none
known_type ConnectionType.blank = some (failure (codes "invalid connection type"))
known_type (ConnectionType.unknown t) = some (failure (codes "invalid connection type"))

unfoldable pub validate_put_record : Record → ℕ → Option Error
unfolding invalid_identity
validate_put_record r expected =
    if invalid_identity r expected
    then some (failure (codes "invalid host revision or identity"))
    else known_type r.connection_type

abbrev pub raise_to : Watermark → Option Watermark → Watermark
raise_to w none = w
raise_to w (some old) = record {
  revision = max old.revision w.revision;
  connection_revision = max old.connection_revision w.connection_revision;
}

-- INSERT INTO revision_watermarks … ON CONFLICT(id) DO UPDATE SET … MAX …
unfoldable pub raise_watermark : Record → List (Bytes × Watermark) → List (Bytes × Watermark)
unfolding insert lookup
raise_watermark r marks =
    insert r.id
      (raise_to (record { revision = r.revision; connection_revision = r.connection_revision })
        (lookup r.id marks))
      marks

module _ {B : Type 0} where
  abbrev pub with_host : Record → Database B → List (Bytes × Row B) → Database B
  unfolding raise_watermark
  with_host r db rows = record {
    version = db.version;
    hosts = rows;
    settings = db.settings;
    metadata = db.metadata;
    watermarks = raise_watermark r db.watermarks;
    pending_cleanups = db.pending_cleanups;
  }

module _ {B : Type 0} (json : Codec B) (driver : Driver) where
  abbrev pub decode : Option Record → Result Record
  unfolding with_type
  decode none = err (failure (codes "corrupt host record"))
  decode (some r) = ok (with_type r)

  abbrev pub read_row : Option (Row B) → Result Record
  read_row none = err host_not_found
  read_row (some row) = decode (json.unmarshal row.blob)

  -- Get
  unfoldable pub get_record : Bytes → Database B → Result Record
  unfolding lookup
  get_record id db = after (driver 0) (read_row (lookup id db.hosts))

  abbrev pub read_rows : ℕ → List (Bytes × Row B) → Result (List Record)
  read_rows k [] = after (driver k) (ok [])
  read_rows k ((id, row) ∷ rows) = after (driver k) (
      and_then (decode (json.unmarshal row.blob))
        (λ r. and_then (read_rows (k + 1) rows) (λ records. ok (r ∷ records))))

  -- List
  unfoldable pub list_records : Database B → Result (List Record)
  list_records db = after (driver 0) (read_rows 1 (order_by_id db.hosts))

  -- The statement, and its RowsAffected.
  abbrev pub write_host : Record → ℕ → List (Bytes × Row B) → Result (List (Bytes × Row B))
  unfolding insert violates_index
  write_host r expected rows = after (exec_error (driver 2)) (
      if finds_row r expected rows
      then if violates_index r.id r.connection_type rows
        then after unique_error (ok rows)
        else after (driver 3) (ok (insert r.id (row_of r (json.marshal r)) rows))
      else after (driver 3) (err stale_revision))

  -- upsertHostRecord
  unfoldable pub upsert_host_record :
      Record → ℕ → List (Bytes × Row B) → Result (List (Bytes × Row B))
  unfolding count_local
  upsert_host_record r expected rows =
      if is_local r.connection_type && expected == 0
      then after (driver 1)
          (if ltb 0 (count_local rows) then err duplicate_local else write_host r expected rows)
      else write_host r expected rows

  -- From BeginTx to Commit.
  abbrev pub put_all : Record → ℕ → Database B → Result (Database B × Unit)
  unfolding upsert_host_record
  put_all r expected db = after (driver 0) (
      and_then (upsert_host_record r expected db.hosts)
        (λ rows. after (driver 4) (after (driver 5) (ok (with_host r db rows, tt)))))

  abbrev pub put_valid : Record → ℕ → Option Error → Database B → Database B × Result Unit
  put_valid r expected (some e) db = (db, err e)
  put_valid r expected none db = transact db (put_all r expected db)

  -- Put
  unfoldable pub put : Record → ℕ → Database B → Database B × Result Unit
  unfolding with_type validate_put_record
  put r expected = put_valid (with_type r) expected (validate_put_record (with_type r) expected)
