-- ===== src/Host/Store/Fresh.antt =====
-- hub/internal/host/store.go: the first initialisation of the database.
use visual_tmux_client.Prelude.Int.{pos}
use visual_tmux_client.Prelude.{ℕ, codes, some, [], ◌∷◌, if◌then◌else◌, ◌==◌, bytes_eq, nat_eq}
use visual_tmux_client.Host.Identity.{ConnectionType, Result, ok, err, failure, local_id, after}
use visual_tmux_client.Host.Store.{
  Record, Codec, Row, SettingsRow, Watermark, Database, Driver, transact,
}

abbrev pub local_record : Record
local_record = record {
  id = local_id;
  revision = 1;
  connection_revision = 1;
  name = codes "Local";
  connection_type = ConnectionType.local;
  address = [];
  port = 0;
  username = [];
  credential_type = [];
  credential = [];
  host_key = [];
}

abbrev pub first_mark : Watermark
first_mark = record { revision = 1; connection_revision = 1 }

abbrev pub first_settings : SettingsRow
first_settings = record { default_host_id = some local_id; revision = 1 }

module _ {B : Type 0} (json : Codec B) where
  abbrev pub local_row : Row B
  local_row = record {
    revision = 1;
    connection_type = ConnectionType.local;
    blob = json.marshal local_record;
  }

  abbrev pub fresh_database : Database B
  fresh_database = record {
    version = pos 2;
    hosts = (local_id, local_row) ∷ [];
    settings = some first_settings;
    metadata = (codes "initialized", codes "1") ∷ [];
    watermarks = (local_id, first_mark) ∷ [];
    pending_cleanups = [];
  }

  -- From the count of the tables to Commit; `tables` is the answer of the query.
  unfoldable pub initialize_all : Driver → ℕ → Result (Database B × Unit)
  initialize_all driver tables = after (driver 1) (
      if tables == 0
      then after (driver 2) (
          after (driver 3) (
            after (driver 4) (
              after (driver 5) (
                after (driver 6) (
                  after (driver 7)
                    (after (driver 8) (after (driver 9) (ok (fresh_database, tt)))))))))
      else err (failure (codes "unrecognized host state database")))

  -- initializeFreshDatabase
  unfoldable pub initialize_fresh_database : Driver → ℕ → Database B → Database B × Result Unit
  unfolding initialize_all
  initialize_fresh_database driver tables db = transact db (initialize_all driver tables)
