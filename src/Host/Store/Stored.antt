-- ===== src/Host/Store/Stored.antt =====
-- hub/internal/host/store.go: what Get returns after Put.
use visual_tmux_client.Prelude.{
  ℕ, ◌≡◌, refl, ap, ◌∙◌, Bytes, none, some, ==-refl, bytes_eq, nat_eq, arith,
}
use visual_tmux_client.Prelude.Map.{lookup, lookup-insert}
use visual_tmux_client.Host.Identity.{ConnectionType, ok}
use visual_tmux_client.Host.Outcome.{Settles-ok}
use visual_tmux_client.Host.Store.{Record, Codec, Row, Database, Driver, with_type, default_type}
use visual_tmux_client.Host.Store.Hosts.{put, get_record, row_of, raise_watermark}
use visual_tmux_client.Host.Store.Puts.{Puts, put-Puts}

default_type-twice :
    (id : Bytes) (kind : ConnectionType)
    → default_type id (default_type id kind) ≡ default_type id kind
unfolding default_type
default_type-twice id ConnectionType.blank = ground arith
default_type-twice id ConnectionType.local = refl
default_type-twice id ConnectionType.ssh = refl
default_type-twice id (ConnectionType.unknown t) = refl

with_type-twice : (r : Record) → with_type (with_type r) ≡ with_type r
unfolding with_type
with_type-twice r = rw (default_type-twice r.id r.connection_type) refl

module _ {B : Type 0} (json : Codec B) where
  get_record-found :
      (d : Driver) (id : Bytes) (row : Row B) (r : Record) (db : Database B)
      → d 0 ≡ none
      → lookup id db.hosts ≡ some row
      → json.unmarshal row.blob ≡ some r
      → get_record json d id db ≡ ok (with_type r)
  unfolding get_record with_type
  get_record-found d id row r db quiet found read = rw (quiet, found, read) refl

  -- After a successful Put, Get returns the record with its connection type, if it is one that
  -- JSON keeps and the query succeeds.
  pub get_record-put :
      (d d' : Driver) (r : Record) (expected : ℕ) (db : Database B)
      → json.unmarshal (json.marshal (with_type r)) ≡ some (with_type r)
      → (put json d r expected db).1 ≡ ok tt
      → d' 0 ≡ none
      → get_record json d' r.id (put json d r expected db).0 ≡ ok (with_type r)
  unfolding with_type raise_watermark
  get_record-put d d' r expected db kept stored quiet =
      let typed : Record = with_type r in
      let row : Row B = row_of typed (json.marshal typed) in
      let p : Puts json d expected typed db (put json d r expected db).0 tt =
        Settles-ok (Puts json d expected typed db) db tt (put json d r expected db)
          (put-Puts json d r expected db) stored in
      get_record-found d' r.id row typed (put json d r expected db).0 quiet
        (ap (λ x. lookup r.id x.hosts) p.0
          ∙ (lookup-insert r.id r.id row db.hosts ∙ rw (==-refl r.id) refl))
        kept
      ∙ ap ok (with_type-twice r)
