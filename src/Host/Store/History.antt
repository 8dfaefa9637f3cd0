-- ===== src/Host/Store/History.antt =====
-- hub/internal/host/store.go: what every history of calls keeps.
use visual_tmux_client.Prelude.{
  ℕ, ◌^◌, ◌<◌, ◌≤◌, ◌≡◌, sym, subst, Bytes, none, some, List, bytes_eq, nat_eq, arith,
}
use visual_tmux_client.Prelude.Map.{lookup}
use visual_tmux_client.Host.Identity.{Result, ok, err}
use visual_tmux_client.Host.Outcome.{Settles-ok}
use visual_tmux_client.Host.Store.{Record, Codec, Watermark, Database, Driver, with_type}
use visual_tmux_client.Host.Store.Hosts.{
  validate_put_record, invalid_identity, put, raise_watermark,
}
use visual_tmux_client.Host.Store.Removal.{next_revisions, after_mark}
use visual_tmux_client.Host.Store.Calls.{Call, run_calls, run_calls-induction}
use visual_tmux_client.Host.Store.Puts.{Puts, put-Puts}
use visual_tmux_client.Host.Store.Bounds.{IsBounded}
use visual_tmux_client.Host.Store.Sound.{IsSound}
use visual_tmux_client.Host.Store.Watermarks.{
  Grows-refl, Reaches, Reaches-Grows, mark_of, raise_watermark-Reaches,
}
use visual_tmux_client.Host.Store.Keeping.{call-IsSound, call-IsBounded, call-Grows, GrownFrom}

-- The revisions are above those of the record.
abbrev pub IsBeyond : Record → Result (ℕ × ℕ) → Type 0
IsBeyond r (ok (revision, connection_revision)) =
    (r.revision < revision) × (r.connection_revision < connection_revision)
IsBeyond r (err e) = ⊥

validated_positive :
    (r : Record) (expected : ℕ) → validate_put_record r expected ≡ none → 1 ≤ r.revision
unfolding validate_put_record invalid_identity
validated_positive r expected h = ground (arith, h)

after_mark-IsBeyond :
    (r : Record) (w : Watermark)
    → 1 ≤ r.revision
    → r.revision ≤ w.revision
    → r.connection_revision ≤ w.connection_revision
    → (w.revision < 2 ^ 63) × (w.connection_revision < 2 ^ 63)
    → IsBeyond r (ok (after_mark (some w)))
after_mark-IsBeyond r w positive a b (f, g) = ground (arith, positive, a, b, f, g)

module _ {B : Type 0} where
  -- The watermark of a host is within an int64, as SQLite stores it.
  abbrev pub FitsInt64 : Bytes → Database B → Type 0
  FitsInt64 id db =
      (w : Watermark)
      → lookup id db.watermarks ≡ some w
      → (w.revision < 2 ^ 63) × (w.connection_revision < 2 ^ 63)

module _ {B : Type 0} (json : Codec B) where
  -- Over any history of a sound database there is at most one local host, every revision is
  -- covered by its watermark, and the default host exists.
  pub run_calls-IsSound :
      (calls : List Call) (db : Database B) → IsSound db → IsSound (run_calls json calls db)
  run_calls-IsSound = run_calls-induction json IsSound (call-IsSound json)

  -- Over any history no host has more than fifty pending cleanups.
  pub run_calls-IsBounded :
      (calls : List Call) (db : Database B) → IsBounded db → IsBounded (run_calls json calls db)
  run_calls-IsBounded = run_calls-induction json IsBounded (call-IsBounded json)

  -- What NextRevisions answers where the watermark of the host has reached a record.
  next_revisions-IsBeyond :
      (d : Driver) (r : Record) (db : Database B)
      → d 0 ≡ none
      → 1 ≤ r.revision
      → Reaches r.id (mark_of r) db.watermarks
      → FitsInt64 r.id db
      → IsBeyond r (next_revisions d r.id db)
  unfolding next_revisions
  next_revisions-IsBeyond d r db quiet positive (w, found, a, b) fits =
      rw (quiet, found) (after_mark-IsBeyond r w positive a b (fits w found))

  -- After a record was stored, no history makes NextRevisions offer a revision or a connection
  -- revision that is not above those of the record, also if the host was deleted; the query must
  -- succeed, and the watermark of the host be within an int64.
  pub next_revisions_unused :
      (d d' : Driver) (r : Record) (expected : ℕ) (db : Database B) (calls : List Call)
      → (put json d r expected db).1 ≡ ok tt
      → d' 0 ≡ none
      → FitsInt64 r.id (run_calls json calls (put json d r expected db).0)
      → IsBeyond r (next_revisions d' r.id (run_calls json calls (put json d r expected db).0))
  unfolding with_type raise_watermark
  next_revisions_unused d d' r expected db calls stored quiet fits =
      let after_put : Database B = (put json d r expected db).0 in
      let p : Puts json d expected (with_type r) db after_put tt =
        Settles-ok (Puts json d expected (with_type r) db) db tt (put json d r expected db)
          (put-Puts json d r expected db) stored in
      next_revisions-IsBeyond d' r (run_calls json calls after_put) quiet
        (validated_positive (with_type r) expected p.3)
        (Reaches-Grows r.id (mark_of r) after_put.watermarks
          (run_calls json calls after_put).watermarks
          (subst (λ x. Reaches r.id (mark_of r) x.watermarks) (sym p.0)
            (raise_watermark-Reaches (with_type r) db.watermarks))
          (run_calls-induction json (GrownFrom json after_put.watermarks)
            (call-Grows json after_put.watermarks) calls after_put
            (Grows-refl after_put.watermarks)))
        fits
