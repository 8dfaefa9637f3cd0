-- ===== src/Host/Store/Watermarks.antt =====
-- hub/internal/host/store.go: the revision watermarks only rise.
use visual_tmux_client.Prelude.{
  ==-refl, ℕ, ◌≤◌, ◌≡◌, Bytes, Option, none, some, List, if◌then◌else◌, ◌==◌, bytes_eq, arith,
  Bool-cases, inl, inr, bytes_beq_iff,
}
use visual_tmux_client.Prelude.Map.{lookup, lookup-insert}
use visual_tmux_client.Host.Store.{Record, Watermark}
use visual_tmux_client.Host.Store.Hosts.{raise_watermark, raise_to, max}
use visual_tmux_client.Host.Store.Removal.{raised_by}

abbrev pub Watermarks : Type 0
Watermarks = List (Bytes × Watermark)

-- A mark of `id` at least as high as `w`.
abbrev pub Reaches : Bytes → Watermark → Watermarks → Type 0
Reaches id w marks =
    (higher : Watermark) × (lookup id marks ≡ some higher)
    × (w.revision ≤ higher.revision)
    × (w.connection_revision ≤ higher.connection_revision)

abbrev pub Grows : Watermarks → Watermarks → Type 0
Grows marks later = (id : Bytes) (w : Watermark) → lookup id marks ≡ some w → Reaches id w later

pub Grows-refl : (marks : Watermarks) → Grows marks marks
Grows-refl marks id w e = (w, e, omega arith, omega arith)

pub Reaches-Grows :
    (id : Bytes) (w : Watermark) (marks later : Watermarks)
    → Reaches id w marks
    → Grows marks later
    → Reaches id w later
Reaches-Grows id w marks later (v, e, a, b) g =
    let (u, f, c, d) = g id v e in (u, f, omega (arith, a, c), omega (arith, b, d))

pub Grows-trans : (a b c : Watermarks) → Grows a b → Grows b c → Grows a c
Grows-trans a b c g h id w e = Reaches-Grows id w b c (g id w e) h

abbrev pub mark_of : Record → Watermark
mark_of r = record { revision = r.revision; connection_revision = r.connection_revision }

le_max : (a b : ℕ) → (a ≤ max a b) × (b ≤ max a b)
le_max a b = ground arith

raise_to-new : (w : Watermark) (old : Option Watermark) → w.revision ≤ (raise_to w old).revision
raise_to-new w none = omega arith
raise_to-new w (some old) = (le_max old.revision w.revision).1

raise_to-new_connection :
    (w : Watermark) (old : Option Watermark)
    → w.connection_revision ≤ (raise_to w old).connection_revision
raise_to-new_connection w none = omega arith
raise_to-new_connection w (some old) = (le_max old.connection_revision w.connection_revision).1

lookup-raise_watermark :
    (r : Record) (id : Bytes) (marks : Watermarks)
    → lookup id (raise_watermark r marks)
      ≡ (if r.id == id then some (raise_to (mark_of r) (lookup r.id marks)) else lookup id marks)
unfolding raise_watermark
lookup-raise_watermark r id marks =
    lookup-insert r.id id (raise_to (mark_of r) (lookup r.id marks)) marks

-- The mark of the record itself is reached.
pub raise_watermark-Reaches :
    (r : Record) (marks : Watermarks) → Reaches r.id (mark_of r) (raise_watermark r marks)
raise_watermark-Reaches r marks = (
  raise_to (mark_of r) (lookup r.id marks),
  rw (lookup-raise_watermark r r.id marks, ==-refl r.id),
  raise_to-new (mark_of r) (lookup r.id marks),
  raise_to-new_connection (mark_of r) (lookup r.id marks),
)

pub raise_watermark-Grows :
    (r : Record) (marks : Watermarks) → Grows marks (raise_watermark r marks)
raise_watermark-Grows r marks id w e = elim (Bool-cases (r.id == id)) [
  | inl same ↦
      let here : r.id ≡ id = (bytes_beq_iff r.id id).0 same in
      let found : lookup r.id marks ≡ some w = rw here e in
      (
        raise_to (mark_of r) (some w),
        rw (lookup-raise_watermark r id marks, same, found),
        (le_max w.revision r.revision).0,
        (le_max w.connection_revision r.connection_revision).0,
      )
  | inr other ↦ (w, rw (lookup-raise_watermark r id marks, other) e, omega arith, omega arith)
]

pub raised_by-Grows : (o : Option Record) (marks : Watermarks) → Grows marks (raised_by o marks)
unfolding raise_watermark
raised_by-Grows none marks = Grows-refl marks
raised_by-Grows (some r) marks = raise_watermark-Grows r marks
