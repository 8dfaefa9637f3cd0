-- ===== src/Host/Identity.antt =====
-- hub/internal/host/identity.go: what a host is known by, and the errors of the host package.
use visual_tmux_client.Prelude.{ℕ, Bool, true, false, Bytes, codes, Option, none, some}

-- ConnectionType: the two known values, the empty string, and any other string.
pub data ConnectionType : Type 0 where
  blank local ssh : ConnectionType
  unknown : Bytes → ConnectionType

unfoldable pub local_id : Bytes
local_id = codes "local"

abbrev pub local_revision : ℕ
local_revision = 1

-- The error codes, and any other error with its text.
pub data Error : Type 0 where
  host_not_found unavailable unsupported outcome_unknown stale_revision duplicate_local : Error
  registry_closed : Error
  failure : Bytes → Error

pub data Result (A : Type 0) : Type 0 where
  ok : A → Result A
  err : Error → Result A

abbrev pub is_local : ConnectionType → Bool
is_local ConnectionType.local = true
is_local ConnectionType.ssh = false
is_local ConnectionType.blank = false
is_local (ConnectionType.unknown t) = false

-- if err != nil { return err }
abbrev pub after : {A : Type 0} → Option Error → Result A → Result A
after none r = r
after (some e) r = err e

abbrev pub and_then : {A B : Type 0} → Result A → (A → Result B) → Result B
and_then (ok a) f = f a
and_then (err e) f = err e
