-- ===== src/Terminal/Effect.antt =====
-- What an attachment does to its process, its peer and its owner: the calls of the interfaces of
-- hub/internal/terminal/ports.go, the messages of attachment.go, and the two callbacks.
use visual_tmux_client.Prelude.{
  ℕ, ◌+◌, Bool, true, false, ◌||◌, List, [], ◌∷◌, ◌++◌, append_assoc, Bytes, ◌≡◌, ◌≢◌, All, refl,
  sym, arith,
}
use visual_tmux_client.Prelude.Int.{ℤ}

pub data Effect : Type 0 where
  -- the process
  proc_read proc_write : Bytes → Effect
  proc_resize : ℤ → ℤ → Effect
  proc_close proc_wait proc_detach : Effect
  -- the peer
  send_ready : Bytes → ℤ → ℤ → Effect
  send_pong : Effect
  send_exit : ℤ → Effect
  send_binary : Bytes → Effect
  peer_close : ℕ → Bytes → Effect
  peer_close_now : Effect
  -- the callbacks `onResize` and `untrack`
  resized : ℤ → ℤ → Effect
  untracked : Effect

-- A decoded control message of the client.
pub record ClientMessage : Type 0 where
  pub type : Bytes
  pub cols : ℤ
  pub rows : ℤ

-- Views of a log of effects.
abbrev read_by : Effect → List Bytes
read_by (proc_read []) = []
read_by (proc_read (x ∷ b)) = (x ∷ b) ∷ []
read_by _ = []

abbrev sent_by : Effect → List Bytes
sent_by (send_binary b) = b ∷ []
sent_by _ = []

abbrev written_by : Effect → List Bytes
written_by (proc_write b) = b ∷ []
written_by _ = []

abbrev untracks : Effect → ℕ
untracks untracked = 1
untracks _ = 0

abbrev releases : Effect → Bool
releases proc_close = true
releases proc_detach = true
releases _ = false

-- The output that the process produced, chunk by chunk.
abbrev pub outputs : List Effect → List Bytes
outputs [] = []
outputs (e ∷ es) = read_by e ++ outputs es

-- The output that was handed to the peer.
abbrev pub sent : List Effect → List Bytes
sent [] = []
sent (e ∷ es) = sent_by e ++ sent es

-- The input that was handed to the process.
abbrev pub inputs : List Effect → List Bytes
inputs [] = []
inputs (e ∷ es) = written_by e ++ inputs es

abbrev pub untrack_count : List Effect → ℕ
untrack_count [] = 0
untrack_count (e ∷ es) = untracks e + untrack_count es

-- The process was closed or detached from.
abbrev pub is_released : List Effect → Bool
is_released [] = false
is_released (e ∷ es) = elim (releases e) [ true ↦ true | false ↦ is_released es ]

pub outputs-append : (xs ys : List Effect) → outputs (xs ++ ys) ≡ outputs xs ++ outputs ys
outputs-append [] ys = refl
outputs-append (e ∷ xs) ys = rw (outputs-append xs ys) (sym (append_assoc (read_by e) _ _))

pub sent-append : (xs ys : List Effect) → sent (xs ++ ys) ≡ sent xs ++ sent ys
sent-append [] ys = refl
sent-append (e ∷ xs) ys = rw (sent-append xs ys) (sym (append_assoc (sent_by e) _ _))

pub inputs-append : (xs ys : List Effect) → inputs (xs ++ ys) ≡ inputs xs ++ inputs ys
inputs-append [] ys = refl
inputs-append (e ∷ xs) ys = rw (inputs-append xs ys) (sym (append_assoc (written_by e) _ _))

pub untrack_count-append :
    (xs ys : List Effect) → untrack_count (xs ++ ys) ≡ untrack_count xs + untrack_count ys
untrack_count-append [] ys = omega arith
untrack_count-append (e ∷ xs) ys = omega (arith, untrack_count-append xs ys)

pub is_released-append :
    (xs ys : List Effect) → is_released (xs ++ ys) ≡ (is_released xs || is_released ys)
is_released-append [] ys = refl
is_released-append (e ∷ xs) ys = ground (arith, is_released-append xs ys)

-- Only what was read counts as output, so no chunk of it is empty.
pub outputs-nonempty : (es : List Effect) → All (λ c. c ≢ []) (outputs es)
outputs-nonempty [] = tt
outputs-nonempty (proc_read [] ∷ es) = outputs-nonempty es
outputs-nonempty (proc_read (x ∷ b) ∷ es) = (cc, outputs-nonempty es)
outputs-nonempty (_ ∷ es) = outputs-nonempty es
