-- ===== src/Prelude/Utf8/Ascii.antt =====
-- An ASCII byte of a text is a code point of it.
use Prim.Native.Nat.{ℕ, zero, suc, ◌-◌, ◌≤◌, ◌<◌}
use mathlib.Core.Path.{◌≡◌}
use mathlib.Core.Logic.{◌≢◌}
use mathlib.Core.List.{[], ◌∷◌}
use native.Mathlib.Omega.{arith}
use visual_tmux_client.Prelude.Tests.{nat_eq}
use visual_tmux_client.Prelude.Lists.{All}
use visual_tmux_client.Prelude.Text.{Bytes, Lacks}
use visual_tmux_client.Prelude.Utf8.{decode, runes_from, runes}

-- The first `k` bytes are no ASCII.
abbrev Conts : ℕ → Bytes → Type 0
Conts zero s = Unit {0}
Conts (suc k) [] = Unit {0}
Conts (suc k) (c ∷ s) = (0x80 ≤ c) × Conts k s

decode-Conts : (b : ℕ) (s : Bytes) → Conts ((decode b s).width - 1) s
unfolding decode
decode-Conts b [] = ground arith
decode-Conts b (c ∷ []) = ground arith
decode-Conts b (c ∷ d ∷ []) = ground arith
decode-Conts b (c ∷ d ∷ e ∷ s) = ground arith

decode_ascii : (b : ℕ) (s : Bytes) → b < 0x80 → (decode b s).rune ≡ b
unfolding decode
decode_ascii b s h = ground arith

module _ (b : ℕ) (ascii : b < 0x80) where
  runes_from-Lacks : (k : ℕ) (s : Bytes) → Conts k s → All (λ r. r ≢ b) (runes_from k s) → Lacks b s
  unfolding runes_from
  runes_from-Lacks k [] c h = tt
  runes_from-Lacks zero (x ∷ s) c h = (
    λ e. h.0 (rw e (decode_ascii b s ascii)),
    runes_from-Lacks ((decode x s).width - 1) s (decode-Conts x s) h.1,
  )
  runes_from-Lacks (suc k) (x ∷ s) c h = (λ e. omega (arith, c.0), runes_from-Lacks k s c.1 h)

  -- What no code point of a text is, no byte of it is, valid UTF-8 or not.
  pub runes-Lacks : (s : Bytes) → All (λ r. r ≢ b) (runes s) → Lacks b s
  unfolding runes
  runes-Lacks s h = runes_from-Lacks 0 s tt h
