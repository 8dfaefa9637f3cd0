-- ===== src/Prelude/Utf8/RoundTrip.antt =====
-- Decoding what was encoded.
use Prim.Native.Nat.{ℕ, zero, suc, ◌+◌, ◌-◌, ◌*◌, ◌/◌, ◌%◌, ◌≤◌, ◌<◌}
use mathlib.Core.Path.{◌≡◌, refl, ap, ◌∙◌}
use mathlib.Core.Bool.{true}
use mathlib.Core.List.{List, [], ◌∷◌, ◌++◌}
use native.Mathlib.Omega.{arith}
use visual_tmux_client.Prelude.Tests.{nat_eq}
use visual_tmux_client.Prelude.Lists.{All}
use visual_tmux_client.Prelude.Text.{Bytes}
use visual_tmux_client.Prelude.Utf8.{
  decode, runes_from, runes, is_scalar, encode, encode_all, is_second, is_cont,
}

runes_from-four_bytes :
    (b c d e r : ℕ) (s : Bytes)
    → 0xF0 ≤ b
    → b < 0xF5
    → is_second b c ≡ true
    → is_cont d ≡ true
    → is_cont e ≡ true
    → b % 8 * 262144 + c % 64 * 4096 + d % 64 * 64 + e % 64 ≡ r
    → runes_from 0 (b ∷ c ∷ d ∷ e ∷ s) ≡ r ∷ runes_from 0 s
unfolding runes_from decode
runes_from-four_bytes b c d e r s lo hi h₁ h₂ h₃ eq = ground arith

cont_mod : (x : ℕ) → is_cont (0x80 + x % 64) ≡ true
cont_mod x = ground arith

second_of_four :
    (r : ℕ)
    → 0x10000 ≤ r
    → r ≤ 0x10FFFF
    → is_second (0xF0 + r / 262144) (0x80 + r / 4096 % 64) ≡ true
second_of_four r lo hi = ground arith

digits_of_four :
    (r : ℕ)
    → r ≤ 0x10FFFF
    → (0xF0 + r / 262144) % 8 * 262144
        + (0x80 + r / 4096 % 64) % 64 * 4096
        + (0x80 + r / 64 % 64) % 64 * 64
        + (0x80 + r % 64) % 64
      ≡ r
digits_of_four r hi = omega arith

module _ (r : ℕ) (s : Bytes) where
  runes_from-one : r < 0x80 → runes_from 0 (r ∷ s) ≡ r ∷ runes_from 0 s
  unfolding runes_from decode
  runes_from-one h = ground arith

  runes_from-two :
      0x80 ≤ r
      → r < 0x800
      → runes_from 0 ((0xC0 + r / 64) ∷ (0x80 + r % 64) ∷ s) ≡ r ∷ runes_from 0 s
  unfolding runes_from decode
  runes_from-two lo hi = ground arith

  runes_from-three :
      0x800 ≤ r
      → r < 0x10000
      → is_scalar r ≡ true
      → runes_from 0 ((0xE0 + r / 4096) ∷ (0x80 + r / 64 % 64) ∷ (0x80 + r % 64) ∷ s)
        ≡ r ∷ runes_from 0 s
  unfolding runes_from decode
  runes_from-three lo hi h = ground arith

  runes_from-four :
      0x10000 ≤ r
      → r ≤ 0x10FFFF
      → runes_from 0 (
          (0xF0 + r / 262144) ∷ (0x80 + r / 4096 % 64) ∷ (0x80 + r / 64 % 64) ∷ (0x80 + r % 64) ∷ s)
        ≡ r ∷ runes_from 0 s
  runes_from-four lo hi =
      runes_from-four_bytes _ _ _ _ r s (omega arith) (omega arith) (second_of_four r lo hi)
        (cont_mod (r / 64)) (cont_mod r) (digits_of_four r hi)

  runes_from-encode : is_scalar r ≡ true → runes_from 0 (encode r ++ s) ≡ r ∷ runes_from 0 s
  unfolding encode
  runes_from-encode h = ground (
    arith,
    λ (p : r < 0x80). runes_from-one p,
    λ (p : 0x80 ≤ r) (q : r < 0x800). runes_from-two p q,
    λ (p : 0x800 ≤ r) (q : r < 0x10000). runes_from-three p q h,
    λ (p : 0x10000 ≤ r) (q : r ≤ 0x10FFFF). runes_from-four p q,
  )

-- What was encoded is decoded to the same code points.
pub runes-encode_all : (rs : List ℕ) → All (λ r. is_scalar r ≡ true) rs → runes (encode_all rs) ≡ rs
unfolding runes encode_all
runes-encode_all [] h = unfold runes_from in refl
runes-encode_all (r ∷ rs) h =
    runes_from-encode r (encode_all rs) h.0 ∙ ap (◌∷◌ r) (runes-encode_all rs h.1)

decode-is_scalar : (b : ℕ) (s : Bytes) → is_scalar (decode b s).rune ≡ true
unfolding decode
decode-is_scalar b [] = ground arith
decode-is_scalar b (c ∷ []) = ground arith
decode-is_scalar b (c ∷ d ∷ []) = ground arith
decode-is_scalar b (c ∷ d ∷ e ∷ s) = ground arith

runes_from-is_scalar : (k : ℕ) (s : Bytes) → All (λ r. is_scalar r ≡ true) (runes_from k s)
unfolding runes_from
runes_from-is_scalar k [] = tt
runes_from-is_scalar zero (b ∷ s) =
    (decode-is_scalar b s, runes_from-is_scalar ((decode b s).width - 1) s)
runes_from-is_scalar (suc k) (b ∷ s) = runes_from-is_scalar k s

-- Decoding yields code points that can be encoded.
pub runes-is_scalar : (s : Bytes) → All (λ r. is_scalar r ≡ true) (runes s)
unfolding runes
runes-is_scalar s = runes_from-is_scalar 0 s
