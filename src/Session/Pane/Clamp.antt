-- ===== src/Session/Pane/Clamp.antt =====
-- How long a pane's fields can be (hub/internal/session/pane.go).
use visual_tmux_client.Prelude.{
  ℕ, zero, suc, ◌≤◌, ◌≡◌, refl, sym, ap, true, List, [], ◌∷◌, Bytes, length, take, length-take, leb,
  All, arith, inl, inr, Bool-cases,
}
use visual_tmux_client.Prelude.Utf8.{runes, is_scalar}
use visual_tmux_client.Prelude.Utf8.RoundTrip.{runes-encode_all, runes-is_scalar}
use visual_tmux_client.Session.Pane.{clamp_field}

All-take : (P : ℕ → Type 0) (n : ℕ) (xs : List ℕ) → All P xs → All P (take n xs)
All-take P zero xs h = tt
All-take P (suc n) [] h = h
All-take P (suc n) (x ∷ xs) h = (h.0, All-take P n xs h.1)

take_all : (n : ℕ) (xs : List ℕ) → length xs ≤ n → take n xs ≡ xs
take_all zero [] h = refl
take_all zero (x ∷ xs) h = absurd (omega arith)
take_all (suc n) [] h = refl
take_all (suc n) (x ∷ xs) h = ap (◌∷◌ x) (take_all n xs (omega arith))

-- A clamped field reads as the first 200 code points of the field: no character is split, and
-- a field that is short enough is unchanged.
pub runes-clamp_field : (value : Bytes) → runes (clamp_field value) ≡ take 200 (runes value)
unfolding clamp_field
runes-clamp_field value = elim (Bool-cases (leb (length (runes value)) 200)) [
  | inl short ↦ rw short (sym (take_all 200 (runes value) (ground arith)))
  | inr long ↦ rw long (
      runes-encode_all (take 200 (runes value))
        (All-take (λ r. is_scalar r ≡ true) 200 (runes value) (runes-is_scalar value)))
]

pub length-clamp_field : (value : Bytes) → length (runes (clamp_field value)) ≤ 200
length-clamp_field value =
    rw (runes-clamp_field value) (omega (arith, length-take 200 (runes value)))
