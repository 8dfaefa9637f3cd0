-- ===== src/Session/Validation/Rules.antt =====
-- What a valid name is, and what it cannot hold.
use visual_tmux_client.Prelude.{
  ℕ, ◌≤◌, ◌<◌, ◌≡◌, ◌≢◌, subst, ◌↔◌, inl, inr, refl, true, false, List, [], ◌∷◌, Option, none, some,
  Bytes, length, ltb, nat_eq, arith, All, Lacks, Bool-cases,
}
use visual_tmux_client.Prelude.Utf8.{runes, valid_string}
use visual_tmux_client.Prelude.Utf8.Ascii.{runes-Lacks}
use visual_tmux_client.Session.Model.{Reason}
use visual_tmux_client.Session.Validation.{
  validate_rune, validate_runes, or_else, check_runes, validate_session_name, is_control, is_space,
  last_or,
}

-- The code points that a name must not hold anywhere.
pub record IsPlain (r : ℕ) : Type 0 where
  pub printable : is_control r ≡ false
  pub no_target : (r ≢ b':') × (r ≢ b'.') × (r ≢ 0xFF1A) × (r ≢ 0xFF0E)
  pub no_path : (r ≢ b'/') × (r ≢ b'\\')
  pub no_command : (r ≢ b';') × (r ≢ 0xFF1B)

-- What a name is, as its code points.
abbrev pub IsName : List ℕ → Type 0
IsName [] = ⊥
IsName (r ∷ rs) =
    (length (r ∷ rs) ≤ 64)
    × All IsPlain (r ∷ rs)
    × (is_space r ≡ false)
    × (is_space (last_or r rs) ≡ false)

validate_rune-IsPlain : (r : ℕ) → validate_rune r ≡ none → IsPlain r
unfolding validate_rune
validate_rune-IsPlain r h = record {
  printable = ground arith;
  no_target = ground arith;
  no_path = ground arith;
  no_command = ground arith;
}

IsPlain-validate_rune : (r : ℕ) → IsPlain r → validate_rune r ≡ none
unfolding validate_rune
IsPlain-validate_rune r p = ground arith

or_else-none : (a b : Option Reason) → or_else a b ≡ none → (a ≡ none) × (b ≡ none)
unfolding validate_session_name
or_else-none none b h = (refl, h)
or_else-none (some e) b h = cc

validate_runes-All : (rs : List ℕ) → validate_runes rs ≡ none → All IsPlain rs
unfolding validate_runes
validate_runes-All [] h = tt
validate_runes-All (r ∷ rs) h =
    let (one, more) = or_else-none (validate_rune r) (validate_runes rs) h in
    (validate_rune-IsPlain r one, validate_runes-All rs more)

All-validate_runes : (rs : List ℕ) → All IsPlain rs → validate_runes rs ≡ none
unfolding validate_runes
All-validate_runes [] h = refl
All-validate_runes (r ∷ rs) h = rw (IsPlain-validate_rune r h.0) (All-validate_runes rs h.1)

check_runes-IsName : (rs : List ℕ) → check_runes rs ≡ none → IsName rs
unfolding check_runes
check_runes-IsName [] h = cc
check_runes-IsName (r ∷ rs) h = elim (Bool-cases (ltb 64 (length (r ∷ rs)))) [
  | inl long ↦ absurd (ground arith)
  | inr fits ↦
      let h = rw fits at h in
      let (plain, spaces) = or_else-none (validate_runes (r ∷ rs)) _ h in
      (ground arith, validate_runes-All (r ∷ rs) plain, ground arith, ground arith)
]

IsName-check_runes : (rs : List ℕ) → IsName rs → check_runes rs ≡ none
unfolding check_runes
IsName-check_runes [] h = absurd h
IsName-check_runes (r ∷ rs) (fits, plain, front, back) =
    let e : ltb 64 (length (r ∷ rs)) ≡ false = ground arith in
    rw e (rw (All-validate_runes (r ∷ rs) plain, front, back) refl)

-- A name is accepted exactly when it is valid UTF-8 of one to 64 code points, none of them
-- a control character, a target delimiter, a path separator, a command separator or a
-- full-width look-alike of these, and neither the first nor the last is a space.
pub validate_session_name_iff :
    (name : Bytes)
    → (validate_session_name name ≡ none) ↔ ((valid_string name ≡ true) × IsName (runes name))
unfolding validate_session_name
validate_session_name_iff name = elim (Bool-cases (valid_string name)) [
  | inl valid ↦
      rw valid
        (λ h. (refl, check_runes-IsName (runes name) h), λ h. IsName-check_runes (runes name) h.1)
  | inr broken ↦ rw broken (λ h. absurd (ground arith), λ h. absurd (ground arith))
]

module _ (b : ℕ) (ascii : b < 0x80) (reserved : IsPlain b → ⊥) where
  All-IsPlain-lacks : (rs : List ℕ) → All IsPlain rs → All (λ r. r ≢ b) rs
  All-IsPlain-lacks [] h = tt
  All-IsPlain-lacks (r ∷ rs) h = (λ e. reserved (subst IsPlain e h.0), All-IsPlain-lacks rs h.1)

  IsName-Lacks : (rs : List ℕ) → IsName rs → All (λ r. r ≢ b) rs
  IsName-Lacks [] h = absurd h
  IsName-Lacks (r ∷ rs) h = All-IsPlain-lacks (r ∷ rs) h.1

  lacks : (name : Bytes) → validate_session_name name ≡ none → Lacks b name
  lacks name h =
      runes-Lacks b ascii name (IsName-Lacks (runes name) ((validate_session_name_iff name).0 h).1)

-- The separators of tmux targets (`:`, `.`), of paths (`/`, `\`) and of tmux commands (`;`), and the
-- control bytes.
pub record IsSafeBytes (name : Bytes) : Type 0 where
  pub colon : Lacks b':' name
  pub dot : Lacks b'.' name
  pub slash : Lacks b'/' name
  pub backslash : Lacks b'\\' name
  pub semicolon : Lacks b';' name
  pub control : (b : ℕ) → b < 0x20 → Lacks b name

-- An accepted name has none of the bytes `:`, `.`, `/`, `\` and `;`, and no byte below 0x20, whatever
-- its code points are.
pub validate_session_name-IsSafeBytes :
    (name : Bytes) → validate_session_name name ≡ none → IsSafeBytes name
validate_session_name-IsSafeBytes name h = record {
  colon = lacks b':' (omega arith) (λ p. p.no_target.0 refl) name h;
  dot = lacks b'.' (omega arith) (λ p. p.no_target.1 refl) name h;
  slash = lacks b'/' (omega arith) (λ p. p.no_path.0 refl) name h;
  backslash = lacks b'\\' (omega arith) (λ p. p.no_path.1 refl) name h;
  semicolon = lacks b';' (omega arith) (λ p. p.no_command.0 refl) name h;
  control = λ b low. lacks b (omega arith) (λ p. ground (arith, p.printable, low)) name h;
}
