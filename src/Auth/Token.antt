-- ===== src/Auth/Token.antt =====
-- hub/internal/auth/auth.go. The random source, SHA-256 and base64url are parameters: functions of
-- Go's library that the code only calls.
use visual_tmux_client.Prelude.{
  ℕ, ◌≡◌, ◌≢◌, ◌↔◌, Bool, true, false, ◌||◌, [], ◌∷◌, Option, none, some, Bytes, is_empty, ◌==◌,
  bytes_eq, bytes_beq_iff, ==-refl, if◌then◌else◌, refl,
}
use visual_tmux_client.Prelude.Int.{ℤ, pos, leb_ℤ, pos_part}

abbrev pub bearer_token_entropy_bytes : ℤ
bearer_token_entropy_bytes = pos 32

abbrev pub ticket_entropy_bytes : ℤ
ticket_entropy_bytes = pos 24

pub data TokenError : Type 0 where
  empty_credential random_failed : TokenError

pub data Token : Type 0 where
  token : Bytes → Token
  failed : TokenError → Token

-- What `crypto/rand` and `encoding/base64` do: fill a buffer of `n` bytes, and print it.
pub record Source : Type 0 where
  pub read : ℕ → Option Bytes
  pub encode : Bytes → Bytes

encoded : Source → Option Bytes → Token
encoded src none = failed random_failed
encoded src (some b) = token (src.encode b)

unfoldable pub random_token : Source → ℤ → Token
unfolding encoded
random_token src n =
    if leb_ℤ n (pos 0) then failed empty_credential else encoded src (src.read (pos_part n))

unfoldable pub generate_bearer_token : Source → Token
unfolding random_token
generate_bearer_token src = random_token src bearer_token_entropy_bytes

-- `subtle.ConstantTimeCompare` answers 1 for equal contents.
unfoldable pub constant_time_equal : (Bytes → Bytes) → Bytes → Bytes → Bool
constant_time_equal sum256 a b = if is_empty a || is_empty b then false else sum256 a == sum256 b

accepted :
    (sum256 : Bytes → Bytes) (a b : Bytes)
    → (sum256 a ≡ sum256 b → a ≡ b)
    → constant_time_equal sum256 a b ≡ true
    → (a ≡ b) × (a ≢ [])
unfolding constant_time_equal
accepted sum256 [] b apart h = cc
accepted sum256 (x ∷ a) [] apart h = cc
accepted sum256 (x ∷ a) (y ∷ b) apart h =
    (apart ((bytes_beq_iff (sum256 (x ∷ a)) (sum256 (y ∷ b))).0 h), cc)

accepts_itself :
    (sum256 : Bytes → Bytes) (a : Bytes) → a ≢ [] → constant_time_equal sum256 a a ≡ true
unfolding constant_time_equal
accepts_itself sum256 [] h = absurd (h refl)
accepts_itself sum256 (x ∷ a) h = ==-refl (sum256 (x ∷ a))

-- Two secrets that the hash does not confuse are accepted exactly if they are equal and not empty.
pub constant_time_equal_iff :
    (sum256 : Bytes → Bytes) (a b : Bytes)
    → (sum256 a ≡ sum256 b → a ≡ b)
    → (constant_time_equal sum256 a b ≡ true) ↔ ((a ≡ b) × (a ≢ []))
constant_time_equal_iff sum256 a b apart =
    (accepted sum256 a b apart, λ h. rw (← h.0) (accepts_itself sum256 a h.1))
