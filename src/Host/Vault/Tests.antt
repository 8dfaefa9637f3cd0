-- ===== src/Host/Vault/Tests.antt =====
-- A vault over a toy cipher that puts the associated data in front of the text.
use visual_tmux_client.Prelude.{
  ◌≡◌, ◌≢◌, refl, true, false, Bytes, codes, Option, none, some, [], ◌∷◌, ◌++◌, length, take, drop,
  take-length-append, drop-length-append, if◌then◌else◌, ◌==◌, ==-refl, bytes_eq, bytes_beq_iff,
  arith, Bool-cases, inl, inr,
}
use visual_tmux_client.Host.Identity.{Result, ok, and_then}
use visual_tmux_client.Host.Store.Files.{missing}
use visual_tmux_client.Host.Vault.{
  Credentials, Cipher, KeyAnswers, seal, open_credential, decrypted, load_vault,
}
use visual_tmux_client.Host.Vault.Sealing.{open_credential-seal, open_credential_other}
use visual_tmux_client.Host.Vault.Loading.{Loads, load_vault-Loads}

abbrev secret : Credentials
secret = record { password = codes "pw"; private_key = []; passphrase = [] }

abbrev toy_open : Bytes → Bytes → Option Bytes
toy_open [] aad = none
toy_open (n ∷ bytes) aad = if take n bytes == aad then some (drop n bytes) else none

abbrev toy : Cipher
toy = record {
  nonce_size = 1;
  seal_bytes = λ key nonce plaintext aad. length aad ∷ (aad ++ plaintext);
  open_bytes = λ key nonce ciphertext aad. toy_open ciphertext aad;
  marshal_credentials = λ c. c.password;
  unmarshal_credentials = λ b. some (record { password = b; private_key = []; passphrase = [] });
  marshal_envelope = λ e. e.ciphertext;
  unmarshal_envelope = λ b. some (record { version = 1; nonce = 7 ∷ []; ciphertext = b });
  marshal_identity = λ id kind version. length id ∷ (id ++ kind);
}

toy_opens :
    (plaintext aad : Bytes) → toy_open (length aad ∷ (aad ++ plaintext)) aad ≡ some plaintext
toy_opens plaintext aad =
    rw (take-length-append aad plaintext, drop-length-append aad plaintext, ==-refl aad) refl

toy_refuses :
    (plaintext aad aad' : Bytes)
    → aad ≢ aad'
    → toy_open (length aad ∷ (aad ++ plaintext)) aad' ≡ none
toy_refuses plaintext aad aad' apart = elim (Bool-cases (aad == aad')) [
  | inl same ↦ elim (apart ((bytes_beq_iff aad aad').0 same)) [ ]
  | inr other ↦ rw (take-length-append aad plaintext, other) refl
]

abbrev sealed_open : Bytes → Result Credentials
unfolding seal open_credential
sealed_open id =
    and_then (seal toy (codes "key") (codes "a") (codes "password") secret (ok (7 ∷ [])))
      (open_credential toy (codes "key") id (codes "password"))

open_credential-seal_example : sealed_open (codes "a") ≡ ok secret
unfolding sealed_open seal
open_credential-seal_example =
    open_credential-seal toy (codes "key") (codes "a") (codes "password") (7 ∷ []) secret
      (refl, refl, refl) toy_opens

other_identity :
    toy.marshal_identity (codes "a") (codes "password") 1
    ≢ toy.marshal_identity (codes "b") (codes "password") 1
other_identity e =
    let same : (toy.marshal_identity (codes "a") (codes "password") 1
          == toy.marshal_identity (codes "b") (codes "password") 1)
        ≡ true =
      (bytes_beq_iff (toy.marshal_identity (codes "a") (codes "password") 1)
          (toy.marshal_identity (codes "b") (codes "password") 1)).1
        e in
    ground (arith, same)

open_credential_other_example : sealed_open (codes "b") ≡ decrypted toy none
unfolding sealed_open seal
open_credential_other_example =
    open_credential_other toy (codes "key") (codes "a") (codes "password") (7 ∷ []) (codes "b")
      (codes "password") secret (refl, refl, refl) toy_refuses other_identity

abbrev no_key : KeyAnswers
no_key = record {
  key_file = missing;
  read_key = ok [];
  make_directory = none;
  random = ok (1 ∷ 2 ∷ []);
  create_key = none;
  write_key = none;
}

load_vault-Loads_example : Loads no_key false (load_vault no_key false)
load_vault-Loads_example = load_vault-Loads no_key false
