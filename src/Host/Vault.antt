-- ===== src/Host/Vault.antt =====
-- hub/internal/host/credentials.go: the vault that encrypts credentials, and its master key.
-- AES-GCM, encoding/json and crypto/rand are parameters.
pub mod Sealing
pub mod Loading
mod Tests
use visual_tmux_client.Prelude.{
  ℕ, Bool, true, false, not, ◌&&◌, ◌||◌, Bytes, codes, Option, none, some, List, [], ◌∷◌, length,
  if◌then◌else◌, ◌==◌, bytes_eq, nat_eq,
}
use visual_tmux_client.Host.Identity.{Error, Result, ok, err, failure, after, and_then}
use visual_tmux_client.Host.Store.Files.{FileInfo, Lookup, found, missing, broken, others_bits}

pub record Credentials : Type 0 where
  pub password : Bytes
  pub private_key : Bytes
  pub passphrase : Bytes

-- credentialEnvelope
pub record Envelope : Type 0 where
  pub version : ℕ
  pub nonce : Bytes
  pub ciphertext : Bytes

-- cipher.AEAD under a key, and the JSON forms of what the vault stores.
pub record Cipher : Type 0 where
  pub nonce_size : ℕ
  pub seal_bytes : (key nonce plaintext aad : Bytes) → Bytes
  pub open_bytes : (key nonce ciphertext aad : Bytes) → Option Bytes
  pub marshal_credentials : Credentials → Bytes
  pub unmarshal_credentials : Bytes → Option Credentials
  pub marshal_envelope : Envelope → Bytes
  pub unmarshal_envelope : Bytes → Option Envelope
  pub marshal_identity : (id kind : Bytes) → ℕ → Bytes

abbrev pub credential_envelope_version : ℕ
credential_envelope_version = 1

abbrev pub master_key_length : ℕ
master_key_length = 32

-- NewVault: a vault is its key.
unfoldable pub new_vault : Bytes → Result Bytes
new_vault key =
    if length key == master_key_length
    then ok key
    else err (failure (codes "master key must contain exactly 32 bytes"))

module _ (c : Cipher) where
  -- credentialAAD
  abbrev pub credential_aad : (id kind : Bytes) → ℕ → Bytes
  credential_aad id kind version = c.marshal_identity id kind version

  abbrev pub envelope_of : (key id kind : Bytes) → Credentials → Bytes → Envelope
  envelope_of key id kind credential nonce = record {
    version = credential_envelope_version;
    nonce = nonce;
    ciphertext =
        c.seal_bytes key nonce (c.marshal_credentials credential)
          (credential_aad id kind credential_envelope_version);
  }

  -- Seal; `nonce` is what rand.Read answers
  unfoldable pub seal : (key id kind : Bytes) → Credentials → Result Bytes → Result Bytes
  seal key id kind credential nonce =
      and_then nonce (λ n. ok (c.marshal_envelope (envelope_of key id kind credential n)))

  abbrev pub is_readable : Envelope → Bool
  is_readable e = e.version == credential_envelope_version && length e.nonce == c.nonce_size

  abbrev pub decrypted : Option Bytes → Result Credentials
  decrypted none =
      err
        (failure (codes "credential decryption failed; verify the master key and registry backup"))
  decrypted (some plaintext) = parsed (c.unmarshal_credentials plaintext)
    where
      parsed : Option Credentials → Result Credentials
      parsed none = err (failure (codes "invalid decrypted credential"))
      parsed (some credential) = ok credential

  abbrev pub open_envelope : (key id kind : Bytes) → Option Envelope → Result Credentials
  open_envelope key id kind none = err (failure (codes "invalid encrypted credential"))
  open_envelope key id kind (some e) =
      if is_readable e
      then decrypted (c.open_bytes key e.nonce e.ciphertext (credential_aad id kind e.version))
      else err (failure (codes "invalid encrypted credential"))

  -- Open
  unfoldable pub open_credential : (key id kind bytes : Bytes) → Result Credentials
  open_credential key id kind bytes = open_envelope key id kind (c.unmarshal_envelope bytes)

-- The answers of the file system and of crypto/rand to LoadVault.
pub record KeyAnswers : Type 0 where
  pub key_file : Lookup
  pub read_key : Result Bytes
  pub make_directory : Option Error
  pub random : Result Bytes
  pub create_key : Option Error
  pub write_key : Option Error

abbrev pub is_private_file : FileInfo → Bool
is_private_file info = info.is_regular && others_bits info == 0

-- The new file is created, written, synced and closed.
abbrev pub write_vault : KeyAnswers → Bytes → Option Error → Option Bytes × Result Bytes
unfolding new_vault
write_vault a key (some e) = (none, err e)
write_vault a key none = (some key, after a.write_key (new_vault key))

abbrev pub create_vault : KeyAnswers → Result Bytes → Option Bytes × Result Bytes
create_vault a (err e) = (none, err e)
create_vault a (ok key) = write_vault a key a.create_key

abbrev pub make_vault : KeyAnswers → Option Error → Option Bytes × Result Bytes
make_vault a (some e) = (none, err e)
make_vault a none = create_vault a a.random

abbrev pub load_from : KeyAnswers → Bool → Lookup → Option Bytes × Result Bytes
unfolding new_vault
load_from a existing (found info) =
    if is_private_file info
    then (none, and_then a.read_key new_vault)
    else (none, err (failure (codes "master key must be a private regular file")))
load_from a existing missing =
    if existing
    then (none, err (failure (codes "master key missing for existing host state")))
    else make_vault a a.make_directory
load_from a existing (broken e) = (none, err e)

-- LoadVault, with the key that it writes into a new file, if any.
unfoldable pub load_vault : KeyAnswers → Bool → Option Bytes × Result Bytes
unfolding new_vault
load_vault a existing = load_from a existing a.key_file
