-- ===== src/Host/Registry.antt =====
-- hub/internal/host/registry.go: what the registry takes and shows, and the parts of an update.
pub mod Saving
pub mod Service
pub mod Calls
pub mod Changes
pub mod Updates
pub mod Starting
pub mod Trusting
mod Tests
use visual_tmux_client.Prelude.{
  ℕ, Bool, true, false, not, ◌&&◌, ◌||◌, Bytes, codes, Option, none, some, List, [], ◌∷◌, length,
  all, if◌then◌else◌, ◌==◌, leb, ltb, bytes_eq, nat_eq, is_empty,
}
use visual_tmux_client.Host.Identity.{
  ConnectionType, Error, Result, ok, err, failure, local_id, is_local, and_then,
}
use visual_tmux_client.Host.Store.{Record, default_type}
use visual_tmux_client.Host.Vault.{Credentials, Cipher, seal}

-- Host, the projection for replies
pub record Host : Type 0 where
  pub id : Bytes
  pub revision : ℕ
  pub connection_revision : ℕ
  pub name : Bytes
  pub connection_type : ConnectionType
  pub address : Bytes
  pub port : ℕ
  pub username : Bytes
  pub credential_type : Bytes
  pub has_credential : Bool
  pub trusted : Bool

pub record HostInput : Type 0 where
  pub id : Bytes
  pub connection_type : ConnectionType
  pub name : Bytes
  pub address : Bytes
  pub port : ℕ
  pub username : Bytes
  pub credential_type : Bytes
  pub credentials : Credentials
  pub host_key : Bytes
  pub challenge_token : Bytes

abbrev pub is_ssh : ConnectionType → Bool
is_ssh ConnectionType.ssh = true
is_ssh ConnectionType.local = false
is_ssh ConnectionType.blank = false
is_ssh (ConnectionType.unknown t) = false

abbrev pub project_as : Record → ConnectionType → Host
project_as r kind = record {
  id = r.id;
  revision = r.revision;
  connection_revision = r.connection_revision;
  name = r.name;
  connection_type = kind;
  address = if is_ssh kind then r.address else [];
  port = if is_ssh kind then r.port else 0;
  username = if is_ssh kind then r.username else [];
  credential_type = if is_ssh kind then r.credential_type else [];
  has_credential = is_ssh kind && not (is_empty r.credential);
  trusted = is_ssh kind && not (is_empty r.host_key);
}

unfoldable pub project : Record → Host
unfolding default_type
project r = project_as r (default_type r.id r.connection_type)

-- a-z, A-Z, 0-9, - and _
abbrev pub is_id_byte : ℕ → Bool
is_id_byte c =
    leb 97 c && leb c 122 || leb 65 c && leb c 90 || leb 48 c && leb c 57 || c == 45 || c == 95

-- validHostID
unfoldable pub valid_host_id : Bytes → Bool
valid_host_id id = not (is_empty id) && leb (length id) 64 && all is_id_byte id

-- hasSecretFields
unfoldable pub has_secret_fields : Credentials → Bool
has_secret_fields c =
    not (is_empty c.password) || not (is_empty c.private_key) || not (is_empty c.passphrase)

-- hasIrrelevantLocalFields
unfoldable pub has_irrelevant_local_fields : HostInput → Bool
unfolding has_secret_fields
has_irrelevant_local_fields i =
    not (is_empty i.address)
    || not (i.port == 0)
    || not (is_empty i.username)
    || not (is_empty i.credential_type)
    || has_secret_fields i.credentials
    || not (is_empty i.host_key)
    || not (is_empty i.challenge_token)

-- CredentialTypePassword and CredentialTypePrivateKey of ssh_auth.go
unfoldable pub credential_type_password : Bytes
credential_type_password = codes "password"

unfoldable pub credential_type_private_key : Bytes
credential_type_private_key = codes "private_key"

abbrev pub lacks_secret : Bytes → Credentials → Bool
unfolding credential_type_password credential_type_private_key
lacks_secret kind c =
    kind == credential_type_password && is_empty c.password
    || kind == credential_type_private_key && is_empty c.private_key

module _ (c : Cipher) where
  -- sealInputCredential
  unfoldable pub seal_input_credential :
      (key id kind : Bytes) → Credentials → Result Bytes → Result Bytes
  unfolding credential_type_password credential_type_private_key seal
  seal_input_credential key id kind credentials nonce =
      if is_empty kind
      then ok []
      else if not (kind == credential_type_password) && not (kind == credential_type_private_key)
      then err (failure (codes "invalid credential type"))
      else if lacks_secret kind credentials
      then err (failure (codes "credentials required for configured credential type"))
      else seal c key id kind credentials nonce

-- What resolveCredentialUpdate decides.
pub record CredentialUpdate : Type 0 where
  pub kind : Bytes
  pub bytes : Bytes
  pub changed : Bool

abbrev pub chosen : Bytes → Bytes → Bytes
chosen wanted old = if is_empty wanted then old else wanted

module _ (c : Cipher) where
  -- resolveCredentialUpdate
  unfoldable pub resolve_credential_update :
      (key : Bytes) → HostInput → Record → Result Bytes → Result CredentialUpdate
  unfolding has_secret_fields seal_input_credential
  resolve_credential_update key i old nonce =
      if has_secret_fields i.credentials
      then and_then
          (seal_input_credential c key i.id (chosen i.credential_type old.credential_type)
            i.credentials nonce)
          (λ sealed. ok (record {
            kind = chosen i.credential_type old.credential_type;
            bytes = sealed;
            changed = true;
          }))
      else if not (is_empty i.credential_type) && not (i.credential_type == old.credential_type)
      then err (
          failure (codes "cannot change credential type without supplying replacement credentials"))
      else ok (record { kind = old.credential_type; bytes = old.credential; changed = false })

-- resolveHostKeyUpdate
unfoldable pub resolve_host_key_update : (input_key old_key : Bytes) → Bool → Bytes × Bool
resolve_host_key_update input_key old_key endpoint_changed =
    if not (is_empty input_key)
    then (input_key, not (input_key == old_key))
    else if endpoint_changed
    then ([], not (is_empty old_key))
    else (old_key, false)
