-- ===== src/Host/Vault/Sealing.antt =====
-- hub/internal/host/credentials.go: what was sealed is opened again, for the same host and kind
-- only.
use visual_tmux_client.Prelude.{
  ◌≡◌, ◌≢◌, refl, true, Bytes, none, some, length, ◌==◌, nat_eq, arith,
}
use visual_tmux_client.Host.Identity.{ok, and_then}
use visual_tmux_client.Host.Vault.{
  Credentials, Cipher, seal, open_credential, open_envelope, envelope_of, decrypted, credential_aad,
}

-- What AES-GCM and encoding/json promise for one sealed credential.
abbrev pub Keeps : Cipher → (key id kind nonce : Bytes) → Credentials → Type 0
Keeps c key id kind nonce credential =
    (c.unmarshal_envelope (c.marshal_envelope (envelope_of c key id kind credential nonce))
      ≡ some (envelope_of c key id kind credential nonce))
    × (c.unmarshal_credentials (c.marshal_credentials credential) ≡ some credential)
    × (length nonce ≡ c.nonce_size)

module _ (c : Cipher) where
  open_envelope-of :
      (key id kind nonce : Bytes) (other kind' : Bytes) (credential : Credentials)
      → length nonce ≡ c.nonce_size
      → open_envelope c key other kind' (some (envelope_of c key id kind credential nonce))
        ≡ decrypted c (
            c.open_bytes key nonce
              (envelope_of c key id kind credential nonce).ciphertext
              (credential_aad c other kind' 1))
  open_envelope-of key id kind nonce other kind' credential size =
      let fits : (length nonce == c.nonce_size) ≡ true = ground (arith, size) in rw fits refl

  -- A sealed credential is opened again under its host and kind, where the cipher opens what it
  -- sealed and JSON keeps the credential and the envelope.
  pub open_credential-seal :
      (key id kind nonce : Bytes) (credential : Credentials)
      → Keeps c key id kind nonce credential
      → ((plaintext aad : Bytes)
          → c.open_bytes key nonce (c.seal_bytes key nonce plaintext aad) aad ≡ some plaintext)
      → and_then (seal c key id kind credential (ok nonce)) (open_credential c key id kind)
        ≡ ok credential
  unfolding seal open_credential
  open_credential-seal key id kind nonce credential (envelope, plain, size) opens =
      rw
        (
          envelope,
          open_envelope-of key id kind nonce id kind credential size,
          opens (c.marshal_credentials credential) (credential_aad c id kind 1),
          plain,
        )
        refl

  -- A sealed credential is refused under another host or kind, where the cipher opens nothing
  -- under other associated data and JSON tells identities apart.
  pub open_credential_other :
      (key id kind nonce id' kind' : Bytes) (credential : Credentials)
      → Keeps c key id kind nonce credential
      → ((plaintext aad aad' : Bytes)
          → aad ≢ aad'
          → c.open_bytes key nonce (c.seal_bytes key nonce plaintext aad) aad' ≡ none)
      → c.marshal_identity id kind 1 ≢ c.marshal_identity id' kind' 1
      → and_then (seal c key id kind credential (ok nonce)) (open_credential c key id' kind')
        ≡ decrypted c none
  unfolding seal open_credential
  open_credential_other key id kind nonce id' kind' credential (envelope, _, size) refuses apart =
      rw
        (
          envelope,
          open_envelope-of key id kind nonce id' kind' credential size,
          refuses (c.marshal_credentials credential) _ _ apart,
        )
        refl
