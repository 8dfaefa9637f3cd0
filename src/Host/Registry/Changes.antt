-- ===== src/Host/Registry/Changes.antt =====
-- hub/internal/host/registry.go: when an update gives a host a new connection revision.
use visual_tmux_client.Prelude.{
  ◌≡◌, refl, ◌⊎◌, inl, inr, Bool, true, false, not, ◌||◌, Bytes, ◌==◌, bytes_eq, nat_eq, is_empty,
  arith, Bool-cases, bytes_beq_iff,
}
use visual_tmux_client.Host.Store.{Record}
use visual_tmux_client.Host.Trim.{trim_space}
use visual_tmux_client.Host.Registry.{HostInput, CredentialUpdate, resolve_host_key_update}
use visual_tmux_client.Host.Registry.Saving.{updated_record, or_old, port_or}

-- The endpoint, the user, the credential and the host key are the same.
abbrev pub HasSameConnection : Record → Record → Type 0
HasSameConnection old r =
    (r.address ≡ old.address)
    × (r.port ≡ old.port)
    × (r.username ≡ old.username)
    × (r.credential_type ≡ old.credential_type)
    × (r.credential ≡ old.credential)
    × (r.host_key ≡ old.host_key)

-- Either nothing of the connection has changed, or the connection revision is the new revision.
abbrev pub MarksChange : Record → Record → Type 0
MarksChange old r =
    (HasSameConnection old r × (r.connection_revision ≡ old.connection_revision))
    ⊎ (r.connection_revision ≡ r.revision)

abbrev pub KeepsCredential : Record → CredentialUpdate → Type 0
KeepsCredential old u =
    (u.changed ≡ true) ⊎ ((u.kind ≡ old.credential_type) × (u.bytes ≡ old.credential))

resolve_host_key_same :
    (input old : Bytes)
    → (resolve_host_key_update input old false).1 ≡ false
    → (resolve_host_key_update input old false).0 ≡ old
unfolding resolve_host_key_update
resolve_host_key_same input old h = elim (Bool-cases (is_empty input)) [
  | inl absent ↦ rw absent refl
  | inr given ↦
      let same : (input == old) ≡ true = ground (arith, given, h) in
      rw given ((bytes_beq_iff input old).0 same)
]

same_host_key :
    (input old : Bytes) (moved : Bool)
    → moved ≡ false
    → (resolve_host_key_update input old moved).1 ≡ false
    → (resolve_host_key_update input old moved).0 ≡ old
same_host_key input old true unmoved h = let absurd : ⊥ = ground (arith, unmoved) in elim absurd [ ]
same_host_key input old false unmoved h = resolve_host_key_same input old h

none_of :
    (a b c d : Bool)
    → (a || b || c || d) ≡ false
    → (a ≡ false) × (b ≡ false) × (c ≡ false) × (d ≡ false)
none_of a b c d h = ground (arith, h)

both_same : (b c : Bool) → (not b || not c) ≡ false → (b ≡ true) × (c ≡ true)
both_same b c h = ground (arith, h)

is_same : (b : Bool) → not b ≡ false → b ≡ true
is_same b h = ground (arith, h)

kept_credential :
    (old : Record) (u : CredentialUpdate)
    → KeepsCredential old u
    → u.changed ≡ false
    → (u.kind ≡ old.credential_type) × (u.bytes ≡ old.credential)
kept_credential old u keeps h = ground (arith, keeps, h)

pub updated_record-MarksChange :
    (i : HostInput) (name : Bytes) (old : Record) (u : CredentialUpdate)
    → KeepsCredential old u
    → MarksChange old (updated_record i name old u)
unfolding updated_record
updated_record-MarksChange i name old u keeps =
    let address = or_old (trim_space i.address) old.address in
    let username = or_old (trim_space i.username) old.username in
    let port = port_or i.port old.port in
    let moved : Bool = not (address == old.address) || not (port == old.port) in
    let trust = resolve_host_key_update i.host_key old.host_key moved in
    let same_key : moved ≡ false → trust.1 ≡ false → trust.0 ≡ old.host_key =
      λ unmoved same. same_host_key i.host_key old.host_key moved unmoved same in
    elim (Bool-cases (moved || not (username == old.username) || u.changed || trust.1)) [
      | inl changes ↦ inr (rw changes refl)
      | inr stays ↦
          let (unmoved, same_user, same_credential, same_trust) =
            none_of moved (not (username == old.username)) u.changed trust.1 stays in
          let kept : (u.kind ≡ old.credential_type) × (u.bytes ≡ old.credential) =
            kept_credential old u keeps same_credential in
          let (same_address, same_port) =
            both_same (address == old.address) (port == old.port) unmoved in
          inl (
            (
              (bytes_beq_iff address old.address).0 same_address,
              ground (arith, same_port),
              (bytes_beq_iff username old.username).0
                  (is_same (username == old.username) same_user),
              kept.0,
              kept.1,
              same_key unmoved same_trust,
            ),
            rw stays refl,
          )
    ]
