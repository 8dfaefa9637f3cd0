-- ===== src/Host/Registry/Updates.antt =====
-- hub/internal/host/registry.go: what a successful update of a host has stored.
use visual_tmux_client.Prelude.{
  ℕ, ◌+◌, ◌%◌, ◌^◌, ◌≡◌, ◌≢◌, refl, ap, subst, ◌⊎◌, inl, inr, true, not, ◌&&◌, Bytes, ◌==◌,
  bytes_eq, nat_eq, is_empty, arith, if_cases,
}
use visual_tmux_client.Host.Identity.{ConnectionType, Result, ok, err, is_local}
use visual_tmux_client.Host.Outcome.{Ends, Settles, ok-Ends, err-Ends, if-Ends, and_then-Ends}
use visual_tmux_client.Host.Store.{Record, Codec, Database, Driver, default_type, with_type}
use visual_tmux_client.Host.Store.Hosts.{get_record, put}
use visual_tmux_client.Host.Store.Puts.{Puts, put-Puts}
use visual_tmux_client.Host.Trim.{trim_space}
use visual_tmux_client.Host.Vault.{Cipher}
use visual_tmux_client.Host.Registry.{
  Host, HostInput, project, seal_input_credential, chosen, has_secret_fields,
  has_irrelevant_local_fields, valid_host_id, resolve_credential_update,
}
use visual_tmux_client.Host.Registry.Saving.{
  reading, projected, updated_record, save_record, save_update_ssh, update_as, save_update,
  save_open, local_host, is_change,
}
use visual_tmux_client.Host.Registry.Changes.{
  KeepsCredential, MarksChange, updated_record-MarksChange,
}

module _ {B A C : Type 0} where
  reading-Settles :
      (Q : Database B → C → Type 0) (db : Database B) (r : Result A) (f : A → Database B × Result C)
      → ((a : A) → r ≡ ok a → Settles Q db (f a))
      → Settles Q db (reading db r f)
  reading-Settles Q db (err e) f k = refl
  reading-Settles Q db (ok a) f k = k a refl

module _ {B : Type 0} where
  projected-Settles :
      (P : Database B → Unit {0} → Type 0) (Q : Database B → Host → Type 0) (db : Database B)
      (r : Record) (p : Database B × Result Unit)
      → Settles P db p
      → ((changed : Database B) (u : Unit) → P changed u → Q changed (project r))
      → Settles Q db (projected r p)
  unfolding project
  projected-Settles P Q db r (changed, ok u) h k = k changed u h
  projected-Settles P Q db r (changed, err e) h k = h

resolve_credential_update-KeepsCredential :
    (c : Cipher) (key : Bytes) (i : HostInput) (old : Record) (nonce : Result Bytes)
    → Ends (KeepsCredential old) (resolve_credential_update c key i old nonce)
unfolding resolve_credential_update
resolve_credential_update-KeepsCredential c key i old nonce =
    if-Ends (has_secret_fields i.credentials)
      (λ given.
        and_then-Ends
          (anything (
            seal_input_credential c key i.id (chosen i.credential_type old.credential_type)
              i.credentials nonce))
          (λ sealed _. ok-Ends (inl refl)))
      (λ absent.
        if-Ends (not (is_empty i.credential_type) && not (i.credential_type == old.credential_type))
          (λ other. err-Ends) (λ same. ok-Ends (inr (refl, refl))))
  where
    anything : (r : Result Bytes) → Ends (λ u. Unit {0}) r
    anything (ok u) = ok-Ends tt
    anything (err e) = err-Ends

module _ {B : Type 0} (json : Codec B) (c : Cipher) (key : Bytes) (drivers : ℕ → Driver)
    (nonce : Result Bytes) where
  -- The record that a successful update has stored, and the one that it replaces.
  abbrev pub Updated : HostInput → Bytes → ℕ → Database B → Database B → Host → Type 0
  Updated i name expected db changed h =
      (old : Record) × (r : Record) × (get_record json (drivers 0) i.id db ≡ ok old)
      × (old.revision ≡ expected)
      × (r.id ≡ i.id)
      × (r.name ≡ name)
      × (r.revision ≡ (expected + 1) % 2 ^ 64)
      × (h ≡ project r)
      × Puts json (drivers 1) expected (with_type r) db changed tt
      × ((is_local (default_type old.id old.connection_type) ≡ true) ⊎ MarksChange old r)

  save_record-Updated :
      (i : HostInput) (name : Bytes) (expected : ℕ) (db : Database B) (old r : Record)
      → get_record json (drivers 0) i.id db ≡ ok old
      → old.revision ≡ expected
      → r.id ≡ i.id
      → r.name ≡ name
      → r.revision ≡ (expected + 1) % 2 ^ 64
      → ((is_local (default_type old.id old.connection_type) ≡ true) ⊎ MarksChange old r)
      → Settles (Updated i name expected db) db (save_record json c key drivers nonce r expected db)
  unfolding put project
  save_record-Updated i name expected db old r got current id named next marks =
      projected-Settles (Puts json (drivers 1) expected (with_type r) db)
        (Updated i name expected db) db r (put json (drivers 1) r expected db)
        (put-Puts json (drivers 1) r expected db)
        (λ changed u p. (old, r, got, current, id, named, next, refl, p, marks))

  save_update_ssh-Updated :
      (i : HostInput) (name : Bytes) (expected : ℕ) (db : Database B) (old : Record)
      → get_record json (drivers 0) i.id db ≡ ok old
      → old.revision ≡ expected
      → Settles
          (Updated i name expected db)
          db
          (save_update_ssh json c key drivers nonce i name old expected db)
  unfolding save_update_ssh updated_record
  save_update_ssh-Updated i name expected db old got current =
      reading-Settles (Updated i name expected db) db (resolve_credential_update c key i old nonce)
        (λ u. save_record json c key drivers nonce (updated_record i name old u) expected db)
        (λ u e.
          let keeps : KeepsCredential old u =
            (subst (Ends (KeepsCredential old)) e
              (resolve_credential_update-KeepsCredential c key i old nonce)).holds in
          save_record-Updated i name expected db old (updated_record i name old u) got current refl
            refl (ap (λ n. (n + 1) % 2 ^ 64) current)
            (inr (updated_record-MarksChange i name old u keeps)))

  update_as-Updated :
      (i : HostInput) (name : Bytes) (expected : ℕ) (db : Database B) (old : Record)
      → get_record json (drivers 0) i.id db ≡ ok old
      → old.revision ≡ expected
      → Settles (Updated i name expected db) db (
          update_as json c key drivers nonce
            (default_type old.id old.connection_type)
            i
            name
            old
            expected
            db)
  unfolding has_irrelevant_local_fields save_update_ssh project put
  update_as-Updated i name expected db old got current =
      if_cases (Settles (Updated i name expected db) db) (is_change i.connection_type kind)
        (λ other. refl)
        (λ kept.
          if_cases (Settles (Updated i name expected db) db) (is_local kind)
            (λ local_kind.
              if_cases (Settles (Updated i name expected db) db) (has_irrelevant_local_fields i)
                (λ extra. refl)
                (λ plain.
                  save_record-Updated i name expected db old
                    (local_host i.id name ((old.revision + 1) % 2 ^ 64) old.connection_revision) got
                    current refl refl (ap (λ n. (n + 1) % 2 ^ 64) current) (inl local_kind)))
            (λ remote. save_update_ssh-Updated i name expected db old got current))
    where
      kind : ConnectionType
      kind = default_type old.id old.connection_type

  -- saveUpdate
  pub save_update-Updated :
      (i : HostInput) (name : Bytes) (expected : ℕ) (db : Database B)
      → Settles
          (Updated i name expected db)
          db
          (save_update json c key drivers nonce i name expected db)
  unfolding save_update
  save_update-Updated i name expected db =
      reading-Settles (Updated i name expected db) db (get_record json (drivers 0) i.id db) _
        (λ old got.
          if_cases (Settles (Updated i name expected db) db) (not (old.revision == expected))
            (λ stale. refl)
            (λ fresh. update_as-Updated i name expected db old got (ground (arith, fresh))))

  -- Save with a revision stores the next revision of the host over the expected one, or leaves
  -- the database alone; the connection revision of a host that is not local is the new revision
  -- unless endpoint, user, credential and host key are those of before.
  pub save_open-Updated :
      (i : HostInput) (expected : ℕ) (db : Database B)
      → expected ≢ 0
      → Settles
          (Updated i (trim_space i.name) expected db)
          db
          (save_open json c key drivers nonce i expected db)
  unfolding save_open
  save_open-Updated i expected db set =
      if_cases (Settles (Updated i (trim_space i.name) expected db) db) (not (valid_host_id i.id))
        (λ bad. refl)
        (λ good.
          if_cases (Settles (Updated i (trim_space i.name) expected db) db)
            (is_empty (trim_space i.name)) (λ blank. refl)
            (λ named.
              if_cases (Settles (Updated i (trim_space i.name) expected db) db) (expected == 0)
                (λ new. let absurd : ⊥ = ground (arith, new, set) in elim absurd [ ])
                (λ old. save_update-Updated i (trim_space i.name) expected db)))
