-- ===== src/Host/Vault/Loading.antt =====
-- hub/internal/host/credentials.go: LoadVault makes a key only where no state needs one.
use visual_tmux_client.Prelude.{
  ◌≡◌, refl, Bool, true, false, Bytes, Option, none, some, length, ◌==◌, nat_eq, arith, Bool-cases,
  inl, inr,
}
use visual_tmux_client.Host.Identity.{Error, Result, ok, err, after, and_then}
use visual_tmux_client.Host.Store.Files.{Lookup, found, missing, broken}
use visual_tmux_client.Host.Vault.{
  KeyAnswers, load_vault, new_vault, write_vault, create_vault, make_vault, load_from,
  is_private_file, master_key_length,
}

-- The key that is used has the length of a key, and is the one that was read or written.
abbrev IsLoaded : KeyAnswers → Option Bytes → Result Bytes → Type 0
IsLoaded a written (err e) = Unit
IsLoaded a none (ok key) = (length key ≡ master_key_length) × (a.read_key ≡ ok key)
IsLoaded a (some made) (ok key) = (length key ≡ master_key_length) × (made ≡ key)

-- A key is written only where there is neither a key nor state.
abbrev IsNeeded : KeyAnswers → Bool → Option Bytes → Type 0
IsNeeded a existing none = Unit
IsNeeded a existing (some made) = (existing ≡ false) × (a.key_file ≡ missing)

abbrev pub Loads : KeyAnswers → Bool → Option Bytes × Result Bytes → Type 0
Loads a existing (written, vault) = IsLoaded a written vault × IsNeeded a existing written

read_key-Loads :
    (a : KeyAnswers) (existing : Bool) (r : Result Bytes)
    → a.read_key ≡ r
    → Loads a existing (none, and_then r new_vault)
unfolding new_vault
read_key-Loads a existing (err e) h = (tt, tt)
read_key-Loads a existing (ok key) h = elim (Bool-cases (length key == master_key_length)) [
  | inl right ↦ rw right ((ground (arith, right), h), tt)
  | inr wrong ↦ rw wrong (tt, tt)
]

written-Loads :
    (a : KeyAnswers) (key : Bytes) (e : Option Error)
    → a.key_file ≡ missing
    → Loads a false (some key, after e (new_vault key))
unfolding new_vault
written-Loads a key (some e) h = (tt, (refl, h))
written-Loads a key none h = elim (Bool-cases (length key == master_key_length)) [
  | inl right ↦ rw right ((ground (arith, right), refl), (refl, h))
  | inr wrong ↦ rw wrong (tt, (refl, h))
]

create_vault-Loads :
    (a : KeyAnswers) (key : Result Bytes)
    → a.key_file ≡ missing
    → Loads a false (create_vault a key)
unfolding new_vault
create_vault-Loads a (err x) h = (tt, tt)
create_vault-Loads a (ok key) h = written a.create_key
  where
    written : (o : Option Error) → Loads a false (write_vault a key o)
    written (some x) = (tt, tt)
    written none = written-Loads a key a.write_key h

load_from-Loads :
    (a : KeyAnswers) (existing : Bool) (l : Lookup)
    → a.key_file ≡ l
    → Loads a existing (load_from a existing l)
unfolding new_vault
load_from-Loads a existing (broken e) h = (tt, tt)
load_from-Loads a existing (found info) h = elim (Bool-cases (is_private_file info)) [
  | inl private ↦ rw private (read_key-Loads a existing a.read_key refl)
  | inr shared ↦ rw shared (tt, tt)
]
load_from-Loads a true missing h = (tt, tt)
load_from-Loads a false missing h = made a.make_directory
  where
    made : (o : Option Error) → Loads a false (make_vault a o)
    made (some x) = (tt, tt)
    made none = create_vault-Loads a a.random h

-- LoadVault answers with a key of the right length that it read, or that it wrote, or with an
-- error; and it writes a key only where there is no key file and no existing state.
pub load_vault-Loads : (a : KeyAnswers) (existing : Bool) → Loads a existing (load_vault a existing)
unfolding load_vault
load_vault-Loads a existing = load_from-Loads a existing a.key_file refl
