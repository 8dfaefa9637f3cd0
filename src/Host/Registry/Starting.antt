-- ===== src/Host/Registry/Starting.antt =====
-- hub/internal/host/registry.go: the first start of a registry, and one after a failed start.
use visual_tmux_client.Prelude.Int.{pos}
use visual_tmux_client.Prelude.{◌≡◌, refl, ap, subst, ◌∙◌, true, false, codes, none}
use visual_tmux_client.Host.Identity.{Error, ok, err, failure}
use visual_tmux_client.Host.Store.{Codec}
use visual_tmux_client.Host.Store.Files.{FileInfo, found, missing}
use visual_tmux_client.Host.Store.Fresh.{fresh_database}
use visual_tmux_client.Host.Store.Opening.{Directory, open_store}
use visual_tmux_client.Host.Store.Opened.{Opens, OpensVersion, open_store-Opens}
use visual_tmux_client.Host.Vault.{Cipher, load_vault, new_vault}
use visual_tmux_client.Host.Registry.Service.{
  Registry, Surroundings, initialize, with_state, released, verify_store_credentials,
}

module _ {B : Type 0} (json : Codec B) (c : Cipher) where
  -- A directory that a registry may open for the first time.
  abbrev pub IsNew : Surroundings → Registry B → Directory B → Error → Type 0
  IsNew s r d e =
      (r.closed ≡ false)
      × (r.key ≡ none)
      × (r.directory_known ≡ true)
      × (s.database_file ≡ missing)
      × (open_store json s.store_answers s.opening none s.tables r.state ≡ (d, ok tt))
      × ((load_vault s.key_answers false).1 ≡ err e)

  initialize-new :
      (s : Surroundings) (r : Registry B) (d : Directory B) (e : Error)
      → IsNew s r d e
      → initialize json c s r ≡ (with_state r (released d), err e)
  unfolding initialize verify_store_credentials
  initialize-new s r d e (alive, unset, known, absent, stored, keyless) =
      rw (alive, unset, known, absent, stored, keyless) refl

  initialize-keyless :
      (s : Surroundings) (r : Registry B) (info : FileInfo)
      → r.closed ≡ false
      → r.key ≡ none
      → r.directory_known ≡ true
      → s.database_file ≡ found info
      → s.key_answers.key_file ≡ missing
      → initialize json c s r
        ≡ (r, err (failure (codes "master key missing for existing host state")))
  unfolding initialize load_vault new_vault open_store verify_store_credentials
  initialize-keyless s r info alive unset known there absent =
      rw (alive, unset, known, there, absent) refl

  -- A first start that makes the database and then fails to make the key leaves the database
  -- behind, and every later start without a key file is refused.
  pub failed_start_blocks :
      (s : Surroundings) (r : Registry B) (d : Directory B) (e : Error) (s' : Surroundings)
      (info : FileInfo)
      → IsNew s r d e
      → r.state.database.version ≡ pos 0
      → s'.database_file ≡ found info
      → s'.key_answers.key_file ≡ missing
      → let left = (initialize json c s r).0 in
        (left.state.database ≡ fresh_database json)
        × ((initialize json c s r).1 ≡ err e)
        × ((initialize json c s' left).1
            ≡ err (failure (codes "master key missing for existing host state")))
  failed_start_blocks s r d e s' info new version there absent =
      let first : initialize json c s r ≡ (with_state r (released d), err e) =
        initialize-new s r d e new in
      let (alive, unset, known, _, stored, _) = new in
      let opens : Opens json s.tables r.state (d, ok tt) =
        subst (Opens json s.tables r.state) stored
          (open_store-Opens json s.store_answers s.opening none s.tables r.state) in
      let fresh : d.database ≡ fresh_database json =
        (subst (λ n. OpensVersion json n s.tables r.state d) version opens.1).1 in
      (
        ap (λ p. p.0.state.database) first ∙ fresh,
        ap (λ p. p.1) first,
        ap (λ p. (initialize json c s' p.0).1) first
            ∙ ap (λ p. p.1)
                (initialize-keyless s' (with_state r (released d)) info alive unset known there
                  absent),
      )
