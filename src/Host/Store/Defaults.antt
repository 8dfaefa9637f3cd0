-- ===== src/Host/Store/Defaults.antt =====
-- hub/internal/host/store.go: how UpdateDefaultHost ends.
use visual_tmux_client.Prelude.{
  ℕ, ◌+◌, ◌%◌, ◌^◌, ◌≡◌, ◌≢◌, refl, sym, subst, ◌↔◌, Bool, true, false, inl, inr, Bool-cases,
  Option-cases, not, ◌||◌, Bytes, Option, none, some, ◌==◌, bytes_eq, nat_eq, arith, is_empty,
}
use visual_tmux_client.Prelude.Map.{lookup}
use visual_tmux_client.Host.Outcome.{
  Ends, Settles, ok-Ends, err-Ends, after-Ends, if-Ends, and_then-Ends, transact-Settles,
}
use visual_tmux_client.Host.Identity.{Result, ok, err, after}
use visual_tmux_client.Host.Store.{Database, Driver, Row, SettingsRow}
use visual_tmux_client.Host.Store.Settings.{
  Settings, set_id, current_row, known_host, with_settings, set_default, update_default_host,
  is_host, insert_error,
}

module _ {B : Type 0} where
  -- The host that a request names, if it names one, is there.
  abbrev pub Names : Database B → Option Bytes → Type 0
  Names db target = (d : Bytes) → target ≡ some d → lookup d db.hosts ≢ none

  -- What a successful UpdateDefaultHost leaves.
  abbrev pub Defaults : Option Bytes → ℕ → Database B → Database B → Settings → Type 0
  Defaults id expected db changed s =
      (expected ≢ 0)
      × ((current_row db.settings).revision ≡ expected)
      × Names db (set_id id)
      × (changed ≡ with_settings (set_id id) ((expected + 1) % 2 ^ 64) db)
      × (s ≡ record { default_host_id = id; revision = (expected + 1) % 2 ^ 64 })

  is_host-found : (found : Option (Row B)) → is_host found ≡ true → found ≢ none
  is_host-found none h = ground (arith, h)
  is_host-found (some row) h = ground arith

module _ {B : Type 0} (driver : Driver) where
  known_host-Names :
      (id : Option Bytes) (db : Database B)
      → Ends (λ target. (target ≡ set_id id) × Names db target) (known_host driver id db)
  unfolding lookup
  known_host-Names none db = ok-Ends (refl, λ d e. ground (arith, e))
  known_host-Names (some id) db =
      if-Ends (is_empty id) (λ blank. ok-Ends (rw blank refl, λ d e. ground (arith, e)))
        (λ named. after-Ends (driver 3) (
          if-Ends (is_host (lookup id db.hosts))
            (λ there. ok-Ends (
              rw named refl,
              λ d e.
                  subst (λ x. lookup x db.hosts ≢ none) (ground (arith, e))
                    (is_host-found (lookup id db.hosts) there),
            ))
            (λ missing. err-Ends)))

  set_default-Defaults :
      (id : Option Bytes) (expected current : ℕ) (db : Database B)
      → (current_row db.settings).revision ≡ current
      → Ends (λ p. Defaults id expected db p.0 p.1) (set_default driver id expected current db)
  unfolding set_default lookup
  set_default-Defaults id expected current db is =
      if-Ends (expected == 0 || not (current == expected)) (λ stale. err-Ends)
        (λ fresh.
          let now : current ≡ expected = ground (arith, fresh) in
          and_then-Ends (known_host-Names id db) (λ target (named, there). after-Ends (driver 4) (
            after-Ends (driver 5) (
              after-Ends (driver 6) (
                ok-Ends (
                  ground (arith, fresh),
                  omega (arith, is, now),
                  subst (Names db) named there,
                  rw (sym named, now) refl,
                  rw now refl,
                ))))))

  pub update_default_host-Defaults :
      (id : Option Bytes) (expected : ℕ) (db : Database B)
      → Settles (Defaults id expected db) db (update_default_host driver id expected db)
  unfolding update_default_host
  update_default_host-Defaults id expected db =
      transact-Settles (Defaults id expected db) db
        (after (driver 0) (
          after (driver 1) (
            after (insert_error driver db.settings)
              (set_default driver id expected (current_row db.settings).revision db))))
        (after-Ends (driver 0) (
          after-Ends (driver 1) (
            after-Ends (insert_error driver db.settings)
              (set_default-Defaults id expected (current_row db.settings).revision db refl))))

-- The call has succeeded.
abbrev pub is_taken : {A : Type 0} → Result A → Bool
is_taken (ok a) = true
is_taken (err e) = false

insert_error-none :
    (driver : Driver)
    → driver 2 ≡ none
    → (row : Option SettingsRow) → insert_error driver row ≡ none
insert_error-none driver e none = e
insert_error-none driver e (some row) = refl

module _ {B : Type 0} (driver : Driver) (quiet : (k : ℕ) → driver k ≡ none) where
  known_host-found :
      (id : Option Bytes) (db : Database B)
      → Names db (set_id id)
      → known_host driver id db ≡ ok (set_id id)
  unfolding lookup
  known_host-found none db there = refl
  known_host-found (some id) db there = elim (Bool-cases (is_empty id)) [
    | inl blank ↦ rw blank refl
    | inr named ↦
        rw (named, quiet 3)
          (elim (Option-cases (lookup id db.hosts)) [
            | inl missing ↦ absurd (there id (rw named refl) missing)
            | inr (row, e) ↦ rw e refl
          ])
  ]

  takes :
      (id : Option Bytes) (expected : ℕ) (db : Database B)
      → expected ≢ 0
      → (current_row db.settings).revision ≡ expected
      → Names db (set_id id)
      → is_taken (update_default_host driver id expected db).1 ≡ true
  unfolding update_default_host set_default
  takes id expected db some_revision current there =
      let given : (expected == 0) ≡ false = ground (arith, some_revision) in
      let same : ((current_row db.settings).revision == expected) ≡ true =
        ground (arith, current) in
      rw
        (
          quiet 0,
          quiet 1,
          insert_error-none driver (quiet 2) db.settings,
          given,
          same,
          known_host-found id db there,
          quiet 4,
          quiet 5,
          quiet 6,
        )
        refl

  -- If no statement fails, UpdateDefaultHost succeeds exactly when a revision is given, it is the
  -- current one, and the host that is named, if one is, is there. It then stores the host and the
  -- next revision, and otherwise leaves the database alone.
  pub update_default_host_iff :
      (id : Option Bytes) (expected : ℕ) (db : Database B)
      → Settles (Defaults id expected db) db (update_default_host driver id expected db)
        × ((is_taken (update_default_host driver id expected db).1 ≡ true) ↔ (
            (expected ≢ 0)
            × ((current_row db.settings).revision ≡ expected)
            × Names db (set_id id)))
  update_default_host_iff id expected db =
      let settles = update_default_host-Defaults driver id expected db in
      (
        settles,
        (
          λ taken. only (update_default_host driver id expected db) taken settles,
          λ (given, current, there). takes id expected db given current there,
        ),
      )
    where
      only :
          (r : Database B × Result Settings)
          → is_taken r.1 ≡ true
          → Settles (Defaults id expected db) db r
          → (expected ≢ 0) × ((current_row db.settings).revision ≡ expected) × Names db (set_id id)
      only (changed, ok s) taken d = (d.0, d.1, d.2)
      only (changed, err e) taken d = ground (arith, taken)
