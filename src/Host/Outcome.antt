-- ===== src/Host/Outcome.antt =====
-- How the calls of the host package end: a predicate that an error satisfies, and its rules.
use visual_tmux_client.Prelude.{
  ◌≡◌, refl, sym, subst, Bool, true, false, Option, none, some, if◌then◌else◌, arith,
}
use visual_tmux_client.Host.Identity.{Error, Result, ok, err, after, and_then}
use visual_tmux_client.Host.Store.{Database, transact}

module _ {A : Type 0} where
  abbrev pub Holds : (A → Type 0) → Result A → Type 0
  Holds Q (ok a) = Q a
  Holds Q (err e) = Unit

-- If the call succeeds, its result satisfies `Q`.
pub record Ends {A : Type 0} (Q : A → Type 0) (r : Result A) : Type 0 where
  pub holds : Holds Q r

module _ {A : Type 0} {Q : A → Type 0} where
  pub ok-Ends : {a : A} → Q a → Ends Q (ok a)
  ok-Ends h = record { holds = h }

  pub err-Ends : {e : Error} → Ends Q (err e)
  err-Ends = record { holds = tt }

  pub after-Ends : (o : Option Error) {r : Result A} → Ends Q r → Ends Q (after o r)
  after-Ends none h = h
  after-Ends (some e) h = err-Ends

  pub if-Ends :
      (b : Bool) {r s : Result A}
      → (b ≡ true → Ends Q r)
      → (b ≡ false → Ends Q s)
      → Ends Q (if b then r else s)
  if-Ends true hr hs = hr refl
  if-Ends false hr hs = hs refl

module _ {A B : Type 0} {P : A → Type 0} {Q : B → Type 0} where
  pub and_then-Ends :
      {r : Result A} {f : A → Result B}
      → Ends P r
      → ((a : A) → P a → Ends Q (f a))
      → Ends Q (and_then r f)
  and_then-Ends {r = ok a} h k = k a h.holds
  and_then-Ends {r = err e} h k = err-Ends

module _ {B A : Type 0} where
  -- A transaction that fails leaves the database alone.
  abbrev pub Settles : (Database B → A → Type 0) → Database B → Database B × Result A → Type 0
  Settles Q db (changed, ok a) = Q changed a
  Settles Q db (changed, err e) = changed ≡ db

  -- What both ends of a call have in common.
  pub Settles-any :
      (P : Database B → Type 0) (Q : Database B → A → Type 0) (db : Database B)
      (r : Database B × Result A)
      → Settles Q db r
      → P db
      → ((changed : Database B) (a : A) → Q changed a → P changed)
      → P r.0
  Settles-any P Q db (changed, ok a) h unchanged f = f changed a h
  Settles-any P Q db (changed, err e) h unchanged f = subst P (sym h) unchanged

  -- What a call that succeeds has left.
  pub Settles-ok :
      (Q : Database B → A → Type 0) (db : Database B) (a : A) (r : Database B × Result A)
      → Settles Q db r
      → r.1 ≡ ok a
      → Q r.0 a
  Settles-ok Q db a (changed, ok b) h e = subst (Q changed) (ground (arith, e)) h
  Settles-ok Q db a (changed, err x) h e = let absurd : ⊥ = ground (arith, e) in elim absurd [ ]

  pub transact-Settles :
      (Q : Database B → A → Type 0) (db : Database B) (r : Result (Database B × A))
      → Ends (λ p. Q p.0 p.1) r
      → Settles Q db (transact db r)
  transact-Settles Q db (ok (changed, a)) h = h.holds
  transact-Settles Q db (err e) h = refl
