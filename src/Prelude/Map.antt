-- ===== src/Prelude/Map.antt =====
-- Go maps as association lists: a key has at most one entry that a lookup can see.
use mathlib.Core.Path.{◌≡◌, refl, ap}
use mathlib.Core.Logic.{inl, inr}
use mathlib.Core.Bool.{Bool}
use mathlib.Core.Option.{Option, none, some}
use mathlib.Core.List.{List, [], ◌∷◌}
use native.Mathlib.Omega.{arith}
use visual_tmux_client.Prelude.Tests.{Comparable, ◌==◌, ==-refl, Bool-cases, if◌then◌else◌}

abbrev pub unless {κ} : {V : Type κ} → (V → Bool) → Option V → Option V
unless p none = none
unless p (some v) = if p v then none else some v

module _ {ℓ κ} {K : Type ℓ} {V : Type κ} ⦃e : Comparable K⦄ where
  unfoldable pub lookup : K → List (K × V) → Option V
  lookup k [] = none
  lookup k ((j, v) ∷ m) = if j == k then some v else lookup k m

  -- delete(m, k)
  unfoldable pub remove : K → List (K × V) → List (K × V)
  remove k [] = []
  remove k ((j, v) ∷ m) = if j == k then remove k m else (j, v) ∷ remove k m

  -- m[k] = v
  unfoldable pub insert : K → V → List (K × V) → List (K × V)
  unfolding remove
  insert k v m = (k, v) ∷ remove k m

  -- for k, v := range m { if p(k, v) { delete(m, k) } }
  unfoldable pub prune : (K → V → Bool) → List (K × V) → List (K × V)
  prune p [] = []
  prune p ((j, v) ∷ m) = if p j v then prune p m else (j, v) ∷ prune p m

  pub lookup-remove :
      (k j : K) (m : List (K × V)) → lookup j (remove k m) ≡ (if k == j then none else lookup j m)
  unfolding lookup remove
  lookup-remove k j [] = ground arith
  lookup-remove k j ((i, w) ∷ m) =
      ground (arith, e.matches_iff i k, e.matches_iff k j, e.matches_iff i j, lookup-remove k j m)

  pub lookup-insert :
      (k j : K) (v : V) (m : List (K × V))
      → lookup j (insert k v m) ≡ (if k == j then some v else lookup j m)
  unfolding lookup insert
  lookup-insert k j v m = ground (arith, lookup-remove k j m)

  pub remove-remove : (k : K) (m : List (K × V)) → remove k (remove k m) ≡ remove k m
  unfolding remove
  remove-remove k [] = refl
  remove-remove k ((i, w) ∷ m) = ground (arith, remove-remove k m)

  -- No key occurs twice, as in a Go map.
  abbrev pub IsUnique : List (K × V) → Type κ
  IsUnique [] = Unit
  IsUnique ((k, v) ∷ m) = (lookup k m ≡ none) × IsUnique m

  pub remove-IsUnique : (k : K) (m : List (K × V)) → IsUnique m → IsUnique (remove k m)
  unfolding remove
  remove-IsUnique k [] u = tt
  remove-IsUnique k ((j, v) ∷ m) u = elim (Bool-cases (j == k)) [
    | inl same ↦ rw same (remove-IsUnique k m u.1)
    | inr other ↦ rw other (rw (lookup-remove k j m) (ground (arith, u.0)), remove-IsUnique k m u.1)
  ]

  pub insert-IsUnique : (k : K) (v : V) (m : List (K × V)) → IsUnique m → IsUnique (insert k v m)
  unfolding insert
  insert-IsUnique k v m u =
      (rw (lookup-remove k k m, ==-refl k), unfold remove in remove-IsUnique k m u)

  pub lookup-prune-none :
      (p : K → V → Bool) (k : K) (m : List (K × V))
      → lookup k m ≡ none
      → lookup k (prune p m) ≡ none
  unfolding lookup prune
  lookup-prune-none p k [] h = refl
  lookup-prune-none p k ((j, v) ∷ m) h = elim (Bool-cases (j == k)) [
    | inl same ↦ ground arith
    | inr other ↦ ground (arith, lookup-prune-none p k m)
  ]

  pub prune-IsUnique : (p : K → V → Bool) (m : List (K × V)) → IsUnique m → IsUnique (prune p m)
  unfolding prune
  prune-IsUnique p [] u = tt
  prune-IsUnique p ((j, v) ∷ m) u = elim (Bool-cases (p j v)) [
    | inl gone ↦ rw gone (prune-IsUnique p m u.1)
    | inr stays ↦ rw stays (lookup-prune-none p j m u.0, prune-IsUnique p m u.1)
  ]

  -- A lookup after entries were deleted in a loop.
  pub lookup-prune :
      (p : K → V → Bool) (k : K) (m : List (K × V))
      → IsUnique m
      → lookup k (prune p m) ≡ unless (p k) (lookup k m)
  unfolding lookup prune
  lookup-prune p k [] u = refl
  lookup-prune p k ((j, v) ∷ m) u = elim (Bool-cases (j == k)) [
    | inl same ↦
        let e : j ≡ k = (e.matches_iff j k).0 same in
        ground (
          arith,
          u.0,
          lookup-prune-none p k m,
          ap (λ (x : K). p x v) e,
          ap (λ (x : K). lookup x m) e,
        )
    | inr other ↦ ground (arith, lookup-prune p k m u.1)
  ]
