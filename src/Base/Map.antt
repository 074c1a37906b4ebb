-- ===== src/Base/Map.antt =====
-- Go maps as association lists. A new key goes to the end; the order stands for the order of
-- `range`, which Go leaves open.
use web_rtcsfu.Base.Tests.{Eq, beq_refl, ◌==◌, if◌then◌else◌}
use web_rtcsfu.Base.Lists.{All, All-weaken}
use mathlib.Core.Logic.{◌⊎◌}
use mathlib.Core.Path.{◌≡◌, refl}
use mathlib.Core.Option.{Option, none, some}
use mathlib.Core.List.{List, [], ◌∷◌}
use native.Mathlib.Omega.{arith}

abbrev pub Map {ℓ κ} : Type ℓ → Type κ → Type (ℓ ⊔ κ)
Map K V = List (K × V)

module _ {ℓ κ} {K : Type ℓ} {V : Type κ} ⦃e : Eq K⦄ where
  -- `v, ok := m[k]`
  unfoldable pub lookup : K → Map K V → Option V
  lookup k [] = none
  lookup k ((j, w) ∷ m) = if j == k then some w else lookup k m

  -- `m[k] = v`
  unfoldable pub insert : K → V → Map K V → Map K V
  insert k v [] = (k, v) ∷ []
  insert k v (entry ∷ m) = if entry.0 == k then (k, v) ∷ m else entry ∷ insert k v m

  -- `delete(m, k)`
  unfoldable pub remove : K → Map K V → Map K V
  remove k [] = []
  remove k ((j, w) ∷ m) = let rest = remove k m in if j == k then rest else (j, w) ∷ rest

  pub lookup-insert :
      (k j : K) (v : V) (old : Map K V)
      → lookup j (insert k v old) ≡ (if k == j then some v else lookup j old)
  unfolding lookup insert
  lookup-insert k j v [] = refl
  lookup-insert k j v ((i, w) ∷ m) =
      let later = lookup-insert k j v m in
      ground (arith, later, e.beq_iff i k, e.beq_iff i j, e.beq_iff k j)

  pub lookup-remove :
      (k j : K) (m : Map K V) → lookup j (remove k m) ≡ (if k == j then none else lookup j m)
  unfolding lookup remove
  lookup-remove k j [] = ground arith
  lookup-remove k j ((i, w) ∷ m) =
      ground (arith, e.beq_iff k j, e.beq_iff i k, e.beq_iff i j, lookup-remove k j m)

  pub lookup-insert_self : (k : K) (v : V) (m : Map K V) → lookup k (insert k v m) ≡ some v
  lookup-insert_self k v m = simp (lookup-insert, beq_refl)

  pub lookup-insert_kept :
      (k j : K) (v : V) (m : Map K V) → ¬ (lookup j m ≡ none) → ¬ (lookup j (insert k v m) ≡ none)
  lookup-insert_kept k j v m h = rw (lookup-insert k j v m) (ground arith)

  -- A key of a map is its first key, or one of the rest.
  pub lookup-cons :
      (k j : K) (v : V) (m : Map K V)
      → ¬ (lookup k ((j, v) ∷ m) ≡ none)
      → (j ≡ k) ⊎ ¬ (lookup k m ≡ none)
  unfolding lookup
  lookup-cons k j v m h = ground (arith, e.beq_iff j k)

  -- The keys that a range over the map meets are keys of the map.
  pub lookup_keys : (m : Map K V) → All (λ entry. ¬ (lookup entry.0 m ≡ none)) m
  unfolding lookup
  lookup_keys [] = tt
  lookup_keys ((j, w) ∷ m) = (
    λ h. ground (arith, beq_refl j),
    All-weaken (λ entry. ¬ (lookup entry.0 m ≡ none)) _ m
        (λ entry h. ground (arith, e.beq_iff j entry.0)) (lookup_keys m),
  )
