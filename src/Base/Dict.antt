-- ===== src/Base/Dict.antt =====
-- Dictionaries with decidable keys: the file system and parsed JSON objects. Other modules go by
-- the laws; only tests compute with the operations.
use see_size.Base.Tests.{if◌then◌else◌, is_some}
use see_size.Base.Equality.{Eq, ◌==◌, contains, list_eq}
use mathlib.Core.Path.{◌≡◌, refl}
use mathlib.Core.Bool.{Bool, not}
use mathlib.Core.Option.{Option, none, some}
use mathlib.Core.List.{List, [], ◌∷◌}
use native.Mathlib.Omega.{arith}

abbrev pub Dict {ℓ κ} : Type ℓ → Type κ → Type (ℓ ⊔ κ)
Dict K V = List (K × V)

abbrev pub keys {ℓ κ} : {K : Type ℓ} {V : Type κ} → Dict K V → List K
keys [] = []
keys ((k, v) ∷ d) = k ∷ keys d

module _ {ℓ κ} {K : Type ℓ} {V : Type κ} ⦃e : Eq K⦄ where
  unfoldable pub lookup : K → Dict K V → Option V
  lookup k [] = none
  lookup k ((j, v) ∷ d) = if k == j then some v else lookup k d

  -- An old entry of the key goes.
  unfoldable pub insert : K → V → Dict K V → Dict K V
  insert k v [] = (k, v) ∷ []
  insert k v ((j, w) ∷ d) = if k == j then (k, v) ∷ d else (j, w) ∷ insert k v d

  -- The entries whose keys pass the test.
  unfoldable pub keep : (K → Bool) → Dict K V → Dict K V
  keep p [] = []
  keep p ((j, w) ∷ d) = let rest = keep p d in if p j then (j, w) ∷ rest else rest

  abbrev pub erase : K → Dict K V → Dict K V
  erase k = keep (λ j. not (j == k))

  pub lookup-nil : (k : K) → lookup k [] ≡ none
  unfolding lookup
  lookup-nil k = refl

  pub lookup-cons :
      (j k : K) (v : V) (d : Dict K V)
      → lookup j ((k, v) ∷ d) ≡ (if j == k then some v else lookup j d)
  unfolding lookup
  lookup-cons j k v d = refl

  pub lookup-insert :
      (j k : K) (v : V) (d : Dict K V)
      → lookup j (insert k v d) ≡ (if j == k then some v else lookup j d)
  unfolding insert lookup
  lookup-insert j k v [] = refl
  lookup-insert j k v ((i, w) ∷ d) = ground (arith, lookup-insert j k v d)

  pub lookup-keep :
      (j : K) (p : K → Bool) (d : Dict K V)
      → lookup j (keep p d) ≡ (if p j then lookup j d else none)
  unfolding keep lookup
  lookup-keep j p [] = ground arith
  lookup-keep j p ((i, w) ∷ d) = ground (arith, lookup-keep j p d)

  pub contains-keys : (k : K) (d : Dict K V) → contains (keys d) k ≡ is_some (lookup k d)
  unfolding lookup
  contains-keys k [] = refl
  contains-keys k ((j, v) ∷ d) = ground (arith, contains-keys k d)

-- The last names of the paths that lie directly in a folder. A path lists its names innermost
-- first.
module _ {ℓ κ} {N : Type ℓ} {V : Type κ} ⦃e : Eq N⦄ where
  unfoldable pub children : List N → Dict (List N) V → List N
  children p [] = []
  children p (([], v) ∷ d) = children p d
  children p ((n ∷ q, v) ∷ d) = let rest = children p d in if q == p then n ∷ rest else rest

  pub contains-children :
      (n : N) (p : List N) (d : Dict (List N) V)
      → contains (children p d) n ≡ is_some (lookup (n ∷ p) d)
  unfolding children lookup
  contains-children n p [] = refl
  contains-children n p (([], v) ∷ d) = ground (arith, contains-children n p d)
  contains-children n p ((m ∷ q, v) ∷ d) = ground (arith, contains-children n p d)
