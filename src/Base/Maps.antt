-- ===== src/Base/Maps.antt =====
-- Go's maps with string keys: a list of entries. The order of the list is the order in which
-- `range` visits the entries, which Go leaves open: a theorem about all tables covers every order.
use Prim.Native.String.{String}
use mathlib.Core.Path.{◌≡◌, refl}
use mathlib.Core.Logic.{inl, inr}
use mathlib.Core.Option.{Option, none, some, some-injective}
use mathlib.Core.List.{List, [], ◌∷◌}
use native.Mathlib.Omega.{arith}
use text.Mathlib.Text.{◌==◌}
use text.Mathlib.TextEquality.{eq_iff}
use text.Mathlib.TextPositions.{eq_refl}
use galera_k8s_operator.Base.Tests.{Bool-cases, if◌then◌else◌}
use galera_k8s_operator.Base.Lists.{All}

abbrev pub Table {ℓ} : Type ℓ → Type ℓ
Table V = List (String × V)

module _ {ℓ} {V : Type ℓ} where
  -- m[k], with the `ok` of a comma-ok read
  unfoldable pub lookup : String → Table V → Option V
  lookup k [] = none
  lookup k ((j, v) ∷ m) = if j == k then some v else lookup k m

  -- m[k] = v
  unfoldable pub assign : String → V → Table V → Table V
  assign k v [] = (k, v) ∷ []
  assign k v ((j, w) ∷ m) = if j == k then (k, v) ∷ m else (j, w) ∷ assign k v m

  -- delete(m, k)
  unfoldable pub remove : String → Table V → Table V
  remove k [] = []
  remove k ((j, w) ∷ m) = let rest = remove k m in if j == k then rest else (j, w) ∷ rest

  pub lookup-assign :
      (k j : String) (v : V) (m : Table V)
      → lookup j (assign k v m) ≡ (if k == j then some v else lookup j m)
  unfolding lookup assign
  lookup-assign k j v [] = refl
  lookup-assign k j v ((i, w) ∷ m) =
      ground (arith, eq_iff k j, eq_iff i k, eq_iff i j, lookup-assign k j v m)

  pub lookup-remove :
      (k j : String) (m : Table V) → lookup j (remove k m) ≡ (if k == j then none else lookup j m)
  unfolding lookup remove
  lookup-remove k j [] = ground arith
  lookup-remove k j ((i, w) ∷ m) =
      ground (arith, eq_iff k j, eq_iff i k, eq_iff i j, lookup-remove k j m)

  pub assign-assign :
      (k : String) (v w : V) (m : Table V) → assign k v (assign k w m) ≡ assign k v m
  unfolding assign
  assign-assign k v w [] = rw (eq_refl k)
  assign-assign k v w ((j, x) ∷ m) = ground (arith, eq_refl k, eq_iff j k, assign-assign k v w m)

  -- No two entries have the same key.
  abbrev pub Distinct : Table V → Type ℓ
  Distinct [] = Unit
  Distinct ((k, v) ∷ m) = (lookup k m ≡ none) × Distinct m

  pub Distinct-assign : (k : String) (v : V) (m : Table V) → Distinct m → Distinct (assign k v m)
  unfolding lookup assign
  Distinct-assign k v [] d = (refl, tt)
  Distinct-assign k v ((j, w) ∷ m) d =
      ground (arith, eq_iff j k, eq_iff k j, lookup-assign k j v m, Distinct-assign k v m d.1)

  pub Distinct-remove : (k : String) (m : Table V) → Distinct m → Distinct (remove k m)
  unfolding lookup remove
  Distinct-remove k [] d = tt
  Distinct-remove k ((j, w) ∷ m) d =
      ground (arith, eq_iff k j, lookup-remove k j m, Distinct-remove k m d.1)

module _ {ℓ} {V : Type ℓ} (P : String × V → Type 0) where
  pub All-assign : (k : String) (v : V) (m : Table V) → All P m → P (k, v) → All P (assign k v m)
  unfolding assign
  All-assign k v [] a p = (p, tt)
  All-assign k v ((j, w) ∷ m) a p = ground (arith, All-assign k v m a.1 p)

  pub All-remove : (k : String) (m : Table V) → All P m → All P (remove k m)
  unfolding remove
  All-remove k [] a = tt
  All-remove k ((j, w) ∷ m) a = ground (arith, All-remove k m a.1)

  pub All-lookup : (k : String) (v : V) (m : Table V) → All P m → lookup k m ≡ some v → P (k, v)
  unfolding lookup
  All-lookup k v [] a e = cc
  All-lookup k v ((j, w) ∷ m) a e = elim (Bool-cases (j == k)) [
    | inl t ↦ rw (← (eq_iff j k).0 t, ← some-injective w v (rw t at e)) a.0
    | inr f ↦ All-lookup k v m a.1 (rw f at e)
  ]
