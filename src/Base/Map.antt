-- ===== src/Base/Map.antt =====
-- A Go map with string keys, as an association list. Reading takes the first entry of a key,
-- writing replaces it or adds one at the end, and deleting takes every entry of the key away.
-- The order of the entries stands for the order in which `range` happens to visit them.
use Prim.Native.String.{String}
use mathlib.Core.Path.{◌≡◌, refl, subst, ap}
use mathlib.Core.Bool.{Bool, false}
use mathlib.Core.Option.{Option, none, some}
use mathlib.Core.List.{List, [], ◌∷◌, ◌++◌}
use text.Mathlib.TextPositions.{eq_refl}
use native.Mathlib.Omega.{arith}
use text.Mathlib.Text.{◌==◌}
use text.Mathlib.TextEquality.{eq_iff}
use saas_reaper.Base.Lists.{or_empty}
use saas_reaper.Base.Tests.{if◌then◌else◌, is_some, Bool-cases}
use mathlib.Core.Logic.{inl, inr}

abbrev pub Map {ℓ} : Type ℓ → Type ℓ
Map V = List (String × V)

module _ {ℓ} {V : Type ℓ} where
  unfoldable pub lookup : String → Map V → Option V
  lookup key [] = none
  lookup key ((first, value) ∷ rest) = if first == key then some value else lookup key rest

  unfoldable pub insert : String → V → Map V → Map V
  insert key new [] = (key, new) ∷ []
  insert key new ((first, value) ∷ rest) =
      if first == key then (key, new) ∷ rest else (first, value) ∷ insert key new rest

  unfoldable pub delete : String → Map V → Map V
  delete k [] = []
  delete k ((j, v) ∷ m) = if j == k then delete k m else (j, v) ∷ delete k m

  -- `_, ok := m[k]`
  unfoldable pub has : String → Map V → Bool
  unfolding lookup
  has k m = is_some (lookup k m)

  pub lookup-insert :
      (written read : String) (new : V) (m : Map V)
      → lookup read (insert written new m) ≡ (if written == read then some new else lookup read m)
  unfolding lookup insert
  lookup-insert written read new [] = refl
  lookup-insert written read new ((first, value) ∷ rest) = ground (
    arith,
    eq_iff first written,
    eq_iff first read,
    eq_iff written read,
    lookup-insert written read new rest,
  )

  pub lookup-delete :
      (k j : String) (m : Map V) → lookup j (delete k m) ≡ (if k == j then none else lookup j m)
  unfolding lookup delete
  lookup-delete gone read [] = ground arith
  lookup-delete gone read ((first, value) ∷ rest) =
      ground (
        arith,
        eq_iff first gone,
        eq_iff first read,
        eq_iff gone read,
        lookup-delete gone read rest,
      )

  -- No entry has the key `k`.
  abbrev pub IsAbsent : String → Map V → Type 0
  IsAbsent k [] = Unit
  IsAbsent k ((j, v) ∷ m) = ((j == k) ≡ false) × IsAbsent k m

  -- Every key has one entry, as in a Go map.
  abbrev pub HasUniqueKeys : Map V → Type 0
  HasUniqueKeys [] = Unit
  HasUniqueKeys ((j, v) ∷ m) = IsAbsent j m × HasUniqueKeys m

  insert-IsAbsent :
      (j k : String) (v : V) (m : Map V)
      → (k == j) ≡ false
      → IsAbsent j m
      → IsAbsent j (insert k v m)
  unfolding insert
  insert-IsAbsent j k v [] h a = (h, tt)
  insert-IsAbsent j k v ((i, w) ∷ m) h a = ground (arith, insert-IsAbsent j k v m h a.1)

  pub insert-HasUniqueKeys :
      (k : String) (v : V) (m : Map V) → HasUniqueKeys m → HasUniqueKeys (insert k v m)
  unfolding insert
  insert-HasUniqueKeys k v [] u = (tt, tt)
  insert-HasUniqueKeys k v ((i, w) ∷ m) u =
      ground
        (arith, eq_iff i k, eq_iff k i, insert-IsAbsent i k v m, insert-HasUniqueKeys k v m u.1)

  delete-IsAbsent : (j k : String) (m : Map V) → IsAbsent j m → IsAbsent j (delete k m)
  unfolding delete
  delete-IsAbsent j k [] a = tt
  delete-IsAbsent j k ((i, w) ∷ m) a = ground (arith, delete-IsAbsent j k m a.1)

  pub delete-HasUniqueKeys : (k : String) (m : Map V) → HasUniqueKeys m → HasUniqueKeys (delete k m)
  unfolding delete
  delete-HasUniqueKeys k [] u = tt
  delete-HasUniqueKeys k ((i, w) ∷ m) u =
      ground (arith, delete-IsAbsent i k m u.0, delete-HasUniqueKeys k m u.1)

  pub lookup-IsAbsent : (k : String) (m : Map V) → IsAbsent k m → lookup k m ≡ none
  unfolding lookup
  lookup-IsAbsent k [] a = refl
  lookup-IsAbsent k ((j, v) ∷ m) a = ground (arith, lookup-IsAbsent k m a.1)

  -- A key that is not there, as if it had been deleted.
  pub lookup_absent :
      (k j : String) (m : Map V)
      → lookup k m ≡ none
      → lookup j m ≡ (if k == j then none else lookup j m)
  lookup_absent k j m h = elim (Bool-cases (k == j)) [
    | inl e ↦ rw e (subst (λ j. lookup j m ≡ none) ((eq_iff k j).0 e) h)
    | inr e ↦ rw e
  ]

  -- `for _, v := range m`
  unfoldable pub values : Map V → List V
  values [] = []
  values ((k, v) ∷ m) = v ∷ values m

module _ {ℓ} {V : Type ℓ} where
  -- The map at a key of a map of maps; a map that is not there reads as an empty one.
  unfoldable pub nested : String → Map (Map V) → Map V
  unfolding lookup
  nested k m = or_empty (lookup k m)

  pub nested-insert :
      (k j : String) (v : Map V) (m : Map (Map V))
      → nested j (insert k v m) ≡ (if k == j then v else nested j m)
  unfolding nested
  nested-insert k j v m = elim (Bool-cases (k == j)) [
    | inl e ↦ rw (lookup-insert, e)
    | inr e ↦ rw (lookup-insert, e)
  ]

module _ {ℓ} {V : Type ℓ} where
  -- A new key is put at the end.
  pub insert_new :
      (k : String) (v : V) (m : Map V) → has k m ≡ false → insert k v m ≡ m ++ (k, v) ∷ []
  unfolding insert has lookup
  insert_new k v [] h = refl
  insert_new k v ((j, w) ∷ m) h = elim (Bool-cases (j == k)) [
    | inl e ↦ let x = rw e at h in cc
    | inr e ↦ rw e (ap (λ m. (j, w) ∷ m) (insert_new k v m (rw e at h)))
  ]

  pub insert-insert : (k : String) (u v : V) (m : Map V) → insert k v (insert k u m) ≡ insert k v m
  unfolding insert
  insert-insert k u v [] = rw (eq_refl k) refl
  insert-insert k u v ((j, w) ∷ m) = elim (Bool-cases (j == k)) [
    | inl e ↦ rw e (rw (eq_refl k) refl)
    | inr e ↦ rw e (rw e (ap (λ m. (j, w) ∷ m) (insert-insert k u v m)))
  ]
