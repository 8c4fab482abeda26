-- ===== src/Base/Map.antt =====
-- A `HashMap` with integer keys, as an association list. A key that is there keeps its place when
-- it is written again. The order of the list is one that Rust's map may iterate in: what the code takes
-- as the first or the last of a map, or does to its items in turn, is here by the order of the list.
use Prim.Native.Nat.{ℕ}
use mathlib.Core.Path.{◌≡◌, refl}
use mathlib.Core.Bool.{Bool, true, false}
use mathlib.Core.List.{List, [], ◌∷◌, map}
use mathlib.Core.Option.{Option, none, some}
use native.Mathlib.Omega.{arith}
use sessionhub.Base.Tests.{◌==◌, if◌then◌else◌}

module _ {ℓ} {V : Type ℓ} where
  unfoldable pub lookup : ℕ → List (ℕ × V) → Option V
  lookup key [] = none
  lookup key ((found, value) ∷ rest) = if found == key then some value else lookup key rest

  unfoldable pub insert : ℕ → V → List (ℕ × V) → List (ℕ × V)
  insert k v [] = (k, v) ∷ []
  insert k v ((j, w) ∷ m) = if j == k then (k, v) ∷ m else (j, w) ∷ insert k v m

  unfoldable pub remove : ℕ → List (ℕ × V) → List (ℕ × V)
  remove k [] = []
  remove k ((j, w) ∷ m) = if j == k then remove k m else (j, w) ∷ remove k m

  -- `values_mut` with a function of the value.
  unfoldable pub update_all : (V → V) → List (ℕ × V) → List (ℕ × V)
  update_all f [] = []
  update_all f ((j, w) ∷ m) = (j, f w) ∷ update_all f m

  -- `contains_key`.
  unfoldable pub has_key : ℕ → List (ℕ × V) → Bool
  has_key k [] = false
  has_key k ((j, w) ∷ m) = if j == k then true else has_key k m

  abbrev pub keys : List (ℕ × V) → List ℕ
  keys = map (λ e. e.0)

  pub lookup-insert :
      (j k : ℕ) (v : V) (m : List (ℕ × V))
      → lookup j (insert k v m) ≡ (if k == j then some v else lookup j m)
  unfolding lookup insert
  lookup-insert j k v [] = refl
  lookup-insert j k v ((i, w) ∷ m) = ground (arith, lookup-insert j k v m)

  pub lookup-remove :
      (j k : ℕ) (m : List (ℕ × V)) → lookup j (remove k m) ≡ (if k == j then none else lookup j m)
  unfolding lookup remove
  lookup-remove j k [] = ground arith
  lookup-remove j k ((i, w) ∷ m) = ground (arith, lookup-remove j k m)

  pub has_key-lookup-none : (k : ℕ) (m : List (ℕ × V)) → has_key k m ≡ false → lookup k m ≡ none
  unfolding has_key lookup
  has_key-lookup-none k [] h = refl
  has_key-lookup-none k ((i, w) ∷ m) h = ground (arith, has_key-lookup-none k m)
