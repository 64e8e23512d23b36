-- ===== src/Prelude/Assoc.antt =====
-- A hash map as an association list: the order of the list stands for the order in which the
-- map is walked, which the program does not rely on.
use mathlib.Core.Path.{◌≡◌, refl}
use mathlib.Core.Bool.{Bool}
use mathlib.Core.List.{List, [], ◌∷◌}
use mathlib.Core.Option.{Option, none, some}
use native.Mathlib.Omega.{arith}
use polkadot_introspector.Prelude.Tests.{if◌then◌else◌, Eq, ◌==◌, is_some, map_option}

module _ {ℓ κ} {K : Type ℓ} {V : Type κ} ⦃e : Eq K⦄ where
  -- `HashMap::get`
  unfoldable pub lookup : K → List (K × V) → Option V
  lookup key [] = none
  lookup key ((other, value) ∷ rest) =
      let later = lookup key rest in if other == key then some value else later

  -- `HashMap::insert`
  unfoldable pub insert : K → V → List (K × V) → List (K × V)
  insert key new [] = (key, new) ∷ []
  insert key new ((other, value) ∷ rest) =
      let later = insert key new rest in
      if other == key then (key, new) ∷ rest else (other, value) ∷ later

  -- `HashMap::remove`, the map that is left
  unfoldable pub remove : K → List (K × V) → List (K × V)
  remove key [] = []
  remove key ((other, value) ∷ rest) =
      let later = remove key rest in if other == key then later else (other, value) ∷ later

  abbrev pub contains_key : K → List (K × V) → Bool
  contains_key k m = is_some (lookup k m)

  unfoldable pub keys : List (K × V) → List K
  keys [] = []
  keys ((k, v) ∷ m) = k ∷ keys m

  pub lookup-insert :
      (key asked : K) (new : V) (map : List (K × V))
      → lookup asked (insert key new map) ≡ (if key == asked then some new else lookup asked map)
  unfolding lookup insert
  lookup-insert key asked new [] = refl
  lookup-insert key asked new ((other, value) ∷ rest) = ground (
    arith,
    e.decides other key,
    e.decides other asked,
    e.decides key asked,
    lookup-insert key asked new rest,
  )

  pub lookup-remove :
      (key asked : K) (map : List (K × V))
      → lookup asked (remove key map) ≡ (if key == asked then none else lookup asked map)
  unfolding lookup remove
  lookup-remove key asked [] = ground arith
  lookup-remove key asked ((other, value) ∷ rest) = ground (
    arith,
    e.decides other key,
    e.decides other asked,
    e.decides key asked,
    lookup-remove key asked rest,
  )

  -- No key stands twice.
  abbrev pub HasUniqueKeys : List (K × V) → Type κ
  HasUniqueKeys [] = Unit
  HasUniqueKeys ((k, v) ∷ m) = (lookup k m ≡ none) × HasUniqueKeys m

  pub insert-HasUniqueKeys :
      (k : K) (v : V) (m : List (K × V)) → HasUniqueKeys m → HasUniqueKeys (insert k v m)
  unfolding insert lookup
  insert-HasUniqueKeys k v [] u = (refl, tt)
  insert-HasUniqueKeys k v ((j, w) ∷ m) u =
      ground
        (arith, e.decides j k, e.decides k j, lookup-insert k j v m, insert-HasUniqueKeys k v m u.1)

-- `HashMap::values_mut` with one change for every value.
module _ {ℓ κ μ} {K : Type ℓ} {V : Type κ} {W : Type μ} ⦃e : Eq K⦄ where
  unfoldable pub map_values : (V → W) → List (K × V) → List (K × W)
  map_values f [] = []
  map_values f ((k, v) ∷ m) = (k, f v) ∷ map_values f m

  pub lookup-map_values :
      (f : V → W) (k : K) (m : List (K × V)) → lookup k (map_values f m) ≡ map_option f (lookup k m)
  unfolding lookup map_values
  lookup-map_values f k [] = refl
  lookup-map_values f k ((j, v) ∷ m) = ground (arith, lookup-map_values f k m)
