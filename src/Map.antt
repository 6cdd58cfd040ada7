-- ===== src/Map.antt =====
-- `std::collections::BTreeMap` with numeric keys: an association list in the order of its keys, so
-- that iteration (`values()`, `into_values()`) is the list itself.
pub mod Laws
use mur_mesh.Prelude.{
  ℕ, ◌+◌, Bool, true, false, Option, none, some, List, [], ◌∷◌, map, ltb, ◌==◌, if◌then◌else◌,
  is_some,
}

abbrev pub Map {ℓ} : Type ℓ → Type ℓ
Map V = List (ℕ × V)

module _ {ℓ} {V : Type ℓ} where
  unfoldable pub get : ℕ → Map V → Option V
  get k [] = none
  get k ((j, v) ∷ m) = if k == j then some v else get k m

  abbrev pub contains_key : ℕ → Map V → Bool
  contains_key k m = is_some (get k m)

  unfoldable pub insert : ℕ → V → Map V → Map V
  insert k v [] = (k, v) ∷ []
  insert k v ((j, w) ∷ m) =
      if ltb k j
      then (k, v) ∷ (j, w) ∷ m
      else (if k == j then (k, v) ∷ m else (j, w) ∷ insert k v m)

  unfoldable pub remove : ℕ → Map V → Map V
  remove k [] = []
  remove k ((j, v) ∷ m) = let rest = remove k m in if k == j then rest else (j, v) ∷ rest

  -- `retain(|_, v| p(v))`
  unfoldable pub retain : (V → Bool) → Map V → Map V
  retain p [] = []
  retain p ((j, v) ∷ m) = let rest = retain p m in if p v then (j, v) ∷ rest else rest

  -- `split_off(&k)`: the entries whose keys are at least `k`
  unfoldable pub split_off : ℕ → Map V → Map V
  split_off k [] = []
  split_off k ((j, v) ∷ m) = let rest = split_off k m in if ltb j k then rest else (j, v) ∷ rest

  abbrev pub values : Map V → List V
  values = map (λ e. e.1)
