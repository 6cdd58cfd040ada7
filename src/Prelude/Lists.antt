-- ===== src/Prelude/Lists.antt =====
-- Lists measured and indexed by native numbers, under the library's names.
use Prim.Native.Nat.{ℕ, zero, suc, ◌+◌, ◌≤◌, ◌<◌}
use mathlib.Core.Path.{◌≡◌, refl, ap}
use mathlib.Core.Bool.{Bool}
use mathlib.Core.Logic.{◌≢◌, ◌⊎◌, inl, inr}
use mathlib.Core.List.{List, [], ◌∷◌, ◌++◌}
use mathlib.Core.Option.{Option, none, some}
use native.Mathlib.Omega.{arith}
use mur_mesh.Prelude.Tests.{if◌then◌else◌}

module _ {ℓ} {A : Type ℓ} where
  abbrev pub length : List A → ℕ
  length [] = 0
  length (x ∷ xs) = suc (length xs)

  abbrev pub get_elem? : List A → ℕ → Option A
  get_elem? [] i = none
  get_elem? (x ∷ xs) zero = some x
  get_elem? (x ∷ xs) (suc i) = get_elem? xs i

  -- A write out of bounds changes nothing.
  abbrev pub set : List A → ℕ → A → List A
  set [] i v = []
  set (x ∷ xs) zero v = v ∷ xs
  set (x ∷ xs) (suc i) v = x ∷ set xs i v

  abbrev pub take : ℕ → List A → List A
  take zero xs = []
  take (suc n) [] = []
  take (suc n) (x ∷ xs) = x ∷ take n xs

  abbrev pub drop : ℕ → List A → List A
  drop zero xs = xs
  drop (suc n) [] = []
  drop (suc n) (x ∷ xs) = drop n xs

  abbrev pub replicate : ℕ → A → List A
  replicate zero a = []
  replicate (suc n) a = a ∷ replicate n a

  -- How many elements pass the test: `iter().filter(p).count()`.
  abbrev pub count : (A → Bool) → List A → ℕ
  count p [] = 0
  count p (x ∷ xs) = (if p x then 1 else 0) + count p xs

  -- `Vec::resize(n, v)` for a longer `n`, and `truncate` for a shorter one.
  abbrev pub resize : List A → ℕ → A → List A
  resize xs zero v = []
  resize [] (suc n) v = v ∷ resize [] n v
  resize (x ∷ xs) (suc n) v = x ∷ resize xs n v

  -- `Vec::pop`: the last element, and the others.
  unfoldable pub pop : List A → Option (A × List A)
  pop [] = none
  pop (x ∷ xs) = elim (pop xs) [ none ↦ some (x, []) | some (y, rest) ↦ some (y, x ∷ rest) ]

  -- `last()`.
  abbrev pub get_last? : List A → Option A
  get_last? [] = none
  get_last? (x ∷ []) = some x
  get_last? (x ∷ y ∷ xs) = get_last? (y ∷ xs)

  abbrev pub All {κ} : (A → Type κ) → List A → Type κ
  All P [] = Unit
  All P (x ∷ xs) = P x × All P xs

-- Some element has the property.
pub data Any {ℓ κ} {A : Type ℓ} (P : A → Type κ) : List A → Type (ℓ ⊔ κ) where
  first : {x : A} {xs : List A} → P x → Any P (x ∷ xs)
  later : {x : A} {xs : List A} → Any P xs → Any P (x ∷ xs)

pub Any-append {ℓ κ} :
    {A : Type ℓ} {P : A → Type κ} (xs : List A) {ys : List A} → Any P ys → Any P (xs ++ ys)
Any-append [] h = h
Any-append (x ∷ xs) h = Any.later (Any-append xs h)

module _ {ℓ} {A : Type ℓ} where
  pub length-append : (xs ys : List A) → length (xs ++ ys) ≡ length xs + length ys
  length-append [] ys = omega arith
  length-append (x ∷ xs) ys = omega (arith, length-append xs ys)

  pub length-set : (xs : List A) (i : ℕ) (v : A) → length (set xs i v) ≡ length xs
  length-set [] i v = refl
  length-set (x ∷ xs) zero v = refl
  length-set (x ∷ xs) (suc i) v = ap suc (length-set xs i v)

  pub length-resize : (xs : List A) (n : ℕ) (v : A) → length (resize xs n v) ≡ n
  length-resize xs zero v = refl
  length-resize [] (suc n) v = ap suc (length-resize [] n v)
  length-resize (x ∷ xs) (suc n) v = ap suc (length-resize xs n v)

  pub get_elem?-set_self :
      (xs : List A) (i : ℕ) (v : A) → i < length xs → get_elem? (set xs i v) i ≡ some v
  get_elem?-set_self [] i v h = elim h [ ]
  get_elem?-set_self (x ∷ xs) zero v h = refl
  get_elem?-set_self (x ∷ xs) (suc i) v h = get_elem?-set_self xs i v (omega arith)

  pub take-append-drop : (n : ℕ) (xs : List A) → take n xs ++ drop n xs ≡ xs
  take-append-drop zero xs = refl
  take-append-drop (suc n) [] = refl
  take-append-drop (suc n) (x ∷ xs) = rw (take-append-drop n xs)

  pub length-take-le : (n : ℕ) (xs : List A) → length (take n xs) ≤ n
  length-take-le zero xs = omega arith
  length-take-le (suc n) [] = omega arith
  length-take-le (suc n) (x ∷ xs) = omega (arith, length-take-le n xs)

  pub get_elem?-none : (xs : List A) (i : ℕ) → length xs ≤ i → get_elem? xs i ≡ none
  get_elem?-none [] i h = refl
  get_elem?-none (x ∷ xs) zero h = absurd (omega arith)
  get_elem?-none (x ∷ xs) (suc i) h = get_elem?-none xs i (omega arith)

  pub lt_of_get_elem? : (xs : List A) (i : ℕ) {a : A} → get_elem? xs i ≡ some a → i < length xs
  lt_of_get_elem? [] i h = cc
  lt_of_get_elem? (x ∷ xs) zero h = omega arith
  lt_of_get_elem? (x ∷ xs) (suc i) h = omega (arith, lt_of_get_elem? xs i h)

  pop-ne-none : (x : A) (xs : List A) → pop (x ∷ xs) ≢ none
  unfolding pop
  pop-ne-none x xs = ground arith

  -- `pop` takes one element.
  pub length-pop :
      (xs : List A) {x : A} {rest : List A}
      → pop xs ≡ some (x, rest)
      → length xs ≡ suc (length rest)
  unfolding pop
  length-pop [] h = cc
  length-pop (x ∷ []) h = ground arith
  length-pop (x ∷ y ∷ xs) {rest = []} h = ground (arith, pop-ne-none y xs)
  length-pop (x ∷ y ∷ xs) {x = z} {rest = r ∷ rest} h =
      ap suc (length-pop (y ∷ xs) {x = z} {rest = rest} (ground arith))

  -- What can be read after a write, an extension and a cut.
  pub get_elem?-set_cases :
      (xs : List A) (i j : ℕ) (v : A) {a : A}
      → get_elem? (set xs i v) j ≡ some a
      → ((j ≡ i) × (a ≡ v)) ⊎ (get_elem? xs j ≡ some a)
  get_elem?-set_cases [] i j v h = inr h
  get_elem?-set_cases (x ∷ xs) zero zero v h = inl (refl, cc)
  get_elem?-set_cases (x ∷ xs) zero (suc j) v h = inr h
  get_elem?-set_cases (x ∷ xs) (suc i) zero v h = inr h
  get_elem?-set_cases (x ∷ xs) (suc i) (suc j) v h = elim (get_elem?-set_cases xs i j v h) [
    | inl (e, f) ↦ inl (ap suc e, f)
    | inr e ↦ inr e
  ]

  pub get_elem?-resize_cases :
      (xs : List A) (n j : ℕ) (v : A) {a : A}
      → get_elem? (resize xs n v) j ≡ some a
      → (a ≡ v) ⊎ (get_elem? xs j ≡ some a)
  get_elem?-resize_cases xs zero j v h = cc
  get_elem?-resize_cases [] (suc n) zero v h = inl cc
  get_elem?-resize_cases [] (suc n) (suc j) v h = get_elem?-resize_cases [] n j v h
  get_elem?-resize_cases (x ∷ xs) (suc n) zero v h = inr h
  get_elem?-resize_cases (x ∷ xs) (suc n) (suc j) v h = get_elem?-resize_cases xs n j v h

  pub get_elem?-take :
      (xs : List A) (n j : ℕ) {a : A} → get_elem? (take n xs) j ≡ some a → get_elem? xs j ≡ some a
  get_elem?-take xs zero j h = cc
  get_elem?-take [] (suc n) j h = h
  get_elem?-take (x ∷ xs) (suc n) zero h = h
  get_elem?-take (x ∷ xs) (suc n) (suc j) h = get_elem?-take xs n j h
