-- ===== src/OrderedSet.antt =====
-- `std::collections::BTreeSet`, in the order of `Ord`: the list of its elements, that ascends.
pub mod Laws
pub mod Removal
pub mod Pairs
use mur_mesh.Prelude.{List, [], ◌∷◌, Bool, true, false}
use Prim.Native.Nat.{Ordering}

abbrev pub Compare : Type 0 → Type 0
Compare A = A → A → Ordering

-- `Ordering::then`, and the order of pairs.
abbrev pub then : Ordering → Ordering → Ordering
then a b = elim a [ Ordering.eq ↦ b | o ↦ o ]

abbrev pub compare_pair : {A B : Type 0} → Compare A → Compare B → Compare (A × B)
compare_pair c d p q = then (c p.0 q.0) (d p.1 q.1)

module _ {A : Type 0} (cmp : Compare A) where
  -- `insert`: an element that is there stays.
  unfoldable pub insert : A → List A → List A
  insert x [] = x ∷ []
  insert x (y ∷ ys) = elim (cmp x y) [
    | Ordering.lt ↦ x ∷ y ∷ ys
    | Ordering.eq ↦ y ∷ ys
    | Ordering.gt ↦ y ∷ insert x ys
  ]

  unfoldable pub remove : A → List A → List A
  remove x [] = []
  remove x (y ∷ ys) = elim (cmp x y) [
    | Ordering.lt ↦ y ∷ ys
    | Ordering.eq ↦ ys
    | Ordering.gt ↦ y ∷ remove x ys
  ]

  unfoldable pub contains : A → List A → Bool
  contains x [] = false
  contains x (y ∷ ys) = elim (cmp x y) [
    | Ordering.lt ↦ false
    | Ordering.eq ↦ true
    | Ordering.gt ↦ contains x ys
  ]
