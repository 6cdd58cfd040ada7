-- ===== src/OrderedSet/Laws.antt =====
-- Laws of the ordered set: its elements, and its order.
use mur_mesh.Prelude.{◌≡◌, ◌⊎◌, ◌↔◌, inl, inr, refl, sym, subst, List, [], ◌∷◌}
use mathlib.Core.List.{Memᴰ}
use mathlib.Core.List.Memᴰ
use Prim.Native.Nat.{Ordering}
use mur_mesh.OrderedSet.{Compare, insert}

pub Ordering-cases : (o : Ordering) → (o ≡ Ordering.lt) ⊎ ((o ≡ Ordering.eq) ⊎ (o ≡ Ordering.gt))
Ordering-cases Ordering.lt = inl refl
Ordering-cases Ordering.eq = inr (inl refl)
Ordering-cases Ordering.gt = inr (inr refl)

module _ {A : Type 0} (cmp : Compare A) where
  -- What is in the set after an insertion was there, or is what was inserted.
  pub Memᴰ-insert : (x y : A) (ys : List A) → Memᴰ y (insert cmp x ys) → (y ≡ x) ⊎ Memᴰ y ys
  unfolding insert
  Memᴰ-insert x y [] m = inl (Memᴰ.eq_of_singleton m)
  Memᴰ-insert x y (z ∷ ys) m = elim (Ordering-cases (cmp x z)) [
    | inl e ↦ Memᴰ.cases_cons (rw (insert, e) at m)
    | inr (inl e) ↦ inr (rw (insert, e) at m)
    | inr (inr e) ↦ elim (Memᴰ.cases_cons (rw (insert, e) at m)) [
      | inl f ↦ inr (Memᴰ.head f)
      | inr n ↦ elim (Memᴰ-insert x y ys n) [ inl f ↦ inl f | inr o ↦ inr (Memᴰ.tail o) ]
    ]
  ]

  -- Nothing is lost.
  pub Memᴰ-insert_old : (x y : A) (ys : List A) → Memᴰ y ys → Memᴰ y (insert cmp x ys)
  unfolding insert
  Memᴰ-insert_old x y [] m = absurd (Memᴰ.not-nil m)
  Memᴰ-insert_old x y (z ∷ ys) m = elim (Ordering-cases (cmp x z)) [
    | inl e ↦ rw (insert, e) (Memᴰ.tail m)
    | inr (inl e) ↦ rw (insert, e) m
    | inr (inr e) ↦
        rw (insert, e)
          (elim (Memᴰ.cases_cons m) [
            | inl f ↦ Memᴰ.head f
            | inr n ↦ Memᴰ.tail (Memᴰ-insert_old x y ys n)
          ])
  ]

  -- `Ord` as its contract has it.
  pub record IsLawful : Type 0 where
    pub eq_iff : (x y : A) → (cmp x y ≡ Ordering.eq) ↔ (x ≡ y)
    pub flip : (x y : A) → cmp x y ≡ Ordering.gt → cmp y x ≡ Ordering.lt
    pub trans : (x y z : A) → cmp x y ≡ Ordering.lt → cmp y z ≡ Ordering.lt → cmp x z ≡ Ordering.lt

  pub Memᴰ-insert_new : IsLawful → (x : A) (ys : List A) → Memᴰ x (insert cmp x ys)
  unfolding insert
  Memᴰ-insert_new o x [] = Memᴰ.head refl
  Memᴰ-insert_new o x (z ∷ ys) = elim (Ordering-cases (cmp x z)) [
    | inl e ↦ rw (insert, e) (Memᴰ.head refl)
    | inr (inl e) ↦ rw (insert, e) (Memᴰ.head ((o.eq_iff x z).0 e))
    | inr (inr e) ↦ rw (insert, e) (Memᴰ.tail (Memᴰ-insert_new o x ys))
  ]

  abbrev pub IsSorted : List A → Type 0
  IsSorted [] = Unit
  IsSorted (x ∷ xs) = ((y : A) → Memᴰ y xs → cmp x y ≡ Ordering.lt) × IsSorted xs

  pub insert-IsSorted : IsLawful → (x : A) (ys : List A) → IsSorted ys → IsSorted (insert cmp x ys)
  unfolding insert
  insert-IsSorted o x [] h = ((λ y m. absurd (Memᴰ.not-nil m)), tt)
  insert-IsSorted o x (z ∷ ys) h = elim (Ordering-cases (cmp x z)) [
    | inl e ↦
        rw (insert, e)
          (
            (λ y m. elim (Memᴰ.cases_cons m) [
              | inl f ↦ subst (λ t. cmp x t ≡ Ordering.lt) (sym f) e
              | inr n ↦ o.trans x z y e (h.0 y n)
            ]),
            h,
          )
    | inr (inl e) ↦ rw (insert, e) h
    | inr (inr e) ↦
        rw (insert, e)
          (
            (λ y m. elim (Memᴰ-insert x y ys m) [
              | inl f ↦ subst (λ t. cmp z t ≡ Ordering.lt) (sym f) (o.flip x z e)
              | inr n ↦ h.0 y n
            ]),
            insert-IsSorted o x ys h.1,
          )
  ]

  pub irreflexive : IsLawful → (x : A) → cmp x x ≡ Ordering.lt → ⊥
  irreflexive o x h = let e = (o.eq_iff x x).1 refl in cc

  pub asymmetric : IsLawful → (x y : A) → cmp x y ≡ Ordering.lt → cmp y x ≡ Ordering.lt → ⊥
  asymmetric o x y h g = irreflexive o x (o.trans x y x h g)
