-- ===== src/OrderedSet/Removal.antt =====
-- Laws of the ordered set: removing, and asking for an element.
use mur_mesh.Prelude.{◌∙◌, ◌≡◌, ◌≢◌, true, false, inl, inr, refl, sym, subst, List, [], ◌∷◌}
use mathlib.Core.List.{Memᴰ}
use mathlib.Core.List.Memᴰ
use Prim.Native.Nat.{Ordering}
use mur_mesh.OrderedSet.{Compare, remove, contains}
use mur_mesh.OrderedSet.Laws.{Ordering-cases, IsLawful, IsSorted, irreflexive, asymmetric}

module _ {A : Type 0} (cmp : Compare A) where
  -- What is removed is out, and nothing else.
  pub Memᴰ-remove :
      IsLawful cmp
      → (x y : A) (ys : List A) → IsSorted cmp ys
      → Memᴰ y (remove cmp x ys)
      → Memᴰ y ys × (y ≢ x)
  unfolding remove
  Memᴰ-remove o x y [] h m = absurd (Memᴰ.not-nil m)
  Memᴰ-remove o x y (z ∷ ys) h m = elim (Ordering-cases (cmp x z)) [
    | inl e ↦
        let n : Memᴰ y (z ∷ ys) = rw (remove, e) at m in
        (
          n,
          elim (Memᴰ.cases_cons n) [
            | inl f ↦ λ g. irreflexive cmp o x (subst (λ t. cmp x t ≡ Ordering.lt) (sym f ∙ g) e)
            | inr k ↦ λ g.
                irreflexive cmp o x
                  (o.trans x z x e (subst (λ t. cmp z t ≡ Ordering.lt) g (h.0 y k)))
          ],
        )
    | inr (inl e) ↦
        let n : Memᴰ y ys = rw (remove, e) at m in
        (
          Memᴰ.tail n,
          λ g. irreflexive cmp o x (
              subst (λ t. cmp t x ≡ Ordering.lt) (sym ((o.eq_iff x z).0 e))
                (subst (λ t. cmp z t ≡ Ordering.lt) g (h.0 y n))),
        )
    | inr (inr e) ↦ elim (Memᴰ.cases_cons (rw (remove, e) at m)) [
      | inl f ↦ (
        Memᴰ.head f,
        λ g. irreflexive cmp o x (subst (λ t. cmp t x ≡ Ordering.lt) (sym f ∙ g) (o.flip x z e)),
      )
      | inr n ↦ let (k, other) = Memᴰ-remove o x y ys h.1 n in (Memᴰ.tail k, other)
    ]
  ]

  pub Memᴰ-remove_other :
      IsLawful cmp → (x y : A) (ys : List A) → Memᴰ y ys → y ≢ x → Memᴰ y (remove cmp x ys)
  unfolding remove
  Memᴰ-remove_other o x y [] m other = absurd (Memᴰ.not-nil m)
  Memᴰ-remove_other o x y (z ∷ ys) m other = elim (Ordering-cases (cmp x z)) [
    | inl e ↦ rw (remove, e) m
    | inr (inl e) ↦
        rw (remove, e)
          (elim (Memᴰ.cases_cons m) [
            | inl f ↦ absurd (other (f ∙ sym ((o.eq_iff x z).0 e)))
            | inr n ↦ n
          ])
    | inr (inr e) ↦
        rw (remove, e)
          (elim (Memᴰ.cases_cons m) [
            | inl f ↦ Memᴰ.head f
            | inr n ↦ Memᴰ.tail (Memᴰ-remove_other o x y ys n other)
          ])
  ]

  pub remove-IsSorted :
      IsLawful cmp → (x : A) (ys : List A) → IsSorted cmp ys → IsSorted cmp (remove cmp x ys)
  unfolding remove
  remove-IsSorted o x [] h = tt
  remove-IsSorted o x (z ∷ ys) h = elim (Ordering-cases (cmp x z)) [
    | inl e ↦ rw (remove, e) h
    | inr (inl e) ↦ rw (remove, e) h.1
    | inr (inr e) ↦
        rw (remove, e) ((λ y m. h.0 y (Memᴰ-remove o x y ys h.1 m).0), remove-IsSorted o x ys h.1)
  ]

  pub contains-Memᴰ :
      IsLawful cmp → (x : A) (ys : List A) → IsSorted cmp ys → Memᴰ x ys → contains cmp x ys ≡ true
  unfolding contains
  contains-Memᴰ o x [] h m = absurd (Memᴰ.not-nil m)
  contains-Memᴰ o x (z ∷ ys) h m = elim (Ordering-cases (cmp x z)) [
    | inl e ↦ elim (Memᴰ.cases_cons m) [
      | inl f ↦ absurd (irreflexive cmp o x (subst (λ t. cmp x t ≡ Ordering.lt) (sym f) e))
      | inr n ↦ absurd (asymmetric cmp o x z e (h.0 x n))
    ]
    | inr (inl e) ↦ rw (contains, e) refl
    | inr (inr e) ↦
        rw (contains, e)
          (elim (Memᴰ.cases_cons m) [
            | inl f ↦
                absurd (irreflexive cmp o z (subst (λ t. cmp z t ≡ Ordering.lt) f (o.flip x z e)))
            | inr n ↦ contains-Memᴰ o x ys h.1 n
          ])
  ]

  -- What the set is found to have is in it.
  pub contains-false :
      IsLawful cmp → (x : A) (ys : List A) → (Memᴰ x ys → ⊥) → contains cmp x ys ≡ false
  unfolding contains
  contains-false o x [] out = refl
  contains-false o x (z ∷ ys) out = elim (Ordering-cases (cmp x z)) [
    | inl e ↦ rw (contains, e) refl
    | inr (inl e) ↦ absurd (out (Memᴰ.head ((o.eq_iff x z).0 e)))
    | inr (inr e) ↦ rw (contains, e) (contains-false o x ys (λ m. out (Memᴰ.tail m)))
  ]
