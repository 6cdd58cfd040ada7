-- ===== src/OrderedSet/Pairs.antt =====
-- `Ord` of numbers and of pairs keeps its contract.
use mur_mesh.Prelude.{◌≡◌, ◌⊎◌, inl, inr, refl, sym, subst, ◌∙◌, arith}
use Prim.Native.Nat.{Ordering, compare}
use mur_mesh.OrderedSet.{Compare, compare_pair}
use mur_mesh.OrderedSet.Laws.{IsLawful, Ordering-cases}

pub compare-IsLawful : IsLawful compare
compare-IsLawful = record {
  eq_iff = λ x y. ground arith;
  flip = λ x y e. ground arith;
  trans = λ x y z e f. ground arith;
}

module _ {A B : Type 0} (c : Compare A) (d : Compare B) (lc : IsLawful c) (ld : IsLawful d) where
  -- The first parts are in order, or they are the same and the second parts are.
  pair_lt :
      (p q : A × B)
      → compare_pair c d p q ≡ Ordering.lt
      → (c p.0 q.0 ≡ Ordering.lt) ⊎ ((p.0 ≡ q.0) × (d p.1 q.1 ≡ Ordering.lt))
  pair_lt p q e = elim (Ordering-cases (c p.0 q.0)) [
    | inl f ↦ inl f
    | inr (inl f) ↦ inr ((lc.eq_iff p.0 q.0).0 f, rw f at e)
    | inr (inr f) ↦ absurd (gt_lt (rw f at e))
  ]
    where
      gt_lt : Ordering.gt ≡ Ordering.lt → ⊥
      gt_lt g = cc

  lt_pair :
      (p q : A × B)
      → (c p.0 q.0 ≡ Ordering.lt) ⊎ ((p.0 ≡ q.0) × (d p.1 q.1 ≡ Ordering.lt))
      → compare_pair c d p q ≡ Ordering.lt
  lt_pair p q (inl e) = rw e refl
  lt_pair p q (inr (e, f)) = let g = (lc.eq_iff p.0 q.0).1 e in rw (g, f) refl

  pair_eq : (p q : A × B) → compare_pair c d p q ≡ Ordering.eq → p ≡ q
  pair_eq p q e = elim (Ordering-cases (c p.0 q.0)) [
    | inl f ↦ absurd (lt_eq (rw f at e))
    | inr (inl f) ↦
        let a = (lc.eq_iff p.0 q.0).0 f in let b = (ld.eq_iff p.1 q.1).0 (rw f at e) in rw (a, b)
    | inr (inr f) ↦ absurd (gt_eq (rw f at e))
  ]
    where
      lt_eq : Ordering.lt ≡ Ordering.eq → ⊥
      lt_eq g = cc

      gt_eq : Ordering.gt ≡ Ordering.eq → ⊥
      gt_eq g = cc

  eq_pair : (p : A × B) → compare_pair c d p p ≡ Ordering.eq
  eq_pair p =
      let a = (lc.eq_iff p.0 p.0).1 refl in let b = (ld.eq_iff p.1 p.1).1 refl in rw (a, b) refl

  pair_gt :
      (p q : A × B)
      → compare_pair c d p q ≡ Ordering.gt
      → (c q.0 p.0 ≡ Ordering.lt) ⊎ ((q.0 ≡ p.0) × (d q.1 p.1 ≡ Ordering.lt))
  pair_gt p q e = elim (Ordering-cases (c p.0 q.0)) [
    | inl f ↦ absurd (lt_gt (rw f at e))
    | inr (inl f) ↦ inr (sym ((lc.eq_iff p.0 q.0).0 f), ld.flip p.1 q.1 (rw f at e))
    | inr (inr f) ↦ inl (lc.flip p.0 q.0 f)
  ]
    where
      lt_gt : Ordering.lt ≡ Ordering.gt → ⊥
      lt_gt g = cc

  pub pair-IsLawful : IsLawful (compare_pair c d)
  pair-IsLawful = record {
    eq_iff =
        λ p q. (pair_eq p q, (λ e. subst (λ r. compare_pair c d p r ≡ Ordering.eq) e (eq_pair p)));
    flip = λ p q e. lt_pair q p (pair_gt p q e);
    trans = λ p q r e f. lt_pair p r (chain (pair_lt p q e) (pair_lt q r f));
  }
    where
      chain :
          {p q r : A × B}
          → (c p.0 q.0 ≡ Ordering.lt) ⊎ ((p.0 ≡ q.0) × (d p.1 q.1 ≡ Ordering.lt))
          → (c q.0 r.0 ≡ Ordering.lt) ⊎ ((q.0 ≡ r.0) × (d q.1 r.1 ≡ Ordering.lt))
          → (c p.0 r.0 ≡ Ordering.lt) ⊎ ((p.0 ≡ r.0) × (d p.1 r.1 ≡ Ordering.lt))
      chain {p} {q} {r} (inl e) (inl f) = inl (lc.trans p.0 q.0 r.0 e f)
      chain {p} (inl e) (inr (f, g)) = inl (subst (λ x. c p.0 x ≡ Ordering.lt) f e)
      chain {r = r} (inr (e, g)) (inl f) = inl (subst (λ x. c x r.0 ≡ Ordering.lt) (sym e) f)
      chain {p} {q} {r} (inr (e, g)) (inr (f, h)) = inr (e ∙ f, ld.trans p.1 q.1 r.1 g h)
