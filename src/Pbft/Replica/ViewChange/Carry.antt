-- ===== src/Pbft/Replica/ViewChange/Carry.antt =====
-- src/pbft/replica.rs, `pre_prepares_for_view_changes`: what the votes for a view carry into it.
use mur_mesh.Prelude.{
  ℕ, suc, ◌-◌, ◌≡◌, refl, true, some, List, [], ◌∷◌, ◌++◌, arith, ◌==◌, ==_iff, leb, Bool-cases,
  inl, inr, ◌⊎◌, All, Any, Any-append, sym, subst, ◌∙◌,
}
use mur_mesh.Exec.{ok, err, bail, Error, Outcome-cases}
use mur_mesh.Map
use mur_mesh.Map.{Map}
use mur_mesh.Map.Laws.{Each, Above, Above-mono}
use mur_mesh.Pbft.Messages.{PrePrepare, ViewChange, Quorum}
use mur_mesh.Pbft.Replica.ViewChange.{
  carry_slots, carry_votes, no_ops, fill_gaps, lay_out, pre_prepares_for_view_changes,
}
use mur_mesh.Pbft.Replica.ViewChange.Votes.{
  err_inj, ok_inj, IsIn, InPlace, Slot, entry, Carried, AllCarried, carry_votes-ok,
}

-- The list has a PrePrepare for the slot, with its digest.
abbrev pub HasSlot : PrePrepare → List PrePrepare → Type 0
HasSlot p ps = Any (λ q. (q.op_num ≡ p.op_num) × (q.digest ≡ p.digest)) ps

get-Any :
    (p : PrePrepare) (m : Map PrePrepare)
    → Each (λ op q. q.op_num ≡ op) m
    → IsIn p m
    → HasSlot p (Map.values m)
unfolding Map.get
get-Any p [] h (q, e, f) = absurd cc
get-Any p ((j, r) ∷ m) h (q, e, f) = elim (Bool-cases (p.op_num == j)) [
  | inl g ↦
      let key : p.op_num ≡ j = (==_iff p.op_num j).0 g in
      let value : some r ≡ some q = (rw g at e) in
      let same : r ≡ q = cc in Any.first (h.0 ∙ sym key, rw same f)
  | inr g ↦ Any.later (get-Any p m h.1 (q, (rw g at e), f))
]

HasSlot-tail :
    (p q : PrePrepare) {qs rest : List PrePrepare}
    → (HasSlot p qs → HasSlot p rest)
    → HasSlot p (q ∷ qs)
    → HasSlot p (q ∷ rest)
HasSlot-tail p q f (Any.first h) = Any.first h
HasSlot-tail p q f (Any.later h) = Any.later (f h)

fill_gaps-HasSlot :
    (view last_op : ℕ) (ps : List PrePrepare) (p : PrePrepare) {ps' : List PrePrepare}
    → fill_gaps view last_op ps ≡ ok ps'
    → HasSlot p ps
    → HasSlot p ps'
unfolding fill_gaps
fill_gaps-HasSlot view last_op [] p e h = elim h [ ]
fill_gaps-HasSlot view last_op (q ∷ qs) p {ps'} e h = elim (Bool-cases (leb last_op q.op_num)) [
  | inl f ↦ elim (Outcome-cases (fill_gaps view q.op_num qs)) [
    | inl (rest, g) ↦
        let same : no_ops view last_op (q.op_num - last_op) ++ q ∷ rest ≡ ps' =
          ok_inj (rw (f, g) at e) in
        subst (HasSlot p) same (
          Any-append (no_ops view last_op (q.op_num - last_op))
            (HasSlot-tail p q (λ k. fill_gaps-HasSlot view q.op_num qs p g k) h))
    | inr (x, g) ↦ absurd (fails (rw (f, g) at e))
  ]
  | inr f ↦ absurd (fails (rw f at e))
]
  where
    fails : {x : Error} → err x ≡ ok ps' → ⊥
    fails e = cc

lay_out-HasSlot :
    (view : ℕ) (ps : List PrePrepare) (p : PrePrepare) {ps' : List PrePrepare}
    → lay_out view ps ≡ ok ps'
    → HasSlot p ps
    → HasSlot p ps'
unfolding lay_out
lay_out-HasSlot view [] p e h = elim h [ ]
lay_out-HasSlot view (q ∷ qs) p {ps'} e h = elim (Outcome-cases (fill_gaps view q.op_num qs)) [
  | inl (rest, g) ↦
      let same : q ∷ rest ≡ ps' = ok_inj (rw (lay_out, g) at e) in
      subst (HasSlot p) same (HasSlot-tail p q (λ k. fill_gaps-HasSlot view q.op_num qs p g k) h)
  | inr (x, g) ↦ absurd (fails (rw (lay_out, g) at e))
]
  where
    fails : {x : Error} → err x ≡ ok ps' → ⊥
    fails e = cc

-- Every slot of every vote is in the list.
abbrev pub AllHaveSlots : Quorum ViewChange → List PrePrepare → Type 0
AllHaveSlots votes ps = All (λ vote. All (λ slot. HasSlot slot.0.inner ps) vote.1.inner.log) votes

slots-HasSlot :
    (view : ℕ) (slots : List Slot) (m : Map PrePrepare) {ps : List PrePrepare}
    → InPlace m
    → lay_out view (Map.values m) ≡ ok ps
    → Carried slots m
    → All (λ slot. HasSlot slot.0.inner ps) slots
slots-HasSlot view [] m h e c = tt
slots-HasSlot view ((p, _) ∷ slots) m h e (c, cs) = (
  lay_out-HasSlot view (Map.values m) p.inner e (get-Any p.inner m h.0 c),
  slots-HasSlot view slots m h e cs,
)

votes-HaveSlots :
    (view : ℕ) (votes : Quorum ViewChange) (m : Map PrePrepare) {ps : List PrePrepare}
    → InPlace m
    → lay_out view (Map.values m) ≡ ok ps
    → AllCarried votes m
    → AllHaveSlots votes ps
votes-HaveSlots view [] m h e c = tt
votes-HaveSlots view ((id, vote) ∷ votes) m h e (c, cs) =
    (slots-HasSlot view vote.inner.log m h e c, votes-HaveSlots view votes m h e cs)

-- If the votes for a view lay out PrePrepares, then every prepared slot of every vote is among them, with
-- the op number and the digest of its certificate.
pub pre_prepares_for_view_changes-HaveSlots :
    (view : ℕ) (votes : Quorum ViewChange) (ps : List PrePrepare)
    → pre_prepares_for_view_changes view votes ≡ ok ps
    → AllHaveSlots votes ps
unfolding pre_prepares_for_view_changes
pre_prepares_for_view_changes-HaveSlots view votes ps e =
    elim (Outcome-cases (carry_votes view votes [])) [
      | inl (m, f) ↦
          let (valid, _, carried) = carry_votes-ok view votes [] {m' = m} (tt, tt) f in
          votes-HaveSlots view votes m valid (rw (pre_prepares_for_view_changes, f) at e) carried
      | inr (x, f) ↦ absurd (fails (rw (pre_prepares_for_view_changes, f) at e))
    ]
  where
    fails : {x : Error} → err x ≡ ok ps → ⊥
    fails e = cc

fill_gaps-total :
    (view last_op : ℕ) (m : Map PrePrepare)
    → InPlace m
    → Above last_op m
    → (ps : List PrePrepare) × (fill_gaps view last_op (Map.values m) ≡ ok ps)
unfolding fill_gaps
fill_gaps-total view last_op [] h a = ([], refl)
fill_gaps-total view last_op ((j, p) ∷ m) h a =
    let above : Above p.op_num m = Above-mono p.op_num (suc j) m (omega (arith, h.0.0)) h.1.0 in
    let (ps, e) = fill_gaps-total view p.op_num m (h.0.1, h.1.1) above in
    let ordered : leb last_op p.op_num ≡ true = ground (arith, h.0.0, a.0) in
    (no_ops view last_op (p.op_num - last_op) ++ p ∷ ps, rw (ordered, e) refl)

lay_out-total :
    (view : ℕ) (m : Map PrePrepare)
    → InPlace m
    → (p : PrePrepare) × (ps : List PrePrepare) × (lay_out view (Map.values m) ≡ ok (p ∷ ps))
unfolding lay_out
lay_out-total view [] h = (_, [], refl)
lay_out-total view ((j, p) ∷ m) h =
    let above : Above p.op_num m = Above-mono p.op_num (suc j) m (omega (arith, h.0.0)) h.1.0 in
    let (ps, e) = fill_gaps-total view p.op_num m (h.0.1, h.1.1) above in
    (p, ps, rw (lay_out, e) refl)

carry_slots-bail :
    (view : ℕ) (slots : List Slot) (m : Map PrePrepare) {x : Error}
    → carry_slots view slots m ≡ err x
    → x ≡ bail
unfolding carry_slots
carry_slots-bail view [] m e = cc
carry_slots-bail view ((p, _) ∷ slots) m {x} e =
    let found : PrePrepare = entry view p.inner (Map.get p.inner.op_num m) in
    elim (Bool-cases (found.digest == p.inner.digest)) [
      | inl f ↦ carry_slots-bail view slots (Map.insert p.inner.op_num found m) (rw f at e)
      | inr f ↦ sym (err_inj (rw f at e))
    ]

carry_votes-bail :
    (view : ℕ) (votes : Quorum ViewChange) (m : Map PrePrepare) {x : Error}
    → carry_votes view votes m ≡ err x
    → x ≡ bail
unfolding carry_votes
carry_votes-bail view [] m e = cc
carry_votes-bail view ((id, vote) ∷ votes) m {x} e =
    elim (Outcome-cases (carry_slots view vote.inner.log m)) [
      | inl (m1, f) ↦ carry_votes-bail view votes m1 (rw (carry_votes, f) at e)
      | inr (y, f) ↦
          sym (err_inj (rw (carry_votes, f) at e)) ∙ carry_slots-bail view vote.inner.log m f
    ]

-- The PrePrepares for the votes for a view: there is at least one, or the call
-- returns an error. It does not panic: its assertion on the order of the op
-- numbers always holds.
pub pre_prepares_for_view_changes-total :
    (view : ℕ) (votes : Quorum ViewChange)
    → ((p : PrePrepare) × (ps : List PrePrepare) × (pre_prepares_for_view_changes view votes
          ≡ ok (p ∷ ps)))
      ⊎ (pre_prepares_for_view_changes view votes ≡ err bail)
unfolding pre_prepares_for_view_changes
pre_prepares_for_view_changes-total view votes = elim (Outcome-cases (carry_votes view votes [])) [
  | inl (m, f) ↦
      let (valid, _, _) = carry_votes-ok view votes [] {m' = m} (tt, tt) f in
      rw (pre_prepares_for_view_changes, f) (inl (lay_out-total view m valid))
  | inr (x, f) ↦
      let same = carry_votes-bail view votes [] f in
      rw (pre_prepares_for_view_changes, f, same) (inr refl)
]
