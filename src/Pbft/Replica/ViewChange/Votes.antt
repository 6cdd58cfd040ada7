-- ===== src/Pbft/Replica/ViewChange/Votes.antt =====
-- src/pbft/replica.rs, `pre_prepares_for_view_changes`: the map of the slots that the votes have prepared.
use mur_mesh.Prelude.{
  ℕ, ◌≡◌, refl, true, Option, none, some, List, [], ◌∷◌, arith, ◌==◌, ==_iff, Bool-cases, inl, inr,
  All, sym, subst, ◌∙◌,
}
use mur_mesh.Exec.{Outcome, ok, err, bail, Error, Outcome-cases}
use mur_mesh.Map
use mur_mesh.Map.{Map}
use mur_mesh.Map.Laws.{Each, IsSorted, get-insert, insert-Each, insert-IsSorted, get-Each}
use mur_mesh.Crypto.{Verifiable}
use mur_mesh.Pbft.Messages.{PrePrepare, Prepare, ViewChange, Quorum}
use mur_mesh.Pbft.Replica.ViewChange.{carry_slots, carry_votes}

pub err_inj : {B : Type 0} {x y : Error} → Path (Outcome B) (err x) (err y) → x ≡ y
err_inj e = cc

pub ok_inj : {B : Type 0} {a b : B} → ok a ≡ ok b → a ≡ b
ok_inj e = cc

-- The slot of a certificate is in the map, with its digest.
abbrev pub IsIn : PrePrepare → Map PrePrepare → Type 0
IsIn p m = (q : PrePrepare) × (Map.get p.op_num m ≡ some q) × (q.digest ≡ p.digest)

abbrev pub Extends : Map PrePrepare → Map PrePrepare → Type 0
Extends m m' = (op : ℕ) (q : PrePrepare) → Map.get op m ≡ some q → Map.get op m' ≡ some q

-- Each entry is for the slot that is its key.
abbrev pub InPlace : Map PrePrepare → Type 0
InPlace m = Each (λ op q. q.op_num ≡ op) m × IsSorted m

abbrev pub Slot : Type 0
Slot = Verifiable PrePrepare × Quorum Prepare

-- The entry that a slot finds or makes.
abbrev pub entry : ℕ → PrePrepare → Option PrePrepare → PrePrepare
entry view p o = elim o [
  | none ↦ record { view_num = view; op_num = p.op_num; digest = p.digest }
  | some q ↦ q
]

pub insert-entry :
    (view : ℕ) (p : PrePrepare) (m : Map PrePrepare)
    → InPlace m
    → let m' = Map.insert p.op_num (entry view p (Map.get p.op_num m)) m in
      InPlace m' × Extends m m'
insert-entry view p m h = go (Map.get p.op_num m) refl
  where
    go :
        (o : Option PrePrepare)
        → Map.get p.op_num m ≡ o
        → InPlace (Map.insert p.op_num (entry view p o) m)
          × Extends m (Map.insert p.op_num (entry view p o) m)
    go none e = (
      (
        insert-Each (λ op q. q.op_num ≡ op) p.op_num (entry view p none) m refl h.0,
        insert-IsSorted p.op_num (entry view p none) m h.1,
      ),
      λ op q f. elim (Bool-cases (p.op_num == op)) [
        | inl g ↦ let same : p.op_num ≡ op = (==_iff p.op_num op).0 g in absurd cc
        | inr g ↦ rw (get-insert op p.op_num (entry view p none) m, g) f
      ],
    )
    go (some old) e = (
      (
        insert-Each (λ op q. q.op_num ≡ op) p.op_num old m
            (get-Each (λ op q. q.op_num ≡ op) p.op_num m h.0 e) h.0,
        insert-IsSorted p.op_num old m h.1,
      ),
      λ op q f. elim (Bool-cases (p.op_num == op)) [
        | inl g ↦
            let same : p.op_num ≡ op = (==_iff p.op_num op).0 g in
            let eq : some old ≡ some q = sym e ∙ rw same f in
            rw (get-insert op p.op_num old m, g) eq
        | inr g ↦ rw (get-insert op p.op_num old m, g) f
      ],
    )

abbrev pub Carried : List Slot → Map PrePrepare → Type 0
Carried slots m = All (λ slot. IsIn slot.0.inner m) slots

pub carry_slots-ok :
    (view : ℕ) (slots : List Slot) (m : Map PrePrepare) {m' : Map PrePrepare}
    → InPlace m
    → carry_slots view slots m ≡ ok m'
    → InPlace m' × Extends m m' × Carried slots m'
unfolding carry_slots
carry_slots-ok view [] m {m'} h e =
    let same : m ≡ m' = cc in
    subst (λ x. InPlace x × Extends m x × Unit {0}) same (h, (λ op q f. f), tt)
carry_slots-ok view ((p, votes) ∷ slots) m {m'} h e =
    let op = p.inner.op_num in
    let found : PrePrepare = entry view p.inner (Map.get op m) in
    let m1 : Map PrePrepare = Map.insert op found m in
    elim (Bool-cases (found.digest == p.inner.digest)) [
      | inl f ↦
          let one = insert-entry view p.inner m h in
          let (valid, extends, carried) =
            carry_slots-ok view slots m1 {m' = m'} one.0 (rw f at e) in
          let self_eq : (op == op) ≡ true = ground arith in
          let here_now : Map.get op m1 ≡ some found = rw (get-insert op op found m, self_eq) refl in
          (
            valid,
            (λ k q g. extends k q (one.1 k q g)),
            (
              (found, extends op found here_now, (==_iff (found.digest) p.inner.digest).0 f),
              carried,
            ),
          )
      | inr f ↦ absurd (fails (rw f at e))
    ]
  where
    fails : {m' : Map PrePrepare} → err bail ≡ ok m' → ⊥
    fails e = cc

-- All votes' slots are in the map.
abbrev pub AllCarried : Quorum ViewChange → Map PrePrepare → Type 0
AllCarried votes m = All (λ vote. Carried (vote.1.inner.log) m) votes

pub Carried-mono :
    (slots : List Slot) (m m' : Map PrePrepare) → Extends m m' → Carried slots m → Carried slots m'
Carried-mono [] m m' h c = tt
Carried-mono ((p, _) ∷ slots) m m' h ((q, f, g), c) =
    ((q, h p.inner.op_num q f, g), Carried-mono slots m m' h c)

pub carry_votes-ok :
    (view : ℕ) (votes : Quorum ViewChange) (m : Map PrePrepare) {m' : Map PrePrepare}
    → InPlace m
    → carry_votes view votes m ≡ ok m'
    → InPlace m' × Extends m m' × AllCarried votes m'
unfolding carry_votes
carry_votes-ok view [] m {m'} h e =
    let same : m ≡ m' = cc in
    subst (λ x. InPlace x × Extends m x × Unit {0}) same (h, (λ op q f. f), tt)
carry_votes-ok view ((id, vote) ∷ votes) m {m'} h e =
    elim (Outcome-cases (carry_slots view vote.inner.log m)) [
      | inl (m1, f) ↦
          let (valid, extends, carried) = carry_slots-ok view vote.inner.log m {m' = m1} h f in
          let (valid', extends', carried') =
            carry_votes-ok view votes m1 {m' = m'} valid (rw (carry_votes, f) at e) in
          (
            valid',
            (λ k q g. extends' k q (extends k q g)),
            (Carried-mono vote.inner.log m1 m' extends' carried, carried'),
          )
      | inr (x, f) ↦ absurd (fails (rw (carry_votes, f) at e))
    ]
  where
    fails : {x : Error} → err x ≡ ok m' → ⊥
    fails e = cc
