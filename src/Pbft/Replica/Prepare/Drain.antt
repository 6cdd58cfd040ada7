-- ===== src/Pbft/Replica/Prepare/Drain.antt =====
-- src/pbft/replica.rs: the loop over the votes that wait for the verification of another ends.
use mur_mesh.Prelude.{
  ℕ, zero, suc, ◌≡◌, ◌≤◌, refl, Bool, true, false, Option, none, some, List, arith, ◌==◌,
  Bool-cases, Option-cases, length, pop, length-pop, leb, get_elem?, inl, inr,
}
use mur_mesh.Exec.{ok}
use mur_mesh.Map
use mur_mesh.Map.Laws.{get-insert}
use mur_mesh.Crypto.{Verifiable}
use mur_mesh.Pbft.Messages.{Prepare}
use mur_mesh.Pbft.Replica.State.{Node}
use mur_mesh.Pbft.Replica.Ordering.{query_view, is_foreign}
use mur_mesh.Pbft.Replica.Prepare.{
  submit_prepare, next_prepare, drain_prepares, rounds, prepare_useless,
}

pub rounds_pos {ℓ} : {V : Type ℓ} (op : ℕ) (m : Map.Map (List V)) → 1 ≤ rounds op m
rounds_pos {V} op m = go (Map.get op m)
  where
    go : (o : Option (List V)) → 1 ≤ (elim o [ none ↦ 1 | some l ↦ suc (length l) ])
    go none = omega arith
    go (some l) = omega arith

pub rounds-some {ℓ} :
    {V : Type ℓ} (op : ℕ) (m : Map.Map (List V)) {l : List V}
    → Map.get op m ≡ some l
    → rounds op m ≡ suc (length l)
rounds-some op m e = rw (rounds, e) refl

-- The rounds after a vote is taken off.
pub rounds-insert {ℓ} :
    {V : Type ℓ} (op : ℕ) (l : List V) (m : Map.Map (List V))
    → rounds op (Map.insert op l m) ≡ suc (length l)
rounds-insert op l m =
    let same : (op == op) ≡ true = ground arith in
    rounds-some op (Map.insert op l m) (rw (get-insert op op l m, same) refl)

module _ {S A : Type 0} where
  -- What a call that submits nothing but messages and work leaves of the state.
  submit_prepare-ok :
      (p : Verifiable Prepare) (n : Node S A)
      → (b : Bool) × ((submit_prepare p n).0 ≡ ok b) × ((submit_prepare p n).1.state ≡ n.state)
  unfolding submit_prepare query_view
  submit_prepare-ok p n = elim (Bool-cases (is_foreign p.inner.view_num n.state)) [
    | inl e ↦ elim (Bool-cases (leb n.view_num p.inner.view_num)) [
      | inl f ↦ simp (e, f) (false, refl, refl)
      | inr f ↦ simp (e, f) (false, refl, refl)
    ]
    | inr e ↦ elim (Bool-cases (prepare_useless p (get_elem? n.log p.inner.op_num))) [
      | inl f ↦ simp (e, f) (false, refl, refl)
      | inr f ↦ simp (e, f) (true, refl, refl)
    ]
  ]

  next_prepare-ok :
      (fuel op : ℕ) (n : Node S A)
      → rounds op n.pending_prepares ≤ fuel
      → (next_prepare fuel op n).0 ≡ ok tt
  unfolding next_prepare
  next_prepare-ok zero op n h = absurd (omega (arith, rounds_pos op n.pending_prepares))
  next_prepare-ok (suc fuel) op n h = elim (Option-cases (Map.get op n.pending_prepares)) [
    | inl e ↦ rw e refl
    | inr (l, e) ↦ elim (Option-cases (pop l)) [
      | inl f ↦ simp (e, f) refl
      | inr ((p, rest), f) ↦
          let m : Node S A = record n {
            state = record (n.state) { pending_prepares = Map.insert op rest n.pending_prepares };
          } in
          let (b, g, kept) = submit_prepare-ok p m in
          let less : rounds op (Map.insert op rest n.pending_prepares) ≤ fuel = omega (
            arith,
            rounds-insert op rest n.pending_prepares,
            length-pop l f,
            rounds-some op n.pending_prepares e,
          ) in
          let again = next_prepare-ok fuel op (submit_prepare p m).1 (rw kept less) in
          elim (Bool-cases b) [
            | inl done ↦ simp (e, f, g, done) refl
            | inr more ↦ simp (e, f, g, more) again
          ]
    ]
  ]

  -- The loop over the pending votes of a slot returns: the rounds that it is given are enough.
  pub drain_prepares-ok : (op : ℕ) (n : Node S A) → (drain_prepares op n).0 ≡ ok tt
  unfolding drain_prepares
  drain_prepares-ok op n = next_prepare-ok (rounds op n.pending_prepares) op n (omega arith)
