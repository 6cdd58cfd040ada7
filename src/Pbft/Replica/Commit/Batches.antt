-- ===== src/Pbft/Replica/Commit/Batches.antt =====
-- src/pbft/replica.rs: after execution, the primary closes batches as long as it may.
use mur_mesh.Prelude.{
  ℕ, zero, suc, ◌+◌, ◌≡◌, ◌≤◌, ◌<◌, ◌^◌, ◌⊎◌, max, refl, sym, subst, true, false, none, List, [],
  ◌∷◌, ◌++◌, arith, length, take, drop, resize, get_elem?, get_elem?-none, length-resize, is_empty,
  leb, u32, Bool-cases, inl, inr,
}
use mur_mesh.Exec.{Outcome, ok}
use mur_mesh.Pbft.Replica.State.{
  State, Node, is_primary, view_change, op_num, sign_batch, default_entry,
}
use mur_mesh.Pbft.Replica.Ordering.{close_batch, has_room, room_bound}
use mur_mesh.Pbft.Replica.Ordering.Batch.{batch_size, closed, close_batch_lem}
use mur_mesh.Pbft.Replica.Commit.{close_batches}

empty_of : {B : Type 0} (l : List B) → is_empty l ≡ true → l ≡ []
empty_of [] h = refl
empty_of (x ∷ l) h = absurd cc

le_of_leb : (a b : ℕ) → leb a b ≡ true → a ≤ b
le_of_leb a b h = ground arith

max-u32 : (k : ℕ) → k < 2 ^ 32 → 1 ≤ k → max (u32 k) 1 ≡ k
max-u32 k h g = omega arith

module _ {S A : Type 0} where
  -- The op number is past the log, so the slot is new.
  op_num-past : (s : State S A) → length s.log < 2 ^ 32 → length s.log ≤ op_num s
  op_num-past s h = ground arith

  -- The node after a batch, its log written out.
  abbrev extended : Node S A → Node S A
  extended n = record n {
    state = record (n.state) {
      requests = drop (batch_size n) n.requests;
      log = resize n.log (suc (op_num n.state)) (default_entry n.state);
    };
    context = record (n.context) {
      submitted =
          n.context.submitted
          ++ sign_batch n.view_num (op_num n.state) (take (batch_size n) n.requests) ∷ [];
    };
  }

  closed-extended : (n : Node S A) → length n.log < 2 ^ 32 → closed n ≡ extended n
  closed-extended n h =
      let new : get_elem? n.log (op_num n.state) ≡ none =
        get_elem?-none n.log (op_num n.state) (op_num-past n.state h) in
      rw new refl

  -- No request waits, or the primary is as far ahead as it may be.
  abbrev pub IsDone : Outcome (Unit {0}) × Node S A → Type 0
  IsDone r = (r.0 ≡ ok tt) × ((r.1.requests ≡ []) ⊎ (has_room r.1.state ≡ false))

  close_batches-IsDone :
      (fuel : ℕ) (n : Node S A)
      → is_primary n.state ≡ true
      → view_change n.state ≡ false
      → length n.log < 2 ^ 32
      → room_bound n.state + 1 < 2 ^ 32
      → room_bound n.state + 2 ≤ fuel + op_num n.state
      → 1 ≤ fuel
      → IsDone (close_batches fuel n)
  unfolding close_batches
  close_batches-IsDone zero n p v l r f g = absurd (omega arith)
  close_batches-IsDone (suc fuel) n p v l r f g = elim (Bool-cases (is_empty n.requests)) [
    | inl e ↦ rw e (refl, inl (empty_of n.requests e))
    | inr e ↦ elim (Bool-cases (has_room n.state)) [
      | inl room ↦
          let step : close_batch n ≡ (ok tt, extended n) =
            subst (λ m. close_batch n ≡ (ok tt, m)) (closed-extended n l)
              (close_batch_lem n p v e) in
          let size = length-resize n.log (suc (op_num n.state)) (default_entry n.state) in
          let below : op_num n.state ≤ room_bound n.state =
            le_of_leb (op_num n.state) (room_bound n.state) room in
          let next_op : op_num (extended n).state ≡ suc (op_num n.state) =
            rw size (max-u32 (suc (op_num n.state)) (omega arith) (omega arith)) in
          let again =
            close_batches-IsDone fuel (extended n) p v
              (subst (λ k. k < 2 ^ 32) (sym size) (omega arith)) r
              (subst (λ k. room_bound n.state + 2 ≤ fuel + k) (sym next_op) (omega arith))
              (omega arith) in
          rw (e, room, step) again
      | inr full ↦ rw (e, full) (refl, inr full)
    ]
  ]

  -- After execution, the primary of a view that it has entered closes batches until no request waits or its
  -- op number is past the bound: the loop ends, and its rounds are enough, if the log has fewer than 2 ^ 32
  -- slots and the bound is below the largest op number.
  pub close_batches-ends :
      (n : Node S A)
      → is_primary n.state ≡ true
      → view_change n.state ≡ false
      → length n.log < 2 ^ 32
      → room_bound n.state + 1 < 2 ^ 32
      → IsDone (close_batches (suc (room_bound n.state)) n)
  close_batches-ends n p v l r =
      close_batches-IsDone (suc (room_bound n.state)) n p v l r (omega arith) (omega arith)
