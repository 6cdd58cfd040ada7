-- ===== src/Pbft/Replica/Refine/Prepare.antt =====
-- The votes of the first phase.
use mur_mesh.Prelude.{
  ℕ, zero, suc, ◌≡◌, Bool, false, some, get_elem?, pop, not, is_empty, is_none, ◌==◌, ◌||◌, arith,
}
use mur_mesh.Exec.{panic, pure, when◌then◌else◌}
use mur_mesh.Exec.Steps.{
  At, Steps, At-end, At-call, At-if, At-bind, At-option, At-or_fail, At-assert, Steps-of,
}
use mur_mesh.Map
use mur_mesh.Map.Laws.{get-insert}
use mur_mesh.Crypto.{Verifiable}
use mur_mesh.Pbft.Messages.{Prepare, Quorum}
use mur_mesh.Pbft.Replica.State.{LogEntry, Node}
use mur_mesh.Pbft.Replica.Ordering.{query_view, is_foreign}
use mur_mesh.Pbft.Replica.Prepare.{
  add_vote, few_prepares, finish_prepare, insert_prepare, signed_prepare, prepare_useless,
  submit_prepare, note_prepare, recv_prepare, next_prepare, rounds, drain_prepares,
  verified_prepare,
}
use mur_mesh.Pbft.Replica.Step.{Step, Reach, here, next}
use mur_mesh.Pbft.Replica.Refine.Timers.{steps_law}
use mur_mesh.Pbft.Replica.Refine.Ordering.{query_view-Steps, eq_of_test}

pub get-insert_self {ℓ} :
    {V : Type ℓ} (k : ℕ) (v : V) (m : Map.Map V) → Map.get k (Map.insert k v m) ≡ some v
get-insert_self k v m = ground (arith, get-insert k k v m)

-- The first of two reasons to do nothing does not hold.
pub eq_of_either : (a b : ℕ) (c : Bool) → not (a == b) || c ≡ false → a ≡ b
eq_of_either a b c h = ground arith

module _ {S A : Type 0} where
  finish_prepare-At :
      (p : Verifiable Prepare) (q : Quorum Prepare) (e : LogEntry A) (n t : Node S A)
      → Reach n.state t.state
      → Map.get p.inner.op_num t.prepare_quorums ≡ some q
      → few_prepares q t.state ≡ false
      → get_elem? t.log p.inner.op_num ≡ some e
      → is_none e.pre_prepare ≡ false
      → At (steps_law S A) n (finish_prepare p q e t)
  unfolding finish_prepare
  finish_prepare-At p q e n t reached filed enough found has =
      At-assert (is_empty e.prepares) _ _ reached λ fresh.
        At-end
          (next reached (Step.prepared t.state p.inner.op_num q e filed enough found has fresh))

  insert_prepare-At :
      (p : Verifiable Prepare) (n : Node S A)
      → p.inner.view_num ≡ n.view_num
      → At (steps_law S A) n (insert_prepare p n)
  unfolding insert_prepare
  insert_prepare-At p n current =
      let q = add_vote p.inner.op_num p.inner.replica_id p n.prepare_quorums in
      let voted = next here (Step.vote_prepare n.state p current) in
      At-if (few_prepares q n.state) (λ few. At-end voted)
        λ enough.
          At-option (get_elem? n.log p.inner.op_num) (λ absent. At-end voted)
            λ e found.
              At-if (is_none e.pre_prepare) (λ pending. At-end voted)
                λ has.
                  finish_prepare-At p q e n _ voted
                    (get-insert_self p.inner.op_num q n.prepare_quorums) enough found has

  pub signed_prepare-Steps : (p : Verifiable Prepare) → Steps (steps_law S A) (signed_prepare p)
  unfolding signed_prepare
  signed_prepare-Steps p = Steps-of λ n.
      At-if (not (p.inner.view_num == n.view_num)) (λ foreign. At-end here)
        λ current. At-or_fail panic (get_elem? n.log p.inner.op_num) _ _ here λ e found.
          At-if (is_empty e.prepares)
            (λ fresh. At-call here (insert_prepare-At p _ (eq_of_test _ _ current)))
            (λ done. At-end here)

  submit_prepare-Steps : (p : Verifiable Prepare) → Steps (steps_law S A) (submit_prepare p)
  unfolding submit_prepare
  submit_prepare-Steps p = Steps-of λ n.
      At-if (is_foreign p.inner.view_num n.state)
        (λ foreign.
          At-bind (query_view p.inner.replica_id p.inner.view_num) (λ _. pure false) n
            ((query_view-Steps _ _).at n) (λ _. Steps-of λ t. At-end here))
        λ own.
          At-if (prepare_useless p (get_elem? n.log p.inner.op_num)) (λ useless. At-end here)
            (λ useful. At-end here)

  note_prepare-Steps :
      (op : ℕ) (submitted : Bool) → Steps (steps_law S A) (note_prepare op submitted)
  unfolding note_prepare
  note_prepare-Steps op submitted = Steps-of λ n.
      At-if submitted (λ s. At-end (next here (Step.pend_prepares n.state _))) (λ s. At-end here)

  pub recv_prepare-Steps : (p : Verifiable Prepare) → Steps (steps_law S A) (recv_prepare p)
  unfolding recv_prepare
  recv_prepare-Steps p = Steps-of λ n.
      At-option (Map.get p.inner.op_num n.pending_prepares)
        (λ idle.
          At-bind (submit_prepare p) (note_prepare p.inner.op_num) n ((submit_prepare-Steps p).at n)
            (note_prepare-Steps _))
        (λ pending busy. At-end (next here (Step.pend_prepares n.state _)))

  next_prepare-Steps : (fuel op : ℕ) → Steps (steps_law S A) (next_prepare fuel op)
  unfolding next_prepare
  next_prepare-Steps zero op = Steps-of λ n. At-end here
  next_prepare-Steps (suc fuel) op = Steps-of λ n.
      At-option (Map.get op n.pending_prepares) (λ idle. At-end here)
        λ pending busy.
          At-option (pop pending) (λ none_left. At-end (next here (Step.pend_prepares n.state _)))
            λ popped got.
              At-bind (submit_prepare popped.0)
                (λ submitted. when submitted then pure tt else next_prepare fuel op) _
                (At-call (next here (Step.pend_prepares n.state _))
                  ((submit_prepare-Steps popped.0).at _))
                λ submitted.
                  Steps-of
                    λ t. At-if submitted (λ s. At-end here) (λ s. (next_prepare-Steps fuel op).at t)

  drain_prepares-Steps : (op : ℕ) → Steps (steps_law S A) (drain_prepares op)
  unfolding drain_prepares
  drain_prepares-Steps op =
      Steps-of λ n. (next_prepare-Steps (rounds op n.pending_prepares) op).at n

  pub verified_prepare-Steps : (p : Verifiable Prepare) → Steps (steps_law S A) (verified_prepare p)
  unfolding verified_prepare
  verified_prepare-Steps p = Steps-of λ n.
      At-if
        (not (p.inner.view_num == n.view_num)
          || not (Map.contains_key p.inner.op_num n.pending_prepares))
        (λ stale. At-end here)
        λ live.
          At-bind (insert_prepare p) (λ _. drain_prepares p.inner.op_num) n
            (insert_prepare-At p n (eq_of_either _ _ _ live)) (λ _. drain_prepares-Steps _)
