-- ===== src/Pbft/Replica/Refine/Commit.antt =====
-- The votes of the second phase, and execution.
use mur_mesh.Prelude.{
  ℕ, zero, suc, ◌+◌, ◌≡◌, ◌≤◌, Bool, true, false, Option, none, some, List, [], ◌∷◌, get_elem?, pop,
  not, is_empty, ◌==◌, ◌||◌, ◌&&◌, arith, length, ltb,
}
use mur_mesh.Exec.{Exec, panic, pure, when◌then◌else◌}
use mur_mesh.Exec.Steps.{
  At, Steps, At-end, At-call, At-if, At-bind, At-option, At-or_fail, At-assert, Steps-of,
}
use mur_mesh.Map
use mur_mesh.Crypto.{Bytes, Verifiable}
use mur_mesh.Pbft.Messages.{Request, PrePrepare, Commit, Reply, Quorum}
use mur_mesh.Pbft.Replica.State.{
  LogEntry, Node, is_primary, no_op_digest, send, on_state_transfer_timer,
}
use mur_mesh.Pbft.Replica.Ordering.{query_view, is_foreign, close_batch, has_room, room_bound}
use mur_mesh.Pbft.Replica.Prepare.{add_vote, rounds}
use mur_mesh.Pbft.Replica.Commit.{
  commit_useless, submit_commit, note_commit, recv_commit, next_commit, drain_commits,
  close_batches, stop_timer, await_slots, after_execute, not_later, remember, answer, execute_op,
  execute_request, execute_requests, execute_slot, execute_slots, few_commits, execute_committed,
  finish_commit, insert_commit, signed_commit, verified_commit,
}
use mur_mesh.Pbft.Replica.Step.{Step, Reach, here, next}
use mur_mesh.Pbft.Replica.Refine.Timers.{
  steps_law, on_do_view_change_timer-Steps, on_progress_timer-Steps, on_state_transfer_timer-Steps,
}
use mur_mesh.Pbft.Replica.Refine.Ordering.{query_view-Steps, close_batch-Steps, eq_of_test}
use mur_mesh.Pbft.Replica.Refine.Prepare.{get-insert_self, eq_of_either}

known_le :
    (seq : ℕ) (o : Option (ℕ × Option Reply))
    → not_later seq o ≡ true
    → (known : ℕ × Option Reply) → o ≡ some known
    → known.0 ≤ seq
known_le seq none h known e = cc
known_le seq (some k) h known e = ground arith

module _ {S A : Type 0} where
  submit_commit-Steps : (c : Verifiable Commit) → Steps (steps_law S A) (submit_commit c)
  unfolding submit_commit
  submit_commit-Steps c = Steps-of λ n.
      At-if (is_foreign c.inner.view_num n.state)
        (λ foreign.
          At-bind (query_view c.inner.replica_id c.inner.view_num) (λ _. pure false) n
            ((query_view-Steps _ _).at n) (λ _. Steps-of λ t. At-end here))
        λ own.
          At-if (commit_useless c (get_elem? n.log c.inner.op_num)) (λ useless. At-end here)
            (λ useful. At-end here)

  note_commit-Steps : (op : ℕ) (submitted : Bool) → Steps (steps_law S A) (note_commit op submitted)
  unfolding note_commit
  note_commit-Steps op submitted = Steps-of λ n.
      At-if submitted (λ s. At-end (next here (Step.pend_commits n.state _))) (λ s. At-end here)

  pub recv_commit-Steps : (c : Verifiable Commit) → Steps (steps_law S A) (recv_commit c)
  unfolding recv_commit
  recv_commit-Steps c = Steps-of λ n.
      At-option (Map.get c.inner.op_num n.pending_commits)
        (λ idle.
          At-bind (submit_commit c) (note_commit c.inner.op_num) n ((submit_commit-Steps c).at n)
            (note_commit-Steps _))
        (λ pending busy. At-end (next here (Step.pend_commits n.state _)))

  next_commit-Steps : (fuel op : ℕ) → Steps (steps_law S A) (next_commit fuel op)
  unfolding next_commit
  next_commit-Steps zero op = Steps-of λ n. At-end here
  next_commit-Steps (suc fuel) op = Steps-of λ n.
      At-option (Map.get op n.pending_commits) (λ idle. At-end here)
        λ pending busy.
          At-option (pop pending) (λ none_left. At-end (next here (Step.pend_commits n.state _)))
            λ popped got.
              At-bind (submit_commit popped.0)
                (λ submitted. when submitted then pure tt else next_commit fuel op) _
                (At-call (next here (Step.pend_commits n.state _))
                  ((submit_commit-Steps popped.0).at _))
                λ submitted.
                  Steps-of
                    λ t. At-if submitted (λ s. At-end here) (λ s. (next_commit-Steps fuel op).at t)

  drain_commits-Steps : (op : ℕ) → Steps (steps_law S A) (drain_commits op)
  unfolding drain_commits
  drain_commits-Steps op = Steps-of λ n. (next_commit-Steps (rounds op n.pending_commits) op).at n

  close_batches-Steps : (fuel : ℕ) → Steps (steps_law S A) (close_batches fuel)
  unfolding close_batches
  close_batches-Steps zero = Steps-of λ n. At-end here
  close_batches-Steps (suc fuel) = Steps-of λ n.
      At-if (not (is_empty n.requests) && has_room n.state)
        (λ room.
          At-bind close_batch (λ _. close_batches fuel) n (close_batch-Steps.at n)
            (λ _. close_batches-Steps fuel))
        (λ full. At-end here)

  await_slots-Steps : (k op : ℕ) → Steps (steps_law S A) (await_slots k op)
  unfolding await_slots
  await_slots-Steps zero op = Steps-of λ n. At-end here
  await_slots-Steps (suc k) op = Steps-of λ n.
      At-bind (on_state_transfer_timer op _) (λ _. await_slots k (suc op)) n
        ((on_state_transfer_timer-Steps op _).at n) (λ _. await_slots-Steps k (suc op))

  after_execute-Steps : (op : ℕ) → Steps (steps_law S A) (after_execute op)
  unfolding after_execute
  after_execute-Steps op = Steps-of λ n.
      At-if (is_primary n.state) (λ primary. (close_batches-Steps (suc (room_bound n.state))).at n)
        λ backup.
          At-if (ltb n.commit_num op) (λ ahead. (await_slots-Steps _ _).at n) (λ done. At-end here)

  stop_timer-Steps : (primary : Bool) (op : ℕ) → Steps (steps_law S A) (stop_timer primary op)
  unfolding stop_timer
  stop_timer-Steps primary op = Steps-of λ n.
      At-if primary (λ p. (on_progress_timer-Steps _ _).at n)
        (λ b. (on_do_view_change_timer-Steps _).at n)

  remember-Steps : (client : ℕ) (reply : Reply) → Steps (steps_law S A) (remember client reply)
  unfolding remember
  remember-Steps client reply = Steps-of λ n.
      At-if (not_later reply.seq (Map.get client n.replies))
        (λ due. At-end (next here (Step.answer n.state client reply (known_le reply.seq _ due))))
        (λ late. At-end here)

  answer-Steps :
      (p : PrePrepare) (r : Request A) (result : Bytes) → Steps (steps_law S A) (answer p r result)
  unfolding answer
  answer-Steps p r result = Steps-of λ n.
      At-bind (remember r.client_id _) (λ _. send _) n ((remember-Steps _ _).at n)
        (λ _. Steps-of λ t. At-end here)

module _ {S A : Type 0} (execute : Bytes → Exec S Bytes) where
  execute_op-Steps : (op : Bytes) → Steps (steps_law S A) (execute_op execute op)
  unfolding execute_op
  execute_op-Steps op = Steps-of λ n. At-end (next here (Step.run_app n.state _))

  execute_request-Steps :
      (p : PrePrepare) (r : Request A) → Steps (steps_law S A) (execute_request execute p r)
  unfolding execute_request
  execute_request-Steps p r = Steps-of λ n.
      At-bind (execute_op execute r.op) (λ result. answer p r result) n
        ((execute_op-Steps r.op).at n) (λ result. answer-Steps p r result)

  execute_requests-Steps :
      (p : PrePrepare) (rs : List (Request A))
      → Steps (steps_law S A) (execute_requests execute p rs)
  unfolding execute_requests
  execute_requests-Steps p [] = Steps-of λ n. At-end here
  execute_requests-Steps p (r ∷ rs) = Steps-of λ n.
      At-bind (execute_request execute p r) (λ _. execute_requests execute p rs) n
        ((execute_request-Steps p r).at n) (λ _. execute_requests-Steps p rs)

  execute_slot-At :
      (e : LogEntry A) (p : Verifiable PrePrepare) (n : Node S A)
      → get_elem? n.log (n.commit_num + 1) ≡ some e
      → is_empty e.commits ≡ false
      → At (steps_law S A) n (execute_slot execute e p n)
  unfolding execute_slot
  execute_slot-At e p n found done =
      At-bind (on_state_transfer_timer (n.commit_num + 1) _)
        (λ _. execute_requests execute p.inner e.requests) _
        (At-call (next here (Step.advance n.state e found done))
          ((on_state_transfer_timer-Steps _ _).at _))
        (λ _. execute_requests-Steps p.inner e.requests)

  execute_slots-Steps : (fuel : ℕ) → Steps (steps_law S A) (execute_slots execute fuel)
  unfolding execute_slots
  execute_slots-Steps zero = Steps-of λ n. At-end here
  execute_slots-Steps (suc fuel) = Steps-of λ n.
      At-option (get_elem? n.log (n.commit_num + 1)) (λ absent. At-end here)
        λ e found.
          At-if (is_empty e.commits) (λ pending. At-end here)
            λ done. At-or_fail panic e.pre_prepare _ _ here λ p has.
              At-if (not (p.inner.digest == no_op_digest) && is_empty e.requests)
                (λ missing. At-end here)
                λ ready.
                  At-bind (execute_slot execute e p) (λ _. execute_slots execute fuel) n
                    (execute_slot-At e p n found done) (λ _. execute_slots-Steps fuel)

  execute_committed-Steps : (op : ℕ) → Steps (steps_law S A) (execute_committed execute op)
  unfolding execute_committed
  execute_committed-Steps op = Steps-of λ n.
      At-bind (execute_slots execute (suc (length n.log))) (λ _. after_execute op) n
        ((execute_slots-Steps (suc (length n.log))).at n) (λ _. after_execute-Steps op)

  finish_commit-At :
      (c : Verifiable Commit) (q : Quorum Commit) (e : LogEntry A) (n t : Node S A)
      → Reach n.state t.state
      → Map.get c.inner.op_num t.commit_quorums ≡ some q
      → few_commits q t.state ≡ false
      → get_elem? t.log c.inner.op_num ≡ some e
      → is_empty e.commits ≡ true
      → is_empty e.prepares && not (t.config.num_replica == 1) ≡ false
      → At (steps_law S A) n (finish_commit execute c q e t)
  unfolding finish_commit
  finish_commit-At c q e n t reached filed enough found fresh prepared =
      At-bind (stop_timer (is_primary t.state) c.inner.op_num)
        (λ _. execute_committed execute c.inner.op_num) _
        (At-call
          (next reached
            (Step.committed t.state c.inner.op_num q e filed enough found fresh prepared))
          ((stop_timer-Steps _ _).at _))
        (λ _. execute_committed-Steps _)

  insert_commit-At :
      (c : Verifiable Commit) (n : Node S A)
      → c.inner.view_num ≡ n.view_num
      → At (steps_law S A) n (insert_commit execute c n)
  unfolding insert_commit
  insert_commit-At c n current =
      let q = add_vote c.inner.op_num c.inner.replica_id c n.commit_quorums in
      let voted = next here (Step.vote_commit n.state c current) in
      At-if (few_commits q n.state) (λ few. At-end voted)
        λ enough.
          At-option (get_elem? n.log c.inner.op_num) (λ absent. At-end voted)
            λ e found. At-assert (is_empty e.commits) _ _ voted λ fresh.
              At-if (is_empty e.prepares && not (n.config.num_replica == 1)) (λ early. At-end voted)
                λ ready.
                  finish_commit-At c q e n _ voted
                    (get-insert_self c.inner.op_num q n.commit_quorums) enough found fresh ready

  pub signed_commit-Steps :
      (c : Verifiable Commit) → Steps (steps_law S A) (signed_commit execute c)
  unfolding signed_commit
  signed_commit-Steps c = Steps-of λ n.
      At-if (not (c.inner.view_num == n.view_num)) (λ foreign. At-end here)
        λ current. At-or_fail panic (get_elem? n.log c.inner.op_num) _ _ here λ e found.
          At-if (is_empty e.commits)
            (λ fresh. At-call here (insert_commit-At c _ (eq_of_test _ _ current)))
            (λ done. At-end here)

  pub verified_commit-Steps :
      (c : Verifiable Commit) → Steps (steps_law S A) (verified_commit execute c)
  unfolding verified_commit
  verified_commit-Steps c = Steps-of λ n.
      At-if
        (not (c.inner.view_num == n.view_num)
          || not (Map.contains_key c.inner.op_num n.pending_commits))
        (λ stale. At-end here)
        λ live.
          At-bind (insert_commit execute c) (λ _. drain_commits c.inner.op_num) n
            (insert_commit-At c n (eq_of_either _ _ _ live)) (λ _. drain_commits-Steps _)
