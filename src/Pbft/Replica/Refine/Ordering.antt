-- ===== src/Pbft/Replica/Refine/Ordering.antt =====
-- Requests, batches and PrePrepares.
use mur_mesh.Prelude.{
  ℕ, ◌≡◌, ◌≤◌, ◌<◌, Bool, true, false, Option, none, some, get_elem?, arith, not, is_empty, ◌==◌,
  ltb, length, List, is_none, leb, sym, ◌∙◌,
}
use Prim.Native.Nat.{min}
use mur_mesh.Exec.{panic, bail}
use mur_mesh.Exec.Steps.{
  At, Steps, At-end, At-call, At-if, At-bind, At-option, At-or_fail, At-assert, Steps-of,
}
use mur_mesh.Map
use mur_mesh.Pbft.Messages.{Request, Reply}
use mur_mesh.Crypto.{Verifiable}
use mur_mesh.Pbft.Messages.{PrePrepare}
use mur_mesh.Pbft.Replica.State.{
  LogEntry, Node, State, is_primary, view_change, extend_log, on_progress_timer,
}
use mur_mesh.Pbft.Replica.Ordering.{
  close_batch, has_room, accept_request, resend_reply, recv_request, signed_pre_prepare,
  progress_prepare, query_view, is_foreign, recv_pre_prepare, pre_prepare_eq, accept_pre_prepare,
  verified_pre_prepare, close_if_room, announce, accept_if_same,
}
use mur_mesh.Pbft.Replica.Step.{Step, Reach, here, next}
use mur_mesh.Pbft.Replica.Refine.Timers.{
  steps_law, on_do_view_change_timer-Steps, on_progress_timer-Steps,
}

pub not-false : (b : Bool) → not b ≡ true → b ≡ false
not-false b h = ground arith

not-true : (b : Bool) → not b ≡ false → b ≡ true
not-true b h = ground arith

min-le : (a b : ℕ) → min a b ≤ b
min-le a b = omega arith

pub eq_of_test : (a b : ℕ) → not (a == b) ≡ false → a ≡ b
eq_of_test a b h = ground arith

eq_of_pre_prepare_eq : (p q : PrePrepare) → pre_prepare_eq p q ≡ true → p ≡ q
eq_of_pre_prepare_eq p q h = ground arith

module _ {S A : Type 0} where
  pub close_batch-Steps : Steps (steps_law S A) close_batch
  unfolding close_batch
  close_batch-Steps = Steps-of λ n. At-assert (is_primary n.state) _ _ here λ primary.
      At-assert (not (view_change n.state)) _ _ here λ settled.
        At-assert (not (is_empty n.requests)) _ _ here λ some_request. At-end (
          next here (
            Step.close n.state (min (length n.requests) n.config.max_batch_size) primary
              (not-false _ settled) (min-le _ _)))

  close_if_room-Steps : Steps (steps_law S A) close_if_room
  unfolding close_if_room
  close_if_room-Steps =
      Steps-of λ n. At-if (has_room n.state) (λ room. close_batch-Steps.at n) (λ full. At-end here)

  accept_request-At :
      (r : Request A) (n : Node S A)
      → view_change n.state ≡ false
      → ((known : ℕ × Option Reply) → Map.get r.client_id n.replies ≡ some known → known.0 < r.seq)
      → At (steps_law S A) n (accept_request r n)
  unfolding accept_request
  accept_request-At r n settled newer =
      At-if (not (is_primary n.state))
        (λ backup. At-call here ((on_do_view_change_timer-Steps _).at _))
        λ primary.
          At-call (next here (Step.enqueue n.state r settled (not-true _ primary) newer))
            (close_if_room-Steps.at _)

  resend_reply-At :
      (r : Request A) (reply : Option Reply) (n : Node S A)
      → At (steps_law S A) n (resend_reply r reply n)
  unfolding resend_reply
  resend_reply-At r none n = At-end here
  resend_reply-At r (some reply) n = At-end here

  newer_of_none :
      (r : Request A) (s : State S A)
      → Map.get r.client_id s.replies ≡ none
      → (known : ℕ × Option Reply) → Map.get r.client_id s.replies ≡ some known
      → known.0 < r.seq
  newer_of_none r s absent known e = cc

  newer_of_some :
      (r : Request A) (s : State S A) (k : ℕ × Option Reply)
      → Map.get r.client_id s.replies ≡ some k
      → ltb r.seq k.0 ≡ false
      → (k.0 == r.seq) ≡ false
      → (known : ℕ × Option Reply) → Map.get r.client_id s.replies ≡ some known
      → known.0 < r.seq
  newer_of_some r s k present not_later not_same known e = ground arith

  pub recv_request-Steps : (r : Request A) → Steps (steps_law S A) (recv_request r)
  unfolding recv_request
  recv_request-Steps r = Steps-of λ n.
      At-if (view_change n.state) (λ changing. At-end here)
        λ settled.
          At-option (Map.get r.client_id n.replies)
            (λ absent. accept_request-At r n settled (newer_of_none r n.state absent))
            λ known present.
              At-if (ltb r.seq known.0) (λ later. At-end here)
                λ not_later.
                  At-if (known.0 == r.seq) (λ same. resend_reply-At r known.1 n)
                    λ not_same.
                      accept_request-At r n settled
                        (newer_of_some r n.state known present not_later not_same)

  announce-Steps :
      (p : Verifiable PrePrepare) (rs : List (Request A)) → Steps (steps_law S A) (announce p rs)
  unfolding announce
  announce-Steps p rs =
      Steps-of
        λ n. At-if (n.config.num_replica == 1) (λ single. At-end here) (λ several. At-end here)

  pub signed_pre_prepare-Steps :
      (p : Verifiable PrePrepare) (rs : List (Request A))
      → Steps (steps_law S A) (signed_pre_prepare p rs)
  unfolding signed_pre_prepare
  signed_pre_prepare-Steps p rs = Steps-of λ n.
      At-if (not (p.inner.view_num == n.view_num)) (λ foreign. At-end here)
        λ current. At-or_fail panic (get_elem? n.log p.inner.op_num) _ _ here λ e found.
          let proposed = next here (Step.propose n.state p e (eq_of_test _ _ current) found) in
          At-assert (is_none e.pre_prepare) _ _ proposed λ fresh.
            At-or_fail panic _ _ _ proposed λ e' found'.
              At-bind (on_progress_timer _ _) (λ _. announce p rs) _
                (At-call (next proposed (Step.fill _ p.inner.op_num e' rs found'))
                  ((on_progress_timer-Steps _ _).at _))
                (λ _. announce-Steps p rs)

  pub progress_prepare-Steps : (op : ℕ) → Steps (steps_law S A) (progress_prepare op)
  unfolding progress_prepare
  progress_prepare-Steps op = Steps-of λ n.
      At-or_fail panic (get_elem? n.log op) _ _ here
        λ e found. At-or_fail bail e.pre_prepare _ _ here λ p has. At-end here

  pub query_view-Steps : (dest view : ℕ) → Steps (steps_law S A) (query_view dest view)
  unfolding query_view
  query_view-Steps dest view =
      Steps-of λ n. At-if (leb n.view_num view) (λ ahead. At-end here) (λ behind. At-end here)

  pub recv_pre_prepare-Steps :
      (p : Verifiable PrePrepare) (rs : List (Request A))
      → Steps (steps_law S A) (recv_pre_prepare p rs)
  unfolding recv_pre_prepare
  recv_pre_prepare-Steps p rs = Steps-of λ n.
      At-if (is_foreign p.inner.view_num n.state) (λ foreign. (query_view-Steps _ _).at n)
        (λ own. At-end here)

  accept_pre_prepare-At :
      (p : Verifiable PrePrepare) (rs : List (Request A)) (n t : Node S A)
      → Reach n.state t.state
      → p.inner.view_num ≡ t.view_num
      → ((e : LogEntry A) (q : Verifiable PrePrepare)
          → get_elem? t.log p.inner.op_num ≡ some e
          → e.pre_prepare ≡ some q
          → q.inner ≡ p.inner)
      → At (steps_law S A) n (accept_pre_prepare p rs t)
  unfolding accept_pre_prepare
  accept_pre_prepare-At p rs n t reached current same =
      At-or_fail panic (get_elem? t.log p.inner.op_num) _ _ reached λ e found. At-end (
        next (next reached (Step.accept t.state p e rs current found (λ q. same e q found)))
          (Step.discard _ p.inner))

  accept_if_same-At :
      (p : Verifiable PrePrepare) (rs : List (Request A)) (n t : Node S A)
      → Reach n.state t.state
      → p.inner.view_num ≡ t.view_num
      → At (steps_law S A) n (accept_if_same p rs t)
  unfolding accept_if_same
  accept_if_same-At p rs n t reached current =
      At-or_fail panic (get_elem? t.log p.inner.op_num) _ _ reached λ e found.
        At-option e.pre_prepare
          (λ absent. accept_pre_prepare-At p rs n t reached current (λ e' q found' has. cc))
          λ q has.
            At-if (pre_prepare_eq q.inner p.inner)
              (λ equal.
                accept_pre_prepare-At p rs n t reached current
                  (λ e' q' found' has'. cc (eq_of_pre_prepare_eq q.inner p.inner equal)))
              (λ differs. At-end reached)

  view_num-extend_log : (op : ℕ) (s : State S A) → (extend_log op s).view_num ≡ s.view_num
  view_num-extend_log op s = ground arith

  pub verified_pre_prepare-Steps :
      (p : Verifiable PrePrepare) (rs : List (Request A))
      → Steps (steps_law S A) (verified_pre_prepare p rs)
  unfolding verified_pre_prepare
  verified_pre_prepare-Steps p rs = Steps-of λ n.
      At-if (not (p.inner.view_num == n.view_num)) (λ foreign. At-end here)
        λ current.
          accept_if_same-At p rs n _ (next here (Step.reserve n.state p.inner.op_num))
            (eq_of_test _ _ current ∙ sym (view_num-extend_log p.inner.op_num n.state))
