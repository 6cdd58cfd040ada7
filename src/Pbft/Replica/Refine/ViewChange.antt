-- ===== src/Pbft/Replica/Refine/ViewChange.antt =====
-- Leaving a view, and collecting the votes for a new one.
use mur_mesh.Prelude.{ℕ, ◌≡◌, ◌≤◌, ◌<◌, true, false, leb, ltb, length, ◌==◌, arith}
use mur_mesh.Exec.Steps.{At, Steps, At-end, At-call, At-if, At-bind, At-option, At-assert, Steps-of}
use mur_mesh.Map
use mur_mesh.Crypto.{Verifiable}
use mur_mesh.Pbft.Messages.{ViewChange, QueryNewView, Quorum}
use mur_mesh.Pbft.Replica.State.{
  Node, State, is_primary, on_do_view_change_timer, on_progress_view_change_timer,
}
use mur_mesh.Pbft.Replica.ViewChange.{
  recv_query_new_view, submit_view_change, keep_voting, do_view_change, progress_view_change,
  have_entered, votes_for, majority, lead_or_wait, finish_view_change, insert_view_change,
  signed_view_change, recv_view_change, verified_view_change,
}
use mur_mesh.Pbft.Replica.Step.{Step, Reach, here, next}
use mur_mesh.Pbft.Replica.Refine.Timers.{
  steps_law, on_do_view_change_timer-Steps, on_progress_view_change_timer-Steps,
}
use mur_mesh.Pbft.Replica.Refine.Prepare.{get-insert_self}

le_of_leb : (a b : ℕ) → leb a b ≡ true → a ≤ b
le_of_leb a b h = ground arith

lt_of_leb : (a b : ℕ) → leb a b ≡ false → b < a
lt_of_leb a b h = ground arith

module _ {S A : Type 0} where
  -- A replica that has not entered a view is not past it.
  pub view_num-le : (view : ℕ) (s : State S A) → have_entered view s ≡ false → s.view_num ≤ view
  view_num-le view s h = ground arith

  pub recv_query_new_view-Steps : (q : QueryNewView) → Steps (steps_law S A) (recv_query_new_view q)
  unfolding recv_query_new_view
  recv_query_new_view-Steps q = Steps-of λ n.
      At-option (Map.get q.view_num n.new_views) (λ absent. At-end here) (λ v found. At-end here)

  submit_view_change-Steps : Steps (steps_law S A) submit_view_change
  unfolding submit_view_change
  submit_view_change-Steps = Steps-of λ n. At-end here

  keep_voting-Steps : Steps (steps_law S A) keep_voting
  unfolding keep_voting
  keep_voting-Steps = Steps-of λ n.
      At-bind (on_progress_view_change_timer _) (λ _. submit_view_change) n
        ((on_progress_view_change_timer-Steps _).at n) (λ _. submit_view_change-Steps)

  pub do_view_change-Steps : (view : ℕ) → Steps (steps_law S A) (do_view_change view)
  unfolding do_view_change
  do_view_change-Steps view = Steps-of λ n. At-assert (leb n.view_num view) _ _ here λ ahead.
      At-bind (on_do_view_change_timer _) (λ _. keep_voting) _
        (At-call (next here (Step.move_view n.state view (le_of_leb _ _ ahead)))
          ((on_do_view_change_timer-Steps _).at _))
        (λ _. keep_voting-Steps)

  pub progress_view_change-Steps : Steps (steps_law S A) progress_view_change
  unfolding progress_view_change
  progress_view_change-Steps = submit_view_change-Steps

  lead_or_wait-Steps : (votes : Quorum ViewChange) → Steps (steps_law S A) (lead_or_wait votes)
  unfolding lead_or_wait
  lead_or_wait-Steps votes = Steps-of λ n.
      At-if (is_primary n.state) (λ primary. At-end here)
        (λ backup. (on_do_view_change_timer-Steps _).at n)

  finish_view_change-At :
      (view : ℕ) (votes : Quorum ViewChange) (n t : Node S A)
      → Reach n.state t.state
      → t.view_num ≤ view
      → At (steps_law S A) n (finish_view_change view votes t)
  unfolding finish_view_change
  finish_view_change-At view votes n t reached ahead =
      At-call (next reached (Step.move_view t.state view ahead)) ((lead_or_wait-Steps votes).at _)

  insert_view_change-Steps :
      (v : Verifiable ViewChange) → Steps (steps_law S A) (insert_view_change v)
  unfolding insert_view_change
  insert_view_change-Steps v = Steps-of λ n.
      let view = v.inner.view_num in
      let votes = votes_for view n.view_changes in
      At-if (have_entered view n.state) (λ entered. At-end here)
        λ outside.
          let opened = next here (Step.open_votes n.state view) in
          At-if (leb (majority n.state) (length votes)) (λ full. At-end opened)
            λ room.
              let voted = next opened (
                Step.vote_view_change _ v votes (get-insert_self view votes n.view_changes) outside
                  (lt_of_leb _ _ room)) in
              At-if (length (Map.insert v.inner.replica_id v votes) == majority n.state)
                (λ enough.
                  finish_view_change-At view _ n _ voted (view_num-le view n.state outside))
                (λ few. At-end voted)

  pub signed_view_change-Steps :
      (v : Verifiable ViewChange) → Steps (steps_law S A) (signed_view_change v)
  unfolding signed_view_change
  signed_view_change-Steps v = Steps-of λ n.
      At-if (v.inner.view_num == n.view_num)
        (λ current. At-call here ((insert_view_change-Steps v).at _)) (λ stale. At-end here)

  pub recv_view_change-Steps :
      (v : Verifiable ViewChange) → Steps (steps_law S A) (recv_view_change v)
  unfolding recv_view_change
  recv_view_change-Steps v =
      Steps-of
        λ n. At-if (ltb v.inner.view_num n.view_num) (λ old. At-end here) (λ new. At-end here)

  pub verified_view_change-Steps :
      (v : Verifiable ViewChange) → Steps (steps_law S A) (verified_view_change v)
  unfolding verified_view_change
  verified_view_change-Steps v = insert_view_change-Steps v
