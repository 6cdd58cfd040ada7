-- ===== src/Pbft/Replica/Refine/Handle.antt =====
-- The dispatch, and runs over any events.
use mur_mesh.Prelude.{List, [], ◌∷◌}
use mur_mesh.Exec.{Exec}
use mur_mesh.Exec.Steps.{Steps, Steps-of, At-end}
use mur_mesh.Crypto.{Bytes}
use mur_mesh.Pbft.Replica.State.{Node}
use mur_mesh.Pbft.Replica.Event.{Event}
use mur_mesh.Pbft.Replica.Handle.{on_event, after}
use mur_mesh.Pbft.Replica.Step.{Reach, here, Reach-trans}
use mur_mesh.Pbft.Replica.Refine.Timers.{steps_law}
use mur_mesh.Pbft.Replica.Refine.Ordering.{
  recv_request-Steps, signed_pre_prepare-Steps, progress_prepare-Steps, recv_pre_prepare-Steps,
  verified_pre_prepare-Steps,
}
use mur_mesh.Pbft.Replica.Refine.Prepare.{
  signed_prepare-Steps, recv_prepare-Steps, verified_prepare-Steps,
}
use mur_mesh.Pbft.Replica.Refine.Commit.{
  signed_commit-Steps, recv_commit-Steps, verified_commit-Steps,
}
use mur_mesh.Pbft.Replica.Refine.ViewChange.{
  recv_query_new_view-Steps, do_view_change-Steps, progress_view_change-Steps,
  signed_view_change-Steps, recv_view_change-Steps, verified_view_change-Steps,
}
use mur_mesh.Pbft.Replica.Refine.NewView.{
  signed_new_view-Steps, recv_new_view-Steps, verified_new_view-Steps,
}

module _ {S A : Type 0} (execute : Bytes → Exec S Bytes) where
  on_event-Steps : (e : Event A) → Steps (steps_law S A) (on_event execute e)
  unfolding on_event
  on_event-Steps (Event.recv_request r) = recv_request-Steps r
  on_event-Steps (Event.signed_pre_prepare p rs) = signed_pre_prepare-Steps p rs
  on_event-Steps (Event.progress_prepare op) = progress_prepare-Steps op
  on_event-Steps (Event.recv_pre_prepare p rs) = recv_pre_prepare-Steps p rs
  on_event-Steps (Event.verified_pre_prepare p rs) = verified_pre_prepare-Steps p rs
  on_event-Steps (Event.signed_prepare p) = signed_prepare-Steps p
  on_event-Steps (Event.recv_prepare p) = recv_prepare-Steps p
  on_event-Steps (Event.verified_prepare p) = verified_prepare-Steps p
  on_event-Steps (Event.signed_commit c) = signed_commit-Steps execute c
  on_event-Steps (Event.recv_commit c) = recv_commit-Steps c
  on_event-Steps (Event.verified_commit c) = verified_commit-Steps execute c
  on_event-Steps (Event.state_transfer op) = Steps-of λ n. At-end here
  on_event-Steps (Event.recv_query_new_view q) = recv_query_new_view-Steps q
  on_event-Steps (Event.do_view_change view) = do_view_change-Steps view
  on_event-Steps Event.progress_view_change = progress_view_change-Steps
  on_event-Steps (Event.signed_view_change v) = signed_view_change-Steps v
  on_event-Steps (Event.recv_view_change v) = recv_view_change-Steps v
  on_event-Steps (Event.verified_view_change v) = verified_view_change-Steps v
  on_event-Steps (Event.signed_new_view v) = signed_new_view-Steps v
  on_event-Steps (Event.recv_new_view v) = recv_new_view-Steps v
  on_event-Steps (Event.verified_new_view v) = verified_new_view-Steps v

  -- Whatever the event, and whether the handler returns, fails or panics, the state after is reached
  -- from the state before by steps.
  pub on_event-Reach : (e : Event A) (n : Node S A) → Reach n.state (on_event execute e n).1.state
  on_event-Reach e n = ((on_event-Steps e).at n).step

  -- After any sequence of events, whatever the outcomes, the state of the replica is reached from the first
  -- by steps.
  pub after-Reach : (n : Node S A) (es : List (Event A)) → Reach n.state (after execute n es).state
  unfolding after
  after-Reach n [] = here
  after-Reach n (e ∷ es) =
      Reach-trans (on_event-Reach e n) (after-Reach (on_event execute e n).1 es)
