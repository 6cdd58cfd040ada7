-- ===== src/Pbft/Replica/Handle.antt =====
-- src/pbft/replica.rs: the dispatch of an event to its handler, and runs over any events.
use mur_mesh.Prelude.{List, [], ◌∷◌}
use mur_mesh.Exec.{Exec, bail, fail}
use mur_mesh.Crypto.{Bytes}
use mur_mesh.Pbft.Replica.State.{Node}
use mur_mesh.Pbft.Replica.Event.{Event}
use mur_mesh.Pbft.Replica.Ordering
use mur_mesh.Pbft.Replica.Prepare
use mur_mesh.Pbft.Replica.Commit
use mur_mesh.Pbft.Replica.ViewChange
use mur_mesh.Pbft.Replica.NewView

module _ {S A : Type 0} (execute : Bytes → Exec S Bytes) where
  -- `StateTransfer` is not implemented in the source: its handler fails.
  unfoldable pub on_event : Event A → Exec (Node S A) (Unit {0})
  on_event (Event.recv_request r) = Ordering.recv_request r
  on_event (Event.signed_pre_prepare p rs) = Ordering.signed_pre_prepare p rs
  on_event (Event.progress_prepare op) = Ordering.progress_prepare op
  on_event (Event.recv_pre_prepare p rs) = Ordering.recv_pre_prepare p rs
  on_event (Event.verified_pre_prepare p rs) = Ordering.verified_pre_prepare p rs
  on_event (Event.signed_prepare p) = Prepare.signed_prepare p
  on_event (Event.recv_prepare p) = Prepare.recv_prepare p
  on_event (Event.verified_prepare p) = Prepare.verified_prepare p
  on_event (Event.signed_commit c) = Commit.signed_commit execute c
  on_event (Event.recv_commit c) = Commit.recv_commit c
  on_event (Event.verified_commit c) = Commit.verified_commit execute c
  on_event (Event.state_transfer op) = fail bail
  on_event (Event.recv_query_new_view q) = ViewChange.recv_query_new_view q
  on_event (Event.do_view_change view) = ViewChange.do_view_change view
  on_event Event.progress_view_change = ViewChange.progress_view_change
  on_event (Event.signed_view_change v) = ViewChange.signed_view_change v
  on_event (Event.recv_view_change v) = ViewChange.recv_view_change v
  on_event (Event.verified_view_change v) = ViewChange.verified_view_change v
  on_event (Event.signed_new_view v) = NewView.signed_new_view v
  on_event (Event.recv_new_view v) = NewView.recv_new_view v
  on_event (Event.verified_new_view v) = NewView.verified_new_view v

  -- The replica after a sequence of events, whatever the outcome of each.
  unfoldable pub after : Node S A → List (Event A) → Node S A
  unfolding on_event
  after n [] = n
  after n (e ∷ es) = after (on_event e n).1 es
