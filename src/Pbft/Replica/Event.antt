-- ===== src/Pbft/Replica/Event.antt =====
-- src/pbft/replica.rs: the events that a replica handles, one for each `OnErasedEvent` of its state.
use mur_mesh.Prelude.{ℕ, List}
use mur_mesh.Crypto.{Verifiable}
use mur_mesh.Pbft.Messages.{Request, PrePrepare, Prepare, Commit, ViewChange, NewView, QueryNewView}

pub data Event (A : Type 0) : Type 0 where
  recv_request : Request A → Event A
  signed_pre_prepare : Verifiable PrePrepare → List (Request A) → Event A
  progress_prepare : ℕ → Event A
  recv_pre_prepare : Verifiable PrePrepare → List (Request A) → Event A
  verified_pre_prepare : Verifiable PrePrepare → List (Request A) → Event A
  signed_prepare : Verifiable Prepare → Event A
  recv_prepare : Verifiable Prepare → Event A
  verified_prepare : Verifiable Prepare → Event A
  signed_commit : Verifiable Commit → Event A
  recv_commit : Verifiable Commit → Event A
  verified_commit : Verifiable Commit → Event A
  state_transfer : ℕ → Event A
  recv_query_new_view : QueryNewView → Event A
  do_view_change : ℕ → Event A
  progress_view_change : Event A
  signed_view_change : Verifiable ViewChange → Event A
  recv_view_change : Verifiable ViewChange → Event A
  verified_view_change : Verifiable ViewChange → Event A
  signed_new_view : Verifiable NewView → Event A
  recv_new_view : Verifiable NewView → Event A
  verified_new_view : Verifiable NewView → Event A
