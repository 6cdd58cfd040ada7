-- ===== src/Pbft/Messages.antt =====
-- src/pbft/messages.rs: the messages between clients and replicas, over the type of addresses.
use mur_mesh.Prelude.{ℕ, List}
use mur_mesh.Map.{Map}
use mur_mesh.Crypto.{Bytes, H256, Verifiable}

pub record Request (A : Type 0) : Type 0 where
  pub seq : ℕ
  pub op : Bytes
  pub client_id : ℕ
  pub client_addr : A

pub record PrePrepare : Type 0 where
  pub view_num : ℕ
  pub op_num : ℕ
  pub digest : H256

pub record Prepare : Type 0 where
  pub view_num : ℕ
  pub op_num : ℕ
  pub digest : H256
  pub replica_id : ℕ

pub record Commit : Type 0 where
  pub view_num : ℕ
  pub op_num : ℕ
  pub digest : H256
  pub replica_id : ℕ

pub record Reply : Type 0 where
  pub seq : ℕ
  pub result : Bytes
  pub view_num : ℕ
  pub replica_id : ℕ

-- Votes by the id of the replica that they are filed under.
abbrev pub Quorum : Type 0 → Type 0
Quorum M = Map (Verifiable M)

pub record ViewChange : Type 0 where
  pub view_num : ℕ
  pub log : List (Verifiable PrePrepare × Quorum Prepare)
  pub replica_id : ℕ

pub record NewView : Type 0 where
  pub view_num : ℕ
  pub view_changes : Quorum ViewChange
  pub pre_prepares : List (Verifiable PrePrepare)

pub record QueryNewView : Type 0 where
  pub view_num : ℕ
  pub replica_id : ℕ

-- `codec::ToReplica`, what a replica may receive.
pub data ToReplica (A : Type 0) : Type 0 where
  request : Request A → ToReplica A
  pre_prepare : Verifiable PrePrepare → List (Request A) → ToReplica A
  prepare : Verifiable Prepare → ToReplica A
  commit : Verifiable Commit → ToReplica A
  view_change : Verifiable ViewChange → ToReplica A
  new_view : Verifiable NewView → ToReplica A
  query_new_view : QueryNewView → ToReplica A
