-- ===== src/Unreplicated/Messages.antt =====
-- src/unreplicated.rs: requests and replies.
use mur_mesh.Prelude.{ℕ}
use mur_mesh.Crypto.{Bytes}

pub record Request (A : Type 0) : Type 0 where
  pub seq : ℕ
  pub op : Bytes
  pub client_id : ℕ
  pub client_addr : A

pub record Reply : Type 0 where
  pub seq : ℕ
  pub result : Bytes
