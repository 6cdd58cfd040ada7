-- ===== src/Pbft/Client.antt =====
-- src/pbft/client.rs: a client, which invokes one operation at a time and waits for `f + 1` equal
-- results. The context records what is sent and the results that are handed up, in order.
pub mod Matching
use mur_mesh.Prelude.{
  ℕ, ◌+◌, ◌%◌, Bool, true, false, Option, none, some, List, [], ◌∷◌, ◌++◌, not, u8, add_u32, ◌==◌,
  bytes_eq, count, is_none,
}
use mur_mesh.Exec.{
  Exec, bail, panic, pure, self, modify, ensure, or_fail, match_option, zoom, when◌then◌else◌,
  ◌>>=◌, ◌>>◌,
}
use mur_mesh.Event.{ActiveTimer}
use mur_mesh.Map
use mur_mesh.Map.{Map}
use mur_mesh.Crypto.{Bytes}
use mur_mesh.Model.Schedule
use mur_mesh.Model.Schedule.{Schedule}
use mur_mesh.Pbft.Parameters.{PublicParameters}
use mur_mesh.Pbft.Messages.{Request, Reply}

-- `events::Resend`
pub data Resend : Type 0 where
  resend_event : Resend

pub record Outstanding : Type 0 where
  pub op : Bytes
  pub replies : Map Reply
  pub timer : ActiveTimer

pub record State (A : Type 0) : Type 0 where
  pub id : ℕ
  pub addr : A
  pub config : PublicParameters
  pub seq : ℕ
  pub outstanding : Option Outstanding
  pub view_num : ℕ

-- A request and its destination.
pub data Send (A : Type 0) : Type 0 where
  to_replica : ℕ → Request A → Send A
  to_all : Request A → Send A

pub record Node (A : Type 0) : Type 0 where
  pub state : State A
  pub open state use *
  pub sent : List (Send A)
  pub upcalls : List Bytes
  pub schedule : Schedule Resend

-- How many of the replies have the result.
abbrev pub matching : Bytes → Map Reply → ℕ
matching result replies = count (λ r. bytes_eq r.result result) (Map.values replies)

module _ {A : Type 0} where
  unfoldable pub new : ℕ → A → PublicParameters → State A
  new id addr config = record {
    id = id;
    addr = addr;
    config = config;
    seq = 0;
    outstanding = none;
    view_num = 0;
  }

  abbrev pub on_schedule : {B : Type 0} → Exec (Schedule Resend) B → Exec (Node A) B
  on_schedule = zoom (λ n. n.schedule) (λ c n. record n { schedule = c })

  unfoldable pub send_request : (Request A → Send A) → Exec (Node A) (Unit {0})
  send_request dest = do
    n ← self
    o ← or_fail panic n.outstanding
    modify (λ m. record m {
      sent =
          m.sent
          ++ dest (record { client_id = n.id; client_addr = n.addr; seq = n.seq; op = o.op }) ∷ [];
    })

  unfoldable pub invoke : Bytes → Exec (Node A) (Unit {0})
  unfolding send_request
  invoke op = do
    modify (λ n. record n { state = record (n.state) { seq = add_u32 n.seq 1 } })
    n ← self
    timer ← on_schedule (Schedule.set n.config.client_resend_interval resend_event)
    modify (λ m. record m {
      state = record (m.state) {
        outstanding = some (record { op = op; replies = []; timer = timer });
      };
    })
    ensure (is_none n.outstanding)
    send_request (to_replica (u8 (n.view_num % n.config.num_replica)))

  unfoldable pub resend : Exec (Node A) (Unit {0})
  unfolding send_request
  resend = send_request to_all

  -- The result is accepted: the timer goes, and the result is handed up.
  unfoldable pub complete : Reply → Outstanding → Exec (Node A) (Unit {0})
  complete reply o = do
    modify (λ n. record n {
      state = record (n.state) { view_num = reply.view_num; outstanding = none };
    })
    on_schedule (Schedule.unset o.timer)
    modify (λ n. record n { upcalls = n.upcalls ++ reply.result ∷ [] })

  -- The reply is filed under its replica, and counted.
  unfoldable pub file_reply : Reply → Outstanding → Exec (Node A) (Unit {0})
  unfolding complete
  file_reply reply o = do
    n ← self
    let replies = Map.insert reply.replica_id reply o.replies
    let o' : Outstanding = record o { replies = replies }
    modify (λ m. record m { state = record (m.state) { outstanding = some o' } })
    when not (matching reply.result replies == n.config.num_faulty + 1)
        then pure tt
        else complete reply o'

  unfoldable pub recv_reply : Reply → Exec (Node A) (Unit {0})
  unfolding file_reply
  recv_reply reply = do
    n ← self
    when not (reply.seq == n.seq)
        then pure tt
        else match_option n.outstanding (pure tt) (λ o. file_reply reply o)
