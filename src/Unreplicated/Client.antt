-- ===== src/Unreplicated/Client.antt =====
-- src/unreplicated.rs, `ClientState`: one operation at a time, resent until its reply comes.
use mur_mesh.Prelude.{ℕ, Option, none, some, List, [], ◌∷◌, ◌++◌, not, add_u32, ◌==◌, is_none}
use mur_mesh.Exec.{
  Exec, panic, pure, self, modify, ensure, or_fail, match_option, zoom, when◌then◌else◌, ◌>>=◌,
  ◌>>◌,
}
use mur_mesh.Event.{ActiveTimer}
use mur_mesh.Crypto.{Bytes}
use mur_mesh.Model.Schedule
use mur_mesh.Model.Schedule.{Schedule}
use mur_mesh.Unreplicated.Messages.{Request, Reply}

-- `client::Resend`
pub data Resend : Type 0 where
  resend_event : Resend

pub record Outstanding : Type 0 where
  pub op : Bytes
  pub timer : ActiveTimer

pub record ClientState (A : Type 0) : Type 0 where
  pub id : ℕ
  pub addr : A
  pub seq : ℕ
  pub outstanding : Option Outstanding

pub record Node (A : Type 0) : Type 0 where
  pub state : ClientState A
  pub open state use *
  pub sent : List (Request A)
  pub upcalls : List Bytes
  pub schedule : Schedule Resend

-- 100 milliseconds
abbrev pub resend_period : ℕ
resend_period = 100000000

module _ {A : Type 0} where
  unfoldable pub new : ℕ → A → ClientState A
  new id addr = record { id = id; addr = addr; seq = 0; outstanding = none }

  abbrev on_schedule : {B : Type 0} → Exec (Schedule Resend) B → Exec (Node A) B
  on_schedule = zoom (λ n. n.schedule) (λ c n. record n { schedule = c })

  unfoldable pub send_request : Exec (Node A) (Unit {0})
  send_request = do
    n ← self
    o ← or_fail panic n.outstanding
    modify (λ m. record m {
      sent =
          m.sent ++ record { client_id = n.id; client_addr = n.addr; seq = n.seq; op = o.op } ∷ [];
    })

  unfoldable pub invoke : Bytes → Exec (Node A) (Unit {0})
  unfolding send_request
  invoke op = do
    modify (λ n. record n { state = record (n.state) { seq = add_u32 n.seq 1 } })
    n ← self
    timer ← on_schedule (Schedule.set resend_period resend_event)
    modify (λ m. record m {
      state = record (m.state) { outstanding = some (record { op = op; timer = timer }) };
    })
    ensure (is_none n.outstanding)
    send_request

  unfoldable pub recv_reply : Reply → Exec (Node A) (Unit {0})
  recv_reply reply = do
    n ← self
    when not (reply.seq == n.seq)
        then pure tt
        else match_option n.outstanding (pure tt) (λ o. do
          modify (λ m. record m { state = record (m.state) { outstanding = none } })
          on_schedule (Schedule.unset o.timer)
          modify (λ m. record m { upcalls = m.upcalls ++ reply.result ∷ [] }))

  unfoldable pub resend : Exec (Node A) (Unit {0})
  unfolding send_request
  resend = send_request
