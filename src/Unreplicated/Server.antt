-- ===== src/Unreplicated/Server.antt =====
-- src/unreplicated.rs, `ServerState`: the last reply to each client, and the application.
pub mod AtMostOnce
use mur_mesh.Prelude.{ℕ, List, [], ◌∷◌, ◌++◌, ltb, ◌==◌}
use mur_mesh.Exec.{Exec, pure, self, modify, match_option, zoom, when◌then◌else◌, ◌>>=◌, ◌>>◌}
use mur_mesh.Map
use mur_mesh.Map.{Map}
use mur_mesh.Crypto.{Bytes}
use mur_mesh.Unreplicated.Messages.{Request, Reply}

pub record ServerState (S : Type 0) : Type 0 where
  pub replies : Map Reply
  pub app : S

-- `self`, and the replies that are sent, in order, each to an address.
pub record Node (S A : Type 0) : Type 0 where
  pub state : ServerState S
  pub open state use *
  pub sent : List (A × Reply)

unfoldable pub new : {S : Type 0} → S → ServerState S
new app = record { replies = []; app = app }

module _ {S A : Type 0} where
  abbrev pub send : A → Reply → Exec (Node S A) (Unit {0})
  send addr reply = modify (λ n. record n { sent = n.sent ++ (addr, reply) ∷ [] })

-- The application: `App::execute`.
module _ {S A : Type 0} (execute : Bytes → Exec S Bytes) where
  -- A request that is new is executed, and its reply is remembered.
  unfoldable pub execute_request : Request A → Exec (Node S A) (Unit {0})
  execute_request r = do
    result ←
        zoom (λ n. n.app) (λ app n. record n { state = record (n.state) { app = app } })
          (execute r.op)
    let reply : Reply = record { seq = r.seq; result = result }
    modify (λ n. record n {
      state = record (n.state) { replies = Map.insert r.client_id reply n.replies };
    })
    send r.client_addr reply

  unfoldable pub recv_request : Request A → Exec (Node S A) (Unit {0})
  unfolding execute_request
  recv_request r = do
    n ← self
    match_option (Map.get r.client_id n.replies) (execute_request r) (λ reply.
        when ltb r.seq reply.seq
        then pure tt
        else (when reply.seq == r.seq then send r.client_addr reply else execute_request r))
