-- ===== src/Unreplicated/Server/AtMostOnce.antt =====
-- src/unreplicated.rs, `ServerState`: a request is executed at most once.
use mur_mesh.Prelude.{
  ◌≡◌, ◌<◌, ◌≤◌, inl, inr, refl, true, false, some, [], ◌∷◌, ◌++◌, arith, ◌==◌, ltb, Bool-cases,
  Option-cases, ◌∙◌,
}
use mur_mesh.Exec.{Exec, ok}
use mur_mesh.Map
use mur_mesh.Map.Laws.{get-insert}
use mur_mesh.Crypto.{Bytes}
use mur_mesh.Unreplicated.Messages.{Request, Reply}
use mur_mesh.Unreplicated.Server.{Node, recv_request, execute_request}

module _ {S A : Type 0} (execute : Bytes → Exec S Bytes) where
  -- The client has no reply to this request, nor to a later one.
  abbrev pub IsNew : Request A → Node S A → Type 0
  IsNew r n = (known : Reply) → Map.get r.client_id n.replies ≡ some known → known.seq < r.seq

  -- What a request that is executed leaves.
  abbrev pub answered : Request A → S → Reply → Node S A → Node S A
  answered r app reply n = record n {
    state = record { replies = Map.insert r.client_id reply n.replies; app = app };
    sent = n.sent ++ (r.client_addr, reply) ∷ [];
  }

  pub execute_request_lem :
      (r : Request A) (n : Node S A) (app : S) (result : Bytes)
      → execute r.op n.app ≡ (ok result, app)
      → execute_request execute r n
        ≡ (ok tt, answered r app (record { seq = r.seq; result = result }) n)
  unfolding execute_request
  execute_request_lem r n app result runs = rw runs refl

  pub recv_request-IsNew :
      (r : Request A) (n : Node S A)
      → IsNew r n
      → recv_request execute r n ≡ execute_request execute r n
  unfolding recv_request
  recv_request-IsNew r n fresh = elim (Option-cases (Map.get r.client_id n.replies)) [
    | inl e ↦ rw e refl
    | inr (known, e) ↦
        let later = fresh known e in
        let a : ltb r.seq known.seq ≡ false = ground arith in
        let b : (known.seq == r.seq) ≡ false = ground arith in rw (e, a, b) refl
  ]

  pub recv_request-known :
      (r : Request A) (n : Node S A) (reply : Reply)
      → Map.get r.client_id n.replies ≡ some reply
      → reply.seq ≡ r.seq
      → recv_request execute r n
        ≡ (ok tt, record n { sent = n.sent ++ (r.client_addr, reply) ∷ [] })
  unfolding recv_request
  recv_request-known r n reply got same =
      let a : ltb r.seq reply.seq ≡ false = ground arith in
      let b : (reply.seq == r.seq) ≡ true = ground arith in rw (got, a, b) refl

  -- A request later than every one of its client that has a reply, and that the application answers: it is
  -- executed, its reply is sent and no error returned; handled again at once, the server's state stays as
  -- it is, and the same reply is sent again.
  pub recv_request-again :
      (r : Request A) (n : Node S A) (app : S) (result : Bytes)
      → IsNew r n
      → execute r.op n.app ≡ (ok result, app)
      → let first = recv_request execute r n in
        let again = recv_request execute r first.1 in
        let reply : Reply = record { seq = r.seq; result = result } in
        (first.0 ≡ ok tt)
        × (first.1.app ≡ app)
        × (first.1.sent ≡ n.sent ++ (r.client_addr, reply) ∷ [])
        × (again.0 ≡ ok tt)
        × (again.1.state ≡ first.1.state)
        × (again.1.sent ≡ first.1.sent ++ (r.client_addr, reply) ∷ [])
  recv_request-again r n app result fresh runs =
      let reply : Reply = record { seq = r.seq; result = result } in
      let one : recv_request execute r n ≡ (ok tt, answered r app reply n) =
        recv_request-IsNew r n fresh ∙ execute_request_lem r n app result runs in
      let same : (r.client_id == r.client_id) ≡ true = ground arith in
      let got : Map.get r.client_id (Map.insert r.client_id reply n.replies) ≡ some reply =
        rw (get-insert r.client_id r.client_id reply n.replies, same) refl in
      let two = recv_request-known r (answered r app reply n) reply got refl in
      rw (one, two) (refl, refl, refl, refl, refl, refl)

  -- On a request that is not later than the last one of its client that has a reply, the server's state
  -- stays.
  pub recv_request-stale :
      (r : Request A) (n : Node S A) (known : Reply)
      → Map.get r.client_id n.replies ≡ some known
      → r.seq ≤ known.seq
      → (recv_request execute r n).1.state ≡ n.state
  unfolding recv_request execute_request
  recv_request-stale r n known got old = elim (Bool-cases (ltb r.seq known.seq)) [
    | inl e ↦ rw (got, e) refl
    | inr e ↦ let same : (known.seq == r.seq) ≡ true = ground arith in rw (got, e, same) refl
  ]
