-- ===== src/Unreplicated/Model/Executions.antt =====
-- src/unreplicated.rs, `model`: the history of executions, when the server handles a request of the network.
use mur_mesh.Prelude.{
  ℕ, ◌<◌, ◌≡◌, inl, inr, refl, sym, subst, ◌∙◌, ap, Option, none, some, List, [], ◌∷◌, ◌==◌, true,
  false, ltb, if◌then◌else◌, ==_iff, Bool-cases, Option-cases, arith,
}
use mathlib.Core.List.{Memᴰ}
use mathlib.Core.List.Memᴰ
use mur_mesh.Exec.{Exec, Outcome, Error, ok, err, Outcome-cases}
use mur_mesh.Crypto.{Bytes}
use mur_mesh.Map
use mur_mesh.Map.Laws.{get-insert}
use mur_mesh.Model.Network
use mur_mesh.OrderedSet.Laws.{Memᴰ-insert, Memᴰ-insert_old}
use mur_mesh.Unreplicated.Messages.{Request, Reply}
use mur_mesh.Unreplicated.Server
use mur_mesh.Unreplicated.Server.{ServerState, recv_request, execute_request}
use mur_mesh.Unreplicated.Server.AtMostOnce.{
  recv_request-IsNew, recv_request-known, execute_request_lem,
}
use mur_mesh.Unreplicated.Model.Order.{Addr, Message, compare_sent}
use mur_mesh.Unreplicated.Model.{Net, sent_to, send_replies}
use mur_mesh.Unreplicated.Model.History.{
  Done, reply_of, latest, IsLater, IsConsistent, latest-Memᴰ, latest-IsLast, some_inj,
}
use mur_mesh.Unreplicated.Model.Growth.{Grows}

module _ {S : Type 0} (execute : Bytes → Exec S Bytes) (app : S) where
  abbrev pub Fits : List Done → ServerState S → Net → Type 0
  Fits = IsConsistent execute app

  pub Fits-Grows :
      {h : List Done} {server : ServerState S} {n n' : Net}
      → Grows n n'
      → Fits h server n
      → Fits h server n'
  Fits-Grows g c = record {
    runs = c.runs;
    ascending = c.ascending;
    replies = c.replies;
    requested = λ d m. g.kept _ (c.requested d m);
    replied = λ addr r m.
        let (d, md, e, q, mq, at, same_client, same_seq) = c.replied addr r (g.replies addr r m) in
        (d, md, e, q, g.kept _ mq, at, same_client, same_seq);
  }

  -- The reply of an execution is sent to the sender of a request like it.
  Fits-sent :
      {h : List Done} {server : ServerState S} {n : Net} (d : Done) (q : Request Addr)
      → Fits h server n
      → Memᴰ d h
      → Memᴰ (Addr.server, Message.request q) n.messages
      → q.client_id ≡ d.request.client_id
      → q.seq ≡ d.request.seq
      → Fits h server (sent_to q.client_addr (Message.reply (reply_of d)) n)
  unfolding Network.send
  Fits-sent {n} d q c md mq same_client same_seq = record {
    runs = c.runs;
    ascending = c.ascending;
    replies = c.replies;
    requested = λ e m. Memᴰ-insert_old compare_sent _ _ n.messages (c.requested e m);
    replied = λ addr r m. elim (Memᴰ-insert compare_sent _ (addr, Message.reply r) n.messages m) [
      | inl e ↦ (
        d,
        md,
        reply_inj (ap (λ x. x.1) e),
        q,
        Memᴰ-insert_old compare_sent _ _ n.messages mq,
        sym (ap (λ x. x.0) e),
        same_client,
        same_seq,
      )
      | inr k ↦
          let (e, me, f, q', mq', at, i, j) = c.replied addr r k in
          (e, me, f, q', Memᴰ-insert_old compare_sent _ _ n.messages mq', at, i, j)
    ];
  }
    where
      reply_inj : {a b : Reply} → Path Message (Message.reply a) (Message.reply b) → a ≡ b
      reply_inj e = cc

  -- A request that is executed is one more execution.
  Fits-executed :
      (h : List Done) (server : ServerState S) (n : Net) (q : Request Addr) (result : Bytes)
      (app' : S)
      → Fits h server n
      → Memᴰ (Addr.server, Message.request q) n.messages
      → IsLater q h
      → execute q.op server.app ≡ (ok result, app')
      → let d : Done = record { request = q; result = result } in
        Fits
          (d ∷ h)
          (record { replies = Map.insert q.client_id (reply_of d) server.replies; app = app' })
          n
  unfolding latest
  Fits-executed h server n q result app' c mq later runs = record {
    runs = (server.app, c.runs, runs);
    ascending = (later, c.ascending);
    replies = λ id.
        let d : Done = record { request = q; result = result } in
        get-insert id q.client_id (reply_of d) server.replies
        ∙ ap (λ r. if q.client_id == id then some (reply_of d) else r) (c.replies id);
    requested = λ e m. elim (Memᴰ.cases_cons m) [
      | inl f ↦ Memᴰ.cast (ap (λ x. (Addr.server, Message.request (x.request))) f) mq
      | inr k ↦ c.requested e k
    ];
    replied = λ addr r m.
        let (d, md, e, q', mq', at, i, j) = c.replied addr r m in
        (d, Memᴰ.tail md, e, q', mq', at, i, j);
  }

  -- The handler of a request succeeded, and what it left is of some history.
  abbrev pub Ends : Net → Outcome (Unit {0}) × Server.Node S Addr → Type 0
  Ends n p = p.0 ≡ ok tt → (h : List Done) × Fits h p.1.state (send_replies p.1.sent n)

  -- A new request, in the network.
  Fits-new :
      (h : List Done) (server : ServerState S) (n : Net) (q : Request Addr)
      → Fits h server n
      → Memᴰ (Addr.server, Message.request q) n.messages
      → IsLater q h
      → Ends n (execute_request execute q (record { state = server; sent = [] }))
  unfolding execute_request send_replies
  Fits-new h server n q c mq later e = elim (Outcome-cases (execute q.op server.app).0) [
    | inl (result, f) ↦
        let app' = (execute q.op server.app).1 in
        let runs : execute q.op server.app ≡ (ok result, app') = ap (λ r. (r, app')) f in
        let d : Done = record { request = q; result = result } in
        let made =
          execute_request_lem execute q (record { state = server; sent = [] }) app' result runs in
        let c' = Fits-executed h server n q result app' c mq later runs in
        subst (Ends n) (sym made) (λ _. (d ∷ h, Fits-sent d q c' (Memᴰ.head refl) mq refl refl)) e
    | inr (x, f) ↦ absurd (failed (rw (execute_request, f) at e))
  ]
    where
      failed : {x : Error} → Path (Outcome (Unit {0})) (err x) (ok tt) → ⊥
      failed g = cc

  IsLater-IsNew :
      (h : List Done) (server : ServerState S) (n : Net) (q : Request Addr)
      → Fits h server n
      → ((known : Reply) → Map.get q.client_id server.replies ≡ some known → known.seq < q.seq)
      → IsLater q h
  IsLater-IsNew h server n q c fresh e me same =
      let (r, f, last) = latest-IsLast h e c.ascending me in
      let g = fresh r (c.replies q.client_id ∙ subst (λ i. latest i h ≡ some r) same f) in
      omega arith

  Fits-fresh :
      (h : List Done) (server : ServerState S) (n : Net) (q : Request Addr)
      → Fits h server n
      → Memᴰ (Addr.server, Message.request q) n.messages
      → ((known : Reply) → Map.get q.client_id server.replies ≡ some known → known.seq < q.seq)
      → Ends n (recv_request execute q (record { state = server; sent = [] }))
  Fits-fresh h server n q c mq fresh =
      subst (Ends n)
        (sym (recv_request-IsNew execute q (record { state = server; sent = [] }) fresh))
        (Fits-new h server n q c mq (IsLater-IsNew h server n q c fresh))

  recv_request-older :
      (server : ServerState S) (q : Request Addr) (known : Reply)
      → Map.get q.client_id server.replies ≡ some known
      → q.seq < known.seq
      → recv_request execute q (record { state = server; sent = [] })
        ≡ (ok tt, record { state = server; sent = [] })
  unfolding recv_request
  recv_request-older server q known f less =
      let a : ltb q.seq known.seq ≡ true = ground arith in rw (f, a) refl

  pub Fits-recv :
      (h : List Done) (server : ServerState S) (n : Net) (q : Request Addr)
      → Fits h server n
      → Memᴰ (Addr.server, Message.request q) n.messages
      → Ends n (recv_request execute q (record { state = server; sent = [] }))
  unfolding send_replies
  Fits-recv h server n q c mq = elim (Option-cases (Map.get q.client_id server.replies)) [
    | inl f ↦ Fits-fresh h server n q c mq (λ known g. absurd (none-some (sym f ∙ g)))
    | inr (known, f) ↦ elim (Bool-cases (ltb known.seq q.seq)) [
      | inl less ↦
          Fits-fresh h server n q c mq
            (λ k g. subst (λ r. r.seq < q.seq) (some_inj (sym f ∙ g)) (lt less))
      | inr more ↦ elim (Bool-cases (known.seq == q.seq)) [
        | inl same ↦
            let (d, md, client, e) =
              latest-Memᴰ q.client_id h known (sym (c.replies q.client_id) ∙ f) in
            let seq : q.seq ≡ d.request.seq =
              sym ((==_iff known.seq q.seq).0 same) ∙ ap (λ r. r.seq) e in
            subst (Ends n)
              (sym (
                recv_request-known execute q (record { state = server; sent = [] }) known f
                  ((==_iff known.seq q.seq).0 same)))
              (λ _. (
                h,
                subst (λ r. Fits h server (sent_to q.client_addr (Message.reply r) n)) (sym e)
                    (Fits-sent d q c md mq (sym client) seq),
              ))
        | inr other ↦
            subst (Ends n) (sym (recv_request-older server q known f (gt more other))) (λ _. (h, c))
      ]
    ]
  ]
    where
      none-some : {r : Reply} → Path (Option Reply) none (some r) → ⊥
      none-some g = cc

      lt : {a b : ℕ} → ltb a b ≡ true → a < b
      lt g = ground arith

      gt : {a b : ℕ} → ltb a b ≡ false → (a == b) ≡ false → b < a
      gt g k = ground arith
