-- ===== src/Unreplicated/Model/Turns.antt =====
-- src/unreplicated.rs, `model`: a client's turn in the system.
use mur_mesh.Prelude.{ℕ, ◌≡◌, inl, inr, refl, sym, subst, ◌∙◌, ap, Option-cases, List, [], ◌∷◌}
use mur_mesh.Exec.{Exec}
use mur_mesh.Crypto.{Bytes}
use mur_mesh.Model.Schedule
use mur_mesh.Workload.{Workload}
use mur_mesh.Unreplicated.Messages.{Request}
use mur_mesh.Unreplicated.Client
use mur_mesh.Unreplicated.Client.{ClientState, Resend}
use mur_mesh.Unreplicated.Model.Order.{Addr, Message}
use mur_mesh.Unreplicated.Model.{
  Net, Endpoint, send_requests, deliver, on_client, fix_client, on_message, on_timer,
}
use mur_mesh.Unreplicated.Model.Growth.{continue_holds, deliver-network}
use mur_mesh.Unreplicated.Model.Turn.{Turn, quiet, start, resend-Turn, recv_reply-Turn, invoke-Turn}

-- What a call in the context of a client does to the client and to the network.
pub record Turned (c : ClientState Addr) (n : Net) (c' : ClientState Addr) (n' : Net) : Type 0 where
  pub sent : List (Request Addr)
  pub turn : Turn c c' sent
  pub network : n' ≡ send_requests sent n

-- The number stays.
abbrev pub Called : ClientState Addr → Net → ClientState Addr → Net → Type 0
Called c n c' n' = Turned c n c' n' × (c'.seq ≡ c.seq)

still : (c : ClientState Addr) (n : Net) → Turned c n c n
unfolding send_requests
still c n = record { sent = []; turn = quiet c; network = refl }

module _ (w : Workload Bytes Bytes) where
  deliver-state : (rs : List Bytes) (p : Endpoint w × Net) → (deliver w rs p).1.0.0 ≡ p.0.0
  unfolding deliver
  deliver-state [] p = refl
  deliver-state (r ∷ rs) p =
      continue_holds (λ q. q.0.0 ≡ p.0.0) _ (λ _. deliver w rs) _ refl (λ _. deliver-state rs _)

  on_client-parts :
      (handler : Exec (Client.Node Addr) (Unit {0})) (p : Endpoint w × Net)
      → let n = (handler (start p.0.0 p.0.1.schedule)).1 in
        ((on_client w handler p).1.0.0 ≡ n.state)
        × ((on_client w handler p).1.1 ≡ send_requests n.sent p.1)
  unfolding on_client
  on_client-parts handler p =
      let (r, n) = handler (start p.0.0 p.0.1.schedule) in
      (
        continue_holds (λ q. q.0.0 ≡ n.state) r (λ _. deliver w n.upcalls) _ refl
            (λ _. deliver-state n.upcalls _),
        continue_holds (λ q. q.1 ≡ send_requests n.sent p.1) r (λ _. deliver w n.upcalls) _ refl
            (λ _. deliver-network w n.upcalls _),
      )

  on_client-Turned :
      (handler : Exec (Client.Node Addr) (Unit {0})) (p : Endpoint w × Net)
      → (let n = (handler (start p.0.0 p.0.1.schedule)).1 in Turn p.0.0 n.state n.sent)
      → let q = (on_client w handler p).1 in Turned p.0.0 p.1 q.0.0 q.1
  on_client-Turned handler p t =
      let (a, b) = on_client-parts handler p in
      let n = (handler (start p.0.0 p.0.1.schedule)).1 in
      record { sent = n.sent; turn = subst (λ c. Turn p.0.0 c n.sent) (sym a) t; network = b }

  pub fix_client-Turned :
      (p : Endpoint w × Net) → let q = (fix_client w p).1 in Turned p.0.0 p.1 q.0.0 q.1
  unfolding fix_client
  fix_client-Turned p = elim (Option-cases p.0.1.upcall.sender) [
    | inl e ↦ rw (fix_client, e) (still p.0.0 p.1)
    | inr (op, e) ↦
        rw (fix_client, e)
          (on_client-Turned (Client.invoke op) (_, p.1) (invoke-Turn op p.0.0 p.0.1.schedule))
  ]

  pub on_message-Called :
      (m : Message) (p : Endpoint w × Net)
      → let q = (on_message w m p).1 in Called p.0.0 p.1 q.0.0 q.1
  unfolding on_message
  on_message-Called (Message.request r) p = (still p.0.0 p.1, refl)
  on_message-Called (Message.reply r) p =
      let (t, same) = recv_reply-Turn r p.0.0 p.0.1.schedule in
      (
        on_client-Turned (Client.recv_reply r) p t,
        ap (λ c. c.seq) (on_client-parts (Client.recv_reply r) p).0 ∙ same,
      )

  pub on_timer-Called :
      (id : ℕ) (event : Resend) (p : Endpoint w × Net)
      → let q = (on_timer w id event p).1 in Called p.0.0 p.1 q.0.0 q.1
  unfolding on_timer
  on_timer-Called id event p =
      continue_holds (λ q. Called p.0.0 p.1 q.0.0 q.1) _ (λ _. on_client w Client.resend) _
        (still p.0.0 p.1, refl) (λ _. resent)
    where
      q : Endpoint w × Net
      q = ((p.0.0, record (p.0.1) { schedule = (Schedule.tick id p.0.1.schedule).1 }), p.1)

      resent : let q' = (on_client w Client.resend q).1 in Called p.0.0 p.1 q'.0.0 q'.1
      resent =
          let (t, same) = resend-Turn p.0.0 q.0.1.schedule in
          (
            on_client-Turned Client.resend q t,
            ap (λ c. c.seq) (on_client-parts Client.resend q).0 ∙ same,
          )
