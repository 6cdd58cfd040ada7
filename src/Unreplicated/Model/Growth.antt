-- ===== src/Unreplicated/Model/Growth.antt =====
-- src/unreplicated.rs, `model`: what the clients do to the network.
use mur_mesh.Prelude.{ℕ, ◌≡◌, inl, inr, refl, sym, subst, List, [], ◌∷◌, Option-cases, get_elem?}
use mathlib.Core.List.{Memᴰ}
use mur_mesh.Exec.{Exec, Outcome, ok, err, Outcome-cases, continue}
use mur_mesh.Crypto.{Bytes}
use mur_mesh.Model.Network
use mur_mesh.OrderedSet.Laws.{Memᴰ-insert, Memᴰ-insert_old}
use mur_mesh.Workload.{Workload}
use mur_mesh.Unreplicated.Messages.{Request, Reply}
use mur_mesh.Unreplicated.Client
use mur_mesh.Unreplicated.Client.{Resend}
use mur_mesh.Unreplicated.Model.Order.{Addr, Message, compare_sent}
use mur_mesh.Unreplicated.Model.{
  Net, sent_to, send_requests, Endpoint, deliver, on_client, fix_client, fix, on_message, on_timer,
  State, at_client,
}

-- Requests are sent to the server, and nothing else.
pub record Grows (n n' : Net) : Type 0 where
  pub kept : (x : Addr × Message) → Memᴰ x n.messages → Memᴰ x n'.messages
  pub replies :
      (addr : Addr) (r : Reply)
      → Memᴰ (addr, Message.reply r) n'.messages
      → Memᴰ (addr, Message.reply r) n.messages

pub Grows-refl : (n : Net) → Grows n n
Grows-refl n = record { kept = λ x m. m; replies = λ addr r m. m }

pub Grows-trans : {n n' n'' : Net} → Grows n n' → Grows n' n'' → Grows n n''
Grows-trans g h = record {
  kept = λ x m. h.kept x (g.kept x m);
  replies = λ addr r m. g.replies addr r (h.replies addr r m);
}

request-not-reply :
    {a b : Addr} {r : Reply} {q : Request Addr}
    → Path (Addr × Message) (a, Message.reply r) (b, Message.request q)
    → ⊥
request-not-reply e = cc

sent_to-Grows : (q : Request Addr) (n : Net) → Grows n (sent_to Addr.server (Message.request q) n)
unfolding Network.send
sent_to-Grows q n = record {
  kept = λ x m. Memᴰ-insert_old compare_sent _ x n.messages m;
  replies = λ addr r m. elim (Memᴰ-insert compare_sent _ (addr, Message.reply r) n.messages m) [
    | inl e ↦ absurd (request-not-reply e)
    | inr k ↦ k
  ];
}

send_requests-Grows : (rs : List (Request Addr)) (n : Net) → Grows n (send_requests rs n)
unfolding send_requests
send_requests-Grows [] n = Grows-refl n
send_requests-Grows (r ∷ rs) n =
    Grows-trans (sent_to-Grows r n)
      (send_requests-Grows rs (sent_to Addr.server (Message.request r) n))

-- A call and what follows it.
pub continue_holds :
    {S A B : Type 0} (P : S → Type 0) (r : Outcome A) (f : A → Exec S B) (s : S)
    → P s
    → ((a : A) → P (f a s).1)
    → P (continue r f s).1
continue_holds P (ok a) f s h g = g a
continue_holds P (err e) f s h g = h

module _ (w : Workload Bytes Bytes) where
  pub deliver-network : (rs : List Bytes) (p : Endpoint w × Net) → (deliver w rs p).1.1 ≡ p.1
  unfolding deliver
  deliver-network [] p = refl
  deliver-network (r ∷ rs) p =
      continue_holds (λ q. q.1 ≡ p.1) _ (λ _. deliver w rs) _ refl (λ _. deliver-network rs _)

  on_client-Grows :
      (handler : Exec (Client.Node Addr) (Unit {0})) (p : Endpoint w × Net)
      → Grows p.1 (on_client w handler p).1.1
  unfolding on_client
  on_client-Grows handler p =
      let (r, n) =
        handler (record { state = p.0.0; sent = []; upcalls = []; schedule = p.0.1.schedule }) in
      let g = send_requests-Grows n.sent p.1 in
      continue_holds (λ q. Grows p.1 q.1) r (λ _. deliver w n.upcalls) _ g
        (λ _. subst (Grows p.1) (sym (deliver-network n.upcalls _)) g)

  fix_client-Grows : (p : Endpoint w × Net) → Grows p.1 (fix_client w p).1.1
  unfolding fix_client
  fix_client-Grows p = elim (Option-cases p.0.1.upcall.sender) [
    | inl e ↦ rw (fix_client, e) (Grows-refl p.1)
    | inr (op, e) ↦ rw (fix_client, e) (on_client-Grows (Client.invoke op) (_, p.1))
  ]

  pub fix-Grows : (cs : List (Endpoint w)) (n : Net) → Grows n (fix w (cs, n)).1.1
  unfolding fix
  fix-Grows [] n = Grows-refl n
  fix-Grows (c ∷ cs) n =
      let (r, (c', n')) = fix_client w (c, n) in
      let g : Grows n n' = fix_client-Grows (c, n) in
      elim (Outcome-cases r) [
        | inl (_, e) ↦ rw (fix, e) (Grows-trans g (fix-Grows cs n'))
        | inr (_, e) ↦ rw (fix, e) g
      ]

  pub on_message-Grows : (m : Message) (p : Endpoint w × Net) → Grows p.1 (on_message w m p).1.1
  unfolding on_message
  on_message-Grows (Message.reply r) p = on_client-Grows (Client.recv_reply r) p
  on_message-Grows (Message.request r) p = Grows-refl p.1

  pub on_timer-Grows :
      (id : ℕ) (event : Resend) (p : Endpoint w × Net) → Grows p.1 (on_timer w id event p).1.1
  unfolding on_timer
  on_timer-Grows id event p =
      continue_holds (λ q. Grows p.1 q.1) _ (λ _. on_client w Client.resend) _ (Grows-refl p.1)
        (λ _. on_client-Grows Client.resend _)

  module _ {S : Type 0} where
    -- The server stays.
    pub record Quiet (s s' : State w S) : Type 0 where
      pub server : s'.server ≡ s.server
      pub network : Grows s.network s'.network

    pub at_client-Quiet :
        (index : ℕ) (call : Exec (Endpoint w × Net) (Unit {0})) (s : State w S)
        → ((p : Endpoint w × Net) → Grows p.1 (call p).1.1)
        → Quiet s (at_client w index call s).1
    unfolding at_client
    at_client-Quiet index call s h = elim (Option-cases (get_elem? s.clients index)) [
      | inl e ↦ rw (at_client, e) (record { server = refl; network = Grows-refl s.network })
      | inr (c, e) ↦ rw (at_client, e) (record { server = refl; network = h (c, s.network) })
    ]
