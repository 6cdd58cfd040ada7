-- ===== src/Unreplicated/Model/Answers.antt =====
-- src/unreplicated.rs, `model`: a reply that a client takes, and its operation.
use mur_mesh.Prelude.{
  ℕ, suc, ◌<◌, ◌≤◌, ◌^◌, ◌≡◌, inl, inr, refl, sym, subst, ◌∙◌, ap, some, List, [], ◌∷◌, ◌++◌,
  length, get_elem?, u8, u32, length-append, arith,
}
use mathlib.Core.List.{Memᴰ}
use mathlib.Core.List.Memᴰ
use mur_mesh.Exec.{Exec}
use mur_mesh.Crypto.{Bytes}
use mur_mesh.Workload.{Workload}
use mur_mesh.Unreplicated.Messages.{Request, Reply}
use mur_mesh.Unreplicated.Client.{ClientState, Outstanding}
use mur_mesh.Unreplicated.Model.Order.{Addr, Message}
use mur_mesh.Unreplicated.Model.{Endpoint, State, new, push_client}
use mur_mesh.Unreplicated.Model.History.{Done, IsConsistent}
use mur_mesh.Unreplicated.Model.AtMostOnce.{
  Built, built_new, built_push, Reach, started, stepped, Reach-IsAtMostOnce,
}
use mur_mesh.Unreplicated.Model.Rounds.{IsBelow, states}
use mur_mesh.Unreplicated.Model.Asked.{InNet}
use mur_mesh.Model.Network
use mur_mesh.Unreplicated.Client
use mur_mesh.Unreplicated.Model.Told.{
  IsTold, init-IsTold, send-IsTold, get_elem?-snoc, map-append, length-map, get_elem?-map,
}

module _ (w : Workload Bytes Bytes) {S : Type 0} where
  module _ (execute : Bytes → Exec S Bytes) (app : S) where
    -- How many clients were added.
    unfoldable pub added : {s : State w S} → Built w execute app s → ℕ
    added built_new = 0
    added (built_push x b) = suc (added b)

    unfoldable pub num_clients : {s : State w S} → Reach w execute app s → ℕ
    unfolding added
    num_clients (started b e) = added b
    num_clients (stepped event r m e) = num_clients r

    -- How many steps were taken, `init` included.
    unfoldable pub num_steps : {s : State w S} → Reach w execute app s → ℕ
    num_steps (started b e) = 1
    num_steps (stepped event r m e) = suc (num_steps r)

    Built-network : {s : State w S} → Built w execute app s → s.network ≡ Network.new
    unfolding new push_client
    Built-network built_new = refl
    Built-network (built_push x b) = Built-network b

    -- The clients that were added.
    record IsFresh (size : ℕ) (cs : List (ClientState Addr)) : Type 0 where
      count : length cs ≡ size
      below : IsBelow 0 cs
      named :
          (i : ℕ) (c : ClientState Addr)
          → get_elem? cs i ≡ some c
          → (c.id ≡ i) × (c.addr ≡ Addr.client i)

    IsFresh-snoc :
        (size : ℕ) (cs : List (ClientState Addr)) (c : ClientState Addr)
        → IsFresh size cs
        → c.id ≡ size
        → c.addr ≡ Addr.client size
        → c.seq ≡ 0
        → IsFresh (suc size) (cs ++ c ∷ [])
    IsFresh-snoc size cs c h id addr seq = record {
      count = length-append cs (c ∷ []) ∙ (omega (arith, h.count));
      below = below-snoc cs h.below;
      named = λ i d e. elim (get_elem?-snoc cs c i e) [
        | inl f ↦ h.named i d f
        | inr (f, g) ↦ let at : i ≡ size = f ∙ h.count in rw (g, at) (id, addr)
      ];
    }
      where
        below-snoc : (xs : List (ClientState Addr)) → IsBelow 0 xs → IsBelow 0 (xs ++ c ∷ [])
        below-snoc [] l = (omega arith, tt)
        below-snoc (x ∷ xs) l = (l.0, below-snoc xs l.1)

    Built-IsFresh :
        {s : State w S} (b : Built w execute app s)
        → added b ≤ 256
        → IsFresh (added b) (states w s.clients)
    unfolding new push_client added Client.new
    Built-IsFresh built_new few = record { count = refl; below = tt; named = λ i c e. cc }
    Built-IsFresh (built_push {s} x b) few =
        let h = Built-IsFresh b (omega arith) in
        let client = Client.new (u32 (length s.clients)) (Addr.client (u8 (length s.clients))) in
        let same : length s.clients ≡ added b = sym (length-map (λ c. c.0) s.clients) ∙ h.count in
        subst (IsFresh (suc (added b))) (sym (map-append (λ c. c.0) s.clients _)) (
          IsFresh-snoc (added b) (states w s.clients) client h (ap u32 same ∙ (omega arith))
            (ap (λ l. Addr.client (u8 l)) same ∙ ap Addr.client (omega arith)) refl)

    IsFresh-IsTold :
        (s : State w S) (size : ℕ)
        → s.network ≡ Network.new
        → IsFresh size (states w s.clients)
        → IsTold w 0 s
    IsFresh-IsTold s size e h = (
      record {
        named = h.named;
        mine = λ i c g. record {
          bound = λ q m. absurd (none_in q m);
          current = λ q o m. absurd (none_in q m);
        };
        belongs = λ q m. absurd (none_in q m);
      },
      h.below,
    )
      where
        none_in : (q : Request Addr) → InNet q s.network → ⊥
        none_in q m = Memᴰ.not-nil (subst (InNet q) e m)

    Reach-IsTold :
        {s : State w S} (r : Reach w execute app s)
        → num_clients r ≤ 256
        → num_steps r < 2 ^ 32
        → IsTold w (num_steps r) s
    unfolding num_clients num_steps
    Reach-IsTold (started {s} b e) few small =
        init-IsTold w s (IsFresh-IsTold s (added b) (Built-network b) (Built-IsFresh b few))
    Reach-IsTold (stepped {s} event r m e) few small =
        send-IsTold w execute (num_steps r) event s small (Reach-IsTold r few (omega arith))

    -- An execution of what the client has invoked, with the result of the reply.
    abbrev pub IsOwn : List Done → ℕ → Outstanding → Reply → Type 0
    IsOwn h i o r =
        (d : Done) × Memᴰ d h
        × (d.request.client_id ≡ i)
        × (d.request.seq ≡ r.seq)
        × (d.request.op ≡ o.op)
        × (d.result ≡ r.result)

    -- In a state that the system, of at most 256 clients, reaches by fewer than 2 ^ 32 successful steps,
    -- `init` included: if a client has an operation outstanding, and a reply to it with its number is in the
    -- network, then there is a history that the server and the network are of, and in it an execution of
    -- just that operation, for that client, with the number and the result of the reply.
    pub Reach-IsOwn :
        {s : State w S} (r : Reach w execute app s) (i : ℕ) (c : Endpoint w) (o : Outstanding)
        (reply : Reply)
        → num_clients r ≤ 256
        → num_steps r < 2 ^ 32
        → get_elem? s.clients i ≡ some c
        → c.0.outstanding ≡ some o
        → Memᴰ (Addr.client i, Message.reply reply) s.network.messages
        → reply.seq ≡ c.0.seq
        → (h : List Done) × IsConsistent execute app h s.server s.network × IsOwn h i o reply
    Reach-IsOwn {s} r i c o reply few small at out m same =
        let (h, fits) = Reach-IsAtMostOnce w execute app r in
        let (assigned, _) = Reach-IsTold r few small in
        let at' = get_elem?-map (λ x. x.0) s.clients i at in
        let (d, md, e, q, mq, addr, id, seq) = fits.replied (Addr.client i) reply m in
        let (j, _, q_id, q_addr) = assigned.belongs q mq in
        let this : i ≡ j = client_inj (sym addr ∙ q_addr) in
        let d_id : d.request.client_id ≡ i = sym id ∙ q_id ∙ sym this in
        let d_seq : d.request.seq ≡ reply.seq = ap (λ x. x.seq) (sym e) in
        let c_id = (assigned.named i c.0 at').0 in
        let op =
          (assigned.mine i c.0 at').current d.request o (fits.requested d md) (d_id ∙ sym c_id)
            (d_seq ∙ same) out in
        (h, fits, (d, md, d_id, d_seq, op, ap (λ x. x.result) (sym e)))
      where
        client_inj : {a b : ℕ} → Addr.client a ≡ Addr.client b → a ≡ b
        client_inj f = cc
