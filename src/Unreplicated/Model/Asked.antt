-- ===== src/Unreplicated/Model/Asked.antt =====
-- src/unreplicated.rs, `model`: the requests in the network, and the clients that they are of.
use mur_mesh.Prelude.{
  ℕ, suc, ◌<◌, ◌≤◌, ◌^◌, ◌≡◌, ◌≢◌, ◌⊎◌, inl, inr, sym, subst, ◌∙◌, some, Option, Bool-cases, ==_iff,
  ◌==◌, false, List, [], ◌∷◌, length, get_elem?, set, get_elem?-set_self, get_elem?-set_cases,
  length-set, lt_of_get_elem?, add_u32, arith,
}
use mathlib.Core.List.{Memᴰ}
use mur_mesh.Model.Network
use mur_mesh.OrderedSet.Laws.{Memᴰ-insert}
use mur_mesh.Unreplicated.Messages.{Request}
use mur_mesh.Unreplicated.Client.{ClientState, Outstanding}
use mur_mesh.Unreplicated.Model.Order.{Addr, Message, compare_sent}
use mur_mesh.Unreplicated.Model.{Net, sent_to, send_requests}
use mur_mesh.Unreplicated.Model.Turn.{Goes, IsAsked, Turn}

abbrev pub InNet : Request Addr → Net → Type 0
InNet q n = Memᴰ (Addr.server, Message.request q) n.messages

send_requests-cases :
    (rs : List (Request Addr)) (n : Net) (q : Request Addr)
    → InNet q (send_requests rs n)
    → InNet q n ⊎ Memᴰ q rs
unfolding send_requests Network.send
send_requests-cases [] n q m = inl m
send_requests-cases (r ∷ rs) n q m =
    elim (send_requests-cases rs (sent_to Addr.server (Message.request r) n) q m) [
      | inr k ↦ inr (Memᴰ.tail k)
      | inl k ↦ elim (Memᴰ-insert compare_sent _ (Addr.server, Message.request q) n.messages k) [
        | inl e ↦ inr (Memᴰ.head (request_inj e))
        | inr l ↦ inl l
      ]
    ]
  where
    request_inj :
        {a b : Request Addr}
        → Path (Addr × Message) (Addr.server, Message.request a) (Addr.server, Message.request b)
        → a ≡ b
    request_inj e = cc

-- No request of the client is later than its number, and one that has the number has its operation.
pub record Mine (c : ClientState Addr) (n : Net) : Type 0 where
  pub bound : (q : Request Addr) → InNet q n → q.client_id ≡ c.id → q.seq ≤ c.seq
  pub current :
      (q : Request Addr) (o : Outstanding)
      → InNet q n
      → q.client_id ≡ c.id
      → q.seq ≡ c.seq
      → c.outstanding ≡ some o
      → q.op ≡ o.op

pub next_seq : (a b : ℕ) → b ≡ add_u32 a 1 → suc a < 2 ^ 32 → b ≡ suc a
next_seq a b e h = e ∙ (omega arith)

Mine-Turn :
    (c c' : ClientState Addr) (sent : List (Request Addr)) (n : Net)
    → Turn c c' sent
    → suc c.seq < 2 ^ 32
    → Mine c n
    → Mine c' (send_requests sent n)
Mine-Turn c c' sent n t small h = record {
  bound = λ q m same. elim (send_requests-cases sent n q m) [
    | inl k ↦ let low = h.bound q k (same ∙ t.id) in grown t.goes q low
    | inr k ↦ let e = (t.asked q k).seq in omega arith
  ];
  current = λ q o m same seq out. elim (send_requests-cases sent n q m) [
    | inl k ↦ old t.goes q o k (same ∙ t.id) seq out
    | inr k ↦ (t.asked q k).op o out
  ];
}
  where
    grown : Goes c c' → (q : Request Addr) → q.seq ≤ c.seq → q.seq ≤ c'.seq
    grown (inl (e, _)) q low = omega arith
    grown (inr e) q low = let f = next_seq c.seq c'.seq e small in omega arith

    old :
        Goes c c'
        → (q : Request Addr) (o : Outstanding) → InNet q n
        → q.client_id ≡ c.id
        → q.seq ≡ c'.seq
        → c'.outstanding ≡ some o
        → q.op ≡ o.op
    old (inl (e, f)) q o k same seq out = h.current q o k same (seq ∙ e) (f o out)
    old (inr e) q o k same seq out =
        let f = next_seq c.seq c'.seq e small in let low = h.bound q k same in absurd (omega arith)

-- Another client's requests are not its own.
Mine-other :
    (d c' : ClientState Addr) (sent : List (Request Addr)) (n : Net)
    → ((q : Request Addr) → Memᴰ q sent → IsAsked c' q)
    → d.id ≢ c'.id
    → Mine d n
    → Mine d (send_requests sent n)
Mine-other d c' sent n asked other h = record {
  bound = λ q m same. h.bound q (of_d q m same) same;
  current = λ q o m same. h.current q o (of_d q m same) same;
}
  where
    of_d : (q : Request Addr) → InNet q (send_requests sent n) → q.client_id ≡ d.id → InNet q n
    of_d q m same = elim (send_requests-cases sent n q m) [
      | inl k ↦ k
      | inr k ↦ absurd (other (sym same ∙ (asked q k).client_id))
    ]

-- The clients are named by their indices, and every request is one of a client.
pub record IsAssigned (cs : List (ClientState Addr)) (n : Net) : Type 0 where
  pub named :
      (i : ℕ) (c : ClientState Addr)
      → get_elem? cs i ≡ some c
      → (c.id ≡ i) × (c.addr ≡ Addr.client i)
  pub mine : (i : ℕ) (c : ClientState Addr) → get_elem? cs i ≡ some c → Mine c n
  pub belongs :
      (q : Request Addr)
      → InNet q n
      → (i : ℕ) × (i < length cs) × (q.client_id ≡ i) × (q.client_addr ≡ Addr.client i)

some_inj : {a b : ClientState Addr} → Path (Option (ClientState Addr)) (some a) (some b) → a ≡ b
some_inj e = cc

-- One client's turn.
pub Turn-IsAssigned :
    (cs : List (ClientState Addr)) (n : Net) (i : ℕ) (c c' : ClientState Addr)
    (sent : List (Request Addr))
    → IsAssigned cs n
    → get_elem? cs i ≡ some c
    → Turn c c' sent
    → suc c.seq < 2 ^ 32
    → IsAssigned (set cs i c') (send_requests sent n)
Turn-IsAssigned cs n i c c' sent h at t small = record {
  named = λ j d g. elim (which j d g) [
    | inl (same, e) ↦ rw (same, e) ((t.id ∙ (h.named i c at).0), (t.addr ∙ (h.named i c at).1))
    | inr (_, k) ↦ h.named j d k
  ];
  mine = λ j d g. elim (which j d g) [
    | inl (_, e) ↦
        subst (λ x. Mine x (send_requests sent n)) (sym e)
          (Mine-Turn c c' sent n t small (h.mine i c at))
    | inr (other, k) ↦
        Mine-other d c' sent n t.asked
          (λ f. other (sym (h.named j d k).0 ∙ f ∙ t.id ∙ (h.named i c at).0)) (h.mine j d k)
  ];
  belongs = λ q m. elim (send_requests-cases sent n q m) [
    | inl k ↦
        let (j, low, a, b) = h.belongs q k in
        (j, subst (λ l. j < l) (sym (length-set cs i c')) low, a, b)
    | inr k ↦
        let low = lt_of_get_elem? cs i at in
        (
          i,
          subst (λ l. i < l) (sym (length-set cs i c')) low,
          (t.asked q k).client_id ∙ t.id ∙ (h.named i c at).0,
          (t.asked q k).client_addr ∙ t.addr ∙ (h.named i c at).1,
        )
  ];
}
  where
    which :
        (j : ℕ) (d : ClientState Addr)
        → get_elem? (set cs i c') j ≡ some d
        → ((j ≡ i) × (d ≡ c')) ⊎ ((j ≢ i) × (get_elem? cs j ≡ some d))
    which j d g = elim (Bool-cases (j == i)) [
      | inl e ↦
          let same = (==_iff j i).0 e in
          let self = get_elem?-set_self cs i c' (lt_of_get_elem? cs i at) in
          inl (same, some_inj (sym (subst (λ x. get_elem? (set cs i c') x ≡ some d) same g) ∙ self))
      | inr e ↦ elim (get_elem?-set_cases cs i j c' g) [
        | inl (same, f) ↦ inl (same, f)
        | inr k ↦ inr (unequal e, k)
      ]
    ]
      where
        unequal : (j == i) ≡ false → j ≢ i
        unequal f k = ground arith
