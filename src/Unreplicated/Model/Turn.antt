-- ===== src/Unreplicated/Model/Turn.antt =====
-- src/unreplicated.rs, `ClientState`: what each handler does to the client's number and operation, and what
-- requests it sends.
use mur_mesh.Prelude.{
  ℕ, ◌≡◌, ◌⊎◌, inl, inr, refl, sym, subst, ap, none, some, Option, Bool-cases, List, [], ◌∷◌, ◌==◌,
  add_u32,
}
use mathlib.Core.List.{Memᴰ}
use mathlib.Core.List.Memᴰ
use mur_mesh.Exec.{Outcome-cases}
use mur_mesh.Crypto.{Bytes}
use mur_mesh.Model.Schedule
use mur_mesh.Model.Schedule.{Schedule}
use mur_mesh.Unreplicated.Messages.{Request, Reply}
use mur_mesh.Unreplicated.Client.{
  ClientState, Outstanding, Node, Resend, invoke, recv_reply, resend, send_request,
}
use mur_mesh.Unreplicated.Model.Order.{Addr}

-- The number stays, and no operation is new; or the number goes on by one.
abbrev pub Goes : ClientState Addr → ClientState Addr → Type 0
Goes c c' =
    ((c'.seq ≡ c.seq) × ((o : Outstanding) → c'.outstanding ≡ some o → c.outstanding ≡ some o))
    ⊎ (c'.seq ≡ add_u32 c.seq 1)

-- A request of the client for its number and its operation.
pub record IsAsked (c : ClientState Addr) (q : Request Addr) : Type 0 where
  pub client_id : q.client_id ≡ c.id
  pub client_addr : q.client_addr ≡ c.addr
  pub seq : q.seq ≡ c.seq
  pub op : (o : Outstanding) → c.outstanding ≡ some o → q.op ≡ o.op

pub record Turn (c c' : ClientState Addr) (sent : List (Request Addr)) : Type 0 where
  pub id : c'.id ≡ c.id
  pub addr : c'.addr ≡ c.addr
  pub goes : Goes c c'
  pub asked : (q : Request Addr) → Memᴰ q sent → IsAsked c' q

-- Where a handler begins.
abbrev pub start : ClientState Addr → Schedule Resend → Node Addr
start c schedule = record { state = c; sent = []; upcalls = []; schedule = schedule }

some_inj : {A : Type 0} {a b : A} → Path (Option A) (some a) (some b) → a ≡ b
some_inj e = cc

pub quiet : (c : ClientState Addr) → Turn c c []
quiet c = record {
  id = refl;
  addr = refl;
  goes = inl (refl, λ o e. e);
  asked = λ q m. absurd (Memᴰ.not-nil m);
}

asked_one :
    {c : ClientState Addr} (r : Request Addr)
    → IsAsked c r
    → (q : Request Addr) → Memᴰ q (r ∷ [])
    → IsAsked c q
asked_one {c} r h q m = subst (IsAsked c) (sym (Memᴰ.eq_of_singleton m)) h

-- The parts of a client.
abbrev client_of : ℕ → Addr → ℕ → Option Outstanding → ClientState Addr
client_of id addr seq o = record { id = id; addr = addr; seq = seq; outstanding = o }

resend-Turn_parts :
    (id : ℕ) (addr : Addr) (seq : ℕ) (o : Option Outstanding) (schedule : Schedule Resend)
    → let c = client_of id addr seq o in
      let n = (resend (start c schedule)).1 in (Turn c n.state n.sent) × (n.seq ≡ seq)
unfolding resend send_request
resend-Turn_parts id addr seq none schedule = (quiet (client_of id addr seq none), refl)
resend-Turn_parts id addr seq (some o) schedule = (
  record {
    id = refl;
    addr = refl;
    goes = inl (refl, λ x f. f);
    asked =
        asked_one (record { client_id = id; client_addr = addr; seq = seq; op = o.op })
          (record {
            client_id = refl;
            client_addr = refl;
            seq = refl;
            op = λ x f. ap (λ y. y.op) (some_inj f);
          });
  },
  refl,
)

pub resend-Turn :
    (c : ClientState Addr) (schedule : Schedule Resend)
    → let n = (resend (start c schedule)).1 in (Turn c n.state n.sent) × (n.seq ≡ c.seq)
resend-Turn c schedule = resend-Turn_parts c.id c.addr c.seq c.outstanding schedule

-- The operation is over.
over :
    (id : ℕ) (addr : Addr) (seq : ℕ) (o : Outstanding)
    → Turn (client_of id addr seq (some o)) (client_of id addr seq none) []
over id addr seq o = record {
  id = refl;
  addr = refl;
  goes = inl (refl, λ x e. absurd (none_some e));
  asked = λ q m. absurd (Memᴰ.not-nil m);
}
  where
    none_some : {x : Outstanding} → Path (Option Outstanding) none (some x) → ⊥
    none_some e = cc

recv_reply-Turn_parts :
    (r : Reply) (id : ℕ) (addr : Addr) (seq : ℕ) (o : Option Outstanding)
    (schedule : Schedule Resend)
    → let c = client_of id addr seq o in
      let n = (recv_reply r (start c schedule)).1 in (Turn c n.state n.sent) × (n.seq ≡ seq)
unfolding recv_reply
recv_reply-Turn_parts r id addr seq none schedule = elim (Bool-cases (r.seq == seq)) [
  | inl e ↦ rw e (quiet (client_of id addr seq none), refl)
  | inr e ↦ rw e (quiet (client_of id addr seq none), refl)
]
recv_reply-Turn_parts r id addr seq (some o) schedule = elim (Bool-cases (r.seq == seq)) [
  | inl e ↦ elim (Outcome-cases (Schedule.unset o.timer schedule).0) [
    | inl (_, f) ↦ rw (e, f) (over id addr seq o, refl)
    | inr (x, f) ↦ rw (e, f) (over id addr seq o, refl)
  ]
  | inr e ↦ rw e (quiet (client_of id addr seq (some o)), refl)
]

pub recv_reply-Turn :
    (r : Reply) (c : ClientState Addr) (schedule : Schedule Resend)
    → let n = (recv_reply r (start c schedule)).1 in (Turn c n.state n.sent) × (n.seq ≡ c.seq)
recv_reply-Turn r c schedule = recv_reply-Turn_parts r c.id c.addr c.seq c.outstanding schedule

invoke-Turn_parts :
    (op : Bytes) (id : ℕ) (addr : Addr) (seq : ℕ) (o : Option Outstanding)
    (schedule : Schedule Resend)
    → let c = client_of id addr seq o in
      let n = (invoke op (start c schedule)).1 in Turn c n.state n.sent
unfolding invoke send_request Schedule.set
invoke-Turn_parts op id addr seq none schedule = record {
  id = refl;
  addr = refl;
  goes = inr refl;
  asked =
      asked_one (record { client_id = id; client_addr = addr; seq = add_u32 seq 1; op = op })
        (record {
          client_id = refl;
          client_addr = refl;
          seq = refl;
          op = λ x f. ap (λ y. y.op) (some_inj f);
        });
}
invoke-Turn_parts op id addr seq (some o) schedule = record {
  id = refl;
  addr = refl;
  goes = inr refl;
  asked = λ q m. absurd (Memᴰ.not-nil m);
}

pub invoke-Turn :
    (op : Bytes) (c : ClientState Addr) (schedule : Schedule Resend)
    → let n = (invoke op (start c schedule)).1 in Turn c n.state n.sent
invoke-Turn op c schedule = invoke-Turn_parts op c.id c.addr c.seq c.outstanding schedule
