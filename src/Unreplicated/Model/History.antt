-- ===== src/Unreplicated/Model/History.antt =====
-- src/unreplicated.rs, `model`: what the server has executed, and what that says of the server and of the
-- network.
use mur_mesh.Prelude.{
  ℕ, ◌<◌, ◌≤◌, ◌≡◌, ◌⊎◌, inl, inr, refl, sym, ap, Option, none, some, List, [], ◌∷◌, ◌==◌,
  if◌then◌else◌, true, false, Bool-cases, arith,
}
use mathlib.Core.List.{Memᴰ}
use mathlib.Core.List.Memᴰ
use mur_mesh.Exec.{Exec, ok}
use mur_mesh.Crypto.{Bytes}
use mur_mesh.Map
use mur_mesh.Unreplicated.Messages.{Request, Reply}
use mur_mesh.Unreplicated.Server.{ServerState}
use mur_mesh.Unreplicated.Model.Order.{Addr, Message}
use mur_mesh.Unreplicated.Model.{Net}

-- An execution of a request.
pub record Done : Type 0 where
  pub request : Request Addr
  pub result : Bytes

abbrev pub reply_of : Done → Reply
reply_of d = record { seq = d.request.seq; result = d.result }

-- The last reply to a client; the last execution stands first.
unfoldable pub latest : ℕ → List Done → Option Reply
latest id [] = none
latest id (d ∷ h) = if d.request.client_id == id then some (reply_of d) else latest id h

-- Later than every execution for the client.
abbrev pub IsLater : Request Addr → List Done → Type 0
IsLater r h = (e : Done) → Memᴰ e h → e.request.client_id ≡ r.client_id → e.request.seq < r.seq

-- Each client's sequence numbers ascend strictly.
abbrev pub IsAscending : List Done → Type 0
IsAscending [] = Unit
IsAscending (d ∷ h) = IsLater d.request h × IsAscending h

module _ {S : Type 0} (execute : Bytes → Exec S Bytes) (app : S) where
  -- The application, from `app`, gives the results of the history and gets to the state.
  abbrev pub Runs : List Done → S → Type 0
  Runs [] s = s ≡ app
  Runs (d ∷ h) s = (t : S) × Runs h t × (execute d.request.op t ≡ (ok d.result, s))

  -- The server and the network are those of the history.
  pub record IsConsistent (h : List Done) (server : ServerState S) (network : Net) : Type 0 where
    pub runs : Runs h server.app
    pub ascending : IsAscending h
    pub replies : (id : ℕ) → Map.get id server.replies ≡ latest id h
    pub requested :
        (d : Done) → Memᴰ d h → Memᴰ (Addr.server, Message.request d.request) network.messages
    pub replied :
        (addr : Addr) (r : Reply)
        → Memᴰ (addr, Message.reply r) network.messages
        → (d : Done) × Memᴰ d h
          × (r ≡ reply_of d)
          × (q : Request Addr) × Memᴰ (Addr.server, Message.request q) network.messages
          × (q.client_addr ≡ addr)
          × (q.client_id ≡ d.request.client_id)
          × (q.seq ≡ d.request.seq)

pub some_inj : {A : Type 0} {a b : A} → Path (Option A) (some a) (some b) → a ≡ b
some_inj e = cc

-- The last reply is that of an execution for the client.
pub latest-Memᴰ :
    (id : ℕ) (h : List Done) (r : Reply)
    → latest id h ≡ some r
    → (d : Done) × Memᴰ d h × (d.request.client_id ≡ id) × (r ≡ reply_of d)
unfolding latest
latest-Memᴰ id [] r e = cc
latest-Memᴰ id (d ∷ h) r e = elim (Bool-cases (d.request.client_id == id)) [
  | inl f ↦ (d, Memᴰ.head refl, ground arith, same f)
  | inr f ↦ let (d', m, i, g) = latest-Memᴰ id h r (rw (latest, f) at e) in (d', Memᴰ.tail m, i, g)
]
  where
    same : (d.request.client_id == id) ≡ true → r ≡ reply_of d
    same f = sym (some_inj (rw (latest, f) at e))

-- No execution for the client is later than that of its last reply.
pub latest-IsLast :
    (h : List Done) (e : Done)
    → IsAscending h
    → Memᴰ e h
    → (r : Reply) × (latest e.request.client_id h ≡ some r) × (e.request.seq ≤ r.seq)
unfolding latest
latest-IsLast [] e a m = absurd (Memᴰ.not-nil m)
latest-IsLast (d ∷ h) e a m = elim (Bool-cases (d.request.client_id == e.request.client_id)) [
  | inl f ↦ (reply_of d, rw f refl, last f (Memᴰ.cases_cons m))
  | inr f ↦ elim (Memᴰ.cases_cons m) [
    | inl g ↦ absurd (other f (ap (λ x. x.request.client_id) g))
    | inr n ↦ rw (latest, f) (latest-IsLast h e a.1 n)
  ]
]
  where
    last :
        (d.request.client_id == e.request.client_id) ≡ true
        → (e ≡ d) ⊎ Memᴰ e h
        → e.request.seq ≤ d.request.seq
    last f (inl g) = let same = ap (λ x. x.request.seq) g in omega arith
    last f (inr n) =
        let same : e.request.client_id ≡ d.request.client_id = ground arith in
        let before = a.0 e n same in omega arith

    other :
        (d.request.client_id == e.request.client_id) ≡ false
        → e.request.client_id ≡ d.request.client_id
        → ⊥
    other f g = ground arith
