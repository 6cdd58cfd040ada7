-- ===== src/Unreplicated/Model/Told.antt =====
-- src/unreplicated.rs, `model`: the steps, and the clients' requests.
use mur_mesh.Prelude.{
  ℕ, zero, suc, ◌<◌, ◌≤◌, ◌^◌, ◌≡◌, ◌⊎◌, inl, inr, refl, sym, subst, ap, some, Option-cases, List,
  [], ◌∷◌, ◌++◌, length, get_elem?, set, map, arith,
}
use mur_mesh.Exec.{Exec, Outcome-cases}
use mur_mesh.Crypto.{Bytes}
use mur_mesh.Workload as Loop
use mur_mesh.Workload.{Workload}
use mur_mesh.Unreplicated.Messages.{Request, Reply}
use mur_mesh.Unreplicated.Client.{ClientState}
use mur_mesh.Unreplicated.Model.Order.{Addr, Message}
use mur_mesh.Unreplicated.Model.{
  Event, Net, Endpoint, State, fix, on_message, on_timer, init_clients, at_client, on_clients,
  on_server, init, dispatch, send,
}
use mur_mesh.Unreplicated.Model.Growth.{continue_holds}
use mur_mesh.Unreplicated.Model.History.{some_inj}
use mur_mesh.Unreplicated.Model.Asked.{IsAssigned}
use mur_mesh.Unreplicated.Model.Turns.{Called, on_message-Called, on_timer-Called}
use mur_mesh.Unreplicated.Model.Rounds.{
  IsBelow, IsBelow-suc, Turned-IsAssigned, states, fix-IsAssigned,
}
use mur_mesh.Unreplicated.Model.Asked.{InNet}
use mur_mesh.Unreplicated.Model.{send_replies, sent_to}
use mur_mesh.Unreplicated.Model.Order.{compare_sent}
use mur_mesh.OrderedSet.Laws.{Memᴰ-insert}
use mur_mesh.Model.Network
use mur_mesh.Unreplicated.Server.{recv_request}

send_replies-requests :
    (rs : List (Addr × Reply)) (n : Net) (q : Request Addr)
    → InNet q (send_replies rs n)
    → InNet q n
unfolding send_replies Network.send
send_replies-requests [] n q m = m
send_replies-requests ((addr, r) ∷ rs) n q m =
    elim (Memᴰ-insert compare_sent _ (Addr.server, Message.request q) n.messages
      (send_replies-requests rs (sent_to addr (Message.reply r) n) q m)) [
        | inl e ↦ absurd (request_reply e)
        | inr k ↦ k
      ]
  where
    request_reply :
        {a b : Addr} {p : Request Addr} {s : Reply}
        → Path (Addr × Message) (a, Message.request p) (b, Message.reply s)
        → ⊥
    request_reply e = cc

-- Replies are no requests.
IsAssigned-replies :
    (cs : List (ClientState Addr)) (n : Net) (rs : List (Addr × Reply))
    → IsAssigned cs n
    → IsAssigned cs (send_replies rs n)
IsAssigned-replies cs n rs h = record {
  named = h.named;
  mine = λ i c g. record {
    bound = λ q m. (h.mine i c g).bound q (send_replies-requests rs n q m);
    current = λ q o m. (h.mine i c g).current q o (send_replies-requests rs n q m);
  };
  belongs = λ q m. h.belongs q (send_replies-requests rs n q m);
}

pub get_elem?-snoc :
    {A : Type 0} (xs : List A) (y : A) (i : ℕ) {a : A}
    → get_elem? (xs ++ y ∷ []) i ≡ some a
    → (get_elem? xs i ≡ some a) ⊎ ((i ≡ length xs) × (a ≡ y))
get_elem?-snoc [] y zero e = inr (refl, sym (some_inj e))
get_elem?-snoc [] y (suc i) e = cc
get_elem?-snoc (x ∷ xs) y zero e = inl e
get_elem?-snoc (x ∷ xs) y (suc i) e = elim (get_elem?-snoc xs y i e) [
  | inl f ↦ inl f
  | inr (f, g) ↦ inr (ap suc f, g)
]

pub map-append :
    {A B : Type 0} (f : A → B) (xs ys : List A) → map f (xs ++ ys) ≡ map f xs ++ map f ys
map-append f [] ys = refl
map-append f (x ∷ xs) ys = ap (λ l. f x ∷ l) (map-append f xs ys)

pub length-map : {A B : Type 0} (f : A → B) (xs : List A) → length (map f xs) ≡ length xs
length-map f [] = refl
length-map f (x ∷ xs) = ap suc (length-map f xs)

map-set :
    {A B : Type 0} (f : A → B) (xs : List A) (i : ℕ) (y : A)
    → map f (set xs i y) ≡ set (map f xs) i (f y)
map-set f [] i y = refl
map-set f (x ∷ xs) zero y = refl
map-set f (x ∷ xs) (suc i) y = ap (λ l. f x ∷ l) (map-set f xs i y)

pub get_elem?-map :
    {A B : Type 0} (f : A → B) (xs : List A) (i : ℕ) {a : A}
    → get_elem? xs i ≡ some a
    → get_elem? (map f xs) i ≡ some (f a)
get_elem?-map f [] i e = cc
get_elem?-map f (x ∷ xs) zero e = ap (λ y. some (f y)) (some_inj e)
get_elem?-map f (x ∷ xs) (suc i) e = get_elem?-map f xs i e

get-IsBelow :
    (k : ℕ) (cs : List (ClientState Addr)) (i : ℕ) {c : ClientState Addr}
    → IsBelow k cs
    → get_elem? cs i ≡ some c
    → c.seq ≤ k
get-IsBelow k [] i h e = cc
get-IsBelow k (x ∷ xs) zero h e = subst (λ y. y.seq ≤ k) (some_inj e) h.0
get-IsBelow k (x ∷ xs) (suc i) h e = get-IsBelow k xs i h.1 e

set-IsBelow :
    (k : ℕ) (cs : List (ClientState Addr)) (i : ℕ) (c : ClientState Addr)
    → IsBelow k cs
    → c.seq ≤ k
    → IsBelow k (set cs i c)
set-IsBelow k [] i c h low = tt
set-IsBelow k (x ∷ xs) zero c h low = (low, h.1)
set-IsBelow k (x ∷ xs) (suc i) c h low = (h.0, set-IsBelow k xs i c h.1 low)

module _ (w : Workload Bytes Bytes) where
  init_clients-states : (cs : List (Endpoint w)) → states w (init_clients w cs).1 ≡ states w cs
  unfolding init_clients
  init_clients-states [] = refl
  init_clients-states (c ∷ cs) = elim (Outcome-cases (Loop.init w c.1.upcall).0) [
    | inl (_, e) ↦ rw (init_clients, e) (ap (λ l. c.0 ∷ l) (init_clients-states cs))
    | inr (x, e) ↦ rw (init_clients, e) refl
  ]

module _ (w : Workload Bytes Bytes) {S : Type 0} where
  abbrev pub IsTold : ℕ → State w S → Type 0
  IsTold k s = IsAssigned (states w s.clients) s.network × IsBelow k (states w s.clients)

  at_client-IsTold :
      (k i : ℕ) (call : Exec (Endpoint w × Net) (Unit {0})) (s : State w S)
      → ((p : Endpoint w × Net) → let q = (call p).1 in Called p.0.0 p.1 q.0.0 q.1)
      → suc k < 2 ^ 32
      → IsTold k s
      → IsTold k (at_client w i call s).1
  unfolding at_client
  at_client-IsTold k i call s calls small (h, low) = elim (Option-cases (get_elem? s.clients i)) [
    | inl e ↦ rw (at_client, e) (h, low)
    | inr (c, e) ↦
        let at = get_elem?-map (λ x. x.0) s.clients i e in
        let le = get-IsBelow k (states w s.clients) i low at in
        let (t, same) = calls (c, s.network) in
        let q = (call (c, s.network)).1 in
        rw (at_client, e, map-set (λ x. x.0) s.clients i q.0)
          (
            Turned-IsAssigned (states w s.clients) s.network q.1 i c.0 q.0.0 h at t (omega arith),
            set-IsBelow k (states w s.clients) i q.0.0 low (omega arith),
          )
  ]

  dispatch-IsTold :
      (execute : Bytes → Exec S Bytes) (k : ℕ) (event : Event) (s : State w S)
      → suc k < 2 ^ 32
      → IsTold k s
      → IsTold k (dispatch w execute event s).1
  unfolding dispatch on_server
  dispatch-IsTold execute k (Event.message (Addr.client i) m) s small h =
      at_client-IsTold k i (on_message w m) s (on_message-Called w m) small h
  dispatch-IsTold execute k (Event.timer i id event) s small h =
      at_client-IsTold k i (on_timer w id event) s (on_timer-Called w id event) small h
  dispatch-IsTold execute k (Event.message Addr.server (Message.reply r)) s small h = h
  dispatch-IsTold execute k (Event.message Addr.server (Message.request q)) s small (h, low) =
      let n = (recv_request execute q (record { state = s.server; sent = [] })).1 in
      (IsAssigned-replies (states w s.clients) s.network n.sent h, low)

  fixed :
      (k : ℕ) (s : State w S)
      → suc k < 2 ^ 32
      → IsTold k s
      → IsTold (suc k) (on_clients w (fix w) s).1
  fixed k s small (h, low) = fix-IsAssigned w k [] s.clients s.network small h low

  pub init-IsTold : (s : State w S) → IsTold 0 s → IsTold 1 (init w s).1
  unfolding init
  init-IsTold s (h, low) =
      let t : State w S = record s { clients = (init_clients w s.clients).1 } in
      let h' : IsTold 0 t =
        subst (λ l. IsAssigned l s.network × IsBelow 0 l) (sym (init_clients-states w s.clients))
          (h, low) in
      continue_holds (IsTold 1) (init_clients w s.clients).0 (λ _. on_clients w (fix w)) t
        (h'.0, IsBelow-suc 0 (states w t.clients) h'.1) (λ _. fixed 0 t (omega arith) h')

  pub send-IsTold :
      (execute : Bytes → Exec S Bytes) (k : ℕ) (event : Event) (s : State w S)
      → suc k < 2 ^ 32
      → IsTold k s
      → IsTold (suc k) (send w execute event s).1
  unfolding send
  send-IsTold execute k event s small h =
      let (r, t) = dispatch w execute event s in
      let h' : IsTold k t = dispatch-IsTold execute k event s small h in
      continue_holds (IsTold (suc k)) r (λ _. on_clients w (fix w)) t
        (h'.0, IsBelow-suc k (states w t.clients) h'.1) (λ _. fixed k t small h')
