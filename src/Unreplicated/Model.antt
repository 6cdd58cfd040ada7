-- ===== src/Unreplicated/Model.antt =====
-- src/unreplicated.rs, `model`: the whole system for the model checker. The clients, each with its workload
-- and its timers, the server, and a network that loses nothing and may deliver anything again. The
-- application of the server and the clients' workload are parameters; `Timer` has a single value, that
-- `From` makes of `Resend`: it is `Resend` here.
pub mod Order
pub mod History
pub mod Growth
pub mod Executions
pub mod AtMostOnce
pub mod Idle
pub mod Turn
pub mod Asked
pub mod Turns
pub mod Rounds
pub mod Told
pub mod Answers
use mur_mesh.Prelude.{
  ℕ, suc, Option, none, some, List, [], ◌∷◌, ◌++◌, ◌==◌, length, get_elem?, set, map, u8, u32,
}
use mur_mesh.Exec.{Exec, ok, err, bail, pure, modify, lift, zoom, ◌>>=◌, ◌>>◌}
use mur_mesh.Crypto.{Bytes}
use mur_mesh.Model.Schedule
use mur_mesh.Model.Schedule.{Schedule}
use mur_mesh.Model.Network
use mur_mesh.Model.Network.{Network}
use mur_mesh.Workload as Loop
use mur_mesh.Workload.{Workload, CloseLoop}
use mur_mesh.Unreplicated.Messages.{Request, Reply}
use mur_mesh.Unreplicated.Client
use mur_mesh.Unreplicated.Client.{ClientState, Resend, recv_reply, resend, invoke}
use mur_mesh.Unreplicated.Server
use mur_mesh.Unreplicated.Server.{ServerState, recv_request}
use mur_mesh.Unreplicated.Model.Order.{Addr, Message, compare_sent}

pub data Event : Type 0 where
  message : Addr → Message → Event
  timer : ℕ → ℕ → Resend → Event

abbrev pub Net : Type 0
Net = Network Addr Message

-- `net().send(Cast(addr, message))`: it never fails.
abbrev pub sent_to : Addr → Message → Net → Net
sent_to addr m network = (Network.send compare_sent addr m network).1

unfoldable pub send_requests : List (Request Addr) → Net → Net
send_requests [] network = network
send_requests (r ∷ rs) network = send_requests rs (sent_to Addr.server (Message.request r) network)

unfoldable pub send_replies : List (Addr × Reply) → Net → Net
send_replies [] network = network
send_replies ((addr, r) ∷ rs) network = send_replies rs (sent_to addr (Message.reply r) network)

module _ (w : Workload Bytes Bytes) where
  pub record ClientContextState : Type 0 where
    pub upcall : CloseLoop w
    pub schedule : Schedule Resend

  -- A client with its context.
  abbrev pub Endpoint : Type 0
  Endpoint = ClientState Addr × ClientContextState

  abbrev on_upcall : {A : Type 0} → Exec (CloseLoop w) A → Exec (Endpoint × Net) A
  on_upcall = zoom (λ p. p.0.1.upcall) (λ u p. ((p.0.0, record (p.0.1) { upcall = u }), p.1))

  -- The results that the handler passes up, the last thing that it does.
  unfoldable pub deliver : List Bytes → Exec (Endpoint × Net) (Unit {0})
  deliver [] = pure tt
  deliver (result ∷ results) = do on_upcall (Loop.send w result); deliver results

  -- A handler of the client, in the context `ClientContext`.
  unfoldable pub on_client : Exec (Client.Node Addr) (Unit {0}) → Exec (Endpoint × Net) (Unit {0})
  unfolding deliver
  on_client handler ((client, context), network) =
      let (r, n) =
        handler (record { state = client; sent = []; upcalls = []; schedule = context.schedule }) in
      (do lift r; deliver n.upcalls)
        ((n.state, record context { schedule = n.schedule }), send_requests n.sent network)

  -- The invocation that waits in the context is taken to the client.
  unfoldable pub fix_client : Exec (Endpoint × Net) (Unit {0})
  unfolding on_client
  fix_client ((client, context), network) = elim context.upcall.sender [
    | none ↦ (ok tt, ((client, context), network))
    | some op ↦
        on_client (invoke op)
          ((client, record context { upcall = record (context.upcall) { sender = none } }), network)
  ]

  unfoldable pub fix : Exec (List Endpoint × Net) (Unit {0})
  unfolding fix_client
  fix ([], network) = (ok tt, ([], network))
  fix (client ∷ clients, network) =
      let (r, (c, n)) = fix_client (client, network) in
      elim r [
        | err e ↦ (err e, (c ∷ clients, n))
        | ok _ ↦ let (r', (cs, n')) = fix (clients, n) in (r', (c ∷ cs, n'))
      ]

  -- The loop of `init` over the contexts.
  unfoldable pub init_clients : Exec (List Endpoint) (Unit {0})
  init_clients [] = (ok tt, [])
  init_clients ((client, context) ∷ clients) =
      let (r, u) = Loop.init w context.upcall in
      let c : Endpoint = (client, record context { upcall = u }) in
      elim r [
        | err e ↦ (err e, c ∷ clients)
        | ok _ ↦ let (r', cs) = init_clients clients in (r', c ∷ cs)
      ]

  -- `Event::Message(Addr::Client(..), Message::Reply(..))` and `Event::Timer(..)`
  unfoldable pub on_message : Message → Exec (Endpoint × Net) (Unit {0})
  unfolding on_client
  on_message (Message.reply r) p = on_client (recv_reply r) p
  on_message (Message.request r) p = (err bail, p)

  unfoldable pub on_timer : ℕ → Resend → Exec (Endpoint × Net) (Unit {0})
  unfolding on_client
  on_timer id event = do
    zoom (λ p. p.0.1.schedule) (λ s p. ((p.0.0, record (p.0.1) { schedule = s }), p.1))
        (Schedule.tick id)
    on_client resend

  -- The timers of the clients, from an index on.
  unfoldable pub timers : ℕ → List Endpoint → List Event
  timers index [] = []
  timers index ((client, context) ∷ clients) =
      map (λ t. Event.timer (u8 index) t.0 t.1) (Schedule.events context.schedule)
      ++ timers (suc index) clients

  module _ (S : Type 0) where
    pub record State : Type 0 where
      pub clients : List Endpoint
      pub server : ServerState S
      pub network : Net

  module _ {S : Type 0} where
    abbrev pub on_clients : Exec (List Endpoint × Net) (Unit {0}) → Exec (State S) (Unit {0})
    on_clients =
        zoom (λ s. (s.clients, s.network)) (λ p s. record s { clients = p.0; network = p.1 })

    -- `self.clients.get_mut(index)`
    unfoldable pub at_client : ℕ → Exec (Endpoint × Net) (Unit {0}) → Exec (State S) (Unit {0})
    at_client index call s = elim (get_elem? s.clients index) [
      | none ↦ (err bail, s)
      | some client ↦
          let (r, (c, n)) = call (client, s.network) in
          (r, record s { clients = set s.clients index c; network = n })
    ]

    unfoldable pub new : S → State S
    new app = record { clients = []; server = Server.new app; network = Network.new }

    unfoldable pub push_client : w.State → State S → State S
    push_client workload s =
        let index = length s.clients in
        let client = Client.new (u32 index) (Addr.client (u8 index)) in
        let context : ClientContextState = record {
          upcall = record { workload = workload; sender = none };
          schedule = Schedule.new;
        } in
        record s { clients = s.clients ++ (client, context) ∷ [] }

    unfoldable pub init : Exec (State S) (Unit {0})
    unfolding init_clients fix
    init = do zoom (λ s. s.clients) (λ cs s. record s { clients = cs }) init_clients; on_clients fix

    -- What may happen. The assertion that no operation waits in a sender is left out.
    unfoldable pub events : State S → List Event
    unfolding timers
    events s = map (λ m. Event.message m.0 m.1) (Network.events s.network) ++ timers 0 s.clients

    module _ (execute : Bytes → Exec S Bytes) where
      unfoldable pub on_server : Request Addr → Exec (State S) (Unit {0})
      on_server request s =
          let (r, n) = recv_request execute request (record { state = s.server; sent = [] }) in
          (r, record s { server = n.state; network = send_replies n.sent s.network })

      -- The call that an event makes.
      unfoldable pub dispatch : Event → Exec (State S) (Unit {0})
      unfolding at_client on_message on_timer on_server
      dispatch (Event.message (Addr.client index) m) s = at_client index (on_message m) s
      dispatch (Event.timer index id event) s = at_client index (on_timer id event) s
      dispatch (Event.message Addr.server (Message.request request)) s = on_server request s
      dispatch (Event.message Addr.server (Message.reply reply)) s = (err bail, s)

      unfoldable pub send : Event → Exec (State S) (Unit {0})
      unfolding dispatch fix
      send event = do dispatch event; on_clients fix
