-- ===== src/Tests/System.antt =====
-- The unreplicated system with one client, that has one operation to invoke; and its workload alone.
use mur_mesh.Prelude.{
  none, some, All, ℕ, suc, ◌≡◌, refl, false, List, [], ◌∷◌, bytes_eq, arith, ==_iff, ◌==◌,
}
use mathlib.Core.List.{Memᴰ}
use mur_mesh.Exec.{Exec, Outcome, ok, err, bail}
use mur_mesh.Crypto.{Bytes}
use mur_mesh.Map
use mur_mesh.Model.Network
use mur_mesh.Model.Schedule
use mur_mesh.Workload.Kvstore.{Op, Result, find}
use mur_mesh.Workload.Kvstore.App.{served}
use mur_mesh.Workload.Kvstore.Session.{promised, served-promised}
use mur_mesh.Workload as Loop
use mur_mesh.Workload.{Workload}
use mur_mesh.Unreplicated.Client
use mur_mesh.Unreplicated.Server
use mur_mesh.Workload.Iter.Order.{listed, played, played-in_order, played-wrong, list_items}
use mur_mesh.Workload.Iter as Iter
use mur_mesh.Unreplicated.Model as Model
use mur_mesh.Unreplicated.Model.{State, Event, Endpoint}
use mur_mesh.Unreplicated.Client.{resend_event}
use mur_mesh.Unreplicated.Model.History.{Done, IsConsistent}
use mur_mesh.Unreplicated.Model.Answers.{IsOwn, Reach-IsOwn, num_clients, num_steps, added}
use mur_mesh.Unreplicated.Model.Order.{Addr, Message, compare_sent}
use mur_mesh.Unreplicated.Model.Idle.{Rests, Reach-Rests}
use mur_mesh.Unreplicated.Model.AtMostOnce.{
  built_new, built_push, Reach, started, stepped, IsAtMostOnce, Reach-IsAtMostOnce,
}

abbrev plan : List (ℕ × ℕ)
plan = (1, 10) ∷ (2, 20) ∷ (3, 30) ∷ []

plan-in_order :
    let (result, loop) = played (λ a b. a == b) plan (10 ∷ 20 ∷ []) in
    (result ≡ ok (1 ∷ 2 ∷ 3 ∷ [])) × (loop.workload.done ≡ false)
plan-in_order = played-in_order (λ a b. a == b) ==_iff plan (10 ∷ 20 ∷ []) (30 ∷ []) refl

plan-wrong : (played (λ a b. a == b) plan (10 ∷ 21 ∷ 30 ∷ [])).0 ≡ err bail
plan-wrong =
    played-wrong (λ a b. a == b) ==_iff plan (10 ∷ []) (30 ∷ []) (30 ∷ []) 21 20 refl
      (λ e. omega arith)

-- The application counts, and answers with the count.
abbrev count : Bytes → Exec ℕ Bytes
count op n = (ok (n ∷ []), suc n)

abbrev workload : Workload Bytes Bytes
workload = listed bytes_eq

abbrev one_client : State workload ℕ
one_client =
    Model.push_client workload
      (Iter.new (list_items (Bytes × Bytes)) bytes_eq ((7 ∷ [], 5 ∷ []) ∷ []))
      (Model.new workload 5)

abbrev ready : State workload ℕ
ready = (Model.init workload one_client).1

abbrev asked : Event
asked =
    Event.message Addr.server (
      Message.request (record { seq = 1; op = 7 ∷ []; client_id = 0; client_addr = Addr.client 0 }))

unfoldable ready-Reach : Reach workload count 5 ready
unfolding Model.init Model.push_client Model.new Loop.init Iter.init Iter.new Loop.send_option
    Client.invoke Schedule.set Client.new Model.send_requests Network.send
ready-Reach =
    started
      (built_push (Iter.new (list_items (Bytes × Bytes)) bytes_eq ((7 ∷ [], 5 ∷ []) ∷ []))
        built_new)
      refl

unfoldable answered-Reach : Reach workload count 5 (Model.send workload count asked ready).1
unfolding Model.send Model.events Model.init Model.push_client Model.new Loop.init Iter.init
    Iter.new Loop.send_option Client.invoke Schedule.set Client.new Model.send_requests Network.send
    Server.recv_request Map.get Server.new
answered-Reach = stepped asked ready-Reach (Memᴰ.head refl) refl

system-Rests : All (Rests workload) (Model.send workload count asked ready).1.clients
system-Rests = Reach-Rests workload count 5 answered-Reach

system-IsAtMostOnce : IsAtMostOnce workload count 5 (Model.send workload count asked ready).1
system-IsAtMostOnce = Reach-IsAtMostOnce workload count 5 answered-Reach

-- Two bytes or more put, one byte gets, and nothing is no operation.
abbrev op_of : Bytes → Outcome Op
op_of [] = err bail
op_of (key ∷ []) = ok (Op.get (key ∷ []))
op_of (key ∷ value) = ok (Op.put (key ∷ []) value)

abbrev value_of : Result → Outcome Bytes
value_of (Result.get_result value) = ok value
value_of Result.put_ok = ok []
value_of _ = err bail

abbrev requests : List Bytes
requests = (3 ∷ 7 ∷ []) ∷ (3 ∷ []) ∷ (4 ∷ []) ∷ [] ∷ []

app-serves :
    served op_of value_of requests ((3 ∷ [], 9 ∷ []) ∷ [])
    ≡ promised op_of value_of requests (λ q. find q ((3 ∷ [], 9 ∷ []) ∷ []))
app-serves = served-promised op_of value_of requests ((3 ∷ [], 9 ∷ []) ∷ [])

-- The client waits for the reply, that the server has sent.
abbrev waiting : Endpoint workload
waiting = (
  record {
    id = 0;
    addr = Addr.client 0;
    seq = 1;
    outstanding = some (record { op = 7 ∷ []; timer = 1 });
  },
  record {
    upcall = record {
      workload = record { generate = []; expected_result = some (5 ∷ []); done = false };
      sender = none;
    };
    schedule = record {
      envelops = record { id = 1; period = 100000000; event = resend_event } ∷ [];
      count = 1;
    };
  },
)

waiting-IsOwn :
    let s = (Model.send workload count asked ready).1 in
    (h : List Done) × IsConsistent count 5 h s.server s.network
    × IsOwn workload count 5 h 0
        (record { op = 7 ∷ []; timer = 1 })
        (record { seq = 1; result = 5 ∷ [] })
unfolding Model.send Model.events Model.init Model.push_client Model.new Loop.init Iter.init
    Iter.new Loop.send_option Client.invoke Schedule.set Client.new Model.send_requests Network.send
    Server.recv_request Map.get Server.new num_clients num_steps added answered-Reach ready-Reach
    Model.send_replies compare_sent
waiting-IsOwn =
    Reach-IsOwn workload count 5 answered-Reach 0 waiting (record { op = 7 ∷ []; timer = 1 })
      (record { seq = 1; result = 5 ∷ [] }) (omega arith) (omega arith) refl refl (Memᴰ.head refl)
      refl
