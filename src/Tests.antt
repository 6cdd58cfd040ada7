-- ===== src/Tests.antt =====
-- Runs of the code on small inputs: the properties at concrete replicas, clients, servers and keys.
mod Keys
mod Search
mod Simulate
mod System
use mur_mesh.Prelude.{
  ℕ, suc, refl, some, List, [], ◌∷◌, ◌++◌, ◌≡◌, ◌⊎◌, ◌<◌, ◌≤◌, length, arith, bytes_eq,
  bytes_eq_refl, if◌then◌else◌,
}
use mur_mesh.Exec.{Exec, ok, err, bail}
use mur_mesh.Map
use mur_mesh.Crypto.{
  Bytes, Verifiable, Signature, Crypto, CryptoProvider, PublicKey, Curves, sign, verify,
}
use mur_mesh.Crypto.Keys.{verify-sign}
use mur_mesh.Timer
use mur_mesh.Timer.Rounds.{ensure_unset-ensure_set}
use mur_mesh.Model.Schedule
use mur_mesh.Model.Schedule.{Schedule, schedule_event}
use mur_mesh.Pbft.Parameters.{PublicParameters}
use mur_mesh.Pbft.Messages.{Request, PrePrepare, Prepare, Commit, Reply, ViewChange, Quorum}
use mur_mesh.Pbft.Client
use mur_mesh.Pbft.Client.Matching.{recv_reply-upcalls, IsDecisive, HasCompleted}
use mur_mesh.Pbft.Replica.State.{Node, new, Work, Send, default_entry}
use mur_mesh.Pbft.Replica.Event.{Event}
use mur_mesh.Pbft.Replica.Handle.{after}
use mur_mesh.Pbft.Replica.Step.{Reach}
use mur_mesh.Pbft.Replica.Refine.Handle.{after-Reach}
use mur_mesh.Pbft.Replica.Invariant.{IsValid}
use mur_mesh.Pbft.Replica.Invariant.Keeps.{new-IsValid, after-IsValid}
use mur_mesh.Pbft.Replica.Progress.{Progress, after-Progress}
use mur_mesh.Pbft.Replica.Ordering.{close_batch, recv_request}
use mur_mesh.Pbft.Replica.Ordering.Duplicates.{recv_request-known}
use mur_mesh.Pbft.Replica.Ordering.Batch.{close_batch-splits}
use mur_mesh.Pbft.Replica.Prepare.{drain_prepares}
use mur_mesh.Pbft.Replica.Prepare.Drain.{drain_prepares-ok}
use mur_mesh.Pbft.Replica.Commit.{drain_commits, close_batches, execute_slots}
use mur_mesh.Pbft.Replica.Commit.Drain.{drain_commits-ok}
use mur_mesh.Pbft.Replica.Commit.Batches.{IsDone, close_batches-ends}
use mur_mesh.Pbft.Replica.ViewChange.{pre_prepares_for_view_changes}
use mur_mesh.Pbft.Replica.ViewChange.Carry.{
  AllHaveSlots, pre_prepares_for_view_changes-HaveSlots, pre_prepares_for_view_changes-total,
}
use mur_mesh.Unreplicated.Messages
use mur_mesh.Workload.Kvstore
use mur_mesh.Workload.Kvstore.Expected.{answers, expected, answers-expected}
use mur_mesh.Unreplicated.Server
use mur_mesh.Unreplicated.Server.AtMostOnce.{recv_request-again, recv_request-stale}

-- Four replicas, of which one may be faulty.
abbrev config : PublicParameters
config = record {
  num_replica = 4;
  num_faulty = 1;
  num_concurrent = 1;
  max_batch_size = 2;
  client_resend_interval = 1000;
  progress_prepare_interval = 200;
  view_change_delay = 500;
  progress_view_change_interval = 100;
  state_transfer_delay = 10000;
}

-- An application that counts, and answers with the operation.
abbrev echo : Bytes → Exec ℕ Bytes
echo op count = (ok op, suc count)

abbrev request : ℕ → Request ℕ
request seq = record { seq = seq; op = seq ∷ []; client_id = 9; client_addr = 7 }

abbrev replica : Node ℕ ℕ
replica = record {
  state = new 0 0 config;
  context = record { sent = []; submitted = []; schedule = Schedule.new };
}

abbrev signed : {M : Type 0} → M → Verifiable M
signed m = record { inner = m; signature = Signature.plain [] }

abbrev pre_prepare : ℕ → ℕ → Verifiable PrePrepare
pre_prepare op digest = signed (record { view_num = 0; op_num = op; digest = digest })

abbrev prepare : ℕ → ℕ → ℕ → Verifiable Prepare
prepare op digest replica_id =
    signed (record { view_num = 0; op_num = op; digest = digest; replica_id = replica_id })

abbrev commit : ℕ → ℕ → ℕ → Verifiable Commit
commit op digest replica_id =
    signed (record { view_num = 0; op_num = op; digest = digest; replica_id = replica_id })

-- The primary orders, commits and executes one request.
abbrev normal_case : List (Event ℕ)
normal_case =
    Event.recv_request (request 1)
    ∷ Event.signed_pre_prepare (pre_prepare 1 5) (request 1 ∷ [])
    ∷ Event.recv_prepare (prepare 1 5 1)
    ∷ Event.recv_prepare (prepare 1 5 2)
    ∷ Event.verified_prepare (prepare 1 5 1)
    ∷ Event.verified_prepare (prepare 1 5 2)
    ∷ Event.recv_commit (commit 1 5 1)
    ∷ Event.signed_commit (commit 1 5 0)
    ∷ Event.verified_commit (commit 1 5 1)
    ∷ Event.recv_commit (commit 1 5 2)
    ∷ Event.verified_commit (commit 1 5 2)
    ∷ []

normal_case-IsValid : IsValid (after echo replica normal_case).state
normal_case-IsValid = after-IsValid echo replica normal_case (new-IsValid 0 0 config)

normal_case-Progress : Progress (replica.state) (after echo replica normal_case).state
normal_case-Progress = after-Progress echo replica normal_case

-- Three replicas' votes for view 1, two of which prepared slot 2 with digest 5.
abbrev votes : Quorum ViewChange
votes =
    (1, signed (record { view_num = 1; log = (pre_prepare 2 5, []) ∷ []; replica_id = 1 }))
    ∷ (2, signed (record { view_num = 1; log = []; replica_id = 2 }))
    ∷ (
      3,
      signed (record {
        view_num = 1;
        log = (pre_prepare 2 5, []) ∷ (pre_prepare 3 6, []) ∷ [];
        replica_id = 3;
      }),
    )
    ∷ []

abbrev plan : List PrePrepare
plan =
    record { view_num = 1; op_num = 2; digest = 5 }
    ∷ record { view_num = 1; op_num = 2; digest = 0 }
    ∷ record { view_num = 1; op_num = 3; digest = 6 }
    ∷ []

-- The no-op between two carried slots is for the first of the two.
votes-plan : pre_prepares_for_view_changes 1 votes ≡ ok plan
unfolding pre_prepares_for_view_changes Map.get Map.insert
votes-plan = refl

votes-HaveSlots : AllHaveSlots votes plan
votes-HaveSlots = pre_prepares_for_view_changes-HaveSlots 1 votes plan votes-plan

votes-total :
    ((p : PrePrepare) × (ps : List PrePrepare) × (pre_prepares_for_view_changes 1 votes
        ≡ ok (p ∷ ps)))
    ⊎ (pre_prepares_for_view_changes 1 votes ≡ err bail)
votes-total = pre_prepares_for_view_changes-total 1 votes

-- A client with one reply, and a second that agrees with it.
abbrev reply : ℕ → Reply
reply replica_id = record { seq = 1; result = 8 ∷ []; view_num = 0; replica_id = replica_id }

abbrev client : Client.Node ℕ
client = record {
  state = record {
    id = 9;
    addr = 7;
    config = config;
    seq = 1;
    outstanding = some (record { op = 1 ∷ []; replies = (0, reply 0) ∷ []; timer = 1 });
    view_num = 0;
  };
  sent = [];
  upcalls = [];
  schedule = record {
    envelops = record { id = 1; period = 1000; event = Client.Resend.resend_event } ∷ [];
    count = 1;
  };
}

client-second_reply :
    let m = (Client.recv_reply (reply 2) client).1 in
    (m.upcalls ≡ []) ⊎ (IsDecisive (reply 2) client × HasCompleted (reply 2) client m)
client-second_reply = recv_reply-upcalls (reply 2) client

-- The replica with two votes that wait for a verification.
abbrev waiting : Node ℕ ℕ
waiting = record replica {
  state = record (replica.state) {
    pending_prepares = (1, prepare 1 5 2 ∷ prepare 1 5 3 ∷ []) ∷ [];
  };
}

waiting-drains : (drain_prepares 1 waiting).0 ≡ ok tt
waiting-drains = drain_prepares-ok 1 waiting

-- The replica with three requests in its queue.
abbrev queued : Node ℕ ℕ
queued = record replica {
  state = record (replica.state) { requests = request 1 ∷ request 2 ∷ request 3 ∷ [] };
}

queued-splits :
    let (outcome, m) = close_batch queued in
    (outcome ≡ ok tt)
    × ((batch : List (Request ℕ)) × (batch ++ m.requests ≡ queued.requests)
        × (length batch ≤ 2)
        × ((length batch ≡ 2) ⊎ (m.requests ≡ []))
        × (m.context.submitted ≡ Work.sign_batch 0 1 batch ∷ [])
        × (1 < length m.log))
unfolding new
queued-splits = close_batch-splits queued refl refl refl

abbrev server : Server.Node ℕ ℕ
server = record { state = Server.new 0; sent = [] }

abbrev ask : Messages.Request ℕ
ask = record { client_id = 9; client_addr = 7; seq = 1; op = 4 ∷ [] }

abbrev answer : Messages.Reply
answer = record { seq = 1; result = 4 ∷ [] }

server-again :
    let first = Server.recv_request echo ask server in
    let again = Server.recv_request echo ask first.1 in
    (first.0 ≡ ok tt)
    × (first.1.app ≡ 1)
    × (first.1.sent ≡ (7, answer) ∷ [])
    × (again.0 ≡ ok tt)
    × (again.1.state ≡ first.1.state)
    × (again.1.sent ≡ first.1.sent ++ (7, answer) ∷ [])
unfolding Server.new Map.get
server-again = recv_request-again echo ask server 1 (4 ∷ []) (λ known e. cc) refl

abbrev answered : Server.Node ℕ ℕ
answered = record { state = record { replies = (9, answer) ∷ []; app = 1 }; sent = [] }

server-stale : (Server.recv_request echo ask answered).1.state ≡ answered.state
unfolding Map.get
server-stale = recv_request-stale echo ask answered answer refl (omega arith)

timer-rounds :
    let c = schedule_event ℕ in
    let on = Timer.ensure_set c 4 (Timer.new 10, Schedule.new) in
    let off = Timer.ensure_unset c on.1 in
    (on.0 ≡ ok tt)
    × (on.1.0.id ≡ some 1)
    × (off.0 ≡ ok tt)
    × (off.1.0 ≡ Timer.new 10)
    × (off.1.1.envelops ≡ [])
timer-rounds = ensure_unset-ensure_set 4 10 Schedule.new tt

-- Two rounds of puts and gets.
abbrev draws : List (ℕ × Kvstore.Str)
draws = (3, 65 ∷ []) ∷ (3, 66 ∷ []) ∷ (1, 67 ∷ []) ∷ (4, 68 ∷ []) ∷ []

draws-expected : answers (Kvstore.new (97 ∷ [])) [] draws ≡ expected (Kvstore.new (97 ∷ [])) draws
draws-expected = answers-expected (97 ∷ []) draws (refl, (refl, (refl, (refl, tt))))

-- The replica with two Commits that wait for a verification.
abbrev waiting_commits : Node ℕ ℕ
waiting_commits = record replica {
  state = record (replica.state) { pending_commits = (1, commit 1 5 2 ∷ commit 1 5 3 ∷ []) ∷ [] };
}

commits-drain : (drain_commits 1 waiting_commits).0 ≡ ok tt
commits-drain = drain_commits-ok 1 waiting_commits

queued-ends : IsDone (close_batches 2 queued)
unfolding new
queued-ends = close_batches-ends queued refl refl (omega arith) (omega arith)

-- The replica with the reply to a client's first request.
abbrev replied : Node ℕ ℕ
replied = record replica {
  state = record (replica.state) { replies = (9, (1, some (reply 0))) ∷ [] };
}

replied-resends : recv_request (request 1) replied ≡ (
  ok tt,
  record replied { context = record (replied.context) { sent = Send.to_client 7 (reply 0) ∷ [] } },
)
unfolding new Map.get
replied-resends = recv_request-known (request 1) replied (1, some (reply 0)) refl refl (omega arith)

-- One slot is committed and waits for execution, the next is not committed.
abbrev committed : Node ℕ ℕ
committed = record replica {
  state = record (replica.state) {
    log =
        default_entry (replica.state)
        ∷ record (default_entry (replica.state)) {
          pre_prepare = some (pre_prepare 1 5);
          requests = request 1 ∷ [];
          commits = (1, commit 1 5 1) ∷ (2, commit 1 5 2) ∷ (3, commit 1 5 3) ∷ [];
        }
        ∷ default_entry (replica.state)
        ∷ [];
  };
}

-- The slot is executed, and the one after it is not.
committed_count : (execute_slots echo 4 committed).1.commit_num ≡ 1
unfolding new execute_slots mur_mesh.Pbft.Replica.State.on_state_transfer_timer Timer.ensure_unset
    Map.get
committed_count = refl
