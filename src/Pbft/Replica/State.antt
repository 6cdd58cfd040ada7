-- ===== src/Pbft/Replica/State.antt =====
-- src/pbft/replica.rs: the state of a replica, and the context that its handlers act on.
-- The context is an explicit record: messages handed to the networks and closures handed to the
-- crypto worker are recorded in order (the networks and the worker accept all), and timers are those
-- of the model checker's schedule. A closure is a constructor of `Work` with what it captures.
use mur_mesh.Prelude.{
  ℕ, ◌%◌, Bool, Option, none, List, [], ◌∷◌, ◌++◌, ◌&&◌, not, max, u32, ◌==◌, length, get_elem?,
  set, resize, is_none, if◌then◌else◌, suc,
}
use mur_mesh.Exec.{Exec, panic, self, modify, or_fail, zoom, ◌>>=◌}
use mur_mesh.Map
use mur_mesh.Map.{Map}
use mur_mesh.Crypto.{H256, Verifiable}
use mur_mesh.Timer
use mur_mesh.Timer.{Timer}
use mur_mesh.Model.Schedule.{Schedule, schedule_event}
use mur_mesh.Pbft.Parameters.{PublicParameters}
use mur_mesh.Pbft.Messages.{
  Request, PrePrepare, Prepare, Commit, Reply, Quorum, ViewChange, NewView, ToReplica,
}

-- `replica::events`
pub data TimerEvent : Type 0 where
  do_view_change : ℕ → TimerEvent
  progress_prepare : ℕ → TimerEvent
  progress_view_change : TimerEvent
  state_transfer : ℕ → TimerEvent

pub record LogEntry (A : Type 0) : Type 0 where
  pub pre_prepare : Option (Verifiable PrePrepare)
  pub requests : List (Request A)
  pub prepares : Quorum Prepare
  pub commits : Quorum Commit
  pub progress_timer : Timer
  pub state_transfer_timer : Timer

abbrev pub Quorums : Type 0 → Type 0
Quorums M = Map (Quorum M)

pub record State (S A : Type 0) : Type 0 where
  pub id : ℕ
  pub config : PublicParameters
  pub replies : Map (ℕ × Option Reply)
  pub requests : List (Request A)
  pub view_num : ℕ
  pub new_views : Map (Verifiable NewView)
  pub log : List (LogEntry A)
  pub prepare_quorums : Quorums Prepare
  pub commit_quorums : Quorums Commit
  pub commit_num : ℕ
  pub app : S
  pub do_view_change_timer : Timer
  pub progress_view_change_timer : Timer
  pub view_changes : Quorums ViewChange
  pub pending_prepares : Map (List (Verifiable Prepare))
  pub pending_commits : Map (List (Verifiable Commit))

-- A message and its destination: one replica, `All`, or a client's address.
pub data Send (A : Type 0) : Type 0 where
  to_replica : ℕ → ToReplica A → Send A
  to_all : ToReplica A → Send A
  to_client : A → Reply → Send A

-- The closures that the handlers submit to the crypto worker.
pub data Work (A : Type 0) : Type 0 where
  sign_batch : ℕ → ℕ → List (Request A) → Work A
  sign_prepare : Prepare → Work A
  sign_commit : Commit → Work A
  sign_view_change : ViewChange → Work A
  sign_new_view : ℕ → Quorum ViewChange → Work A
  verify_pre_prepare : ℕ → Verifiable PrePrepare → List (Request A) → Work A
  verify_prepare : Verifiable Prepare → Work A
  verify_commit : Verifiable Commit → Work A
  verify_view_change : Verifiable ViewChange → ℕ → ℕ → Work A
  verify_new_view : Verifiable NewView → ℕ → ℕ → Work A

pub record Context (A : Type 0) : Type 0 where
  pub sent : List (Send A)
  pub submitted : List (Work A)
  pub schedule : Schedule TimerEvent

-- `self` and `context`, what a handler works on.
pub record Node (S A : Type 0) : Type 0 where
  pub state : State S A
  pub open state use *
  pub context : Context A

-- A call on a timer: the timer and the schedule change, and nothing else.
abbrev pub Timing : Type 0
Timing = Exec (Timer.Timed (schedule_event TimerEvent)) (Unit {0})

abbrev pub no_op_digest : H256
no_op_digest = 0

module _ {S A : Type 0} where
  unfoldable pub new : ℕ → S → PublicParameters → State S A
  new id app config = record {
    id = id;
    config = config;
    replies = [];
    requests = [];
    view_num = 0;
    new_views = [];
    log = [];
    prepare_quorums = [];
    commit_quorums = [];
    commit_num = 0;
    app = app;
    do_view_change_timer = Timer.new config.view_change_delay;
    progress_view_change_timer = Timer.new config.progress_view_change_interval;
    view_changes = [];
    pending_prepares = [];
    pending_commits = [];
  }

  abbrev pub is_primary : State S A → Bool
  is_primary s = s.view_num % s.config.num_replica == s.id

  abbrev pub view_change : State S A → Bool
  view_change s = not (s.view_num == 0) && not (Map.contains_key s.view_num s.new_views)

  abbrev pub op_num : State S A → ℕ
  op_num s = max (u32 (length s.log)) 1

  abbrev pub default_entry : State S A → LogEntry A
  default_entry s = record {
    pre_prepare = none;
    requests = [];
    prepares = [];
    commits = [];
    progress_timer = Timer.new s.config.progress_prepare_interval;
    state_transfer_timer = Timer.new s.config.state_transfer_delay;
  }

  -- An assignment to fields of `self`.
  abbrev pub modify_state : (State S A → State S A) → Exec (Node S A) (Unit {0})
  modify_state f = modify (λ n. record n { state = f n.state })

  abbrev pub send : Send A → Exec (Node S A) (Unit {0})
  send m =
      modify (λ n. record n { context = record (n.context) { sent = n.context.sent ++ m ∷ [] } })

  abbrev pub submit : Work A → Exec (Node S A) (Unit {0})
  submit w =
      modify (λ n. record n {
        context = record (n.context) { submitted = n.context.submitted ++ w ∷ [] };
      })

  -- `self.log[op_num]`, which panics out of bounds.
  abbrev pub entry_at : ℕ → Exec (Node S A) (LogEntry A)
  entry_at op = self >>= λ n. or_fail panic (get_elem? n.log op)

  abbrev pub put_entry : ℕ → LogEntry A → Exec (Node S A) (Unit {0})
  put_entry op e = modify_state (λ s. record s { log = set s.log op e })

  -- `if self.log.get(op_num).is_none() { self.log.resize(op_num + 1, self.default_entry()) }`
  abbrev pub extend_log : ℕ → State S A → State S A
  extend_log op s =
      if is_none (get_elem? s.log op)
      then record s { log = resize s.log (suc op) (default_entry s) }
      else s

  abbrev put_schedule : Schedule TimerEvent → Node S A → Node S A
  put_schedule c n = record n { context = record (n.context) { schedule = c } }

  unfoldable pub on_do_view_change_timer : Timing → Exec (Node S A) (Unit {0})
  on_do_view_change_timer =
      zoom (λ n. (n.do_view_change_timer, n.context.schedule))
        (λ t n.
          put_schedule t.1 (record n { state = record (n.state) { do_view_change_timer = t.0 } }))

  unfoldable pub on_progress_view_change_timer : Timing → Exec (Node S A) (Unit {0})
  on_progress_view_change_timer =
      zoom (λ n. (n.progress_view_change_timer, n.context.schedule))
        (λ t n.
          put_schedule t.1
            (record n { state = record (n.state) { progress_view_change_timer = t.0 } }))

  unfoldable pub on_progress_timer : ℕ → Timing → Exec (Node S A) (Unit {0})
  on_progress_timer op call = do
    e ← entry_at op
    zoom (λ n. (e.progress_timer, n.context.schedule))
        (λ t n. put_schedule t.1 (record n {
          state = record (n.state) { log = set n.log op (record e { progress_timer = t.0 }) };
        }))
        call

  unfoldable pub on_state_transfer_timer : ℕ → Timing → Exec (Node S A) (Unit {0})
  on_state_transfer_timer op call = do
    e ← entry_at op
    zoom (λ n. (e.state_transfer_timer, n.context.schedule))
        (λ t n. put_schedule t.1 (record n {
          state = record (n.state) { log = set n.log op (record e { state_transfer_timer = t.0 }) };
        }))
        call

  -- A call on the timer of an entry that leaves the log.
  unfoldable pub on_dropped_timer : Timer → Timing → Exec (Node S A) (Unit {0})
  on_dropped_timer timer = zoom (λ n. (timer, n.context.schedule)) (λ t n. put_schedule t.1 n)
