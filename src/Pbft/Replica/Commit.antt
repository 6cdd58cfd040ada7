-- ===== src/Pbft/Replica/Commit.antt =====
-- src/pbft/replica.rs: the votes of the second phase, and the execution of committed slots in order.
pub mod Drain
pub mod Batches
pub mod Execution
pub mod Frame
use mur_mesh.Prelude.{
  ℕ, zero, suc, ◌+◌, ◌-◌, Bool, true, false, Option, none, some, List, [], ◌∷◌, ◌++◌, ◌||◌, ◌&&◌,
  not, ltb, leb, sub_usize, add_u32, ◌==◌, if◌then◌else◌, length, get_elem?, set, pop, is_empty,
}
use mur_mesh.Exec.{
  when◌then◌else◌, Exec, panic, out_of_fuel, pure, fail, self, assert, or_fail, match_option, zoom,
  ◌>>=◌, ◌>>◌,
}
use mur_mesh.Map
use mur_mesh.Crypto.{Bytes, Verifiable}
use mur_mesh.Timer
use mur_mesh.Model.Schedule.{schedule_event}
use mur_mesh.Pbft.Messages.{Request, PrePrepare, Commit, Reply, Quorum, ToReplica}
use mur_mesh.Pbft.Replica.State.{
  LogEntry, State, Node, TimerEvent, to_all, to_client, verify_commit, no_op_digest, is_primary,
  modify_state, send, submit, entry_at, on_do_view_change_timer, on_progress_timer,
  on_state_transfer_timer,
}
use mur_mesh.Pbft.Replica.Ordering.{query_view, is_foreign, close_batch, has_room, room_bound}
use mur_mesh.Pbft.Replica.Prepare.{add_vote, rounds}

-- The slot is known not to need the vote: it is committed, or holds another digest.
abbrev pub commit_useless : {A : Type 0} → Verifiable Commit → Option (LogEntry A) → Bool
commit_useless c none = false
commit_useless c (some e) =
    not (is_empty e.commits)
    || (elim e.pre_prepare [ none ↦ false | some q ↦ not (c.inner.digest == q.inner.digest) ])

-- `self.replies.get(..).map(|(known, _)| *known <= seq).unwrap_or(true)`
abbrev pub not_later : ℕ → Option (ℕ × Option Reply) → Bool
not_later seq none = true
not_later seq (some known) = leb known.0 seq

module _ {S A : Type 0} where
  unfoldable pub submit_commit : Verifiable Commit → Exec (Node S A) Bool
  unfolding query_view
  submit_commit c = do
    n ← self
    when is_foreign c.inner.view_num n.state
        then (do query_view c.inner.replica_id c.inner.view_num; pure false)
        else (when commit_useless c (get_elem? n.log c.inner.op_num)
            then pure false
            else (do submit (verify_commit c); pure true))

  -- A dummy entry says that a vote for the slot is being verified.
  unfoldable pub note_commit : ℕ → Bool → Exec (Node S A) (Unit {0})
  note_commit op submitted =
      when submitted
      then modify_state (λ s. record s { pending_commits = Map.insert op [] s.pending_commits })
      else pure tt

  unfoldable pub recv_commit : Verifiable Commit → Exec (Node S A) (Unit {0})
  unfolding submit_commit note_commit
  recv_commit c = do
    n ← self
    let op = c.inner.op_num
    match_option (Map.get op n.pending_commits)
        (do submitted ← submit_commit c; note_commit op submitted)
        (λ pending.
          modify_state (λ s. record s {
            pending_commits = Map.insert op (pending ++ c ∷ []) s.pending_commits;
          }))

  unfoldable pub next_commit : ℕ → ℕ → Exec (Node S A) (Unit {0})
  unfolding submit_commit
  next_commit zero op = fail out_of_fuel
  next_commit (suc fuel) op =
      let again = next_commit fuel op in
      self >>= λ n. match_option (Map.get op n.pending_commits) (pure tt) (λ pending.
        match_option (pop pending)
          (modify_state (λ s. record s { pending_commits = Map.remove op s.pending_commits }))
          (λ popped. do
            modify_state
                (λ s. record s { pending_commits = Map.insert op popped.1 s.pending_commits })
            submitted ← submit_commit popped.0
            when submitted then pure tt else again))

  unfoldable pub drain_commits : ℕ → Exec (Node S A) (Unit {0})
  unfolding next_commit
  drain_commits op = do n ← self; next_commit (rounds op n.pending_commits) op

  -- `while !self.requests.is_empty() && self.op_num() <= ..`: one round for each slot
  -- below the bound, and one to stop.
  unfoldable pub close_batches : ℕ → Exec (Node S A) (Unit {0})
  unfolding close_batch
  close_batches zero = fail out_of_fuel
  close_batches (suc fuel) =
      let again = close_batches fuel in
      self >>= λ n.
      when not (is_empty n.requests) && has_room n.state then close_batch >> again else pure tt

  -- The primary stops to resend the PrePrepare, a backup to wait for progress.
  unfoldable pub stop_timer : Bool → ℕ → Exec (Node S A) (Unit {0})
  stop_timer primary op =
      when primary
      then on_progress_timer op (Timer.unset (schedule_event TimerEvent))
      else on_do_view_change_timer (Timer.ensure_unset (schedule_event TimerEvent))

  -- The slots from `op` on wait for what they miss.
  unfoldable pub await_slots : ℕ → ℕ → Exec (Node S A) (Unit {0})
  await_slots zero op = pure tt
  await_slots (suc k) op = do
    on_state_transfer_timer op
        (Timer.ensure_set (schedule_event TimerEvent) (TimerEvent.state_transfer op))
    await_slots k (suc op)

  -- After execution: the primary goes on proposing, a backup waits for slots before this one.
  unfoldable pub after_execute : ℕ → Exec (Node S A) (Unit {0})
  unfolding close_batches await_slots
  after_execute op = do
    n ← self
    when is_primary n.state
        then close_batches (suc (room_bound n.state))
        else (when ltb n.commit_num op
            then await_slots (op - n.commit_num) (n.commit_num + 1)
            else pure tt)

  -- `commit_quorum.len() < self.config.num_replica - self.config.num_faulty`
  abbrev pub few_commits : Quorum Commit → State S A → Bool
  few_commits q s = ltb (length q) (sub_usize s.config.num_replica s.config.num_faulty)

  -- The reply is remembered unless a later request of the client has been.
  unfoldable pub remember : ℕ → Reply → Exec (Node S A) (Unit {0})
  remember client reply = do
    n ← self
    when not_later reply.seq (Map.get client n.replies)
        then modify_state
            (λ s. record s { replies = Map.insert client (reply.seq, some reply) s.replies })
        else pure tt

  unfoldable pub answer : PrePrepare → Request A → Bytes → Exec (Node S A) (Unit {0})
  unfolding remember
  answer p r result = do
    n ← self
    let reply : Reply = record {
      seq = r.seq;
      result = result;
      view_num = p.view_num;
      replica_id = n.id;
    }
    remember r.client_id reply
    send (to_client r.client_addr reply)

-- The application: `App::execute`, which may fail, and may have changed its state all the same.
module _ {S A : Type 0} (execute : Bytes → Exec S Bytes) where
  unfoldable pub execute_op : Bytes → Exec (Node S A) Bytes
  execute_op = λ op.
      zoom (λ m. m.app) (λ app m. record m { state = record (m.state) { app = app } }) (execute op)

  unfoldable pub execute_request : PrePrepare → Request A → Exec (Node S A) (Unit {0})
  unfolding execute_op answer
  execute_request p r = do result ← execute_op r.op; answer p r result

  unfoldable pub execute_requests : PrePrepare → List (Request A) → Exec (Node S A) (Unit {0})
  unfolding execute_request
  execute_requests p [] = pure tt
  execute_requests p (r ∷ rs) = do execute_request p r; execute_requests p rs

  -- One round of the execution loop, on the slot after `commit_num`.
  unfoldable pub execute_slot : LogEntry A → Verifiable PrePrepare → Exec (Node S A) (Unit {0})
  unfolding execute_requests
  execute_slot entry p = do
    n ← self
    modify_state (λ s. record s { commit_num = add_u32 s.commit_num 1 })
    on_state_transfer_timer (n.commit_num + 1) (Timer.ensure_unset (schedule_event TimerEvent))
    execute_requests p.inner entry.requests

  -- The slots that are committed and have their requests, without a gap.
  unfoldable pub execute_slots : ℕ → Exec (Node S A) (Unit {0})
  unfolding execute_slot
  execute_slots zero = fail out_of_fuel
  execute_slots (suc fuel) =
      let again = execute_slots fuel in
      self >>= λ n. match_option (get_elem? n.log (n.commit_num + 1)) (pure tt) (λ entry.
        when is_empty entry.commits
        then pure tt
        else (or_fail panic entry.pre_prepare >>= λ p.
            when not (p.inner.digest == no_op_digest) && is_empty entry.requests
            then pure tt
            else execute_slot entry p >> again))

  -- One round for each slot of the log is enough, and one to find no more.
  unfoldable pub execute_committed : ℕ → Exec (Node S A) (Unit {0})
  unfolding execute_slots after_execute
  execute_committed op = do n ← self; execute_slots (suc (length n.log)); after_execute op

  -- The slot becomes committed.
  unfoldable pub finish_commit :
      Verifiable Commit → Quorum Commit → LogEntry A → Exec (Node S A) (Unit {0})
  unfolding stop_timer execute_committed
  finish_commit c quorum entry = do
    n ← self
    let op = c.inner.op_num
    modify_state (λ s. record s {
      log = set s.log op (record entry { commits = quorum });
      commit_quorums = Map.remove op s.commit_quorums;
      pending_commits = Map.remove op s.pending_commits;
    })
    stop_timer (is_primary n.state) op
    execute_committed op

  unfoldable pub insert_commit : Verifiable Commit → Exec (Node S A) (Unit {0})
  unfolding finish_commit
  insert_commit c = do
    n ← self
    let op = c.inner.op_num
    let quorum = add_vote op c.inner.replica_id c n.commit_quorums
    modify_state (λ s. record s { commit_quorums = Map.insert op quorum s.commit_quorums })
    when few_commits quorum n.state
        then pure tt
        else match_option (get_elem? n.log op) (pure tt) (λ entry. do
          assert (is_empty entry.commits)
          when is_empty entry.prepares && not (n.config.num_replica == 1)
              then pure tt
              else finish_commit c quorum entry)

  unfoldable pub signed_commit : Verifiable Commit → Exec (Node S A) (Unit {0})
  unfolding insert_commit
  signed_commit c = do
    n ← self
    when not (c.inner.view_num == n.view_num) then pure tt else (do
      send (to_all (ToReplica.commit c))
      e ← entry_at c.inner.op_num
      when is_empty e.commits then insert_commit c else pure tt)

  unfoldable pub verified_commit : Verifiable Commit → Exec (Node S A) (Unit {0})
  unfolding insert_commit drain_commits
  verified_commit c = do
    n ← self
    let op = c.inner.op_num
    when not (c.inner.view_num == n.view_num) || not (Map.contains_key op n.pending_commits)
        then pure tt
        else (do insert_commit c; drain_commits op)
