-- ===== src/Pbft/Replica/Ordering.antt =====
-- src/pbft/replica.rs: requests, batches and PrePrepares, up to the vote for a PrePrepare.
pub mod Batch
pub mod Duplicates
use mur_mesh.Prelude.{
  ℕ, ◌+◌, ◌%◌, Bool, true, false, Option, none, some, List, [], ◌∷◌, ◌++◌, ◌&&◌, ◌||◌, not, u8, u32,
  add_u32, ltb, leb, ◌==◌, if◌then◌else◌, length, take, drop, get_elem?, is_empty, is_none, is_some,
}
use Prim.Native.Nat.{min}
use mur_mesh.Exec.{
  when◌then◌else◌, Exec, bail, pure, self, assert, or_fail, match_option, ◌>>=◌, ◌>>◌,
}
use mur_mesh.Map
use mur_mesh.Crypto.{Verifiable}
use mur_mesh.Timer
use mur_mesh.Model.Schedule.{schedule_event}
use mur_mesh.Pbft.Messages.{
  Request, PrePrepare, Prepare, Commit, Reply, Quorum, ToReplica, QueryNewView,
}
use mur_mesh.Pbft.Replica.State.{
  LogEntry, State, Node, TimerEvent, Send, Work, to_replica, to_all, to_client, sign_batch,
  sign_prepare, sign_commit, verify_pre_prepare, is_primary, view_change, op_num, modify_state,
  send, submit, entry_at, put_entry, extend_log, on_do_view_change_timer, on_progress_timer,
}

-- `**prepared != *pre_prepare`, negated: a derived comparison, field by field.
abbrev pub pre_prepare_eq : PrePrepare → PrePrepare → Bool
pre_prepare_eq p q = p.view_num == q.view_num && p.op_num == q.op_num && p.digest == q.digest

abbrev pub prepare_matches : PrePrepare → Verifiable Prepare → Bool
prepare_matches p v = v.inner.view_num == p.view_num && v.inner.digest == p.digest

abbrev pub commit_matches : PrePrepare → Verifiable Commit → Bool
commit_matches p v = v.inner.view_num == p.view_num && v.inner.digest == p.digest

-- `if let Some(quorum) = quorums.get_mut(&op) { quorum.retain(|_, v| keep(v)) }`
abbrev pub retain_at {ℓ} : {V : Type ℓ} → ℕ → (V → Bool) → Map.Map (Map.Map V) → Map.Map (Map.Map V)
retain_at op keep m = elim (Map.get op m) [
  | none ↦ m
  | some q ↦ Map.insert op (Map.retain keep q) m
]

module _ {S A : Type 0} where
  -- A batch leaves the queue, its slot is reserved, and its signing is submitted.
  unfoldable pub close_batch : Exec (Node S A) (Unit {0})
  close_batch = do
    n ← self
    assert (is_primary n.state)
    assert (not (view_change n.state))
    assert (not (is_empty n.requests))
    let size = min (length n.requests) n.config.max_batch_size
    let op = op_num n.state
    modify_state (λ s. extend_log op (record s { requests = drop size n.requests }))
    submit (sign_batch n.view_num op (take size n.requests))

  abbrev pub room_bound : State S A → ℕ
  room_bound s = add_u32 s.commit_num (u32 s.config.num_concurrent)

  -- `self.op_num() <= self.commit_num + self.config.num_concurrent as u32`
  abbrev pub has_room : State S A → Bool
  has_room s = leb (op_num s) (room_bound s)

  -- The primary proposes the next batch if it may.
  unfoldable pub close_if_room : Exec (Node S A) (Unit {0})
  unfolding close_batch
  close_if_room = do n ← self; when has_room n.state then close_batch else pure tt

  unfoldable pub accept_request : Request A → Exec (Node S A) (Unit {0})
  unfolding close_if_room
  accept_request r = do
    n ← self
    when not (is_primary n.state)
        then (do
          send (to_replica (u8 (n.view_num % n.config.num_replica)) (ToReplica.request r))
          on_do_view_change_timer (
              Timer.ensure_set (schedule_event TimerEvent)
                (TimerEvent.do_view_change (add_u32 n.view_num 1))))
        else (do
          modify_state (λ s. record s {
            replies = Map.insert r.client_id (r.seq, none) s.replies;
            requests = s.requests ++ r ∷ [];
          })
          m ← self
          when has_room m.state then close_batch else pure tt)

  unfoldable pub resend_reply : Request A → Option Reply → Exec (Node S A) (Unit {0})
  resend_reply r reply = match_option reply (pure tt) (λ p. send (to_client r.client_addr p))

  unfoldable pub recv_request : Request A → Exec (Node S A) (Unit {0})
  unfolding accept_request resend_reply
  recv_request r = do
    n ← self
    when view_change n.state
        then pure tt
        else match_option (Map.get r.client_id n.replies) (accept_request r) (λ known.
          when ltb r.seq known.0
          then pure tt
          else (when known.0 == r.seq then resend_reply r known.1 else accept_request r))

  -- The PrePrepare goes out; a replica on its own commits at once.
  unfoldable pub announce : Verifiable PrePrepare → List (Request A) → Exec (Node S A) (Unit {0})
  announce p requests = do
    n ← self
    send (to_all (ToReplica.pre_prepare p requests))
    when n.config.num_replica == 1
        then submit (
            sign_commit (record {
              view_num = n.view_num;
              op_num = p.inner.op_num;
              digest = p.inner.digest;
              replica_id = n.id;
            }))
        else pure tt

  unfoldable pub signed_pre_prepare :
      Verifiable PrePrepare → List (Request A) → Exec (Node S A) (Unit {0})
  unfolding announce
  signed_pre_prepare p requests = do
    n ← self
    let op = p.inner.op_num
    when not (p.inner.view_num == n.view_num) then pure tt else (do
      replaced ← entry_at op
      put_entry op (record replaced { pre_prepare = some p })
      assert (is_none replaced.pre_prepare)
      e ← entry_at op
      put_entry op (record e { requests = requests })
      on_progress_timer op (Timer.set (schedule_event TimerEvent) (TimerEvent.progress_prepare op))
      announce p requests)

  unfoldable pub progress_prepare : ℕ → Exec (Node S A) (Unit {0})
  progress_prepare op = do
    e ← entry_at op
    p ← or_fail bail e.pre_prepare
    send (to_all (ToReplica.pre_prepare p e.requests))

  -- A vote of another view: its sender is asked for the NewView of a view that is not older.
  unfoldable pub query_view : ℕ → ℕ → Exec (Node S A) (Unit {0})
  query_view dest view = do
    n ← self
    when leb n.view_num view
        then send (
            to_replica dest
              (ToReplica.query_new_view (record { view_num = view; replica_id = n.id })))
        else pure tt

  -- `x.view_num != self.view_num || self.view_change()`
  abbrev pub is_foreign : ℕ → State S A → Bool
  is_foreign view s = not (view == s.view_num) || view_change s

  unfoldable pub recv_pre_prepare :
      Verifiable PrePrepare → List (Request A) → Exec (Node S A) (Unit {0})
  unfolding query_view
  recv_pre_prepare p requests = do
    n ← self
    let primary = p.inner.view_num % n.config.num_replica
    when is_foreign p.inner.view_num n.state
        then query_view (u8 primary) p.inner.view_num
        else submit (verify_pre_prepare primary p requests)

  -- The slot takes the PrePrepare, and a vote for it is submitted for signing.
  unfoldable pub accept_pre_prepare :
      Verifiable PrePrepare → List (Request A) → Exec (Node S A) (Unit {0})
  accept_pre_prepare p requests = do
    let op = p.inner.op_num
    e ← entry_at op
    put_entry op (record e { pre_prepare = some p; requests = requests })
    n ← self
    submit (
        sign_prepare (record {
          view_num = n.view_num;
          op_num = op;
          digest = p.inner.digest;
          replica_id = n.id;
        }))
    modify_state (λ s. record s {
      prepare_quorums = retain_at op (prepare_matches p.inner) s.prepare_quorums;
      commit_quorums = retain_at op (commit_matches p.inner) s.commit_quorums;
    })

  -- The slot takes the PrePrepare unless it holds a different one.
  unfoldable pub accept_if_same :
      Verifiable PrePrepare → List (Request A) → Exec (Node S A) (Unit {0})
  unfolding accept_pre_prepare
  accept_if_same p requests = do
    e ← entry_at p.inner.op_num
    match_option e.pre_prepare (accept_pre_prepare p requests) (λ prepared.
        when pre_prepare_eq prepared.inner p.inner then accept_pre_prepare p requests else pure tt)

  unfoldable pub verified_pre_prepare :
      Verifiable PrePrepare → List (Request A) → Exec (Node S A) (Unit {0})
  unfolding accept_if_same
  verified_pre_prepare p requests = do
    n ← self
    when not (p.inner.view_num == n.view_num)
        then pure tt
        else (do modify_state (extend_log p.inner.op_num); accept_if_same p requests)
