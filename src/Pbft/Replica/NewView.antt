-- ===== src/Pbft/Replica/NewView.antt =====
-- src/pbft/replica.rs: entering a view with the NewView of its primary.
use mur_mesh.Prelude.{
  ℕ, ◌+◌, none, some, List, [], ◌∷◌, not, u32, ltb, leb, add_u32, ◌==◌, if◌then◌else◌, take, drop,
  get_last?,
}
use mur_mesh.Exec.{when◌then◌else◌, Exec, panic, pure, self, assert, or_fail, ◌>>=◌, ◌>>◌}
use mur_mesh.Map
use mur_mesh.Crypto.{Verifiable}
use mur_mesh.Timer
use mur_mesh.Model.Schedule.{schedule_event}
use mur_mesh.Pbft.Messages.{PrePrepare, Request, NewView, ToReplica}
use mur_mesh.Pbft.Replica.State.{
  LogEntry, Node, TimerEvent, to_all, sign_prepare, verify_new_view, is_primary, view_change,
  op_num, modify_state, send, submit, entry_at, put_entry, extend_log, on_do_view_change_timer,
  on_progress_view_change_timer, on_progress_timer, on_dropped_timer,
}
use mur_mesh.Pbft.Replica.ViewChange.{have_entered}

-- The requests that stay in a slot that takes the PrePrepare.
abbrev pub kept_requests : {A : Type 0} → PrePrepare → LogEntry A → List (Request A)
kept_requests p e = elim e.pre_prepare [
  | none ↦ e.requests
  | some q ↦ if q.inner.digest == p.digest then e.requests else []
]

module _ {S A : Type 0} where
  -- The primary will resend the PrePrepare, a backup votes for it.
  unfoldable pub vote_again : Verifiable PrePrepare → Exec (Node S A) (Unit {0})
  vote_again p = do
    n ← self
    when is_primary n.state
        then on_progress_timer p.inner.op_num
            (Timer.set (schedule_event TimerEvent) (TimerEvent.progress_prepare p.inner.op_num))
        else submit (
            sign_prepare (record {
              view_num = n.view_num;
              op_num = p.inner.op_num;
              digest = p.inner.digest;
              replica_id = n.id;
            }))

  -- One round of the loop over the PrePrepares of the NewView.
  unfoldable pub enter_slot : Verifiable PrePrepare → Exec (Node S A) (Unit {0})
  unfolding vote_again
  enter_slot p = do
    let op = p.inner.op_num
    modify_state (extend_log op)
    e ← entry_at op
    put_entry op (record e {
      pre_prepare = some p;
      requests = kept_requests p.inner e;
      prepares = [];
      commits = [];
    })
    on_progress_timer op (Timer.ensure_unset (schedule_event TimerEvent))
    vote_again p

  unfoldable pub enter_slots : List (Verifiable PrePrepare) → Exec (Node S A) (Unit {0})
  unfolding enter_slot
  enter_slots [] = pure tt
  enter_slots (p ∷ ps) = do enter_slot p; enter_slots ps

  -- The loop over the entries that `drain` has taken off the log.
  unfoldable pub drop_entries : List (LogEntry A) → Exec (Node S A) (Unit {0})
  drop_entries [] = pure tt
  drop_entries (e ∷ es) = do
    on_dropped_timer e.progress_timer (Timer.ensure_unset (schedule_event TimerEvent))
    drop_entries es

  unfoldable pub drop_slots_from : ℕ → Exec (Node S A) (Unit {0})
  unfolding drop_entries
  drop_slots_from op = do
    n ← self
    assert (leb (u32 op) (op_num n.state))
    when ltb (u32 op) (op_num n.state)
        then (do modify_state (λ s. record s { log = take op n.log }); drop_entries (drop op n.log))
        else pure tt

  unfoldable pub install_view : Verifiable NewView → Exec (Node S A) (Unit {0})
  install_view v = modify_state (λ s. record s {
    view_changes = Map.split_off (add_u32 s.view_num 1) s.view_changes;
    new_views = Map.insert s.view_num v s.new_views;
  })

  unfoldable pub stop_voting : Verifiable NewView → Exec (Node S A) (Unit {0})
  unfolding install_view
  stop_voting v = do
    on_progress_view_change_timer (Timer.ensure_unset (schedule_event TimerEvent))
    install_view v

  -- What a replica does last on entering the view that its state names.
  unfoldable pub settle_view : Verifiable NewView → Exec (Node S A) (Unit {0})
  unfolding stop_voting
  settle_view v = do
    modify_state (λ s. record s { requests = []; prepare_quorums = []; commit_quorums = [] })
    on_do_view_change_timer (Timer.ensure_unset (schedule_event TimerEvent))
    stop_voting v

  -- The slots after the last PrePrepare go.
  unfoldable pub cut_log : Verifiable NewView → Exec (Node S A) (Unit {0})
  unfolding drop_slots_from settle_view
  cut_log v = do
    last ← or_fail panic (get_last? v.inner.pre_prepares)
    drop_slots_from (last.inner.op_num + 1)
    settle_view v

  unfoldable pub enter_view : Verifiable NewView → Exec (Node S A) (Unit {0})
  unfolding enter_slots cut_log
  enter_view v = do
    n ← self
    assert (not (have_entered v.inner.view_num n.state))
    modify_state (λ s. record s { view_num = v.inner.view_num })
    m ← self
    assert (view_change m.state)
    enter_slots v.inner.pre_prepares
    cut_log v

  unfoldable pub signed_new_view : Verifiable NewView → Exec (Node S A) (Unit {0})
  unfolding enter_view
  signed_new_view v = do
    n ← self
    when n.view_num == v.inner.view_num
        then (do send (to_all (ToReplica.new_view v)); enter_view v)
        else pure tt

  unfoldable pub recv_new_view : Verifiable NewView → Exec (Node S A) (Unit {0})
  recv_new_view v = do
    n ← self
    when have_entered v.inner.view_num n.state
        then pure tt
        else submit (verify_new_view v n.config.num_replica n.config.num_faulty)

  unfoldable pub verified_new_view : Verifiable NewView → Exec (Node S A) (Unit {0})
  unfolding enter_view
  verified_new_view v = do
    n ← self
    when have_entered v.inner.view_num n.state then pure tt else enter_view v
