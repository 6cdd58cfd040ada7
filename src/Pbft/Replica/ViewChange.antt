-- ===== src/Pbft/Replica/ViewChange.antt =====
-- src/pbft/replica.rs: leaving a view, and collecting the votes for a new one.
pub mod Votes
pub mod Carry
use mur_mesh.Prelude.{
  ℕ, zero, suc, ◌+◌, ◌-◌, Bool, true, false, Option, none, some, List, [], ◌∷◌, ◌++◌, ◌||◌, ◌&&◌,
  not, ltb, leb, sub_usize, add_u32, ◌==◌, if◌then◌else◌, length, is_empty, map,
}
use mur_mesh.Exec.{
  when◌then◌else◌, Exec, Outcome, ok, err, bail, panic, pure, fail, self, assert, match_option,
  ◌>>=◌, ◌>>◌,
}
use mur_mesh.Map
use mur_mesh.Crypto.{Verifiable}
use mur_mesh.Timer
use mur_mesh.Model.Schedule.{schedule_event}
use mur_mesh.Pbft.Messages.{
  PrePrepare, Prepare, ViewChange, NewView, Quorum, QueryNewView, ToReplica,
}
use mur_mesh.Pbft.Replica.State.{
  LogEntry, State, Node, TimerEvent, to_all, to_replica, sign_view_change, sign_new_view,
  verify_view_change, no_op_digest, is_primary, view_change, modify_state, send, submit,
  on_do_view_change_timer, on_progress_view_change_timer,
}

-- The prepared slots, each with its certificate: the `filter_map` of `do_view_change`.
unfoldable pub prepared_slots :
    {A : Type 0} → List (LogEntry A) → List (Verifiable PrePrepare × Quorum Prepare)
prepared_slots [] = []
prepared_slots (e ∷ es) =
    let rest = prepared_slots es in
    if is_empty e.prepares
    then rest
    else (elim e.pre_prepare [ none ↦ rest | some p ↦ (p, e.prepares) ∷ rest ])

-- The PrePrepares that the votes carry over, by op number.
unfoldable pub carry_slots :
    ℕ
    → List (Verifiable PrePrepare × Quorum Prepare)
    → Map.Map PrePrepare
    → Outcome (Map.Map PrePrepare)
carry_slots view [] m = ok m
carry_slots view ((prepared, _) ∷ slots) m =
    let op = prepared.inner.op_num in
    let fresh : PrePrepare = record {
      view_num = view;
      op_num = op;
      digest = prepared.inner.digest;
    } in
    let p : PrePrepare = elim (Map.get op m) [ none ↦ fresh | some q ↦ q ] in
    let rest = carry_slots view slots (Map.insert op p m) in
    if p.digest == prepared.inner.digest then rest else err bail

unfoldable pub carry_votes :
    ℕ → Quorum ViewChange → Map.Map PrePrepare → Outcome (Map.Map PrePrepare)
unfolding carry_slots
carry_votes view [] m = ok m
carry_votes view ((_, vote) ∷ votes) m = elim (carry_slots view vote.inner.log m) [
  | ok m' ↦ carry_votes view votes m'
  | err e ↦ err e
]

-- `(first..first + k).map(..)`, the no-ops of a gap.
unfoldable pub no_ops : ℕ → ℕ → ℕ → List PrePrepare
no_ops view first zero = []
no_ops view first (suc k) =
    record { view_num = view; op_num = first; digest = no_op_digest } ∷ no_ops view (suc first) k

-- The loop over the carried PrePrepares after one for the slot `last_op`.
unfoldable pub fill_gaps : ℕ → ℕ → List PrePrepare → Outcome (List PrePrepare)
unfolding no_ops
fill_gaps view last_op [] = ok []
fill_gaps view last_op (p ∷ ps) =
    let rest = fill_gaps view p.op_num ps in
    if leb last_op p.op_num
    then (elim rest [
      | ok ps' ↦ ok (no_ops view last_op (p.op_num - last_op) ++ p ∷ ps')
      | err e ↦ err e
    ])
    else err panic

unfoldable pub lay_out : ℕ → List PrePrepare → Outcome (List PrePrepare)
unfolding fill_gaps
lay_out view [] = ok (record { view_num = view; op_num = 1; digest = no_op_digest } ∷ [])
lay_out view (p ∷ ps) = elim (fill_gaps view p.op_num ps) [ ok ps' ↦ ok (p ∷ ps') | err e ↦ err e ]

unfoldable pub pre_prepares_for_view_changes : ℕ → Quorum ViewChange → Outcome (List PrePrepare)
unfolding carry_votes lay_out
pre_prepares_for_view_changes view votes = elim (carry_votes view votes []) [
  | ok m ↦ lay_out view (Map.values m)
  | err e ↦ err e
]

abbrev pub votes_for : ℕ → Map.Map (Quorum ViewChange) → Quorum ViewChange
votes_for view m = elim (Map.get view m) [ none ↦ [] | some q ↦ q ]

module _ {S A : Type 0} where
  unfoldable pub recv_query_new_view : QueryNewView → Exec (Node S A) (Unit {0})
  recv_query_new_view q = do
    n ← self
    match_option (Map.get q.view_num n.new_views) (pure tt)
        (λ new_view. send (to_replica q.replica_id (ToReplica.new_view new_view)))

  -- `do_view_change`: a vote for the current view number is submitted for signing.
  unfoldable pub submit_view_change : Exec (Node S A) (Unit {0})
  unfolding prepared_slots
  submit_view_change = do
    n ← self
    submit (
        sign_view_change
          (record { view_num = n.view_num; log = prepared_slots n.log; replica_id = n.id }))

  -- The vote is submitted, and will be again.
  unfoldable pub keep_voting : Exec (Node S A) (Unit {0})
  unfolding submit_view_change
  keep_voting = do
    on_progress_view_change_timer
        (Timer.ensure_set (schedule_event TimerEvent) TimerEvent.progress_view_change)
    submit_view_change

  unfoldable pub do_view_change : ℕ → Exec (Node S A) (Unit {0})
  unfolding keep_voting
  do_view_change view = do
    n ← self
    assert (leb n.view_num view)
    modify_state (λ s. record s { view_num = view })
    on_do_view_change_timer (Timer.unset (schedule_event TimerEvent))
    keep_voting

  unfoldable pub progress_view_change : Exec (Node S A) (Unit {0})
  unfolding submit_view_change
  progress_view_change = submit_view_change

  abbrev pub have_entered : ℕ → State S A → Bool
  have_entered view s = ltb view s.view_num || (s.view_num == view && not (view_change s))

  -- `self.config.num_replica - self.config.num_faulty`
  abbrev pub majority : State S A → ℕ
  majority s = sub_usize s.config.num_replica s.config.num_faulty

  -- Enough votes are in: the new primary submits the NewView, a backup starts to wait for it.
  unfoldable pub lead_or_wait : Quorum ViewChange → Exec (Node S A) (Unit {0})
  lead_or_wait votes = do
    n ← self
    when is_primary n.state
        then submit (sign_new_view n.view_num votes)
        else on_do_view_change_timer (
            Timer.ensure_set (schedule_event TimerEvent)
              (TimerEvent.do_view_change (add_u32 n.view_num 1)))

  unfoldable pub finish_view_change : ℕ → Quorum ViewChange → Exec (Node S A) (Unit {0})
  unfolding lead_or_wait
  finish_view_change view votes = do
    modify_state (λ s. record s { view_num = view })
    lead_or_wait votes

  unfoldable pub insert_view_change : Verifiable ViewChange → Exec (Node S A) (Unit {0})
  unfolding finish_view_change
  insert_view_change v = do
    n ← self
    let view = v.inner.view_num
    let votes = votes_for view n.view_changes
    let votes' = Map.insert v.inner.replica_id v votes
    when have_entered view n.state then pure tt else (do
      modify_state (λ s. record s { view_changes = Map.insert view votes s.view_changes })
      when leb (majority n.state) (length votes) then pure tt else (do
        modify_state (λ s. record s { view_changes = Map.insert view votes' s.view_changes })
        when length votes' == majority n.state then finish_view_change view votes' else pure tt))

  unfoldable pub signed_view_change : Verifiable ViewChange → Exec (Node S A) (Unit {0})
  unfolding insert_view_change
  signed_view_change v = do
    n ← self
    when v.inner.view_num == n.view_num
        then (do send (to_all (ToReplica.view_change v)); insert_view_change v)
        else pure tt

  unfoldable pub recv_view_change : Verifiable ViewChange → Exec (Node S A) (Unit {0})
  recv_view_change v = do
    n ← self
    when ltb v.inner.view_num n.view_num
        then pure tt
        else submit (verify_view_change v n.config.num_replica n.config.num_faulty)

  unfoldable pub verified_view_change : Verifiable ViewChange → Exec (Node S A) (Unit {0})
  unfolding insert_view_change
  verified_view_change v = insert_view_change v
