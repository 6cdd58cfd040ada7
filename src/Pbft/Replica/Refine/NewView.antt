-- ===== src/Pbft/Replica/Refine/NewView.antt =====
-- Entering a view.
use mur_mesh.Prelude.{ℕ, ◌+◌, List, [], ◌∷◌, get_last?, drop, not, leb, ltb, u32, ◌==◌}
use mur_mesh.Exec.{panic}
use mur_mesh.Exec.Steps.{Steps, At-end, At-call, At-if, At-bind, At-or_fail, At-assert, Steps-of}
use mur_mesh.Crypto.{Verifiable}
use mur_mesh.Pbft.Messages.{PrePrepare, NewView}
use mur_mesh.Pbft.Replica.State.{
  LogEntry, is_primary, view_change, op_num, on_do_view_change_timer, on_progress_view_change_timer,
  on_progress_timer, on_dropped_timer,
}
use mur_mesh.Pbft.Replica.ViewChange.{have_entered}
use mur_mesh.Pbft.Replica.NewView.{
  vote_again, enter_slot, enter_slots, drop_entries, drop_slots_from, install_view, stop_voting,
  settle_view, cut_log, enter_view, signed_new_view, recv_new_view, verified_new_view,
}
use mur_mesh.Pbft.Replica.Step.{Step, here, next}
use mur_mesh.Pbft.Replica.Refine.Timers.{
  steps_law, on_do_view_change_timer-Steps, on_progress_view_change_timer-Steps,
  on_progress_timer-Steps, on_dropped_timer-Steps,
}
use mur_mesh.Pbft.Replica.Refine.Ordering.{not-false}
use mur_mesh.Pbft.Replica.Refine.ViewChange.{view_num-le}

module _ {S A : Type 0} where
  vote_again-Steps : (p : Verifiable PrePrepare) → Steps (steps_law S A) (vote_again p)
  unfolding vote_again
  vote_again-Steps p = Steps-of λ n.
      At-if (is_primary n.state) (λ primary. (on_progress_timer-Steps _ _).at n)
        (λ backup. At-end here)

  enter_slot-Steps : (p : Verifiable PrePrepare) → Steps (steps_law S A) (enter_slot p)
  unfolding enter_slot
  enter_slot-Steps p = Steps-of λ n.
      let reserved = next here (Step.reserve n.state p.inner.op_num) in
      At-or_fail panic _ _ _ reserved λ e found.
        At-bind (on_progress_timer p.inner.op_num _) (λ _. vote_again p) _
          (At-call (next reserved (Step.restart _ p e found)) ((on_progress_timer-Steps _ _).at _))
          (λ _. vote_again-Steps p)

  enter_slots-Steps : (ps : List (Verifiable PrePrepare)) → Steps (steps_law S A) (enter_slots ps)
  unfolding enter_slots
  enter_slots-Steps [] = Steps-of λ n. At-end here
  enter_slots-Steps (p ∷ ps) = Steps-of λ n.
      At-bind (enter_slot p) (λ _. enter_slots ps) n ((enter_slot-Steps p).at n)
        (λ _. enter_slots-Steps ps)

  drop_entries-Steps : (es : List (LogEntry A)) → Steps (steps_law S A) (drop_entries es)
  unfolding drop_entries
  drop_entries-Steps [] = Steps-of λ n. At-end here
  drop_entries-Steps (e ∷ es) = Steps-of λ n.
      At-bind (on_dropped_timer e.progress_timer _) (λ _. drop_entries es) n
        ((on_dropped_timer-Steps _ _).at n) (λ _. drop_entries-Steps es)

  drop_slots_from-Steps : (op : ℕ) → Steps (steps_law S A) (drop_slots_from op)
  unfolding drop_slots_from
  drop_slots_from-Steps op = Steps-of λ n.
      At-assert (leb (u32 op) (op_num n.state)) _ _ here λ long.
        At-if (ltb (u32 op) (op_num n.state))
          (λ longer.
            At-call (next here (Step.truncate n.state op))
              ((drop_entries-Steps (drop op n.log)).at _))
          (λ exact. At-end here)

  install_view-Steps : (v : Verifiable NewView) → Steps (steps_law S A) (install_view v)
  unfolding install_view
  install_view-Steps v = Steps-of λ n. At-end (next here (Step.install n.state v))

  stop_voting-Steps : (v : Verifiable NewView) → Steps (steps_law S A) (stop_voting v)
  unfolding stop_voting
  stop_voting-Steps v = Steps-of λ n.
      At-bind (on_progress_view_change_timer _) (λ _. install_view v) n
        ((on_progress_view_change_timer-Steps _).at n) (λ _. install_view-Steps v)

  settle_view-Steps : (v : Verifiable NewView) → Steps (steps_law S A) (settle_view v)
  unfolding settle_view
  settle_view-Steps v = Steps-of λ n.
      At-bind (on_do_view_change_timer _) (λ _. stop_voting v) _
        (At-call (next here (Step.clear n.state)) ((on_do_view_change_timer-Steps _).at _))
        (λ _. stop_voting-Steps v)

  cut_log-Steps : (v : Verifiable NewView) → Steps (steps_law S A) (cut_log v)
  unfolding cut_log
  cut_log-Steps v = Steps-of λ n.
      At-or_fail panic (get_last? v.inner.pre_prepares) _ _ here λ last found.
        At-bind (drop_slots_from (last.inner.op_num + 1)) (λ _. settle_view v) n
          ((drop_slots_from-Steps _).at n) (λ _. settle_view-Steps v)

  enter_view-Steps : (v : Verifiable NewView) → Steps (steps_law S A) (enter_view v)
  unfolding enter_view
  enter_view-Steps v = Steps-of λ n.
      At-assert (not (have_entered v.inner.view_num n.state)) _ _ here λ outside.
        let moved =
          next here (
            Step.move_view n.state v.inner.view_num
              (view_num-le _ n.state (not-false _ outside))) in
        At-assert (view_change (record (n.state) { view_num = v.inner.view_num })) _ _ moved λ new.
          At-bind (enter_slots v.inner.pre_prepares) (λ _. cut_log v) _
            (At-call moved ((enter_slots-Steps _).at _)) (λ _. cut_log-Steps v)

  pub signed_new_view-Steps : (v : Verifiable NewView) → Steps (steps_law S A) (signed_new_view v)
  unfolding signed_new_view
  signed_new_view-Steps v = Steps-of λ n.
      At-if (n.view_num == v.inner.view_num) (λ current. At-call here ((enter_view-Steps v).at _))
        (λ stale. At-end here)

  pub recv_new_view-Steps : (v : Verifiable NewView) → Steps (steps_law S A) (recv_new_view v)
  unfolding recv_new_view
  recv_new_view-Steps v = Steps-of λ n.
      At-if (have_entered v.inner.view_num n.state) (λ entered. At-end here) (λ new. At-end here)

  pub verified_new_view-Steps :
      (v : Verifiable NewView) → Steps (steps_law S A) (verified_new_view v)
  unfolding verified_new_view
  verified_new_view-Steps v = Steps-of λ n.
      At-if (have_entered v.inner.view_num n.state) (λ entered. At-end here)
        (λ outside. (enter_view-Steps v).at n)
