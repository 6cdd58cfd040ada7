-- ===== src/Pbft/Replica/Refine/Timers.antt =====
-- The law of the step relation, and the calls on timers.
use mur_mesh.Prelude.{ℕ, get_elem?}
use mur_mesh.Exec.{panic}
use mur_mesh.Exec.Steps.{Law, Steps, At-or_fail, Steps-of}
use mur_mesh.Timer.{Timer}
use mur_mesh.Pbft.Replica.State.{
  Node, Timing, on_do_view_change_timer, on_progress_view_change_timer, on_progress_timer,
  on_state_transfer_timer, on_dropped_timer,
}
use mur_mesh.Pbft.Replica.Step.{Step, Reach, here, Reach-trans, Reach-of_step}

-- The state after is reached by steps from the state before.
abbrev pub steps_law : (S A : Type 0) → Law (Node S A)
steps_law S A = record {
  Rel = λ n m. Reach n.state m.state;
  stay = λ n. here;
  join = λ p q. Reach-trans p q;
}

module _ {S A : Type 0} where
  pub on_do_view_change_timer-Steps :
      (call : Timing) → Steps (steps_law S A) (on_do_view_change_timer call)
  unfolding on_do_view_change_timer
  on_do_view_change_timer-Steps call =
      Steps-of λ n. record { step = Reach-of_step (Step.time_view_change n.state _) }

  pub on_progress_view_change_timer-Steps :
      (call : Timing) → Steps (steps_law S A) (on_progress_view_change_timer call)
  unfolding on_progress_view_change_timer
  on_progress_view_change_timer-Steps call =
      Steps-of λ n. record { step = Reach-of_step (Step.time_progress_view_change n.state _) }

  pub on_dropped_timer-Steps :
      (timer : Timer) (call : Timing) → Steps (steps_law S A) (on_dropped_timer timer call)
  unfolding on_dropped_timer
  on_dropped_timer-Steps timer call = Steps-of λ n. record { step = here }

  pub on_progress_timer-Steps :
      (op : ℕ) (call : Timing) → Steps (steps_law S A) (on_progress_timer op call)
  unfolding on_progress_timer
  on_progress_timer-Steps op call = Steps-of λ n.
      At-or_fail panic (get_elem? n.log op) _ _ here
        λ e found. record { step = Reach-of_step (Step.time_progress n.state op e _ found) }

  pub on_state_transfer_timer-Steps :
      (op : ℕ) (call : Timing) → Steps (steps_law S A) (on_state_transfer_timer op call)
  unfolding on_state_transfer_timer
  on_state_transfer_timer-Steps op call = Steps-of λ n.
      At-or_fail panic (get_elem? n.log op) _ _ here
        λ e found. record { step = Reach-of_step (Step.time_state_transfer n.state op e _ found) }
