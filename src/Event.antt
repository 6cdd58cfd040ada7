-- ===== src/Event.antt =====
-- src/event.rs: timers as resources. A scheduler is whatever implements `ScheduleEvent`.
use mur_mesh.Prelude.{ℕ}
use mur_mesh.Exec.{Exec}

-- The id of a timer that its allocator keeps scheduling.
abbrev pub ActiveTimer : Type 0
ActiveTimer = ℕ

-- `trait ScheduleEvent<M>`; a period is a number of nanoseconds.
pub record ScheduleEvent (M : Type 0) : Type 1 where
  pub State : Type 0
  pub set : ℕ → M → Exec State ActiveTimer
  pub unset : ActiveTimer → Exec State (Unit {0})
