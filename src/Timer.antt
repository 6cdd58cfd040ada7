-- ===== src/Timer.antt =====
-- src/timer.rs: a timer that is armed at most once, over any scheduler.
pub mod Rounds
use mur_mesh.Prelude.{ℕ, Bool, Option, none, some, if◌then◌else◌, is_some, is_none}
use mur_mesh.Exec.{
  when◌then◌else◌, Exec, bail, pure, self, modify, ensure, or_fail, zoom, ◌>>=◌, ◌>>◌,
}
use mur_mesh.Event.{ActiveTimer, ScheduleEvent}

pub record Timer : Type 0 where
  pub id : Option ActiveTimer
  pub period : ℕ

abbrev pub new : ℕ → Timer
new period = record { id = none; period = period }

module _ {M : Type 0} (c : ScheduleEvent M) where
  open c use {State}

  -- The timer and the context that it is set in.
  abbrev pub Timed : Type 0
  Timed = Timer × State

  abbrev context : {A : Type 0} → Exec State A → Exec Timed A
  context = zoom (λ t. t.1) (λ s t. (t.0, s))

  unfoldable pub set : M → Exec Timed (Unit {0})
  set event = do
    t ← self
    id ← context (c.set t.0.period event)
    modify (λ u. (record (u.0) { id = some id }, u.1))
    ensure (is_none t.0.id)

  unfoldable pub unset : Exec Timed (Unit {0})
  unset = do
    t ← self
    modify (λ u. (record (u.0) { id = none }, u.1))
    id ← or_fail bail t.0.id
    context (c.unset id)

  unfoldable pub ensure_set : M → Exec Timed (Unit {0})
  ensure_set event = do t ← self; when is_none t.0.id then set event else pure tt

  unfoldable pub ensure_unset : Exec Timed (Unit {0})
  ensure_unset = do t ← self; when is_some t.0.id then unset else pure tt
