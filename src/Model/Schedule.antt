-- ===== src/Model/Schedule.antt =====
-- src/model/search/state.rs, `Schedule`: the timers of the model checker, in the order in which
-- they may fire.
use mur_mesh.Prelude.{
  ℕ, ◌^◌, ◌-◌, ◌*◌, Option, none, some, List, [], ◌∷◌, ◌++◌, add_u32, leb, ◌==◌, if◌then◌else◌,
}
use mur_mesh.Exec.{Exec, bail, pure, self, modify, or_fail, ◌>>=◌, ◌>>◌}
use mur_mesh.Event.{ActiveTimer, ScheduleEvent}

pub record TimerEnvelop (M : Type 0) : Type 0 where
  pub id : ℕ
  pub period : ℕ
  pub event : M

pub record Schedule (M : Type 0) : Type 0 where
  pub envelops : List (TimerEnvelop M)
  pub count : ℕ

-- `Duration::MAX`, in nanoseconds.
abbrev pub max_duration : ℕ
max_duration = 2 ^ 64 * 1000000000 - 1

module _ {M : Type 0} where
  abbrev pub new : Schedule M
  new = record { envelops = []; count = 0 }

  unfoldable pub set : ℕ → M → Exec (Schedule M) ActiveTimer
  set period event = do
    modify (λ s. record s { count = add_u32 s.count 1 })
    s ← self
    let id = s.count
    modify (λ s. record s {
      envelops = s.envelops ++ record { id = id; period = period; event = event } ∷ [];
    })
    pure id

  -- `position` and `Vec::remove` in one pass: the first envelop with the id, and the others.
  unfoldable pub extract :
      ℕ → List (TimerEnvelop M) → Option (TimerEnvelop M × List (TimerEnvelop M))
  extract id [] = none
  extract id (e ∷ es) =
      if e.id == id
      then some (e, es)
      else (elim (extract id es) [ none ↦ none | some (f, rest) ↦ some (f, e ∷ rest) ])

  unfoldable pub remove : ℕ → Exec (Schedule M) (TimerEnvelop M)
  remove id = do
    s ← self
    found ← or_fail bail (extract id s.envelops)
    modify (λ s. record s { envelops = found.1 })
    pure found.0

  unfoldable pub unset : ActiveTimer → Exec (Schedule M) (Unit {0})
  unset id = do e ← remove id; pure tt

  unfoldable pub tick : ℕ → Exec (Schedule M) (Unit {0})
  tick id = do ticked ← remove id; modify (λ s. record s { envelops = s.envelops ++ ticked ∷ [] })

  -- `map_while` with the running limit.
  unfoldable pub events_below : ℕ → List (TimerEnvelop M) → List (ℕ × M)
  events_below limit [] = []
  events_below limit (e ∷ es) =
      let rest = events_below e.period es in
      if leb limit e.period then [] else (e.id, e.event) ∷ rest

  unfoldable pub events : Schedule M → List (ℕ × M)
  unfolding events_below
  events s = events_below max_duration s.envelops

abbrev pub schedule_event : (M : Type 0) → ScheduleEvent M
schedule_event M = record { State = Schedule M; set = set; unset = unset }
