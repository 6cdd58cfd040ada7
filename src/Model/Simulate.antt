-- ===== src/Model/Simulate.antt =====
-- src/model/simulate.rs: the timers of a simulation, that fire in the order of their times, and the messages
-- under way. Adding to a `Duration` panics where it would not fit.
pub mod Valid
pub mod Runs
use mur_mesh.Prelude.{
  ℕ, ◌+◌, Bool, true, false, not, Option, none, some, List, [], ◌∷◌, ◌++◌, add_u32, leb, is_none,
  if◌then◌else◌,
}
use mur_mesh.Exec.{
  Exec, Outcome, ok, err, bail, panic, pure, self, modify, assert, or_fail, match_option, ◌>>=◌,
  ◌>>◌,
}
use Prim.Native.Nat.{compare}
use mur_mesh.Map
use mur_mesh.Map.{Map}
use mur_mesh.OrderedSet
use mur_mesh.OrderedSet.{Compare, compare_pair}
use mur_mesh.Event.{ActiveTimer}
use mur_mesh.Model.Schedule.{max_duration}

pub record TimerEnvelop (M : Type 0) : Type 0 where
  pub event : M
  pub period : ℕ
  pub at : ℕ

pub record Temporal (M : Type 0) : Type 0 where
  pub now : ℕ
  pub count : ℕ
  pub timeline : List (ℕ × ℕ)
  pub timers : Map (TimerEnvelop M)

abbrev pub by_time : Compare (ℕ × ℕ)
by_time = compare_pair compare compare

-- `Duration` addition.
unfoldable pub add_duration : ℕ → ℕ → Option ℕ
add_duration a b = if leb (a + b) max_duration then some (a + b) else none

-- `BTreeSet::pop_first`
abbrev pub pop_first : {A : Type 0} → List A → Option (A × List A)
pop_first [] = none
pop_first (x ∷ xs) = some (x, xs)

module _ {M : Type 0} where
  unfoldable pub new : Temporal M
  new = record { now = 0; count = 0; timeline = []; timers = [] }

  -- `timeline.insert((at, id))`, that is asserted to be new.
  unfoldable pub line_up : ℕ → ℕ → Exec (Temporal M) (Unit {0})
  line_up at id = do
    t ← self
    modify (λ t. record t { timeline = OrderedSet.insert by_time (at, id) t.timeline })
    assert (not (OrderedSet.contains by_time (at, id) t.timeline))

  unfoldable pub set : ℕ → M → Exec (Temporal M) ActiveTimer
  unfolding add_duration line_up
  set period event = do
    modify (λ t. record t { count = add_u32 t.count 1 })
    t ← self
    at ← or_fail panic (add_duration t.now period)
    modify (λ s. record s {
      timers = Map.insert t.count (record { event = event; period = period; at = at }) s.timers;
    })
    assert (is_none (Map.get t.count t.timers))
    line_up at t.count
    pure t.count

  unfoldable pub unset : ActiveTimer → Exec (Temporal M) (Unit {0})
  unset id = do
    t ← self
    envelop ← or_fail bail (Map.get id t.timers)
    modify (λ s. record s {
      timers = Map.remove id s.timers;
      timeline = OrderedSet.remove by_time (envelop.at, id) s.timeline;
    })
    assert (OrderedSet.contains by_time (envelop.at, id) t.timeline)

  -- The timer fires, and is set again for its period.
  unfoldable pub fire : ℕ → ℕ → Exec (Temporal M) M
  unfolding add_duration line_up
  fire at id = do
    modify (λ t. record t { now = at })
    t ← self
    envelop ← or_fail panic (Map.get id t.timers)
    again ← or_fail panic (add_duration at envelop.period)
    modify (λ s. record s { timers = Map.insert id (record envelop { at = again }) s.timers })
    line_up again id
    pure envelop.event

  unfoldable pub pop : Exec (Temporal M) M
  unfolding fire
  pop = do
    t ← self
    first ← or_fail bail (pop_first t.timeline)
    modify (λ s. record s { timeline = first.1 })
    fire first.0.0 first.0.1

pub record NetworkState (A M : Type 0) : Type 0 where
  pub messages : List (A × M)

module _ {A M : Type 0} where
  unfoldable pub new_network : NetworkState A M
  new_network = record { messages = [] }

  unfoldable pub send : A → M → Exec (NetworkState A M) (Unit {0})
  send remote message = modify (λ n. record { messages = n.messages ++ (remote, message) ∷ [] })
