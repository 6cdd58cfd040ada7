-- ===== src/Model/Search.antt =====
-- src/model/search.rs: the breadth-first search, by one worker and without a time limit.
-- The shared maps and queues are those of the worker alone; `search_finish` is the value that the loops
-- return. A panic of the system under test is an error of its `send`, as `catch_unwind` makes it.
pub mod Bound
pub mod Entries
pub mod Trace
pub mod Visits
pub mod Covers
pub mod Probe
use mur_mesh.Prelude.{
  ℕ, zero, suc, ◌+◌, Bool, true, false, Option, none, some, List, [], ◌∷◌, ◌++◌, ◌==◌, ◌||◌,
  is_some, is_empty, if◌then◌else◌,
}
use mur_mesh.Exec.{Exec, Error, Outcome, ok, err, panic, out_of_fuel}

-- The trait `State`, with `Eq` of the states.
pub record System (S E : Type 0) : Type 0 where
  pub events : S → List E
  pub send : E → Exec S (Unit {0})
  pub same : S → S → Bool

pub record Settings (S : Type 0) : Type 0 where
  pub invariant : S → Outcome (Unit {0})
  pub goal : S → Bool
  pub prune : S → Bool
  pub max_depth : Option ℕ

pub data SearchResult (S E : Type 0) : Type 0 where
  failure : List (E × S) → E → Error → SearchResult S E
  invariant_violation : List (E × S) → Error → SearchResult S E
  goal_found : S → SearchResult S E
  space_exhausted : SearchResult S E

pub record StateInfo (S E : Type 0) : Type 0 where
  pub prev : Option (E × S)
  pub depth : ℕ

abbrev pub Discovered : Type 0 → Type 0 → Type 0
Discovered S E = List (S × StateInfo S E)

-- `SearchWorkerResult`
pub data WorkerResult (S E : Type 0) : Type 0 where
  error : S → E → Error → WorkerResult S E
  violation : S → Error → WorkerResult S E
  goal : S → WorkerResult S E
  exhausted : WorkerResult S E

-- What a worker shares: the map of states, and the queue of the next depth.
pub record Search (S E : Type 0) : Type 0 where
  pub discovered : Discovered S E
  pub pushing : List S

-- The loops go on, or the search has finished.
pub data Flow (S E : Type 0) : Type 0 where
  going : Search S E → Flow S E
  finished : WorkerResult S E → Discovered S E → Flow S E

abbrev pub and_then : {S E : Type 0} → Flow S E → (Search S E → Flow S E) → Flow S E
and_then (going search) f = f search
and_then (finished result discovered) f = finished result discovered

module _ {S E : Type 0} (system : System S E) where
  unfoldable pub step : S → E → Outcome S
  step state event = elim (system.send event state).0 [
    | ok _ ↦ ok (system.send event state).1
    | err x ↦ err x
  ]

  unfoldable pub find : S → Discovered S E → Option (StateInfo S E)
  find state [] = none
  find state ((s, info) ∷ discovered) =
      if system.same s state then some info else find state discovered

  -- The path to a state, along the `prev` of the entries.
  unfoldable pub trace_within : ℕ → Discovered S E → S → Outcome (List (E × S))
  unfolding find
  trace_within zero discovered target = err out_of_fuel
  trace_within (suc fuel) discovered target = elim (find target discovered) [
    | none ↦ err panic
    | some info ↦ elim info.prev [
      | none ↦ ok []
      | some (event, state) ↦ elim (trace_within fuel discovered state) [
        | ok path ↦ ok (path ++ (event, target) ∷ [])
        | err x ↦ err x
      ]
    ]
  ]

  -- One round for each depth up to that of the target.
  unfoldable pub trace : Discovered S E → S → Outcome (List (E × S))
  unfolding trace_within
  trace discovered target = elim (find target discovered) [
    | none ↦ err panic
    | some info ↦ trace_within (suc info.depth) discovered target
  ]

  module _ (settings : Settings S) where
    -- `Some(local_depth + 1) == settings.max_depth`
    abbrev pub is_last : ℕ → Bool
    is_last depth = elim settings.max_depth [ none ↦ false | some d ↦ suc depth == d ]

    -- A state that the map has not had before.
    unfoldable pub visit_new : ℕ → S → E → S → Search S E → Flow S E
    visit_new depth state event next search =
        let info : StateInfo S E = record { prev = some (event, state); depth = suc depth } in
        let discovered : Discovered S E = (next, info) ∷ search.discovered in
        elim (settings.invariant next) [
          | err x ↦ finished (violation next x) discovered
          | ok _ ↦
              if settings.goal next
              then finished (goal next) discovered
              else (if is_last depth || settings.prune next
                  then going (record search { discovered = discovered })
                  else going
                      (record { discovered = discovered; pushing = search.pushing ++ next ∷ [] }))
        ]

    unfoldable pub visit : ℕ → S → E → S → Search S E → Flow S E
    unfolding visit_new
    visit depth state event next search =
        if is_some (find next search.discovered)
        then going search
        else visit_new depth state event next search

    -- The loop over the events of a state.
    unfoldable pub expand : ℕ → S → List E → Search S E → Flow S E
    unfolding visit
    expand depth state [] search = going search
    expand depth state (event ∷ events) search = elim (step state event) [
      | err x ↦ finished (error state event x) search.discovered
      | ok next ↦ and_then (visit depth state event next search) (expand depth state events)
    ]

    -- The loop over the queue of a depth.
    unfoldable pub drain : ℕ → List S → Search S E → Flow S E
    unfolding expand
    drain depth [] search = going search
    drain depth (state ∷ queue) search =
        and_then (expand depth state (system.events state) search) (drain depth queue)

    -- At the barrier: the next depth, if there is something to explore.
    unfoldable pub after_level :
        ℕ
        → Flow S E
        → (Search S E → Outcome (WorkerResult S E × Discovered S E))
        → Outcome (WorkerResult S E × Discovered S E)
    after_level depth (finished result discovered) next = ok (result, discovered)
    after_level depth (going search) next =
        if is_empty search.pushing
        then ok (exhausted, search.discovered)
        else (if is_last depth then err panic else next search)

    -- The loop over the depths: the queues change places.
    unfoldable pub levels :
        ℕ → ℕ → List S → Discovered S E → Outcome (WorkerResult S E × Discovered S E)
    unfolding drain after_level
    levels zero depth queue discovered = err out_of_fuel
    levels (suc fuel) depth queue discovered =
        after_level depth (drain depth queue (record { discovered = discovered; pushing = [] }))
          (λ search. levels fuel (suc depth) search.pushing search.discovered)

    abbrev pub initial : S → Discovered S E
    initial state = (state, record { prev = none; depth = 0 }) ∷ []

    -- What is reported, with the paths to the states.
    unfoldable pub report : WorkerResult S E × Discovered S E → Outcome (SearchResult S E)
    unfolding trace
    report (error state event x, discovered) = elim (trace discovered state) [
      | ok path ↦ ok (failure path event x)
      | err y ↦ err y
    ]
    report (violation state x, discovered) = elim (trace discovered state) [
      | ok path ↦ ok (invariant_violation path x)
      | err y ↦ err y
    ]
    report (goal state, discovered) = ok (goal_found state)
    report (exhausted, discovered) = ok space_exhausted

    -- `fuel` bounds the depth that is explored.
    unfoldable pub breadth_first : ℕ → S → Outcome (SearchResult S E)
    unfolding levels report
    breadth_first fuel state = elim (levels fuel 0 (state ∷ []) (initial state)) [
      | ok result ↦ report result
      | err x ↦ err x
    ]
