-- ===== src/Model/Search/Probe.antt =====
-- src/model/search.rs, `random_depth_first_worker`: one probe, from the initial state, of a single worker. The
-- random choice of an event is a parameter, that is told how many were chosen before.
pub mod Reports
use mur_mesh.Prelude.{
  ℕ, zero, suc, Bool, true, false, Option, none, some, List, [], ◌∷◌, ◌++◌, ◌||◌,
}
use mur_mesh.Exec.{Outcome, ok, err, out_of_fuel}
use mur_mesh.Model.Search.{
  System, Settings, SearchResult, failure, invariant_violation, goal_found, step, is_last,
}

module _ {S E : Type 0} (system : System S E) (settings : Settings S)
    (choose : ℕ → List E → Option E) where
  -- What the probe finishes the search with, if it does. `fuel` bounds the depth.
  unfoldable pub probe : ℕ → ℕ → S → List (E × S) → Outcome (Option (SearchResult S E))
  unfolding step
  probe zero depth state trace = err out_of_fuel
  probe (suc fuel) depth state trace = elim (choose depth (system.events state)) [
    | none ↦ ok none
    | some event ↦ elim (step system state event) [
      | err x ↦ ok (some (failure trace event x))
      | ok next ↦ elim (settings.invariant next) [
        | err x ↦ ok (some (invariant_violation (trace ++ (event, next) ∷ []) x))
        | ok _ ↦ elim (settings.goal next) [
          | true ↦ ok (some (goal_found next))
          | false ↦ elim (settings.prune next || is_last system settings depth) [
            | true ↦ ok none
            | false ↦ probe fuel (suc depth) next (trace ++ (event, next) ∷ [])
          ]
        ]
      ]
    ]
  ]
