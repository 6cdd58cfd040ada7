-- ===== src/Model/Search/Trace.antt =====
-- src/model/search.rs: what the search reports: paths from the first state, and the states explored.
use mur_mesh.Prelude.{
  ℕ, zero, suc, ◌≡◌, ◌<◌, ◌⊎◌, inl, inr, refl, sym, subst, ◌∙◌, true, none, some, List, [], ◌∷◌,
  ◌++◌, length, length-append, arith,
}
use mathlib.Core.List.{Memᴰ}
use mur_mesh.Exec.{Outcome, ok, err, Error, Outcome-cases}
use mur_mesh.Model.Search.{
  System, Settings, SearchResult, failure, invariant_violation, goal_found, space_exhausted,
  StateInfo, Discovered, WorkerResult, error, violation, goal, exhausted, step, find, trace_within,
  trace, levels, initial, report, breadth_first,
}
use mur_mesh.Model.Search.Entries.{
  IsReflexive, IsSymmetric, Held, Known, Closed, Entries, Good, Settled, Sound, find-Held,
}
use mur_mesh.Model.Search.Covers.{search-IsReported}

ok_inj : {B : Type 0} {a b : B} → Path (Outcome B) (ok a) (ok b) → a ≡ b
ok_inj e = cc

module _ {S E : Type 0} where
  fails : {x : Error} {r : SearchResult S E} → Path (Outcome (SearchResult S E)) (err x) (ok r) → ⊥
  fails f = cc

  not_goal :
      {a : S} → Path (Outcome (SearchResult S E)) (ok (goal_found a)) (ok space_exhausted) → ⊥
  not_goal f = cc

  not_failure :
      {path : List (E × S)} {event : E} {x : Error}
      → Path (Outcome (SearchResult S E)) (ok (failure path event x)) (ok space_exhausted)
      → ⊥
  not_failure f = cc

  not_violation :
      {path : List (E × S)} {x : Error}
      → Path (Outcome (SearchResult S E)) (ok (invariant_violation path x)) (ok space_exhausted)
      → ⊥
  not_violation f = cc

module _ {S E : Type 0} (system : System S E) where
  -- A run from one state to another, with the event and the state of each step.
  pub data Run (first : S) : List (E × S) → S → Type 0 where
    start : Run first [] first
    next :
        {path : List (E × S)} {s t : S} {event : E}
        → Run first path s
        → Memᴰ event (system.events s)
        → step system s event ≡ ok t
        → Run first (path ++ (event, t) ∷ []) t

module _ {S E : Type 0} (system : System S E) (first : S) (settings : Settings S) where
  -- What a report says of the system.
  abbrev pub Truthful : SearchResult S E → Type 0
  Truthful (failure path event x) =
      (s : S) × Run system first path s
      × Memᴰ event (system.events s)
      × (step system s event ≡ err x)
  Truthful (invariant_violation path x) =
      (s : S) × Run system first path s × (settings.invariant s ≡ err x)
  Truthful (goal_found s) =
      (path : List (E × S)) × Run system first path s × (settings.goal s ≡ true)
  Truthful space_exhausted = Unit {0}

module _ {S E : Type 0} (system : System S E) (reflexive : IsReflexive system)
    (symmetric : IsSymmetric system) (first : S) where
  trace_within-Run :
      (fuel : ℕ) (d : Discovered S E) (target : S) (info : StateInfo S E)
      → Entries system first d
      → Held target info d
      → info.depth < fuel
      → (path : List (E × S)) × (trace_within system fuel d target ≡ ok path)
        × Run system first path target
        × (length path ≡ info.depth)
  unfolding trace_within
  trace_within-Run zero d target info h e f = absurd (omega arith)
  trace_within-Run (suc fuel) d target info h m f = elim (h.1 target info m) [
    | inl (root, same, zero_depth) ↦
        ([], rw (trace_within, e, root) refl, rw same Run.start, sym zero_depth)
    | inr (event, p, up, prev, n, leads, at, depth) ↦
        let (path, g, run, long) = trace_within-Run fuel d p up h at (omega arith) in
        (
          path ++ (event, target) ∷ [],
          rw (trace_within, e, prev, g) refl,
          Run.next run n leads,
          omega (arith, length-append path ((event, target) ∷ [])),
        )
  ]
    where
      e : find system target d ≡ some info
      e = find-Held system reflexive symmetric d target info h.0 m

  trace-Run :
      (d : Discovered S E) (target : S)
      → Entries system first d
      → Known target d
      → (path : List (E × S)) × (trace system d target ≡ ok path) × Run system first path target
  unfolding trace
  trace-Run d target h (info, m) =
      let (path, g, run, _) = trace_within-Run (suc info.depth) d target info h m (omega arith) in
      let e = find-Held system reflexive symmetric d target info h.0 m in
      (path, rw (trace, e, g) refl, run)

  module _ (settings : Settings S) where
    pub report-Truthful :
        (result : WorkerResult S E) (d : Discovered S E)
        → Entries system first d
        → Sound system settings first result d
        → (r : SearchResult S E) × (report system settings (result, d) ≡ ok r)
          × Truthful system first settings r
    unfolding report
    report-Truthful (error s event x) d h (known, m, e) =
        let (path, g, run) = trace-Run d s h known in
        (failure path event x, rw (report, g) refl, (s, run, m, e))
    report-Truthful (violation s x) d h (known, e) =
        let (path, g, run) = trace-Run d s h known in
        (invariant_violation path x, rw (report, g) refl, (s, run, e))
    report-Truthful (goal s) d h (known, e) =
        let (path, g, run) = trace-Run d s h known in (goal_found s, refl, (path, run, e))
    report-Truthful exhausted d h sound = (space_exhausted, refl, tt)

    -- What the search over the depths gives, is reported.
    pub levels-cases :
        (fuel : ℕ)
        → ((x : Error) × (levels system settings fuel 0 (first ∷ []) (initial system settings first)
              ≡ err x)
            × (breadth_first system settings fuel first ≡ err x))
          ⊎ ((result : WorkerResult S E) × (d : Discovered S E) × (levels system settings fuel 0
                  (first ∷ [])
                  (initial system settings first)
                ≡ ok (result, d))
              × (breadth_first system settings fuel first ≡ report system settings (result, d)))
    unfolding breadth_first
    levels-cases fuel =
        elim (Outcome-cases
          (levels system settings fuel 0 (first ∷ []) (initial system settings first))) [
            | inl ((result, d), e) ↦ inr (result, d, e, rw (breadth_first, e) refl)
            | inr (x, e) ↦ inl (x, e, rw (breadth_first, e) refl)
          ]

    -- By one worker, without a time limit, with an equality of states that is reflexive and symmetric (it
    -- may take different states for equal), a report of the breadth-first search is true: the path of a
    -- failure or of a violated invariant is a run of the system from the first state, to a state where the
    -- event fails or the invariant does; and a goal state can be reached.
    pub breadth_first-Truthful :
        (fuel : ℕ) (r : SearchResult S E)
        → breadth_first system settings fuel first ≡ ok r
        → Truthful system first settings r
    breadth_first-Truthful fuel r e = elim (levels-cases fuel) [
      | inl (x, _, f) ↦ absurd (fails (sym f ∙ e))
      | inr (result, d, f, g) ↦
          let (entries, sound) = search-IsReported system settings first fuel result d f in
          let (r', made, true_of) = report-Truthful result d entries sound in
          subst (Truthful system first settings) (ok_inj (sym made ∙ sym g ∙ e)) true_of
    ]

    -- A state of the map: a run leads to it, it passes the invariant and is no goal, the first state aside,
    -- and it is pruned or each of its events leads to a state that the map has, or has an equal one of.
    abbrev pub IsCovered : Discovered S E → S → Type 0
    IsCovered seen s =
        ((path : List (E × S)) × Run system first path s)
        × ((s ≡ first) ⊎ Good system settings first s)
        × ((settings.prune s ≡ true) ⊎ Closed system seen s (system.events s))

    report-exhausted :
        (result : WorkerResult S E) (d : Discovered S E)
        → report system settings (result, d) ≡ ok space_exhausted
        → result ≡ exhausted
    unfolding report
    report-exhausted (error a b c) d e = elim (Outcome-cases (trace system d a)) [
      | inl (_, f) ↦ absurd (not_failure (rw (report, f) at e))
      | inr (_, f) ↦ absurd (fails (rw (report, f) at e))
    ]
    report-exhausted (violation a b) d e = elim (Outcome-cases (trace system d a)) [
      | inl (_, f) ↦ absurd (not_violation (rw (report, f) at e))
      | inr (_, f) ↦ absurd (fails (rw (report, f) at e))
    ]
    report-exhausted (goal a) d e = absurd (not_goal e)
    report-exhausted exhausted d e = refl

    Settled-pruned :
        (d : Discovered S E) (s : S) (info : StateInfo S E)
        → settings.max_depth ≡ none
        → Settled system settings first d s info
        → (settings.prune s ≡ true) ⊎ Closed system d s (system.events s)
    Settled-pruned d s info unbounded (inl closed) = inr closed
    Settled-pruned d s info unbounded (inr (inl pruned)) = inl pruned
    Settled-pruned d s info unbounded (inr (inr bounded)) = absurd cc

    -- By one worker, without a time limit, with an equality of states that is reflexive and symmetric (it
    -- may take different states for equal): if the search was given no depth to stop at and reports that
    -- the space is exhausted, then it has a map of states, the first state among them, such that a run leads
    -- to each state of the map, each but the first passes the invariant and is no goal, and each is pruned
    -- or all of its events succeed and lead to states that the map has, up to that equality.
    pub breadth_first-covers :
        (fuel : ℕ)
        → settings.max_depth ≡ none
        → breadth_first system settings fuel first ≡ ok space_exhausted
        → (seen : Discovered S E) × Known first seen × ((s : S) → Known s seen → IsCovered seen s)
    breadth_first-covers fuel unbounded e = elim (levels-cases fuel) [
      | inl (y, _, f) ↦ absurd (fails (sym f ∙ e))
      | inr (result, d, f, g) ↦
          let same = report-exhausted result d (sym g ∙ e) in
          let (entries, sound) = search-IsReported system settings first fuel exhausted d (
            subst
              (λ r.
                levels system settings fuel 0 (first ∷ []) (initial system settings first)
                ≡ ok (r, d))
              same f) in
          (
            d,
            sound.2,
            λ s known.
                let (path, _, run) = trace-Run d s entries known in
                (
                  (path, run),
                  sound.0 s known.0 known.1,
                  Settled-pruned d s known.0 unbounded (sound.1 s known.0 known.1),
                ),
          )
    ]
