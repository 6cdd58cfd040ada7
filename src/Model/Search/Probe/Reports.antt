-- ===== src/Model/Search/Probe/Reports.antt =====
-- src/model/search.rs, `random_depth_first_worker`: the end of a probe, and its report.
use mur_mesh.Prelude.{
  ℕ, zero, suc, ◌+◌, ◌≡◌, ◌<◌, ◌≤◌, inl, inr, refl, subst, true, false, Bool-cases, Option-cases,
  Option, none, some, List, [], ◌∷◌, ◌++◌, ◌||◌, ◌==◌, arith,
}
use mathlib.Core.List.{Memᴰ}
use mur_mesh.Exec.{Outcome, Outcome-cases, ok}
use mur_mesh.Model.Search.{
  System, Settings, SearchResult, failure, invariant_violation, goal_found, step, is_last,
}
use mur_mesh.Model.Search.Trace.{Run, next, start, Truthful}
use mur_mesh.Model.Search.Probe.{probe}

module _ {S E : Type 0} (system : System S E) (settings : Settings S)
    (choose : ℕ → List E → Option E) (first : S) where
  abbrev pub Told : Outcome (Option (SearchResult S E)) → Type 0
  Told o =
      (result : Option (SearchResult S E)) × (o ≡ ok result)
      × ((r : SearchResult S E) → result ≡ some r → Truthful system first settings r)

  untold : Told (ok none)
  untold = (none, refl, λ r e. absurd (none_some e))
    where
      none_some : {r : SearchResult S E} → Path (Option (SearchResult S E)) none (some r) → ⊥
      none_some e = cc

  told : (r : SearchResult S E) → Truthful system first settings r → Told (ok (some r))
  told r h = (some r, refl, λ r' e. subst (Truthful system first settings) (some_inj e) h)
    where
      some_inj :
          {a b : SearchResult S E} → Path (Option (SearchResult S E)) (some a) (some b) → a ≡ b
      some_inj e = cc

  not_last :
      (bound depth : ℕ) (state : S)
      → settings.max_depth ≡ some bound
      → (settings.prune state || is_last system settings depth) ≡ false
      → (suc depth == bound) ≡ false
  not_last bound depth state m h = elim (Bool-cases (settings.prune state)) [
    | inl e ↦ absurd (true_false (rw e at h))
    | inr e ↦ rw (e, m) at h
  ]
    where
      true_false : true ≡ false → ⊥
      true_false e = cc

  probe-Told :
      (fuel depth bound : ℕ) (state : S) (trace : List (E × S))
      → ((k : ℕ) (events : List E) (event : E) → choose k events ≡ some event → Memᴰ event events)
      → settings.max_depth ≡ some bound
      → depth < bound
      → bound ≤ depth + fuel
      → Run system first trace state
      → Told (probe system settings choose fuel depth state trace)
  unfolding probe
  probe-Told zero depth bound state trace among m h g run = absurd (omega arith)
  probe-Told (suc fuel) depth bound state trace among m h g run =
      elim (Option-cases (choose depth (system.events state))) [
        | inl e ↦ rw (probe, e) untold
        | inr (event, e) ↦
            let member = among depth (system.events state) event e in
            elim (Outcome-cases (step system state event)) [
              | inr (x, f) ↦ rw (probe, e, f) (told (failure trace event x) (state, run, member, f))
              | inl (state', f) ↦
                  let run' : Run system first (trace ++ (event, state') ∷ []) state' =
                    next run member f in
                  elim (Outcome-cases (settings.invariant state')) [
                    | inr (x, k) ↦
                        rw (probe, e, f, k)
                          (told (invariant_violation (trace ++ (event, state') ∷ []) x)
                            (state', run', k))
                    | inl (_, k) ↦ elim (Bool-cases (settings.goal state')) [
                      | inl l ↦
                          rw (probe, e, f, k, l)
                            (told (goal_found state') (trace ++ (event, state') ∷ [], run', l))
                      | inr l ↦
                          elim (Bool-cases
                            (settings.prune state' || is_last system settings depth)) [
                              | inl n ↦ rw (probe, e, f, k, l, n) untold
                              | inr n ↦
                                  let more = not_last bound depth state' m n in
                                  rw (probe, e, f, k, l, n)
                                    (probe-Told fuel (suc depth) bound state'
                                      (trace ++ (event, state') ∷ []) among m (below more h)
                                      (omega arith) run')
                            ]
                    ]
                  ]
            ]
      ]
    where
      below : (suc depth == bound) ≡ false → depth < bound → suc depth < bound
      below a b = ground arith

  -- One probe, with a depth other than 0 to stop at and a choice that draws among the events: as many rounds as that
  -- depth are enough for it to end, and what it reports is true: the path of a failure or of a violated
  -- invariant is a run of the system from the initial state, to a state where the event fails or the
  -- invariant does, and a goal state can be reached.
  pub probe-reports :
      (bound : ℕ)
      → ((k : ℕ) (events : List E) (event : E) → choose k events ≡ some event → Memᴰ event events)
      → settings.max_depth ≡ some bound
      → 0 < bound
      → Told (probe system settings choose bound 0 first [])
  probe-reports bound among m h = probe-Told bound 0 bound first [] among m h (omega arith) start
