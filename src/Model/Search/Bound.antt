-- ===== src/Model/Search/Bound.antt =====
-- src/model/search.rs: the search with a depth to stop at.
use mur_mesh.Prelude.{
  ℕ, zero, suc, ◌+◌, ◌≡◌, ◌<◌, inl, inr, refl, sym, ◌∙◌, true, false, some, List, [], ◌∷◌, ◌==◌,
  is_some, is_empty, Bool-cases, arith,
}
use mur_mesh.Exec.{Outcome, ok, err, Error, Outcome-cases}
use mur_mesh.Model.Search.{
  System, Settings, SearchResult, Discovered, WorkerResult, exhausted, Search, Flow, going,
  finished, and_then, step, find, is_last, visit_new, visit, expand, drain, after_level, levels,
  initial, breadth_first,
}
use mur_mesh.Model.Search.Entries.{IsReflexive, IsSymmetric}
use mur_mesh.Model.Search.Covers.{search-IsReported}
use mur_mesh.Model.Search.Trace.{report-Truthful, levels-cases}

module _ {S E : Type 0} where
  -- If the loops go on, nothing was pushed.
  abbrev Keeps : Search S E → Flow S E → Type 0
  Keeps search (going search') = search'.pushing ≡ search.pushing
  Keeps search (finished _ _) = Unit {0}

  and_then-Keeps :
      (search : Search S E) (flow : Flow S E) (f : Search S E → Flow S E)
      → Keeps search flow
      → ((one : Search S E) → Keeps one (f one))
      → Keeps search (and_then flow f)
  and_then-Keeps search (finished _ _) f h k = tt
  and_then-Keeps search (going one) f h k = chain (f one) (k one)
    where
      chain : (flow : Flow S E) → Keeps one flow → Keeps search flow
      chain (going two) g = g ∙ h
      chain (finished _ _) g = tt

module _ {S E : Type 0} (system : System S E) (settings : Settings S) (depth : ℕ)
    (last : is_last system settings depth ≡ true) where
  visit_new-Keeps :
      (state : S) (event : E) (next : S) (search : Search S E)
      → Keeps search (visit_new system settings depth state event next search)
  unfolding visit_new
  visit_new-Keeps state event next search = elim (Outcome-cases (settings.invariant next)) [
    | inr (_, e) ↦ rw (visit_new, e) tt
    | inl (_, e) ↦ elim (Bool-cases (settings.goal next)) [
      | inl g ↦ rw (visit_new, e, g) tt
      | inr g ↦ rw (visit_new, e, g, last) refl
    ]
  ]

  visit-Keeps :
      (state : S) (event : E) (next : S) (search : Search S E)
      → Keeps search (visit system settings depth state event next search)
  unfolding visit
  visit-Keeps state event next search =
      elim (Bool-cases (is_some (find system next search.discovered))) [
        | inl e ↦ rw e refl
        | inr e ↦ rw e (visit_new-Keeps state event next search)
      ]

  expand-Keeps :
      (state : S) (events : List E) (search : Search S E)
      → Keeps search (expand system settings depth state events search)
  unfolding expand
  expand-Keeps state [] search = refl
  expand-Keeps state (event ∷ events) search = elim (Outcome-cases (step system state event)) [
    | inr (_, e) ↦ rw (expand, e) tt
    | inl (next, e) ↦
        rw (expand, e)
          (and_then-Keeps search (visit system settings depth state event next search)
            (expand system settings depth state events) (visit-Keeps state event next search)
            (expand-Keeps state events))
  ]

  drain-Keeps :
      (queue : List S) (search : Search S E)
      → Keeps search (drain system settings depth queue search)
  unfolding drain
  drain-Keeps [] search = refl
  drain-Keeps (state ∷ queue) search =
      and_then-Keeps search (expand system settings depth state (system.events state) search)
        (drain system settings depth queue) (expand-Keeps state (system.events state) search)
        (drain-Keeps queue)

module _ {S E : Type 0} (system : System S E) (settings : Settings S) where
  is_last-some :
      (depth bound : ℕ)
      → settings.max_depth ≡ some bound
      → is_last system settings depth ≡ (suc depth == bound)
  is_last-some depth bound m = rw m refl

  abbrev Returns : Outcome (WorkerResult S E × Discovered S E) → Type 0
  Returns r = (result : WorkerResult S E) × (d : Discovered S E) × (r ≡ ok (result, d))

  after_level-Returns :
      (depth : ℕ) (flow : Flow S E)
      (next : Search S E → Outcome (WorkerResult S E × Discovered S E))
      → (is_last system settings depth ≡ true
          → Keeps (record { discovered = []; pushing = [] }) flow)
      → ((search : Search S E) → is_last system settings depth ≡ false → Returns (next search))
      → Returns (after_level system settings depth flow next)
  unfolding after_level
  after_level-Returns depth (finished result d) next h k = (result, d, refl)
  after_level-Returns depth (going search) next h k =
      elim (Bool-cases (is_last system settings depth)) [
        | inl last ↦
            let nothing : search.pushing ≡ [] = h last in
            let e : is_empty search.pushing ≡ true = rw nothing refl in
            (exhausted, search.discovered, rw e refl)
        | inr more ↦ elim (Bool-cases (is_empty search.pushing)) [
          | inl e ↦ (exhausted, search.discovered, rw e refl)
          | inr e ↦ let (result, d, f) = k search more in (result, d, rw (e, more) f)
        ]
      ]

  levels-Returns :
      (fuel depth bound : ℕ) (queue : List S) (d : Discovered S E)
      → settings.max_depth ≡ some bound
      → depth + fuel ≡ bound
      → 0 < fuel
      → Returns (levels system settings fuel depth queue d)
  unfolding levels
  levels-Returns zero depth bound queue d m e h = absurd (omega arith)
  levels-Returns (suc fuel) depth bound queue d m e h =
      after_level-Returns depth
        (drain system settings depth queue (record { discovered = d; pushing = [] })) _
        (λ last.
          weaken (drain system settings depth queue (record { discovered = d; pushing = [] })) (
            drain-Keeps system settings depth last queue (record { discovered = d; pushing = [] })))
        (λ search more.
          levels-Returns fuel (suc depth) bound search.pushing search.discovered m (omega arith)
            (left (sym (is_last-some depth bound m) ∙ more)))
    where
      weaken :
          (flow : Flow S E)
          → Keeps (record { discovered = d; pushing = [] }) flow
          → Keeps (record { discovered = []; pushing = [] }) flow
      weaken (going s) g = g
      weaken (finished _ _) g = tt

      left : (suc depth == bound) ≡ false → 0 < fuel
      left g = ground (arith, e)

module _ {S E : Type 0} (system : System S E) (reflexive : IsReflexive system)
    (symmetric : IsSymmetric system) (settings : Settings S) where
  -- By one worker, without a time limit, with an equality of states that is reflexive and symmetric (it may
  -- take different states for equal), and with a depth other than 0 to stop at: as many rounds as that depth
  -- are enough, the search returns a report, and neither runs out of rounds nor panics.
  pub breadth_first-returns :
      (bound : ℕ) (first : S)
      → settings.max_depth ≡ some bound
      → 0 < bound
      → (r : SearchResult S E) × (breadth_first system settings bound first ≡ ok r)
  breadth_first-returns bound first m h =
      let (result, d, e) =
        levels-Returns system settings bound 0 bound (first ∷ []) (initial system settings first) m
          (omega arith) h in
      elim (levels-cases system reflexive symmetric first settings bound) [
        | inl (x, f, _) ↦ absurd (clash (sym f ∙ e))
        | inr (result', d', f, g) ↦
            let (entries, sound) = search-IsReported system settings first bound result' d' f in
            let (r, made, _) =
              report-Truthful system reflexive symmetric first settings result' d' entries sound in
            (r, g ∙ made)
      ]
    where
      clash :
          {x : Error} {p : WorkerResult S E × Discovered S E}
          → Path (Outcome (WorkerResult S E × Discovered S E)) (err x) (ok p)
          → ⊥
      clash e = cc
