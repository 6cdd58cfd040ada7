-- ===== src/Model/Search/Visits.antt =====
-- src/model/search.rs: the loops over the queue and over the events keep the map and the queues in order.
use mur_mesh.Prelude.{
  ℕ, suc, ◌≡◌, ◌⊎◌, inl, inr, refl, ap, true, false, Option, none, some, List, [], ◌∷◌, ◌++◌, ◌==◌,
  ◌||◌, Bool-cases, Option-cases, ==_iff, arith,
}
use mathlib.Core.List.{Memᴰ}
use mathlib.Core.List.Memᴰ
use mur_mesh.Exec.{ok, Outcome-cases}
use mur_mesh.Model.Search.{
  System, Settings, StateInfo, Discovered, Search, step, find, is_last, visit_new, visit, expand,
  drain,
}
use mur_mesh.Model.Search.Entries.{
  Held, KnownAt, Extends, Met, Entries, Closed, Good, Stopped, Inv, Holds, Holds-map,
  and_then-Holds, find-Met, Entry-mono, Met-mono, Closed-mono,
}

module _ {S E : Type 0} (system : System S E) (settings : Settings S) (first : S) where
  abbrev pub Invariant : ℕ → List S → Search S E → Type 0
  Invariant = Inv system settings first

  -- An event of a known state leads to a state that the map does not have.
  module _ (depth : ℕ) (state next : S) (event : E) where
    abbrev entry : StateInfo S E
    entry = record { prev = some (event, state); depth = suc depth }

    -- What the map has after the state is added.
    added :
        (d : Discovered S E) (s : S) (info : StateInfo S E)
        → Held s info ((next, entry) ∷ d)
        → ((s ≡ next) × (info ≡ entry)) ⊎ Held s info d
    added d s info m = elim (Memᴰ.cases_cons m) [
      | inl e ↦ inl (ap (λ p. p.0) e, ap (λ p. p.1) e)
      | inr n ↦ inr n
    ]

    insert-Entries :
        (d : Discovered S E)
        → KnownAt depth state d
        → Memᴰ event (system.events state)
        → step system state event ≡ ok next
        → find system next d ≡ none
        → Entries system first d
        → Entries system first ((next, entry) ∷ d)
    insert-Entries d (up, at, eq) m leads absent (distinct, h) = (
      (absent, distinct),
      λ s info g. elim (added d s info g) [
        | inl (a, b) ↦
            rw (a, b) (inr (event, state, up, refl, m, leads, Memᴰ.tail at, omega (arith, eq)))
        | inr old ↦
            Entry-mono system first d ((next, entry) ∷ d) s info (λ t i k. Memᴰ.tail k)
              (h s info old)
      ],
    )

    insert-Inv :
        (queue pushing' : List S) (search : Search S E)
        → KnownAt depth state search.discovered
        → Memᴰ event (system.events state)
        → step system state event ≡ ok next
        → find system next search.discovered ≡ none
        → Invariant depth queue search
        → Good system settings first next
        → ((s : S) → Memᴰ s pushing' → Memᴰ s search.pushing ⊎ (s ≡ next))
        → ((s : S) → Memᴰ s search.pushing → Memᴰ s pushing')
        → Memᴰ next pushing' ⊎ Stopped system settings first next entry
        → Invariant depth queue
            (record { discovered = (next, entry) ∷ search.discovered; pushing = pushing' })
    insert-Inv queue pushing' search at m leads absent h nice back forth rest = record {
      rooted = (h.rooted.0, Memᴰ.tail h.rooted.1);
      entries = insert-Entries search.discovered at m leads absent h.entries;
      queued = λ s q. let (info, m, e) = h.queued s q in (info, Memᴰ.tail m, e);
      pushed = λ s q. elim (back s q) [
        | inl old ↦ let (info, m, e) = h.pushed s old in (info, Memᴰ.tail m, e)
        | inr same ↦ (entry, rw same (Memᴰ.head refl), refl)
      ];
      good = λ s info g. elim (added search.discovered s info g) [
        | inl (a, _) ↦ inr (rw a nice)
        | inr old ↦ h.good s info old
      ];
      status = λ s info g. elim (added search.discovered s info g) [
        | inl (a, b) ↦
            inr
              (elim rest [ inl waits ↦ inl (rw a waits) | inr stops ↦ inr (inr (rw (a, b) stops)) ])
        | inr old ↦ elim (h.status s info old) [
          | inl q ↦ inl q
          | inr (inl q) ↦ inr (inl (forth s q))
          | inr (inr (inl closed)) ↦ inr (
              inr (
                inl (
                  Closed-mono system search.discovered ((next, entry) ∷ search.discovered) s
                    (system.events s) x closed)))
          | inr (inr (inr stops)) ↦ inr (inr (inr stops))
        ]
      ];
    }
      where
        x : Extends search.discovered ((next, entry) ∷ search.discovered)
        x s info m = Memᴰ.tail m

    -- What a visit leaves.
    abbrev After : List S → Search S E → Search S E → Type 0
    After queue search search' =
        Invariant depth queue search'
        × Extends search.discovered search'.discovered
        × Met system next search'.discovered

    mem-snoc : (l : List S) (s : S) → Memᴰ s (l ++ next ∷ []) → Memᴰ s l ⊎ (s ≡ next)
    mem-snoc l s m = elim (Memᴰ.append_cases l m) [
      | inl old ↦ inl old
      | inr new ↦ inr (Memᴰ.eq_of_singleton new)
    ]

    is_last-Stopped :
        is_last system settings depth || settings.prune next ≡ true
        → Stopped system settings first next entry
    is_last-Stopped h = go settings.max_depth refl h
      where
        go :
            (o : Option ℕ)
            → settings.max_depth ≡ o
            → (elim o [ none ↦ false | some d ↦ suc depth == d ]) || settings.prune next ≡ true
            → Stopped system settings first next entry
        go none e g = inl g
        go (some d) e g = elim (Bool-cases (suc depth == d)) [
          | inl f ↦ let same : suc depth ≡ d = (==_iff (suc depth) d).0 f in inr (rw same e)
          | inr f ↦ inl (rw f at g)
        ]

    visit_new-Holds :
        (queue : List S) (search : Search S E)
        → KnownAt depth state search.discovered
        → Memᴰ event (system.events state)
        → step system state event ≡ ok next
        → find system next search.discovered ≡ none
        → Invariant depth queue search
        → Holds system settings first
            (After queue search)
            (visit_new system settings depth state event next search)
    unfolding visit_new
    visit_new-Holds queue search at m leads absent h =
        elim (Outcome-cases (settings.invariant next)) [
          | inr (_, e) ↦ rw (visit_new, e) (entries, ((entry, self), e))
          | inl (_, e) ↦ elim (Bool-cases (settings.goal next)) [
            | inl g ↦ rw (visit_new, e, g) (entries, ((entry, self), g))
            | inr g ↦ elim (Bool-cases (is_last system settings depth || settings.prune next)) [
              | inl f ↦
                  rw (visit_new, e, g, f)
                    (
                      insert-Inv queue search.pushing search at m leads absent h (e, g)
                          (λ s q. inl q) (λ s q. q) (inr (is_last-Stopped f)),
                      x,
                      met,
                    )
              | inr f ↦
                  rw (visit_new, e, g, f)
                    (
                      insert-Inv queue (search.pushing ++ next ∷ []) search at m leads absent h
                          (e, g) (mem-snoc search.pushing) (λ s q. Memᴰ.append_left (next ∷ []) q)
                          (inl (Memᴰ.append_right search.pushing (Memᴰ.head refl))),
                      x,
                      met,
                    )
            ]
          ]
        ]
      where
        entries : Entries system first ((next, entry) ∷ search.discovered)
        entries = insert-Entries search.discovered at m leads absent h.entries

        self : Held next entry ((next, entry) ∷ search.discovered)
        self = Memᴰ.head refl

        x : Extends search.discovered ((next, entry) ∷ search.discovered)
        x s info m = Memᴰ.tail m

        met : Met system next ((next, entry) ∷ search.discovered)
        met = (next, (entry, self), inl refl)

    visit-Holds :
        (queue : List S) (search : Search S E)
        → KnownAt depth state search.discovered
        → Memᴰ event (system.events state)
        → step system state event ≡ ok next
        → Invariant depth queue search
        → Holds system settings first
            (After queue search)
            (visit system settings depth state event next search)
    unfolding visit
    visit-Holds queue search at m leads h =
        elim (Option-cases (find system next search.discovered)) [
          | inl absent ↦ rw absent (visit_new-Holds queue search at m leads absent h)
          | inr (info, e) ↦ rw e (h, (λ s i g. g), find-Met system next info search.discovered e)
        ]

  -- What visiting all the events leaves.
  abbrev Done : ℕ → S → List E → List S → Search S E → Search S E → Type 0
  Done depth state events queue search search' =
      Invariant depth queue search'
      × Extends search.discovered search'.discovered
      × Closed system search'.discovered state events

  Closed-cons :
      (state next : S) (event : E) (events : List E) (d : Discovered S E)
      → step system state event ≡ ok next
      → Met system next d
      → Closed system d state events
      → Closed system d state (event ∷ events)
  Closed-cons state next event events d e k closed other m = elim (Memᴰ.cases_cons m) [
    | inl same ↦ (next, rw same e, k)
    | inr later ↦ closed other later
  ]

  expand-Holds :
      (depth : ℕ) (state : S) (events : List E) (queue : List S) (search : Search S E)
      → KnownAt depth state search.discovered
      → ((event : E) → Memᴰ event events → Memᴰ event (system.events state))
      → Invariant depth queue search
      → Holds system settings first
          (Done depth state events queue search)
          (expand system settings depth state events search)
  unfolding expand
  expand-Holds depth state [] queue search at sub h =
      (h, (λ s i g. g), λ event m. absurd (Memᴰ.not-nil m))
  expand-Holds depth state (event ∷ events) queue search at sub h =
      elim (Outcome-cases (step system state event)) [
        | inr (_, e) ↦ rw (expand, e) (h.entries, ((at.0, at.1), sub event (Memᴰ.head refl), e))
        | inl (next, e) ↦
            rw (expand, e)
              (and_then-Holds system settings first (After depth state next event queue search)
                (Done depth state (event ∷ events) queue search)
                (visit system settings depth state event next search)
                (expand system settings depth state events)
                (visit-Holds depth state next event queue search at (sub event (Memᴰ.head refl)) e
                  h)
                (λ one after.
                  Holds-map system settings first (Done depth state events queue one)
                    (Done depth state (event ∷ events) queue search)
                    (expand system settings depth state events one)
                    (λ two done. (
                      done.0,
                      (λ s i g. done.1 s i (after.1 s i g)),
                      Closed-cons state next event events two.discovered e
                          (Met-mono system next one.discovered two.discovered done.1 after.2)
                          done.2,
                    ))
                    (expand-Holds depth state events queue one (at.0, after.1 state at.0 at.1, at.2)
                      (λ other m. sub other (Memᴰ.tail m)) after.0)))
      ]

  -- A state whose events are all visited is settled.
  settle :
      (depth : ℕ) (state : S) (queue : List S) (search : Search S E)
      → Closed system search.discovered state (system.events state)
      → Invariant depth (state ∷ queue) search
      → Invariant depth queue search
  settle depth state queue search closed h = record {
    rooted = h.rooted;
    entries = h.entries;
    queued = λ s q. h.queued s (Memᴰ.tail q);
    pushed = h.pushed;
    good = h.good;
    status = λ s info g. elim (h.status s info g) [
      | inl (Memᴰ.head e) ↦ inr (inr (inl (rw e closed)))
      | inl (Memᴰ.tail q) ↦ inl q
      | inr other ↦ inr other
    ];
  }

  pub drain-Holds :
      (depth : ℕ) (queue : List S) (search : Search S E)
      → Invariant depth queue search
      → Holds system settings first (Invariant depth []) (drain system settings depth queue search)
  unfolding drain
  drain-Holds depth [] search h = h
  drain-Holds depth (state ∷ queue) search h =
      and_then-Holds system settings first
        (Done depth state (system.events state) (state ∷ queue) search) (Invariant depth [])
        (expand system settings depth state (system.events state) search)
        (drain system settings depth queue)
        (expand-Holds depth state (system.events state) (state ∷ queue) search
          (h.queued state (Memᴰ.head refl)) (λ event m. m) h)
        (λ one done. drain-Holds depth queue one (settle depth state queue one done.2 done.0))
