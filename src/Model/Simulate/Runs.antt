-- ===== src/Model/Simulate/Runs.antt =====
-- src/model/simulate.rs, `Temporal`: what each operation does in a valid state.
use mur_mesh.Prelude.{
  ℕ, suc, ◌≤◌, ◌<◌, ◌+◌, ◌%◌, ◌^◌, ◌≡◌, ◌⊎◌, inl, inr, refl, sym, subst, ◌∙◌, ap, none, some, true,
  List, [], ◌∷◌, ◌==◌, leb, Option-cases, arith, if◌then◌else◌,
}
use mathlib.Core.List.{Memᴰ}
use mathlib.Core.List.Memᴰ
use mur_mesh.Exec.{ok, err, bail}
use mur_mesh.Map
use mur_mesh.Map.Laws.{get-remove}
use mur_mesh.OrderedSet
use mur_mesh.OrderedSet.Removal.{contains-Memᴰ, contains-false}
use mur_mesh.Model.Schedule.{max_duration}
use mur_mesh.Model.Simulate.{
  TimerEnvelop, Temporal, by_time, add_duration, line_up, set, unset, pop,
}
use mur_mesh.Model.Simulate.Valid.{
  by_time-IsLawful, self_get, IsValid, insert-IsValid, set-Except, fire-Except, unset-IsValid,
}

add_duration_fits : (a b : ℕ) → a + b ≤ max_duration → add_duration a b ≡ some (a + b)
unfolding add_duration
add_duration_fits a b h = let e : leb (a + b) max_duration ≡ true = ground arith in rw e refl

module _ {M : Type 0} where
  -- The timeline gets an entry that it does not have.
  line_up-new :
      (at id : ℕ) (t : Temporal M)
      → (Memᴰ (at, id) t.timeline → ⊥)
      → line_up at id t
        ≡ (ok tt, record t { timeline = OrderedSet.insert by_time (at, id) t.timeline })
  unfolding line_up
  line_up-new at id t out =
      rw (contains-false by_time by_time-IsLawful (at, id) t.timeline out) refl

  abbrev envelop : M → ℕ → ℕ → TimerEnvelop M
  envelop event period at = record { event = event; period = period; at = at }

  abbrev after_set : ℕ → M → Temporal M → Temporal M
  after_set period event t = record {
    now = t.now;
    count = suc t.count;
    timers = Map.insert (suc t.count) (envelop event period (t.now + period)) t.timers;
    timeline = OrderedSet.insert by_time (t.now + period, suc t.count) t.timeline;
  }

  set_lem :
      (period : ℕ) (event : M) (t : Temporal M)
      → suc t.count < 2 ^ 32
      → t.now + period ≤ max_duration
      → Map.get (suc t.count) t.timers ≡ none
      → (Memᴰ (t.now + period, suc t.count) t.timeline → ⊥)
      → set period event t ≡ (ok (suc t.count), after_set period event t)
  unfolding set line_up
  set_lem period event t small fits absent out =
      let e : (t.count + 1) % 2 ^ 32 ≡ suc t.count = omega arith in
      rw
        (
          e,
          add_duration_fits t.now period fits,
          absent,
          contains-false by_time by_time-IsLawful (t.now + period, suc t.count) t.timeline out,
        )
        refl

  -- `set`, in a valid state, if neither the ids nor the time run over: the timer gets the next id, is set for
  -- its period from now, no assertion fails, and the state is valid.
  pub set-IsValid :
      (period : ℕ) (event : M) (t : Temporal M)
      → IsValid t
      → suc t.count < 2 ^ 32
      → t.now + period ≤ max_duration
      → let (r, t') = set period event t in
        (r ≡ ok (suc t.count))
        × IsValid t'
        × (Map.get (suc t.count) t'.timers ≡ some (envelop event period (t.now + period)))
  unfolding set
  set-IsValid period event t h small fits =
      let x = set-Except t (suc t.count) h (omega arith) in
      let e = envelop event period (t.now + period) in
      let absent : Map.get (suc t.count) t.timers ≡ none = new_id in
      let made = set_lem period event t small fits absent (x.out (t.now + period)) in
      rw made (
        refl,
        insert-IsValid (suc t.count) e (record t { count = suc t.count }) x (omega arith)
            (omega arith),
        self_get (suc t.count) (suc t.count) e t.timers refl,
      )
    where
      new_id : Map.get (suc t.count) t.timers ≡ none
      new_id = elim (Option-cases (Map.get (suc t.count) t.timers)) [
        | inl e ↦ e
        | inr (d, g) ↦ let low = h.counted (suc t.count) d g in absurd (omega arith)
      ]

  removed :
      (id : ℕ) (t : Temporal M) (e : TimerEnvelop M)
      → IsValid t
      → Map.get id t.timers ≡ some e
      → OrderedSet.contains by_time (e.at, id) t.timeline ≡ true
      → ((unset id t).0 ≡ ok tt)
        × IsValid (unset id t).1
        × ((q : ℕ)
            → Map.get q (unset id t).1.timers ≡ (if id == q then none else Map.get q t.timers))
  unfolding unset
  removed id t e h g c = rw (g, c) (refl, unset-IsValid t id e h g, λ q. get-remove q id t.timers)

  -- `unset`, in a valid state: without such a timer it is refused and changes nothing; with it no assertion
  -- fails, the timer is gone and every other timer is kept, and the state is valid.
  pub unset-cases :
      (id : ℕ) (t : Temporal M)
      → IsValid t
      → ((Map.get id t.timers ≡ none) × (unset id t ≡ (err bail, t)))
        ⊎ ((e : TimerEnvelop M) × (Map.get id t.timers ≡ some e)
            × ((unset id t).0 ≡ ok tt)
            × IsValid (unset id t).1
            × ((q : ℕ)
                → Map.get q (unset id t).1.timers ≡ (if id == q then none else Map.get q t.timers)))
  unfolding unset
  unset-cases id t h = elim (Option-cases (Map.get id t.timers)) [
    | inl e ↦ inl (e, rw e refl)
    | inr (e, g) ↦
        let c : OrderedSet.contains by_time (e.at, id) t.timeline ≡ true =
          contains-Memᴰ by_time by_time-IsLawful (e.at, id) t.timeline h.sorted (h.listed id e g) in
        let (done, valid, kept) = removed id t e h g c in inr (e, g, done, valid, kept)
  ]

  -- What a timer that fires leaves.
  abbrev after_fire : ℕ → TimerEnvelop M → List (ℕ × ℕ) → Temporal M → Temporal M
  after_fire id e rest t = record {
    now = e.at;
    count = t.count;
    timers = Map.insert id (record e { at = e.at + e.period }) t.timers;
    timeline = OrderedSet.insert by_time (e.at + e.period, id) rest;
  }

  pop_lem :
      (id : ℕ) (e : TimerEnvelop M) (rest : List (ℕ × ℕ)) (t : Temporal M)
      → t.timeline ≡ (e.at, id) ∷ rest
      → Map.get id t.timers ≡ some e
      → e.at + e.period ≤ max_duration
      → (Memᴰ (e.at + e.period, id) rest → ⊥)
      → pop t ≡ (ok e.event, after_fire id e rest t)
  unfolding pop line_up
  pop_lem id e rest t line got fits out =
      rw
        (
          line,
          got,
          add_duration_fits e.at e.period fits,
          contains-false by_time by_time-IsLawful (e.at + e.period, id) rest out,
        )
        refl

  -- A timer with this id fires, the earliest, and is set again.
  abbrev pub Fires : ℕ → Temporal M → Type 0
  Fires id t =
      (e : TimerEnvelop M) × (Map.get id t.timers ≡ some e)
      × ((q : ℕ) (d : TimerEnvelop M) → Map.get q t.timers ≡ some d → e.at ≤ d.at)
      × ((pop t).0 ≡ ok e.event)
      × ((pop t).1.now ≡ e.at)
      × (t.now ≤ e.at)
      × (Map.get id (pop t).1.timers ≡ some (record e { at = e.at + e.period }))
      × IsValid (pop t).1

  -- `pop`, in a valid state in which no time runs over: without a timer it is refused and changes nothing;
  -- else no assertion fails, the event is that of a timer with the earliest time, which becomes the time
  -- now, and is no earlier than it was; the timer is set again for its period, and the state is valid.
  pub pop-cases :
      (t : Temporal M)
      → IsValid t
      → ((id : ℕ) (e : TimerEnvelop M)
          → Map.get id t.timers ≡ some e
          → e.at + e.period ≤ max_duration)
      → ((pop t ≡ (err bail, t)) × ((id : ℕ) → Map.get id t.timers ≡ none))
        ⊎ ((id : ℕ) × Fires id t)
  unfolding pop
  pop-cases t h fits = elim (list-cases t.timeline) [
    | inl e ↦ inl (rw (pop, e) refl, no_timer e)
    | inr (at, id, rest, line) ↦
        let (e, got, same) = h.timed at id (subst (Memᴰ (at, id)) (sym line) (Memᴰ.head refl)) in
        inr (id, fires id e rest got (line ∙ (rw same refl)))
  ]
    where
      no_timer : t.timeline ≡ [] → (id : ℕ) → Map.get id t.timers ≡ none
      no_timer e id = elim (Option-cases (Map.get id t.timers)) [
        | inl f ↦ f
        | inr (d, g) ↦ absurd (Memᴰ.not-nil (subst (Memᴰ (d.at, id)) e (h.listed id d g)))
      ]

      list-cases :
          (xs : List (ℕ × ℕ))
          → (xs ≡ []) ⊎ ((at : ℕ) × (id : ℕ) × (rest : List (ℕ × ℕ)) × (xs ≡ (at, id) ∷ rest))
      list-cases [] = inl refl
      list-cases (x ∷ xs) = inr (x.0, x.1, xs, refl)

      fires :
          (id : ℕ) (e : TimerEnvelop M) (rest : List (ℕ × ℕ))
          → Map.get id t.timers ≡ some e
          → t.timeline ≡ (e.at, id) ∷ rest
          → Fires id t
      fires id e rest got line =
          let x = fire-Except t e.at id rest h line in
          let again : TimerEnvelop M = record e { at = e.at + e.period } in
          let made = pop_lem id e rest t line got (fits id e got) (x.out (e.at + e.period)) in
          let p = made in
          (
            e,
            got,
            earliest,
            ap (λ y. y.0) p,
            ap (λ y. y.1.now) p,
            h.due e.at id (subst (Memᴰ (e.at, id)) (sym line) (Memᴰ.head refl)),
            ap (λ y. Map.get id y.1.timers) p ∙ self_get id id again t.timers refl,
            subst (λ y. IsValid y.1) (sym p)
                (insert-IsValid id again (record t { now = e.at; timeline = rest }) x (omega arith)
                  (h.counted id e got)),
          )
        where
          earliest : (q : ℕ) (d : TimerEnvelop M) → Map.get q t.timers ≡ some d → e.at ≤ d.at
          earliest q d g = elim (Memᴰ.cases_cons (subst (Memᴰ (d.at, q)) line (h.listed q d g))) [
            | inl f ↦ let same = ap (λ y. y.0) f in omega arith
            | inr m ↦ (fire-Except t e.at id rest h line).due d.at q m
          ]
