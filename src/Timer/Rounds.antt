-- ===== src/Timer/Rounds.antt =====
-- src/timer.rs over src/model/search/state.rs: a timer that is set and then unset.
use mur_mesh.Prelude.{
  ℕ, ◌≡◌, refl, some, List, [], ◌∷◌, ◌++◌, arith, add_u32, ◌==◌, All, true, false,
}
use mur_mesh.Exec.{ok}
use mur_mesh.Timer
use mur_mesh.Timer.{Timer, ensure_set, ensure_unset}
use mur_mesh.Model.Schedule
use mur_mesh.Model.Schedule.{TimerEnvelop, Schedule, schedule_event, extract}

module _ {M : Type 0} where
  -- No timer of the list has the id.
  abbrev pub IsFresh : ℕ → List (TimerEnvelop M) → Type 0
  IsFresh id es = All (λ e. (e.id == id) ≡ false) es

  extract-append :
      (id : ℕ) (es : List (TimerEnvelop M)) (e : TimerEnvelop M)
      → e.id ≡ id
      → IsFresh id es
      → extract id (es ++ e ∷ []) ≡ some (e, es)
  unfolding extract
  extract-append id [] e same h = let eq : (e.id == id) ≡ true = ground arith in rw eq refl
  extract-append id (f ∷ es) e same h = rw (h.0, extract-append id es e same h.1) refl

  -- A timer that is off is set and then unset: it is off, and the schedule holds what it held, if no timer
  -- there has the number that the new one is given.
  pub ensure_unset-ensure_set :
      (event : M) (period : ℕ) (s : Schedule M)
      → IsFresh (add_u32 s.count 1) s.envelops
      → let c = schedule_event M in
        let on = ensure_set c event (Timer.new period, s) in
        let off = ensure_unset c on.1 in
        (on.0 ≡ ok tt)
        × (on.1.0.id ≡ some (add_u32 s.count 1))
        × (off.0 ≡ ok tt)
        × (off.1.0 ≡ Timer.new period)
        × (off.1.1.envelops ≡ s.envelops)
  unfolding ensure_set ensure_unset Timer.set Timer.unset Schedule.set Schedule.unset
      Schedule.remove
  ensure_unset-ensure_set event period s fresh =
      let found =
        extract-append (add_u32 s.count 1) s.envelops
          (record { id = add_u32 s.count 1; period = period; event = event }) refl fresh in
      rw found (refl, refl, refl, refl, refl)
