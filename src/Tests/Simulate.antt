-- ===== src/Tests/Simulate.antt =====
-- The simulation's timers: one is set, fires and is unset.
use mur_mesh.Prelude.{
  [], ◌∷◌, ℕ, ◌≤◌, ◌+◌, ◌≡◌, ◌⊎◌, inl, inr, ap, none, some, Option, arith, if◌then◌else◌,
  Bool-cases, ◌==◌,
}
use mur_mesh.Exec.{ok, err, bail}
use mur_mesh.Map
use mur_mesh.OrderedSet
use mur_mesh.Model.Schedule.{max_duration}
use mur_mesh.Model.Simulate as Simulate
use mur_mesh.Net.{IndexNet, send_all}
use mur_mesh.Net.Broadcast.{send_all-others}
use mur_mesh.Model.Simulate.{NetworkState, Temporal, TimerEnvelop, unset, pop}
use mur_mesh.Model.Simulate.Valid.{IsValid, new-IsValid}
use mur_mesh.Model.Simulate.Runs.{set-IsValid, unset-cases, Fires, pop-cases}

abbrev idle : Temporal ℕ
idle = Simulate.new

abbrev running : Temporal ℕ
running = (Simulate.set 10 7 idle).1

running-set :
    ((Simulate.set 10 7 idle).0 ≡ ok 1)
    × IsValid running
    × (Map.get 1 running.timers ≡ some (record { event = 7; period = 10; at = 10 }))
unfolding Simulate.new
running-set = set-IsValid 10 7 idle new-IsValid (omega arith) (omega arith)

running-unset :
    ((Map.get 1 running.timers ≡ none) × (unset 1 running ≡ (err bail, running)))
    ⊎ ((e : TimerEnvelop ℕ) × (Map.get 1 running.timers ≡ some e)
        × ((unset 1 running).0 ≡ ok tt)
        × IsValid (unset 1 running).1
        × ((q : ℕ)
            → Map.get q (unset 1 running).1.timers
              ≡ (if 1 == q then none else Map.get q running.timers)))
running-unset = unset-cases 1 running running-set.1

-- Its only timer has its time.
running-fits :
    (id : ℕ) (e : TimerEnvelop ℕ)
    → Map.get id running.timers ≡ some e
    → e.at + e.period ≤ max_duration
unfolding Simulate.set Simulate.new Map.get Map.insert OrderedSet.contains
running-fits id e g = elim (Bool-cases (id == 1)) [
  | inl f ↦ only (rw f at g)
  | inr f ↦ absurd (none_some (rw f at g))
]
  where
    none_some : {d : TimerEnvelop ℕ} → Path (Option (TimerEnvelop ℕ)) none (some d) → ⊥
    none_some h = cc

    only :
        Path (Option (TimerEnvelop ℕ)) (some (record { event = 7; period = 10; at = 10 })) (some e)
        → e.at + e.period ≤ max_duration
    only h = let same = ap (λ d. d.at + d.period) (some_inj h) in omega arith
      where
        some_inj : {a b : TimerEnvelop ℕ} → Path (Option (TimerEnvelop ℕ)) (some a) (some b) → a ≡ b
        some_inj f = cc

running-Fires :
    ((pop running ≡ (err bail, running)) × ((id : ℕ) → Map.get id running.timers ≡ none))
    ⊎ ((id : ℕ) × Fires id running)
running-Fires = pop-cases running running-set.1 running-fits

-- Three addresses, of which the second is excepted.
abbrev three : IndexNet ℕ (NetworkState ℕ ℕ)
three = record { addrs = 10 ∷ 11 ∷ 12 ∷ []; all_except = some 1; inner = record { messages = [] } }

three-others :
    send_all Simulate.send 5 three
    ≡ (ok tt, record three { inner = record { messages = (10, 5) ∷ (12, 5) ∷ [] } })
three-others = send_all-others 5 three
