-- ===== src/Tests/Search.antt =====
-- The searches on a small system: a counter that is raised by 1 or 2 while it is below 2. Some states also
-- hold what their equality leaves out, as the workload of the states of the code's tests is.
use mur_mesh.Prelude.{
  ℕ, suc, sym, ◌∙◌, Bool-cases, inl, inr, ◌+◌, ◌≡◌, refl, true, false, Option, none, some, List, [],
  ◌∷◌, ltb, ◌==◌, ==_iff, arith,
}
use mathlib.Core.List.{Memᴰ}
use mur_mesh.Exec.{ok, err, bail}
use mur_mesh.Model.Search.{
  System, Settings, SearchResult, Discovered, invariant_violation, step, breadth_first,
}
use mur_mesh.Model.Search.Entries.{IsReflexive, IsSymmetric, Known}
use mur_mesh.Model.Search.Trace.{Truthful, breadth_first-Truthful, IsCovered, breadth_first-covers}
use mur_mesh.Model.Search.Bound.{breadth_first-returns}
use mur_mesh.Model.Search.Probe.{probe}
use mur_mesh.Model.Search.Probe.Reports.{Told, probe-reports}

abbrev counter : System ℕ ℕ
counter = record {
  events = λ s. elim (ltb s 2) [ true ↦ 1 ∷ 2 ∷ [] | false ↦ [] ];
  send = λ e s. (ok tt, s + e);
  same = λ s t. s == t;
}

-- The same counter in states that also count the steps, which the equality of states leaves out.
abbrev logged : System (ℕ × ℕ) ℕ
logged = record {
  events = λ s. elim (ltb s.0 2) [ true ↦ 1 ∷ 2 ∷ [] | false ↦ [] ];
  send = λ e s. (ok tt, (s.0 + e, suc s.1));
  same = λ s t. s.0 == t.0;
}

logged-IsReflexive : IsReflexive logged
logged-IsReflexive s = (==_iff s.0 s.0).1 refl

logged-IsSymmetric : IsSymmetric logged
logged-IsSymmetric s t = elim (Bool-cases (s.0 == t.0)) [
  | inl e ↦ (==_iff t.0 s.0).1 (sym ((==_iff s.0 t.0).0 e)) ∙ sym e
  | inr e ↦ elim (Bool-cases (t.0 == s.0)) [
    | inl f ↦ f ∙ sym ((==_iff s.0 t.0).1 (sym ((==_iff t.0 s.0).0 f)))
    | inr f ↦ f ∙ sym e
  ]
]

abbrev free : Settings ℕ
free = record { invariant = λ s. ok tt; goal = λ s. false; prune = λ s. false; max_depth = none }

-- The counter is not to reach 3.
abbrev below_three : Settings ℕ
below_three = record {
  invariant = λ s. elim (s == 3) [ true ↦ err bail | false ↦ ok tt ];
  goal = λ s. false;
  prune = λ s. false;
  max_depth = some 3;
}

abbrev logged_free : Settings (ℕ × ℕ)
logged_free = record {
  invariant = λ s. ok tt;
  goal = λ s. false;
  prune = λ s. false;
  max_depth = none;
}

abbrev logged_below_three : Settings (ℕ × ℕ)
logged_below_three = record {
  invariant = λ s. elim (s.0 == 3) [ true ↦ err bail | false ↦ ok tt ];
  goal = λ s. false;
  prune = λ s. false;
  max_depth = some 3;
}

counter-Truthful :
    Truthful logged
      (0, 0)
      logged_below_three
      (invariant_violation ((1, (1, 1)) ∷ (2, (3, 2)) ∷ []) bail)
unfolding breadth_first step
counter-Truthful =
    breadth_first-Truthful logged logged-IsReflexive logged-IsSymmetric (0, 0) logged_below_three 3
      (invariant_violation ((1, (1, 1)) ∷ (2, (3, 2)) ∷ []) bail) refl

counter-covers :
    (seen : Discovered (ℕ × ℕ) ℕ) × Known (0, 0) seen
    × ((s : ℕ × ℕ)
        → Known s seen
        → IsCovered logged logged-IsReflexive logged-IsSymmetric (0, 0) logged_free seen s)
unfolding breadth_first step
counter-covers =
    breadth_first-covers logged logged-IsReflexive logged-IsSymmetric (0, 0) logged_free 4 refl refl

counter-returns :
    (r : SearchResult (ℕ × ℕ) ℕ) × (breadth_first logged logged_below_three 3 (0, 0) ≡ ok r)
counter-returns =
    breadth_first-returns logged logged-IsReflexive logged-IsSymmetric logged_below_three 3 (0, 0)
      refl (omega arith)

-- The first event is drawn.
abbrev choose_first : ℕ → List ℕ → Option ℕ
choose_first k [] = none
choose_first k (event ∷ events) = some event

choose_first-Memᴰ :
    (k : ℕ) (events : List ℕ) (event : ℕ) → choose_first k events ≡ some event → Memᴰ event events
choose_first-Memᴰ k [] event e = cc
choose_first-Memᴰ k (x ∷ events) event e = Memᴰ.head (some_inj e)
  where
    some_inj : {a b : ℕ} → Path (Option ℕ) (some a) (some b) → b ≡ a
    some_inj f = cc

counter-probe :
    Told counter below_three choose_first 0 (probe counter below_three choose_first 3 0 0 [])
counter-probe =
    probe-reports counter below_three choose_first 0 3 choose_first-Memᴰ refl (omega arith)
