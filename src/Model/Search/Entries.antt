-- ===== src/Model/Search/Entries.antt =====
-- src/model/search.rs: what holds of the map of discovered states and of the queues, between the
-- rounds of the loops.
use mur_mesh.Prelude.{
  ℕ, suc, ◌≡◌, ◌⊎◌, inl, inr, refl, sym, subst, ap, ◌∙◌, true, false, Option, none, some, List, [],
  ◌∷◌, Bool-cases,
}
use mathlib.Core.List.{Memᴰ}
use mathlib.Core.List.Memᴰ
use mur_mesh.Exec.{ok, err}
use mur_mesh.Model.Search.{
  System, Settings, StateInfo, Discovered, WorkerResult, error, violation, goal, exhausted, Search,
  Flow, going, finished, and_then, step, find,
}

-- What `Eq` promises of the equality of states: it may well take different states for equal.
abbrev pub IsReflexive : {S E : Type 0} → System S E → Type 0
IsReflexive {S} system = (s : S) → system.same s s ≡ true

abbrev pub IsSymmetric : {S E : Type 0} → System S E → Type 0
IsSymmetric {S} system = (s t : S) → system.same t s ≡ system.same s t

-- An entry of the map: a state that was found, and its information.
abbrev pub Held : {S E : Type 0} → S → StateInfo S E → Discovered S E → Type 0
Held {S} {E} s info d = Memᴰ {A = S × StateInfo S E} (s, info) d

abbrev pub Known : {S E : Type 0} → S → Discovered S E → Type 0
Known {S} {E} s d = (info : StateInfo S E) × Held s info d

abbrev pub KnownAt : {S E : Type 0} → ℕ → S → Discovered S E → Type 0
KnownAt {S} {E} depth s d = (info : StateInfo S E) × Held s info d × (info.depth ≡ depth)

-- Nothing in the map is lost or changed.
abbrev pub Extends : {S E : Type 0} → Discovered S E → Discovered S E → Type 0
Extends {S} {E} d d' = (s : S) (info : StateInfo S E) → Held s info d → Held s info d'

module _ {S E : Type 0} (system : System S E) where
  -- The map has this state, or a state that equals it by `same`.
  abbrev pub Met : S → Discovered S E → Type 0
  Met t d = (u : S) × Known u d × ((u ≡ t) ⊎ (system.same u t ≡ true))

  -- A state was added only if the map had none equal to it.
  abbrev pub IsDistinct : Discovered S E → Type 0
  IsDistinct [] = Unit {0}
  IsDistinct ((s, info) ∷ d) = (find system s d ≡ none) × IsDistinct d

  -- The entry is that of the first state, or its `prev` leads to the state by an event, and is in the map
  -- one level up.
  abbrev pub Entry : S → Discovered S E → S → StateInfo S E → Type 0
  Entry first d s info =
      ((info.prev ≡ none) × (s ≡ first) × (info.depth ≡ 0))
      ⊎ ((event : E) × (p : S) × (up : StateInfo S E) × (info.prev ≡ some (event, p))
          × Memᴰ event (system.events p)
          × (step system p event ≡ ok s)
          × Held p up d
          × (suc up.depth ≡ info.depth))

  abbrev pub Entries : S → Discovered S E → Type 0
  Entries first d =
      IsDistinct d × ((s : S) (info : StateInfo S E) → Held s info d → Entry first d s info)

  -- Every event of the state leads to a state that the map has met.
  abbrev pub Closed : Discovered S E → S → List E → Type 0
  Closed d s events =
      (event : E) → Memᴰ event events → (u : S) × (step system s event ≡ ok u) × Met u d

  module _ (settings : Settings S) (first : S) where
    abbrev pub Good : S → Type 0
    Good s = (settings.invariant s ≡ ok tt) × (settings.goal s ≡ false)

    abbrev pub Stopped : S → StateInfo S E → Type 0
    Stopped s info = (settings.prune s ≡ true) ⊎ (settings.max_depth ≡ some info.depth)

    abbrev pub Settled : Discovered S E → S → StateInfo S E → Type 0
    Settled d s info = Closed d s (system.events s) ⊎ Stopped s info

    -- Before a state of the queue of a depth: each state of the map waits in a queue, or is settled.
    pub record Inv (depth : ℕ) (queue : List S) (search : Search S E) : Type 0 where
      pub rooted : Known first search.discovered
      pub entries : Entries first search.discovered
      pub queued : (s : S) → Memᴰ s queue → KnownAt depth s search.discovered
      pub pushed : (s : S) → Memᴰ s search.pushing → KnownAt (suc depth) s search.discovered
      pub good :
          (s : S) (info : StateInfo S E) → Held s info search.discovered → (s ≡ first) ⊎ Good s
      pub status :
          (s : S) (info : StateInfo S E)
          → Held s info search.discovered
          → Memᴰ s queue ⊎ (Memᴰ s search.pushing ⊎ Settled search.discovered s info)

    -- What a result tells of the map.
    abbrev pub Sound : WorkerResult S E → Discovered S E → Type 0
    Sound (error s event x) d =
        Known s d × Memᴰ event (system.events s) × (step system s event ≡ err x)
    Sound (violation s x) d = Known s d × (settings.invariant s ≡ err x)
    Sound (goal s) d = Known s d × (settings.goal s ≡ true)
    Sound exhausted d =
        ((s : S) (info : StateInfo S E) → Held s info d → (s ≡ first) ⊎ Good s)
        × ((s : S) (info : StateInfo S E) → Held s info d → Settled d s info)
        × Known first d

    abbrev pub Holds : (Search S E → Type 0) → Flow S E → Type 0
    Holds P (going search) = P search
    Holds P (finished result d) = Entries first d × Sound result d

    pub Holds-map :
        (P Q : Search S E → Type 0) (flow : Flow S E)
        → ((search : Search S E) → P search → Q search)
        → Holds P flow
        → Holds Q flow
    Holds-map P Q (going search) f h = f search h
    Holds-map P Q (finished result d) f h = h

    pub and_then-Holds :
        (P Q : Search S E → Type 0) (flow : Flow S E) (f : Search S E → Flow S E)
        → Holds P flow
        → ((search : Search S E) → P search → Holds Q (f search))
        → Holds Q (and_then flow f)
    and_then-Holds P Q (going search) f h g = g search h
    and_then-Holds P Q (finished result d) f h g = h

module _ {S E : Type 0} (system : System S E) where
  -- A state that is found equals one of the map.
  pub find-Met :
      (t : S) (info : StateInfo S E) (d : Discovered S E)
      → find system t d ≡ some info
      → Met system t d
  unfolding find
  find-Met t info [] e = cc
  find-Met t info ((s, known) ∷ d) e = elim (Bool-cases (system.same s t)) [
    | inl f ↦ (s, (known, Memᴰ.head refl), inr f)
    | inr f ↦ let (u, (found, m), g) = find-Met t info d (rw f at e) in (u, (found, Memᴰ.tail m), g)
  ]

  -- A state that is not found equals none of the map.
  find-none :
      (t : S) (d : Discovered S E) (s : S) (info : StateInfo S E)
      → find system t d ≡ none
      → Held s info d
      → system.same s t ≡ false
  unfolding find
  find-none t [] s info e m = absurd (Memᴰ.not-nil m)
  find-none t ((k, known) ∷ d) s info e m = elim (Bool-cases (system.same k t)) [
    | inl f ↦ absurd (clash (rw f at e))
    | inr f ↦ elim (Memᴰ.cases_cons m) [
      | inl g ↦ subst (λ x. system.same x t ≡ false) (sym (ap (λ p. p.0) g)) f
      | inr n ↦ find-none t d s info (rw f at e) n
    ]
  ]
    where
      clash : Path (Option (StateInfo S E)) (some known) none → ⊥
      clash g = cc

  -- Each state of the map is found with its own information.
  pub find-Held :
      IsReflexive system
      → IsSymmetric system
      → (d : Discovered S E) (s : S) (info : StateInfo S E) → IsDistinct system d
      → Held s info d
      → find system s d ≡ some info
  unfolding find
  find-Held r y [] s info h m = absurd (Memᴰ.not-nil m)
  find-Held r y ((k, known) ∷ d) s info h m = elim (Memᴰ.cases_cons m) [
    | inl g ↦
        let e : system.same k s ≡ true =
          subst (λ x. system.same x s ≡ true) (ap (λ p. p.0) g) (r s) in
        rw e (ap some (sym (ap (λ p. p.1) g)))
    | inr n ↦
        let e : system.same k s ≡ false = y s k ∙ find-none k d s info h.0 n in
        rw e (find-Held r y d s info h.1 n)
  ]

  pub Entry-mono :
      (first : S) (d d' : Discovered S E) (s : S) (info : StateInfo S E)
      → Extends d d'
      → Entry system first d s info
      → Entry system first d' s info
  Entry-mono first d d' s info x (inl h) = inl h
  Entry-mono first d d' s info x (inr (event, p, up, a, b, c, f, g)) =
      inr (event, p, up, a, b, c, x p up f, g)

  pub Met-mono : (t : S) (d d' : Discovered S E) → Extends d d' → Met system t d → Met system t d'
  Met-mono t d d' x (u, (info, h), e) = (u, (info, x u info h), e)

  pub Closed-mono :
      (d d' : Discovered S E) (s : S) (events : List E)
      → Extends d d'
      → Closed system d s events
      → Closed system d' s events
  Closed-mono d d' s events x h event m = let (u, e, k) = h event m in (u, e, Met-mono u d d' x k)
