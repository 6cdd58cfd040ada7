-- ===== src/Model/Search/Covers.antt =====
-- src/model/search.rs: what the search over the depths reports is of an ordered map.
use mur_mesh.Prelude.{
  ℕ, zero, suc, ◌≡◌, inl, inr, refl, ap, subst, true, none, List, [], ◌∷◌, is_empty, Bool-cases,
}
use mathlib.Core.List.{Memᴰ}
use mathlib.Core.List.Memᴰ
use mur_mesh.Exec.{Outcome, ok, err, Error}
use mur_mesh.Model.Search.{
  System, Settings, StateInfo, Discovered, WorkerResult, exhausted, Search, Flow, going, finished,
  find, is_last, drain, after_level, levels, initial,
}
use mur_mesh.Model.Search.Entries.{Held, Entries, Sound, Holds}
use mur_mesh.Model.Search.Visits.{Invariant, drain-Holds}

module _ {S E : Type 0} (system : System S E) (settings : Settings S) (first : S) where
  -- The queues change places.
  turn :
      (depth : ℕ) (search : Search S E)
      → Invariant system settings first depth [] search
      → Invariant system settings first
          (suc depth)
          search.pushing
          (record { discovered = search.discovered; pushing = [] })
  turn depth search h = record {
    rooted = h.rooted;
    entries = h.entries;
    queued = h.pushed;
    pushed = λ s q. absurd (Memᴰ.not-nil q);
    good = h.good;
    status = λ s info g. elim (h.status s info g) [
      | inl q ↦ absurd (Memᴰ.not-nil q)
      | inr (inl q) ↦ inl q
      | inr (inr settled) ↦ inr (inr settled)
    ];
  }

  abbrev IsReported : WorkerResult S E → Discovered S E → Type 0
  IsReported result d = Entries system first d × Sound system settings first result d

  pair_inj :
      {r r' : WorkerResult S E} {d d' : Discovered S E}
      → Path (Outcome (WorkerResult S E × Discovered S E)) (ok (r, d)) (ok (r', d'))
      → IsReported r d
      → IsReported r' d'
  pair_inj {r} {r'} {d} {d'} e h =
      let a : r ≡ r' = cc in
      let b : d ≡ d' = cc in subst (λ y. IsReported y d') a (subst (IsReported r) b h)

  all-settled :
      (depth : ℕ) (search : Search S E)
      → is_empty search.pushing ≡ true
      → Invariant system settings first depth [] search
      → Sound system settings first exhausted search.discovered
  all-settled depth search empty h = (
    h.good,
    λ s info g. elim (h.status s info g) [
      | inl q ↦ absurd (Memᴰ.not-nil q)
      | inr (inl q) ↦ absurd (none_in search.pushing empty q)
      | inr (inr settled) ↦ settled
    ],
    h.rooted,
  )
    where
      none_in : {s : S} (l : List S) → is_empty l ≡ true → Memᴰ s l → ⊥
      none_in [] e q = Memᴰ.not-nil q
      none_in (x ∷ l) e q = cc

  after_level-IsReported :
      (depth : ℕ) (flow : Flow S E)
      (next : Search S E → Outcome (WorkerResult S E × Discovered S E)) (result : WorkerResult S E)
      (d : Discovered S E)
      → Holds system settings first (Invariant system settings first depth []) flow
      → ((search : Search S E)
          → Invariant system settings first depth [] search
          → next search ≡ ok (result, d)
          → IsReported result d)
      → after_level system settings depth flow next ≡ ok (result, d)
      → IsReported result d
  unfolding after_level
  after_level-IsReported depth (finished r d0) next result d h k e = pair_inj e h
  after_level-IsReported depth (going search) next result d h k e =
      elim (Bool-cases (is_empty search.pushing)) [
        | inl f ↦ pair_inj (rw f at e) (h.entries, all-settled depth search f h)
        | inr f ↦ elim (Bool-cases (is_last system settings depth)) [
          | inl g ↦ absurd (fails (rw (f, g) at e))
          | inr g ↦ k search h (rw (f, g) at e)
        ]
      ]
    where
      fails :
          {x : Error}
          → Path (Outcome (WorkerResult S E × Discovered S E)) (err x) (ok (result, d))
          → ⊥
      fails e = cc

  levels-IsReported :
      (fuel depth : ℕ) (queue : List S) (d : Discovered S E)
      → Invariant system settings first depth queue (record { discovered = d; pushing = [] })
      → (result : WorkerResult S E) (d' : Discovered S E)
      → levels system settings fuel depth queue d ≡ ok (result, d')
      → IsReported result d'
  unfolding levels
  levels-IsReported zero depth queue d h result d' e = absurd cc
  levels-IsReported (suc fuel) depth queue d h result d' e =
      after_level-IsReported depth
        (drain system settings depth queue (record { discovered = d; pushing = [] })) _ result d'
        (drain-Holds system settings first depth queue (record { discovered = d; pushing = [] }) h)
        (λ search g f.
          levels-IsReported fuel (suc depth) search.pushing search.discovered (turn depth search g)
            result d' f)
        e

  abbrev root : StateInfo S E
  root = record { prev = none; depth = 0 }

  initial-Invariant :
      Invariant system settings first 0
        (first ∷ [])
        (record { discovered = initial system settings first; pushing = [] })
  unfolding find
  initial-Invariant = record {
    rooted = (root, Memᴰ.head refl);
    entries =
        ((refl, tt), λ s info g. let (a, b) = only s info g in rw (a, b) (inl (refl, refl, refl)));
    queued = λ s q.
        let same : s ≡ first = Memᴰ.eq_of_singleton q in (root, rw same (Memᴰ.head refl), refl);
    pushed = λ s q. absurd (Memᴰ.not-nil q);
    good = λ s info g. inl ((only s info g).0);
    status = λ s info g. inl (Memᴰ.head ((only s info g).0));
  }
    where
      only :
          (s : S) (info : StateInfo S E)
          → Held s info (initial system settings first)
          → (s ≡ first) × (info ≡ root)
      only s info g = let e = Memᴰ.eq_of_singleton g in (ap (λ p. p.0) e, ap (λ p. p.1) e)

  -- What the search over the depths tells of the first state's map.
  pub search-IsReported :
      (fuel : ℕ) (result : WorkerResult S E) (d : Discovered S E)
      → levels system settings fuel 0 (first ∷ []) (initial system settings first) ≡ ok (result, d)
      → Entries system first d × Sound system settings first result d
  search-IsReported fuel result d e =
      levels-IsReported fuel 0 (first ∷ []) (initial system settings first) initial-Invariant result
        d e
