-- ===== src/Model/Simulate/Valid.antt =====
-- src/model/simulate.rs, `Temporal`: the timeline has one entry for each timer, at its time, and none lies in
-- the past.
use mur_mesh.Prelude.{
  ℕ, ◌≤◌, ◌<◌, ◌≡◌, ◌≢◌, ◌⊎◌, inl, inr, refl, sym, subst, ◌∙◌, ap, Option, none, some, true, false,
  List, ◌∷◌, ◌==◌, ==_iff, Bool-cases, arith,
}
use mathlib.Core.List.{Memᴰ}
use mathlib.Core.List.Memᴰ
use Prim.Native.Nat.{Ordering, compare}
use mur_mesh.Map
use mur_mesh.Map.{Map}
use mur_mesh.Map.Laws.{get-insert, get-remove}
use mur_mesh.OrderedSet
use mur_mesh.OrderedSet.{Compare, compare_pair}
use mur_mesh.OrderedSet.Laws.{
  IsLawful, IsSorted, insert-IsSorted, Memᴰ-insert, Memᴰ-insert_new, Memᴰ-insert_old, irreflexive,
}
use mur_mesh.OrderedSet.Removal.{Memᴰ-remove, Memᴰ-remove_other, remove-IsSorted}
use mur_mesh.OrderedSet.Pairs.{compare-IsLawful, pair-IsLawful}
use mur_mesh.Model.Simulate.{TimerEnvelop, Temporal, by_time, new}

pub by_time-IsLawful : IsLawful by_time
by_time-IsLawful = pair-IsLawful compare compare compare-IsLawful compare-IsLawful

-- Of two entries in order, the first is not the later one.
pub by_time_le : (a i b j : ℕ) → by_time (a, i) (b, j) ≡ Ordering.lt → a ≤ b
by_time_le a i b j e = ground arith

unequal : (id q : ℕ) → (id == q) ≡ false → q ≢ id
unequal id q f g = ground arith

module _ {M : Type 0} where
  pub record IsValid (t : Temporal M) : Type 0 where
    pub sorted : IsSorted by_time t.timeline
    pub listed :
        (id : ℕ) (e : TimerEnvelop M) → Map.get id t.timers ≡ some e → Memᴰ (e.at, id) t.timeline
    pub timed :
        (at id : ℕ)
        → Memᴰ (at, id) t.timeline
        → (e : TimerEnvelop M) × (Map.get id t.timers ≡ some e) × (e.at ≡ at)
    pub due : (at id : ℕ) → Memᴰ (at, id) t.timeline → t.now ≤ at
    pub counted : (id : ℕ) (e : TimerEnvelop M) → Map.get id t.timers ≡ some e → id ≤ t.count

  -- The same, but for one timer, that is not in the timeline.
  pub record Except (id : ℕ) (t : Temporal M) : Type 0 where
    pub sorted : IsSorted by_time t.timeline
    pub out : (at : ℕ) → Memᴰ (at, id) t.timeline → ⊥
    pub listed :
        (q : ℕ) (e : TimerEnvelop M)
        → q ≢ id
        → Map.get q t.timers ≡ some e
        → Memᴰ (e.at, q) t.timeline
    pub timed :
        (at q : ℕ)
        → Memᴰ (at, q) t.timeline
        → (e : TimerEnvelop M) × (Map.get q t.timers ≡ some e) × (e.at ≡ at)
    pub due : (at q : ℕ) → Memᴰ (at, q) t.timeline → t.now ≤ at
    pub counted : (q : ℕ) (e : TimerEnvelop M) → Map.get q t.timers ≡ some e → q ≤ t.count

  some_inj : {a b : TimerEnvelop M} → Path (Option (TimerEnvelop M)) (some a) (some b) → a ≡ b
  some_inj e = cc

  -- What the map has after an insertion.
  inserted :
      (id q : ℕ) (e d : TimerEnvelop M) (m : Map (TimerEnvelop M))
      → Map.get q (Map.insert id e m) ≡ some d
      → ((q ≡ id) × (d ≡ e)) ⊎ ((q ≢ id) × (Map.get q m ≡ some d))
  inserted id q e d m h = elim (Bool-cases (id == q)) [
    | inl f ↦ inl (sym ((==_iff id q).0 f), some_inj (sym h ∙ get-insert q id e m ∙ (rw f refl)))
    | inr f ↦ inr (unequal id q f, sym (get-insert q id e m ∙ (rw f refl)) ∙ h)
  ]

  kept :
      (id q : ℕ) (e : TimerEnvelop M) (m : Map (TimerEnvelop M))
      → q ≢ id
      → Map.get q (Map.insert id e m) ≡ Map.get q m
  kept id q e m other = elim (Bool-cases (id == q)) [
    | inl f ↦ absurd (other (sym ((==_iff id q).0 f)))
    | inr f ↦ get-insert q id e m ∙ (rw f refl)
  ]

  pub self_get :
      (id q : ℕ) (e : TimerEnvelop M) (m : Map (TimerEnvelop M))
      → q ≡ id
      → Map.get q (Map.insert id e m) ≡ some e
  self_get id q e m same =
      let f : (id == q) ≡ true = (==_iff id q).1 (sym same) in get-insert q id e m ∙ (rw f refl)

  pub insert-IsValid :
      (id : ℕ) (e : TimerEnvelop M) (t : Temporal M)
      → Except id t
      → t.now ≤ e.at
      → id ≤ t.count
      → IsValid (record t {
        timers = Map.insert id e t.timers;
        timeline = OrderedSet.insert by_time (e.at, id) t.timeline;
      })
  insert-IsValid id e t h soon low = record {
    sorted = insert-IsSorted by_time by_time-IsLawful (e.at, id) t.timeline h.sorted;
    listed = λ q d g. elim (inserted id q e d t.timers g) [
      | inl (same, value) ↦
          rw (same, value) (Memᴰ-insert_new by_time by_time-IsLawful (e.at, id) t.timeline)
      | inr (other, k) ↦ Memᴰ-insert_old by_time _ _ t.timeline (h.listed q d other k)
    ];
    timed = λ at q m. elim (Memᴰ-insert by_time (e.at, id) (at, q) t.timeline m) [
      | inl f ↦ (e, self_get id q e t.timers (ap (λ p. p.1) f), sym (ap (λ p. p.0) f))
      | inr k ↦
          let (d, g, same) = h.timed at q k in
          (
            d,
            kept id q e t.timers (λ f. h.out at (subst (λ i. Memᴰ (at, i) t.timeline) f k)) ∙ g,
            same,
          )
    ];
    due = λ at q m. elim (Memᴰ-insert by_time (e.at, id) (at, q) t.timeline m) [
      | inl f ↦ let g = ap (λ p. p.0) f in omega arith
      | inr k ↦ h.due at q k
    ];
    counted = λ q d g. elim (inserted id q e d t.timers g) [
      | inl (same, _) ↦ omega arith
      | inr (_, k) ↦ h.counted q d k
    ];
  }

  -- A timer that the map does not have.
  pub set-Except :
      (t : Temporal M) (count : ℕ)
      → IsValid t
      → t.count < count
      → Except count (record t { count = count })
  set-Except t count h more = record {
    sorted = h.sorted;
    out =
        λ at m. let (e, g, _) = h.timed at count m in let low = h.counted count e g in omega arith;
    listed = λ q e _ g. h.listed q e g;
    timed = h.timed;
    due = h.due;
    counted = λ q e g. let low = h.counted q e g in omega arith;
  }

  -- The first timer is taken from the timeline.
  pub fire-Except :
      (t : Temporal M) (at id : ℕ) (rest : List (ℕ × ℕ))
      → IsValid t
      → t.timeline ≡ (at, id) ∷ rest
      → Except id (record t { now = at; timeline = rest })
  fire-Except t at id rest h e = record {
    sorted = sorted.1;
    out = λ a m.
        let (d, g, same) = timed a id (Memᴰ.tail m) in
        let (d', g', same') = timed at id (Memᴰ.head refl) in
        let equal : at ≡ a = sym same' ∙ ap (λ x. x.at) (some_inj (sym g' ∙ g)) ∙ same in
        irreflexive by_time by_time-IsLawful (at, id)
          (sorted.0 (at, id) (subst (λ x. Memᴰ (x, id) rest) (sym equal) m));
    listed = λ q d other g. elim (Memᴰ.cases_cons (subst (Memᴰ (d.at, q)) e (h.listed q d g))) [
      | inl f ↦ absurd (other (ap (λ p. p.1) f))
      | inr m ↦ m
    ];
    timed = λ a q m. timed a q (Memᴰ.tail m);
    due = λ a q m. by_time_le at id a q (sorted.0 (a, q) m);
    counted = h.counted;
  }
    where
      sorted : IsSorted by_time ((at, id) ∷ rest)
      sorted = subst (IsSorted by_time) e h.sorted

      timed :
          (a q : ℕ)
          → Memᴰ (a, q) ((at, id) ∷ rest)
          → (d : TimerEnvelop M) × (Map.get q t.timers ≡ some d) × (d.at ≡ a)
      timed a q m = h.timed a q (subst (Memᴰ (a, q)) (sym e) m)

  -- A timer is removed from both.
  pub unset-IsValid :
      (t : Temporal M) (id : ℕ) (e : TimerEnvelop M)
      → IsValid t
      → Map.get id t.timers ≡ some e
      → IsValid (record t {
        timers = Map.remove id t.timers;
        timeline = OrderedSet.remove by_time (e.at, id) t.timeline;
      })
  unset-IsValid t id e h got = record {
    sorted = remove-IsSorted by_time by_time-IsLawful (e.at, id) t.timeline h.sorted;
    listed = λ q d g.
        let (other, k) = left q d g in
        Memᴰ-remove_other by_time by_time-IsLawful (e.at, id) (d.at, q) t.timeline (h.listed q d k)
          (λ f. other (ap (λ p. p.1) f));
    timed = λ a q m.
        let (n, other) =
          Memᴰ-remove by_time by_time-IsLawful (e.at, id) (a, q) t.timeline h.sorted m in
        let (d, g, same) = h.timed a q n in (d, stays q (differ a q d g same other) ∙ g, same);
    due = λ a q m.
        h.due a q (Memᴰ-remove by_time by_time-IsLawful (e.at, id) (a, q) t.timeline h.sorted m).0;
    counted = λ q d g. h.counted q d (left q d g).1;
  }
    where
      none_some : {d : TimerEnvelop M} → Path (Option (TimerEnvelop M)) none (some d) → ⊥
      none_some f = cc

      left :
          (q : ℕ) (d : TimerEnvelop M)
          → Map.get q (Map.remove id t.timers) ≡ some d
          → (q ≢ id) × (Map.get q t.timers ≡ some d)
      left q d g = elim (Bool-cases (id == q)) [
        | inl f ↦ absurd (none_some (sym (get-remove q id t.timers ∙ (rw f refl)) ∙ g))
        | inr f ↦ (unequal id q f, sym (get-remove q id t.timers ∙ (rw f refl)) ∙ g)
      ]

      stays : (q : ℕ) → q ≢ id → Map.get q (Map.remove id t.timers) ≡ Map.get q t.timers
      stays q other = elim (Bool-cases (id == q)) [
        | inl f ↦ absurd (other (sym ((==_iff id q).0 f)))
        | inr f ↦ get-remove q id t.timers ∙ (rw f refl)
      ]

      differ :
          (a q : ℕ) (d : TimerEnvelop M)
          → Map.get q t.timers ≡ some d
          → d.at ≡ a
          → ◌≢◌ {A = ℕ × ℕ} (a, q) (e.at, id)
          → q ≢ id
      differ a q d g same other f =
          let equal = some_inj (sym (subst (λ i. Map.get i t.timers ≡ some d) f g) ∙ got) in
          let at : a ≡ e.at = sym same ∙ ap (λ x. x.at) equal in other (rw (at, f))

  pub new-IsValid : IsValid (new {M = M})
  unfolding new Map.get
  new-IsValid = record {
    sorted = tt;
    listed = λ id e g. absurd (none_some g);
    timed = λ at id m. absurd (Memᴰ.not-nil m);
    due = λ at id m. absurd (Memᴰ.not-nil m);
    counted = λ id e g. absurd (none_some g);
  }
    where
      none_some : {d : TimerEnvelop M} → Path (Option (TimerEnvelop M)) none (some d) → ⊥
      none_some f = cc
