-- ===== src/Workload/Kvstore/Expected.antt =====
-- src/workload/app/kvstore.rs: the store answers the workload as the workload expects.
use mur_mesh.Prelude.{
  ℕ, ◌+◌, ◌≡◌, refl, sym, ◌∙◌, Bool, true, false, none, some, List, [], ◌∷◌, ◌==◌, bytes_eq,
  is_empty, if◌then◌else◌, All, Bool-cases, inl, inr, bytes_eq_refl, eq_of_bytes_eq,
  bytes_eq-append, bytes_eq_last, arith, ==_iff,
}
use mur_mesh.Workload.Kvstore.{
  Str, KvStore, Result, find, insert, invoke, InfinitePutGet, new, next_item, key_of, expected_get,
}

pub find-insert :
    (q k v : Str) (store : KvStore)
    → find q (insert k v store) ≡ (if bytes_eq k q then some v else find q store)
unfolding find insert
find-insert q k v [] = elim (Bool-cases (bytes_eq k q)) [ inl e ↦ rw e refl | inr e ↦ rw e refl ]
find-insert q k v ((j, w) ∷ store) = elim (Bool-cases (bytes_eq j k)) [
  | inl e ↦
      let same : j ≡ k = eq_of_bytes_eq j k e in
      elim (Bool-cases (bytes_eq k q)) [
        | inl f ↦ rw (e, f) refl
        | inr f ↦ let g : bytes_eq j q ≡ false = rw same f in rw (e, f, g) refl
      ]
  | inr e ↦ elim (Bool-cases (bytes_eq j q)) [
    | inl f ↦
        let same : j ≡ q = eq_of_bytes_eq j q f in
        elim (Bool-cases (bytes_eq k q)) [
          | inl g ↦
              let other : k ≡ q = eq_of_bytes_eq k q g in
              let eq : bytes_eq j k ≡ true = rw (same ∙ sym other) (bytes_eq_refl k) in absurd cc
          | inr g ↦ rw (e, f, g) refl
        ]
    | inr f ↦ rw (e, f) (find-insert q k v store)
  ]
]

bytes_eq-key_of : (n : Str) (i j : ℕ) → bytes_eq (key_of n i) (key_of n j) ≡ (i == j)
bytes_eq-key_of n i j =
    bytes_eq-append n (45 ∷ (48 + i) ∷ []) (45 ∷ (48 + j) ∷ [])
    ∙ bytes_eq-append (45 ∷ []) ((48 + i) ∷ []) ((48 + j) ∷ [])
    ∙ bytes_eq_last (48 + i) (48 + j)
    ∙ shifted
  where
    shifted : ((48 + i) == (48 + j)) ≡ (i == j)
    shifted = ground arith

-- The store holds the last value put under each key, and nothing under a key without one.
abbrev Agrees : InfinitePutGet → KvStore → Type 0
Agrees g store =
    (i : ℕ)
    → find (key_of g.namespace i) store
      ≡ (if is_empty (g.values i) then none else some (g.values i))

-- What one item makes of the store, whichever it is.
item-Agrees :
    (index : ℕ) (value namespace : Str) (values : ℕ → Str) (should_get : Bool) (store : KvStore)
    → is_empty value ≡ false
    → let g : InfinitePutGet = record {
      namespace = namespace;
      values = values;
      should_get = should_get;
    } in
      Agrees g store
      → let item = next_item index value g in
        let after = invoke item.0.0 store in (after.0 ≡ item.0.1) × Agrees item.1 after.1
unfolding next_item invoke
item-Agrees index value namespace values true store full h = (answer (values index) (h index), h)
  where
    answer :
        (last : Str)
        → find (key_of namespace index) store ≡ (if is_empty last then none else some last)
        → (elim (find (key_of namespace index) store) [
          | none ↦ Result.key_not_found
          | some v ↦ Result.get_result v
        ])
          ≡ expected_get last
    answer [] e = rw e refl
    answer (x ∷ xs) e = rw e refl
item-Agrees index value namespace values false store full h = (refl, agrees)
  where
    agrees :
        (i : ℕ)
        → find (key_of namespace i) (insert (key_of namespace index) value store) ≡ (
            if is_empty (if i == index then value else values i)
            then none
            else some (if i == index then value else values i))
    agrees i = elim (Bool-cases (i == index)) [
      | inl e ↦
          let same : i ≡ index = (==_iff i index).0 e in
          let eq : (index == i) ≡ true = ground (arith, same) in
          rw
            (
              find-insert (key_of namespace i) (key_of namespace index) value store,
              bytes_eq-key_of namespace index i,
              eq,
              e,
              full,
            )
            refl
      | inr e ↦
          let ne : (index == i) ≡ false = ground arith in
          rw
            (
              find-insert (key_of namespace i) (key_of namespace index) value store,
              bytes_eq-key_of namespace index i,
              ne,
              e,
            )
            (h i)
    ]

-- The results that the workload expects for a sequence of draws, and those that a store gives.
unfoldable pub expected : InfinitePutGet → List (ℕ × Str) → List Result
expected g [] = []
expected g ((index, value) ∷ draws) =
    let item = next_item index value g in item.0.1 ∷ expected item.1 draws

unfoldable pub answers : InfinitePutGet → KvStore → List (ℕ × Str) → List Result
answers g store [] = []
answers g store ((index, value) ∷ draws) =
    let item = next_item index value g in
    let after = invoke item.0.0 store in after.0 ∷ answers item.1 after.1 draws

answers-Agrees :
    (g : InfinitePutGet) (store : KvStore) (draws : List (ℕ × Str))
    → All (λ draw. is_empty draw.1 ≡ false) draws
    → Agrees g store
    → answers g store draws ≡ expected g draws
unfolding answers expected
answers-Agrees g store [] full h = refl
answers-Agrees g store ((index, value) ∷ draws) full h =
    let item = next_item index value g in
    let one = item-Agrees index value g.namespace g.values g.should_get store full.0 h in
    rw (one.0, answers-Agrees item.1 (invoke item.0.0 store).1 draws full.1 one.1) refl

-- An empty store answers a new workload of puts and gets as the workload expects, whatever indices are
-- drawn, if no value that is drawn is empty.
pub answers-expected :
    (namespace : Str) (draws : List (ℕ × Str))
    → All (λ draw. is_empty draw.1 ≡ false) draws
    → answers (new namespace) [] draws ≡ expected (new namespace) draws
unfolding new find
answers-expected namespace draws full = answers-Agrees (new namespace) [] draws full (λ i. refl)
