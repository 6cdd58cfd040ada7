-- ===== src/Map/Laws.antt =====
-- Laws of the ordered map: reading after a write, the order of the keys, and predicates on values.
use mur_mesh.Prelude.{
  ℕ, suc, ◌≤◌, ◌≡◌, Bool, true, none, some, [], ◌∷◌, arith, ltb, ◌==◌, if◌then◌else◌, length,
  Bool-cases, inl, inr,
}
use mur_mesh.Map.{Map, get, insert, remove, retain, split_off}

module _ {ℓ} {V : Type ℓ} where
  pub get-insert :
      (q k : ℕ) (v : V) (m : Map V) → get q (insert k v m) ≡ (if k == q then some v else get q m)
  unfolding get insert
  get-insert q k v [] = ground arith
  get-insert q k v ((j, w) ∷ m) = ground (arith, get-insert q k v m)

  pub get-remove : (q k : ℕ) (m : Map V) → get q (remove k m) ≡ (if k == q then none else get q m)
  unfolding get remove
  get-remove q k [] = ground arith
  get-remove q k ((j, w) ∷ m) = ground (arith, get-remove q k m)

  pub get-split_off :
      (q k : ℕ) (m : Map V) → get q (split_off k m) ≡ (if ltb q k then none else get q m)
  unfolding get split_off
  get-split_off q k [] = ground arith
  get-split_off q k ((j, w) ∷ m) = ground (arith, get-split_off q k m)

  -- Every key is at least `b`.
  abbrev pub Above : ℕ → Map V → Type 0
  Above b [] = Unit
  Above b ((j, v) ∷ m) = (b ≤ j) × Above b m

  -- The keys ascend strictly, so no key stands twice.
  abbrev pub IsSorted : Map V → Type 0
  IsSorted [] = Unit
  IsSorted ((j, v) ∷ m) = Above (suc j) m × IsSorted m

  pub Above-mono : (a b : ℕ) (m : Map V) → a ≤ b → Above b m → Above a m
  Above-mono a b [] h p = tt
  Above-mono a b ((j, v) ∷ m) h p = (omega arith, Above-mono a b m h p.1)

  pub insert-Above : (b k : ℕ) (v : V) (m : Map V) → b ≤ k → Above b m → Above b (insert k v m)
  unfolding insert
  insert-Above b k v [] h p = (h, tt)
  insert-Above b k v ((j, w) ∷ m) h p = ground (arith, insert-Above b k v m h p.1)

  pub insert-IsSorted : (k : ℕ) (v : V) (m : Map V) → IsSorted m → IsSorted (insert k v m)
  unfolding insert
  insert-IsSorted k v [] p = (tt, tt)
  insert-IsSorted k v ((j, w) ∷ m) p =
      ground
        (arith, insert-IsSorted k v m p.1, insert-Above (suc j) k v m, Above-mono (suc k) (suc j) m)

  remove-Above : (b k : ℕ) (m : Map V) → Above b m → Above b (remove k m)
  unfolding remove
  remove-Above b k [] p = tt
  remove-Above b k ((j, w) ∷ m) p = ground (arith, remove-Above b k m p.1)

  pub remove-IsSorted : (k : ℕ) (m : Map V) → IsSorted m → IsSorted (remove k m)
  unfolding remove
  remove-IsSorted k [] p = tt
  remove-IsSorted k ((j, w) ∷ m) p =
      ground (arith, remove-IsSorted k m p.1, remove-Above (suc j) k m p.0)

  retain-Above : (b : ℕ) (f : V → Bool) (m : Map V) → Above b m → Above b (retain f m)
  unfolding retain
  retain-Above b f [] p = tt
  retain-Above b f ((j, w) ∷ m) p = ground (arith, retain-Above b f m p.1)

  pub retain-IsSorted : (f : V → Bool) (m : Map V) → IsSorted m → IsSorted (retain f m)
  unfolding retain
  retain-IsSorted f [] p = tt
  retain-IsSorted f ((j, w) ∷ m) p =
      ground (arith, retain-IsSorted f m p.1, retain-Above (suc j) f m p.0)

  -- An insertion adds one entry, or replaces the one with its key.
  pub length-insert :
      (k : ℕ) (v : V) (m : Map V)
      → (length m ≤ length (insert k v m))
        × (length (insert k v m) ≤ suc (length m))
        × (1 ≤ length (insert k v m))
  unfolding insert
  length-insert k v [] = omega arith
  length-insert k v ((j, w) ∷ m) = ground (arith, length-insert k v m)

  pub length-remove-le : (k : ℕ) (m : Map V) → length (remove k m) ≤ length m
  unfolding remove
  length-remove-le k [] = omega arith
  length-remove-le k ((j, w) ∷ m) = ground (arith, length-remove-le k m)

-- A predicate on every entry, its key included.
abbrev pub Each {ℓ κ} : {V : Type ℓ} → (ℕ → V → Type κ) → Map V → Type κ
Each P [] = Unit
Each P ((j, v) ∷ m) = P j v × Each P m

module _ {ℓ κ} {V : Type ℓ} (P : ℕ → V → Type κ) where
  pub insert-Each : (k : ℕ) (v : V) (m : Map V) → P k v → Each P m → Each P (insert k v m)
  unfolding insert
  insert-Each k v [] p h = (p, tt)
  insert-Each k v ((j, w) ∷ m) p h = elim (Bool-cases (ltb k j)) [
    | inl e ↦ rw e (p, h)
    | inr e ↦ elim (Bool-cases (k == j)) [
      | inl f ↦ rw (e, f) (p, h.1)
      | inr f ↦ rw (e, f) (h.0, insert-Each k v m p h.1)
    ]
  ]

  pub remove-Each : (k : ℕ) (m : Map V) → Each P m → Each P (remove k m)
  unfolding remove
  remove-Each k [] h = tt
  remove-Each k ((j, w) ∷ m) h = elim (Bool-cases (k == j)) [
    | inl e ↦ rw e (remove-Each k m h.1)
    | inr e ↦ rw e (h.0, remove-Each k m h.1)
  ]

  pub retain-Each : (f : V → Bool) (m : Map V) → Each P m → Each P (retain f m)
  unfolding retain
  retain-Each f [] h = tt
  retain-Each f ((j, w) ∷ m) h = elim (Bool-cases (f w)) [
    | inl e ↦ rw e (h.0, retain-Each f m h.1)
    | inr e ↦ rw e (retain-Each f m h.1)
  ]

  pub split_off-Each : (k : ℕ) (m : Map V) → Each P m → Each P (split_off k m)
  unfolding split_off
  split_off-Each k [] h = tt
  split_off-Each k ((j, w) ∷ m) h = elim (Bool-cases (ltb j k)) [
    | inl e ↦ rw e (split_off-Each k m h.1)
    | inr e ↦ rw e (h.0, split_off-Each k m h.1)
  ]

  pub get-Each : (k : ℕ) (m : Map V) {v : V} → Each P m → get k m ≡ some v → P k v
  unfolding get
  get-Each k [] h e = cc
  get-Each k ((j, w) ∷ m) {v} h e = elim (Bool-cases (k == j)) [
    | inl f ↦ found f
    | inr f ↦ get-Each k m h.1 (rw f at e)
  ]
    where
      found : (k == j) ≡ true → P k v
      found f =
          let same : k ≡ j = ground arith in
          let value : w ≡ v = ground arith in rw (same, ← value) h.0
