-- ===== src/Pbft/Replica/Invariant.antt =====
-- src/pbft/replica.rs: what holds of the state of a replica at all times, as a predicate on the fields
-- that carry votes.
pub mod Writes
pub mod Keeps
use mur_mesh.Prelude.{
  ℕ, suc, ◌+◌, ◌≡◌, ◌≤◌, ◌<◌, ◌⊎◌, inl, inr, Bool, true, false, Option, none, some, List, [], ◌∷◌,
  arith, refl, ap, length, take, set, resize, get_elem?, sub_usize, is_empty, is_none,
  get_elem?-set_cases, get_elem?-resize_cases, get_elem?-take, Option-cases,
}
use mur_mesh.Map
use mur_mesh.Map.Laws.{
  Each, IsSorted, insert-Each, insert-IsSorted, retain-Each, retain-IsSorted, get-Each,
}
use mur_mesh.Crypto.{Verifiable}
use mur_mesh.Pbft.Parameters.{PublicParameters}
use mur_mesh.Pbft.Messages.{PrePrepare, Prepare, Commit, Reply, ViewChange, Quorum}
use mur_mesh.Pbft.Replica.State.{LogEntry, State, Quorums}
use mur_mesh.Pbft.Replica.Ordering.{retain_at}
use mur_mesh.Pbft.Replica.Prepare.{add_vote}

-- Quorums, by op number or view number: each vote stands once, under its own key and replica.
abbrev pub IsFiled {ℓ} : {V : Type ℓ} → (ℕ → ℕ → V → Type 0) → Map.Map (Map.Map V) → Type 0
IsFiled P m = Each (λ k q. Each (P k) q × IsSorted q) m

abbrev pub PrepareFor : ℕ → ℕ → Verifiable Prepare → Type 0
PrepareFor op id v = (v.inner.op_num ≡ op) × (v.inner.replica_id ≡ id)

abbrev pub CommitFor : ℕ → ℕ → Verifiable Commit → Type 0
CommitFor op id v = (v.inner.op_num ≡ op) × (v.inner.replica_id ≡ id)

abbrev pub ViewChangeFor : ℕ → ℕ → Verifiable ViewChange → Type 0
ViewChangeFor view id v = (v.inner.view_num ≡ view) × (v.inner.replica_id ≡ id)

abbrev pub enough : PublicParameters → ℕ
enough c = sub_usize c.num_replica c.num_faulty

-- A slot of the log: its PrePrepare is for it; it has no prepared certificate, or a large enough one
-- and a PrePrepare; no commit certificate, or a large enough one of a slot that is prepared
-- (a replica on its own commits without).
pub record Slot (c : PublicParameters) (op : ℕ) (pre_prepare : Option (Verifiable PrePrepare))
    (prepares : Quorum Prepare) (commits : Quorum Commit) : Type 0 where
  pub in_place : (p : Verifiable PrePrepare) → pre_prepare ≡ some p → p.inner.op_num ≡ op
  pub prepared :
      (prepares ≡ []) ⊎ ((is_none pre_prepare ≡ false) × (enough c ≤ length prepares + 1))
  pub prepares_filed : Each (PrepareFor op) prepares × IsSorted prepares
  pub committed :
      (commits ≡ [])
      ⊎ ((enough c ≤ length commits) × ((is_empty prepares ≡ false) ⊎ (c.num_replica ≡ 1)))
  pub commits_filed : Each (CommitFor op) commits × IsSorted commits

abbrev pub IsValidSlot : {A : Type 0} → PublicParameters → ℕ → LogEntry A → Type 0
IsValidSlot c op e = Slot c op e.pre_prepare e.prepares e.commits

abbrev pub Slots : {A : Type 0} → PublicParameters → List (LogEntry A) → Type 0
Slots {A} c l = (op : ℕ) (e : LogEntry A) → get_elem? l op ≡ some e → IsValidSlot c op e

pub record Valid {A : Type 0} (c : PublicParameters) (log : List (LogEntry A))
    (prepare_quorums : Quorums Prepare) (commit_quorums : Quorums Commit)
    (view_changes : Quorums ViewChange) (replies : Map.Map (ℕ × Option Reply)) : Type 0 where
  pub slots : Slots c log
  pub prepares_filed : IsFiled PrepareFor prepare_quorums
  pub commits_filed : IsFiled CommitFor commit_quorums
  pub view_changes_filed : IsFiled ViewChangeFor view_changes
  pub view_changes_bound : Each (λ view votes. length votes ≤ enough c) view_changes
  -- A reply that is kept answers the request whose number is kept with it.
  pub replies_match :
      Each (λ client known. (r : Reply) → known.1 ≡ some r → r.seq ≡ known.0) replies

abbrev pub IsValid : {S A : Type 0} → State S A → Type 0
IsValid s = Valid s.config s.log s.prepare_quorums s.commit_quorums s.view_changes s.replies

module _ {V : Type 0} (P : ℕ → ℕ → V → Type 0) where
  abbrev Kept : ℕ → Map.Map V → Type 0
  Kept k q = Each (P k) q × IsSorted q

  pub add_vote-IsFiled :
      (k id : ℕ) (v : V) (m : Map.Map (Map.Map V))
      → P k id v
      → IsFiled P m
      → Each (P k) (add_vote k id v m) × IsSorted (add_vote k id v m)
  unfolding Map.insert
  add_vote-IsFiled k id v m p h = go (Map.get k m) refl
    where
      go :
          (o : Option (Map.Map V))
          → Map.get k m ≡ o
          → Kept k (elim o [ none ↦ Map.insert id v [] | some q ↦ Map.insert id v q ])
      go none e = ((p, tt), (tt, tt))
      go (some q) e =
          let old = get-Each Kept k m h e in
          (insert-Each (P k) id v q p old.0, insert-IsSorted id v q old.1)

  pub insert-IsFiled :
      (k : ℕ) (q : Map.Map V) (m : Map.Map (Map.Map V))
      → Each (P k) q × IsSorted q
      → IsFiled P m
      → IsFiled P (Map.insert k q m)
  insert-IsFiled k q m p h = insert-Each Kept k q m p h

  pub retain_at-IsFiled :
      (k : ℕ) (keep : V → Bool) (m : Map.Map (Map.Map V))
      → IsFiled P m
      → IsFiled P (retain_at k keep m)
  retain_at-IsFiled k keep m h = go (Map.get k m) refl
    where
      go :
          (o : Option (Map.Map V))
          → Map.get k m ≡ o
          → IsFiled P (elim o [ none ↦ m | some q ↦ Map.insert k (Map.retain keep q) m ])
      go none e = h
      go (some q) e =
          let old = get-Each Kept k m h e in
          insert-IsFiled k (Map.retain keep q) m
            (retain-Each (P k) keep q old.0, retain-IsSorted keep q old.1) h

module _ {A : Type 0} {c : PublicParameters} where
  -- A write of one slot keeps the log if it keeps the slot.
  pub set-Slots :
      (log : List (LogEntry A)) (op : ℕ) (new : LogEntry A)
      → IsValidSlot c op new
      → Slots c log
      → Slots c (set log op new)
  set-Slots log op new h all j e g = elim (get_elem?-set_cases log op j new g) [
    | inl (i, same) ↦ rw (i, same) h
    | inr old ↦ all j e old
  ]

  pub resize-Slots :
      (log : List (LogEntry A)) (n : ℕ) (new : LogEntry A)
      → ((op : ℕ) → IsValidSlot c op new)
      → Slots c log
      → Slots c (resize log n new)
  resize-Slots log n new h all j e g = elim (get_elem?-resize_cases log n j new g) [
    | inl same ↦ rw same (h j)
    | inr old ↦ all j e old
  ]

  pub take-Slots : (log : List (LogEntry A)) (n : ℕ) → Slots c log → Slots c (take n log)
  take-Slots log n all j e g = all j e (get_elem?-take log n j g)
