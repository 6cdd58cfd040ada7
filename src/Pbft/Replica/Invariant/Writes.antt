-- ===== src/Pbft/Replica/Invariant/Writes.antt =====
-- src/pbft/replica.rs: the writes of one slot, of the votes and of the replies keep a state valid.
use mur_mesh.Prelude.{
  ℕ, suc, ◌≡◌, ◌≤◌, ◌⊎◌, inl, inr, Bool, true, false, Option, none, some, List, [], refl, arith,
  not, ◌&&◌, ◌==◌, length, get_elem?, set, resize, is_empty, is_none, Option-cases,
}
use mur_mesh.Map
use mur_mesh.Map.Laws.{Each, IsSorted, insert-Each, get-Each}
use mur_mesh.Crypto.{Verifiable}
use mur_mesh.Pbft.Parameters.{PublicParameters}
use mur_mesh.Pbft.Messages.{Prepare, Commit, Quorum, PrePrepare, Reply, Request, ViewChange}
use mur_mesh.Pbft.Replica.State.{LogEntry, State, default_entry, extend_log, new}
use mur_mesh.Pbft.Replica.Prepare.{few_prepares}
use mur_mesh.Pbft.Replica.Commit.{few_commits}
use mur_mesh.Pbft.Replica.ViewChange.{votes_for}
use mur_mesh.Pbft.Replica.Invariant.{
  PrepareFor, CommitFor, ViewChangeFor, enough, Slot, IsValidSlot, IsValid, Slots, insert-IsFiled,
  set-Slots, resize-Slots,
}

-- A slot with a PrePrepare for it, and no votes but those that it had.
pub placed :
    {c : PublicParameters} {op : ℕ} {o : Option (Verifiable PrePrepare)} {ps : Quorum Prepare}
    {cs : Quorum Commit} (p : Verifiable PrePrepare)
    → p.inner.op_num ≡ op
    → Slot c op o ps cs
    → Slot c op (some p) ps cs
placed p e h = record {
  in_place = λ q f. cc;
  prepared = elim (h.prepared) [ inl a ↦ inl a | inr (_, b) ↦ inr (refl, b) ];
  prepares_filed = h.prepares_filed;
  committed = h.committed;
  commits_filed = h.commits_filed;
}

pub bare : {c : PublicParameters} {op : ℕ} → Slot c op none [] []
bare = record {
  in_place = λ q f. cc;
  prepared = inl refl;
  prepares_filed = (tt, tt);
  committed = inl refl;
  commits_filed = (tt, tt);
}

module _ {S A : Type 0} (s : State S A) where
  -- A write to the log alone.
  pub put :
      (log : List (LogEntry A)) → IsValid s → Slots s.config log → IsValid (record s { log = log })
  put log h all = record {
    slots = all;
    prepares_filed = h.prepares_filed;
    commits_filed = h.commits_filed;
    view_changes_filed = h.view_changes_filed;
    view_changes_bound = h.view_changes_bound;
    replies_match = h.replies_match;
  }

  pub extended : (op : ℕ) → IsValid s → IsValid (extend_log op s)
  extended op h = elim (Option-cases (get_elem? s.log op)) [
    | inl e ↦ rw e (
        put (resize s.log (suc op) (default_entry s)) h
          (resize-Slots s.log (suc op) (default_entry s) (λ _. bare) h.slots))
    | inr (_, e) ↦ rw e h
  ]

  -- A write of one slot.
  pub put_slot :
      (op : ℕ) (new : LogEntry A)
      → IsValid s
      → IsValidSlot s.config op new
      → IsValid (record s { log = set s.log op new })
  put_slot op new h slot = put (set s.log op new) h (set-Slots s.log op new slot h.slots)

module _ {S A : Type 0} where
  pub prepared_slot :
      (s : State S A) (op : ℕ) (q : Quorum Prepare) (e : LogEntry A)
      → IsValid s
      → Map.get op s.prepare_quorums ≡ some q
      → few_prepares q s ≡ false
      → get_elem? s.log op ≡ some e
      → is_none e.pre_prepare ≡ false
      → is_empty e.prepares ≡ true
      → IsValidSlot s.config op (record e { prepares = q })
  prepared_slot s op q e h got many at some_p empty =
      let old = h.slots op e at in
      let filed =
        get-Each (λ k q. Each (PrepareFor k) q × IsSorted q) op s.prepare_quorums h.prepares_filed
          got in
      record {
        in_place = old.in_place;
        prepared = inr (some_p, ground arith);
        prepares_filed = filed;
        committed = elim (old.committed) [
          | inl a ↦ inl a
          | inr (_, inl b) ↦ absurd cc
          | inr (a, inr b) ↦ inr (a, inr b)
        ];
        commits_filed = old.commits_filed;
      }

  pub committed_slot :
      (s : State S A) (op : ℕ) (q : Quorum Commit) (e : LogEntry A)
      → IsValid s
      → Map.get op s.commit_quorums ≡ some q
      → few_commits q s ≡ false
      → get_elem? s.log op ≡ some e
      → is_empty e.prepares && not (s.config.num_replica == 1) ≡ false
      → IsValidSlot s.config op (record e { commits = q })
  committed_slot s op q e h got many at prepared =
      let old = h.slots op e at in
      let filed =
        get-Each (λ k q. Each (CommitFor k) q × IsSorted q) op s.commit_quorums h.commits_filed
          got in
      record {
        in_place = old.in_place;
        prepared = old.prepared;
        prepares_filed = old.prepares_filed;
        committed = inr (ground arith, one_of (is_empty e.prepares) prepared);
        commits_filed = filed;
      }
    where
      one_of :
          (b : Bool)
          → b && not (s.config.num_replica == 1) ≡ false
          → (b ≡ false) ⊎ (s.config.num_replica ≡ 1)
      one_of false g = inl refl
      one_of true g = inr (ground arith)

  pub votes-bound :
      (s : State S A) (view : ℕ)
      → IsValid s
      → (Each (ViewChangeFor view) (votes_for view s.view_changes)
          × IsSorted (votes_for view s.view_changes))
        × (length (votes_for view s.view_changes) ≤ enough s.config)
  votes-bound s view h = go (Map.get view s.view_changes) refl
    where
      votes : Option (Quorum ViewChange) → Quorum ViewChange
      votes o = elim o [ none ↦ [] | some q ↦ q ]

      go :
          (o : Option (Quorum ViewChange))
          → Map.get view s.view_changes ≡ o
          → (Each (ViewChangeFor view) (elim o [ none ↦ [] | some q ↦ q ])
              × IsSorted (elim o [ none ↦ [] | some q ↦ q ]))
            × (length (elim o [ none ↦ [] | some q ↦ q ]) ≤ enough s.config)
      go none e = ((tt, tt), omega arith)
      go (some q) e = (
        get-Each (λ k q. Each (ViewChangeFor k) q × IsSorted q) view s.view_changes
            h.view_changes_filed e,
        get-Each (λ view votes. length votes ≤ enough s.config) view s.view_changes
            h.view_changes_bound e,
      )

  -- The votes of a view are written.
  pub put_votes :
      (s : State S A) (view : ℕ) (votes : Quorum ViewChange)
      → IsValid s
      → Each (ViewChangeFor view) votes × IsSorted votes
      → length votes ≤ enough s.config
      → IsValid (record s { view_changes = Map.insert view votes s.view_changes })
  put_votes s view votes h filed bound = record {
    slots = h.slots;
    prepares_filed = h.prepares_filed;
    commits_filed = h.commits_filed;
    view_changes_filed =
        insert-IsFiled ViewChangeFor view votes s.view_changes filed h.view_changes_filed;
    view_changes_bound =
        insert-Each (λ view votes. length votes ≤ enough s.config) view votes s.view_changes bound
          h.view_changes_bound;
    replies_match = h.replies_match;
  }

  pub put_reply :
      (s : State S A) (requests : List (Request A)) (client : ℕ) (known : ℕ × Option Reply)
      → IsValid s
      → ((r : Reply) → known.1 ≡ some r → r.seq ≡ known.0)
      → IsValid (record s { replies = Map.insert client known s.replies; requests = requests })
  put_reply s requests client known h match = record {
    slots = h.slots;
    prepares_filed = h.prepares_filed;
    commits_filed = h.commits_filed;
    view_changes_filed = h.view_changes_filed;
    view_changes_bound = h.view_changes_bound;
    replies_match =
        insert-Each (λ client known. (r : Reply) → known.1 ≡ some r → r.seq ≡ known.0) client known
          s.replies match h.replies_match;
  }
