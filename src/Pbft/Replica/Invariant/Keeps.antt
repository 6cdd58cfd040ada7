-- ===== src/Pbft/Replica/Invariant/Keeps.antt =====
-- Every event keeps a replica's state valid, from the first state on.
use mur_mesh.Prelude.{
  ℕ, ◌≤◌, inl, none, some, List, [], ◌∷◌, ◌++◌, add_u32, refl, arith, length, drop,
}
use mur_mesh.Exec.{Exec}
use mur_mesh.Map
use mur_mesh.Map.Laws.{
  Each, IsSorted, insert-Each, insert-IsSorted, get-Each, remove-Each, split_off-Each,
  length-insert,
}
use mur_mesh.Crypto.{Bytes}
use mur_mesh.Pbft.Parameters.{PublicParameters}
use mur_mesh.Pbft.Replica.State.{State, Node, op_num, new}
use mur_mesh.Pbft.Replica.Ordering.{prepare_matches, commit_matches}
use mur_mesh.Pbft.Replica.Prepare.{add_vote}
use mur_mesh.Pbft.Replica.ViewChange.{votes_for}
use mur_mesh.Pbft.Replica.Event.{Event}
use mur_mesh.Pbft.Replica.Handle.{after}
use mur_mesh.Pbft.Replica.Step.{Step, Reach, here, next}
use mur_mesh.Pbft.Replica.Refine.Handle.{after-Reach}
use mur_mesh.Pbft.Replica.Invariant.{
  PrepareFor, CommitFor, ViewChangeFor, enough, IsValid, add_vote-IsFiled, insert-IsFiled,
  retain_at-IsFiled, set-Slots, take-Slots,
}
use mur_mesh.Pbft.Replica.Invariant.Writes.{
  placed, put, extended, put_slot, prepared_slot, committed_slot, votes-bound, put_votes, put_reply,
}

module _ {S A : Type 0} where
  Step-IsValid : {s t : State S A} → Step s t → IsValid s → IsValid t
  Step-IsValid (Step.time_view_change s _) h = h
  Step-IsValid (Step.time_progress_view_change s _) h = h
  Step-IsValid (Step.time_progress s op e t at) h =
      put_slot s op (record e { progress_timer = t }) h (h.slots op e at)
  Step-IsValid (Step.time_state_transfer s op e t at) h =
      put_slot s op (record e { state_transfer_timer = t }) h (h.slots op e at)
  Step-IsValid (Step.enqueue s r _ _ _) h =
      put_reply s (s.requests ++ r ∷ []) r.client_id (r.seq, none) h (λ r e. cc)
  Step-IsValid (Step.close s size _ _ _) h =
      extended (record s { requests = drop size s.requests }) (op_num s) h
  Step-IsValid (Step.propose s p e _ at) h =
      put_slot s p.inner.op_num (record e { pre_prepare = some p }) h
        (placed p refl (h.slots p.inner.op_num e at))
  Step-IsValid (Step.fill s op e requests at) h =
      put_slot s op (record e { requests = requests }) h (h.slots op e at)
  Step-IsValid (Step.reserve s op) h = extended s op h
  Step-IsValid (Step.accept s p e requests _ at _) h =
      put_slot s p.inner.op_num (record e { pre_prepare = some p; requests = requests }) h
        (placed p refl (h.slots p.inner.op_num e at))
  Step-IsValid (Step.discard s p) h = record {
    slots = h.slots;
    prepares_filed =
        retain_at-IsFiled PrepareFor p.op_num (prepare_matches p) s.prepare_quorums
          h.prepares_filed;
    commits_filed =
        retain_at-IsFiled CommitFor p.op_num (commit_matches p) s.commit_quorums h.commits_filed;
    view_changes_filed = h.view_changes_filed;
    view_changes_bound = h.view_changes_bound;
    replies_match = h.replies_match;
  }
  Step-IsValid (Step.vote_prepare s p _) h = record {
    slots = h.slots;
    prepares_filed =
        insert-IsFiled PrepareFor p.inner.op_num
          (add_vote p.inner.op_num p.inner.replica_id p s.prepare_quorums) s.prepare_quorums
          (add_vote-IsFiled PrepareFor p.inner.op_num p.inner.replica_id p s.prepare_quorums
            (refl, refl) h.prepares_filed)
          h.prepares_filed;
    commits_filed = h.commits_filed;
    view_changes_filed = h.view_changes_filed;
    view_changes_bound = h.view_changes_bound;
    replies_match = h.replies_match;
  }
  Step-IsValid (Step.prepared s op q e got many at some_p empty) h = record {
    slots =
        set-Slots s.log op (record e { prepares = q })
          (prepared_slot s op q e h got many at some_p empty) h.slots;
    prepares_filed =
        remove-Each (λ k q. Each (PrepareFor k) q × IsSorted q) op s.prepare_quorums
          h.prepares_filed;
    commits_filed = h.commits_filed;
    view_changes_filed = h.view_changes_filed;
    view_changes_bound = h.view_changes_bound;
    replies_match = h.replies_match;
  }
  Step-IsValid (Step.pend_prepares s _) h = h
  Step-IsValid (Step.vote_commit s c _) h = record {
    slots = h.slots;
    prepares_filed = h.prepares_filed;
    commits_filed =
        insert-IsFiled CommitFor c.inner.op_num
          (add_vote c.inner.op_num c.inner.replica_id c s.commit_quorums) s.commit_quorums
          (add_vote-IsFiled CommitFor c.inner.op_num c.inner.replica_id c s.commit_quorums
            (refl, refl) h.commits_filed)
          h.commits_filed;
    view_changes_filed = h.view_changes_filed;
    view_changes_bound = h.view_changes_bound;
    replies_match = h.replies_match;
  }
  Step-IsValid (Step.committed s op q e got many at _ prepared) h = record {
    slots =
        set-Slots s.log op (record e { commits = q })
          (committed_slot s op q e h got many at prepared) h.slots;
    prepares_filed = h.prepares_filed;
    commits_filed =
        remove-Each (λ k q. Each (CommitFor k) q × IsSorted q) op s.commit_quorums h.commits_filed;
    view_changes_filed = h.view_changes_filed;
    view_changes_bound = h.view_changes_bound;
    replies_match = h.replies_match;
  }
  Step-IsValid (Step.pend_commits s _) h = h
  Step-IsValid (Step.advance s _ _ _) h = h
  Step-IsValid (Step.run_app s _) h = h
  Step-IsValid (Step.answer s client reply _) h =
      put_reply s s.requests client (reply.seq, some reply) h (λ r e. cc)
  Step-IsValid (Step.move_view s _ _) h = h
  Step-IsValid (Step.open_votes s view) h =
      let old = votes-bound s view h in
      put_votes s view (votes_for view s.view_changes) h old.0 old.1
  Step-IsValid (Step.vote_view_change s v votes got _ few) h =
      let filed =
        get-Each (λ k q. Each (ViewChangeFor k) q × IsSorted q) v.inner.view_num s.view_changes
          h.view_changes_filed got in
      put_votes s v.inner.view_num (Map.insert v.inner.replica_id v votes) h
        (
          insert-Each (ViewChangeFor v.inner.view_num) v.inner.replica_id v votes (refl, refl)
              filed.0,
          insert-IsSorted v.inner.replica_id v votes filed.1,
        )
        (omega (arith, length-insert v.inner.replica_id v votes))
  Step-IsValid (Step.restart s p e at) h =
      let old = h.slots p.inner.op_num e at in
      put_slot s p.inner.op_num _ h (record {
        in_place = λ q f. cc;
        prepared = inl refl;
        prepares_filed = (tt, tt);
        committed = inl refl;
        commits_filed = (tt, tt);
      })
  Step-IsValid (Step.truncate s op) h = put s _ h (take-Slots s.log op h.slots)
  Step-IsValid (Step.clear s) h = record {
    slots = h.slots;
    prepares_filed = tt;
    commits_filed = tt;
    view_changes_filed = h.view_changes_filed;
    view_changes_bound = h.view_changes_bound;
    replies_match = h.replies_match;
  }
  Step-IsValid (Step.install s v) h = record {
    slots = h.slots;
    prepares_filed = h.prepares_filed;
    commits_filed = h.commits_filed;
    view_changes_filed =
        split_off-Each (λ k q. Each (ViewChangeFor k) q × IsSorted q) (add_u32 s.view_num 1)
          s.view_changes h.view_changes_filed;
    view_changes_bound =
        split_off-Each (λ view votes. length votes ≤ enough s.config) (add_u32 s.view_num 1)
          s.view_changes h.view_changes_bound;
    replies_match = h.replies_match;
  }

  Reach-IsValid : {s t : State S A} → Reach s t → IsValid s → IsValid t
  Reach-IsValid here h = h
  Reach-IsValid (next r step) h = Step-IsValid step (Reach-IsValid r h)

  -- The first state of a replica is valid.
  pub new-IsValid :
      (id : ℕ) (app : S) (config : PublicParameters) → IsValid (new {A = A} id app config)
  unfolding new
  new-IsValid id app config = record {
    slots = λ op e f. cc;
    prepares_filed = tt;
    commits_filed = tt;
    view_changes_filed = tt;
    view_changes_bound = tt;
    replies_match = tt;
  }

module _ {S A : Type 0} (execute : Bytes → Exec S Bytes) where
  -- Whatever events a replica handles from a valid state, and whatever their outcomes, its state is
  -- valid after them.
  pub after-IsValid :
      (n : Node S A) (es : List (Event A)) → IsValid n.state → IsValid (after execute n es).state
  after-IsValid n es h = Reach-IsValid (after-Reach execute n es) h
