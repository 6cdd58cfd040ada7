-- ===== src/Pbft/Replica/Step.antt =====
-- src/pbft/replica.rs: the assignments that the handlers make, as a step relation on the state of a
-- replica, the means of induction over the handlers. A step has those tests of the code that the inductions
-- need.
use mur_mesh.Prelude.{
  ℕ, ◌+◌, ◌≡◌, ◌≤◌, ◌<◌, true, false, Option, none, some, List, [], ◌∷◌, ◌++◌, ◌&&◌, not, ◌==◌,
  add_u32, length, take, drop, get_elem?, set, is_empty, is_none,
}
use mur_mesh.Map
use mur_mesh.Crypto.{Verifiable}
use mur_mesh.Timer.{Timer}
use mur_mesh.Pbft.Messages.{
  Request, PrePrepare, Prepare, Commit, Reply, ViewChange, NewView, Quorum,
}
use mur_mesh.Pbft.Replica.State.{LogEntry, State, is_primary, view_change, op_num, extend_log}
use mur_mesh.Pbft.Replica.Ordering.{prepare_matches, commit_matches, retain_at}
use mur_mesh.Pbft.Replica.Prepare.{add_vote, few_prepares}
use mur_mesh.Pbft.Replica.Commit.{few_commits}
use mur_mesh.Pbft.Replica.ViewChange.{have_entered, votes_for, majority}
use mur_mesh.Pbft.Replica.NewView.{kept_requests}

pub data Step {S A : Type 0} : State S A → State S A → Type 0 where
  time_view_change : (s : State S A) (t : Timer) → Step s (record s { do_view_change_timer = t })
  time_progress_view_change :
      (s : State S A) (t : Timer) → Step s (record s { progress_view_change_timer = t })
  time_progress :
      (s : State S A) (op : ℕ) (e : LogEntry A) (t : Timer)
      → get_elem? s.log op ≡ some e
      → Step s (record s { log = set s.log op (record e { progress_timer = t }) })
  time_state_transfer :
      (s : State S A) (op : ℕ) (e : LogEntry A) (t : Timer)
      → get_elem? s.log op ≡ some e
      → Step s (record s { log = set s.log op (record e { state_transfer_timer = t }) })
  -- `recv_request` on the primary
  enqueue :
      (s : State S A) (r : Request A)
      → view_change s ≡ false
      → is_primary s ≡ true
      → ((known : ℕ × Option Reply) → Map.get r.client_id s.replies ≡ some known → known.0 < r.seq)
      → Step s (record s {
        replies = Map.insert r.client_id (r.seq, none) s.replies;
        requests = s.requests ++ r ∷ [];
      })
  -- `close_batch`
  close :
      (s : State S A) (size : ℕ)
      → is_primary s ≡ true
      → view_change s ≡ false
      → size ≤ s.config.max_batch_size
      → Step s (extend_log (op_num s) (record s { requests = drop size s.requests }))
  -- the two writes of the handler of a signed PrePrepare
  propose :
      (s : State S A) (p : Verifiable PrePrepare) (e : LogEntry A)
      → p.inner.view_num ≡ s.view_num
      → get_elem? s.log p.inner.op_num ≡ some e
      → Step s (record s { log = set s.log p.inner.op_num (record e { pre_prepare = some p }) })
  fill :
      (s : State S A) (op : ℕ) (e : LogEntry A) (requests : List (Request A))
      → get_elem? s.log op ≡ some e
      → Step s (record s { log = set s.log op (record e { requests = requests }) })
  reserve : (s : State S A) (op : ℕ) → Step s (extend_log op s)
  -- a backup takes a verified PrePrepare; a slot that has one takes only an equal one
  accept :
      (s : State S A) (p : Verifiable PrePrepare) (e : LogEntry A) (requests : List (Request A))
      → p.inner.view_num ≡ s.view_num
      → get_elem? s.log p.inner.op_num ≡ some e
      → ((q : Verifiable PrePrepare) → e.pre_prepare ≡ some q → q.inner ≡ p.inner)
      → Step s (record s {
        log = set s.log p.inner.op_num (record e { pre_prepare = some p; requests = requests });
      })
  discard :
      (s : State S A) (p : PrePrepare)
      → Step s (record s {
        prepare_quorums = retain_at p.op_num (prepare_matches p) s.prepare_quorums;
        commit_quorums = retain_at p.op_num (commit_matches p) s.commit_quorums;
      })
  vote_prepare :
      (s : State S A) (p : Verifiable Prepare)
      → p.inner.view_num ≡ s.view_num
      → Step s (record s {
        prepare_quorums =
            Map.insert p.inner.op_num
              (add_vote p.inner.op_num p.inner.replica_id p s.prepare_quorums)
              s.prepare_quorums;
      })
  -- the quorum of a slot is large enough, and the slot has a PrePrepare
  prepared :
      (s : State S A) (op : ℕ) (q : Quorum Prepare) (e : LogEntry A)
      → Map.get op s.prepare_quorums ≡ some q
      → few_prepares q s ≡ false
      → get_elem? s.log op ≡ some e
      → is_none e.pre_prepare ≡ false
      → is_empty e.prepares ≡ true
      → Step s (record s {
        log = set s.log op (record e { prepares = q });
        prepare_quorums = Map.remove op s.prepare_quorums;
        pending_prepares = Map.remove op s.pending_prepares;
      })
  pend_prepares :
      (s : State S A) (m : Map.Map (List (Verifiable Prepare)))
      → Step s (record s { pending_prepares = m })
  vote_commit :
      (s : State S A) (c : Verifiable Commit)
      → c.inner.view_num ≡ s.view_num
      → Step s (record s {
        commit_quorums =
            Map.insert c.inner.op_num
              (add_vote c.inner.op_num c.inner.replica_id c s.commit_quorums)
              s.commit_quorums;
      })
  -- the quorum of a prepared slot is large enough
  committed :
      (s : State S A) (op : ℕ) (q : Quorum Commit) (e : LogEntry A)
      → Map.get op s.commit_quorums ≡ some q
      → few_commits q s ≡ false
      → get_elem? s.log op ≡ some e
      → is_empty e.commits ≡ true
      → is_empty e.prepares && not (s.config.num_replica == 1) ≡ false
      → Step s (record s {
        log = set s.log op (record e { commits = q });
        commit_quorums = Map.remove op s.commit_quorums;
        pending_commits = Map.remove op s.pending_commits;
      })
  pend_commits :
      (s : State S A) (m : Map.Map (List (Verifiable Commit)))
      → Step s (record s { pending_commits = m })
  -- the slot after `commit_num` is committed, and is executed from here on
  advance :
      (s : State S A) (e : LogEntry A)
      → get_elem? s.log (s.commit_num + 1) ≡ some e
      → is_empty e.commits ≡ false
      → Step s (record s { commit_num = add_u32 s.commit_num 1 })
  run_app : (s : State S A) (app : S) → Step s (record s { app = app })
  -- a reply is remembered over one that is not later
  answer :
      (s : State S A) (client : ℕ) (reply : Reply)
      → ((known : ℕ × Option Reply) → Map.get client s.replies ≡ some known → known.0 ≤ reply.seq)
      → Step s (record s { replies = Map.insert client (reply.seq, some reply) s.replies })
  move_view : (s : State S A) (view : ℕ) → s.view_num ≤ view → Step s (record s { view_num = view })
  open_votes :
      (s : State S A) (view : ℕ)
      → Step s (record s {
        view_changes = Map.insert view (votes_for view s.view_changes) s.view_changes;
      })
  vote_view_change :
      (s : State S A) (v : Verifiable ViewChange) (votes : Quorum ViewChange)
      → Map.get v.inner.view_num s.view_changes ≡ some votes
      → have_entered v.inner.view_num s ≡ false
      → length votes < majority s
      → Step s (record s {
        view_changes =
            Map.insert v.inner.view_num (Map.insert v.inner.replica_id v votes) s.view_changes;
      })
  -- a slot is started anew by a NewView
  restart :
      (s : State S A) (p : Verifiable PrePrepare) (e : LogEntry A)
      → get_elem? s.log p.inner.op_num ≡ some e
      → Step s (record s {
        log = set s.log p.inner.op_num (record e {
          pre_prepare = some p;
          requests = kept_requests p.inner e;
          prepares = [];
          commits = [];
        });
      })
  truncate : (s : State S A) (op : ℕ) → Step s (record s { log = take op s.log })
  clear :
      (s : State S A)
      → Step s (record s { requests = []; prepare_quorums = []; commit_quorums = [] })
  install :
      (s : State S A) (v : Verifiable NewView)
      → Step s (record s {
        view_changes = Map.split_off (add_u32 s.view_num 1) s.view_changes;
        new_views = Map.insert s.view_num v s.new_views;
      })

-- Any number of steps.
pub data Reach {S A : Type 0} (s : State S A) : State S A → Type 0 where
  here : Reach s s
  next : {t u : State S A} → Reach s t → Step t u → Reach s u

module _ {S A : Type 0} {s : State S A} where
  pub Reach-trans : {t u : State S A} → Reach s t → Reach t u → Reach s u
  Reach-trans r here = r
  Reach-trans r (next q step) = next (Reach-trans r q) step

  pub Reach-of_step : {t : State S A} → Step s t → Reach s t
  Reach-of_step step = next here step
