-- ===== src/Pbft/Replica/Commit/Execution.antt =====
-- src/pbft/replica.rs: the execution loop, from its first slot to the one that it stops at.
use mur_mesh.Prelude.{
  ℕ, ◌+◌, ◌^◌, ◌≡◌, ◌≤◌, ◌<◌, ◌⊎◌, true, false, none, some, get_elem?, not, is_empty, ◌==◌, ◌&&◌,
  length,
}
use mur_mesh.Exec.{Exec, Outcome, ok}
use mur_mesh.Crypto.{Bytes, Verifiable}
use mur_mesh.Pbft.Messages.{PrePrepare}
use mur_mesh.Pbft.Replica.State.{LogEntry, Node, no_op_digest}
use mur_mesh.Pbft.Replica.Commit.{execute_slot}
use mur_mesh.Pbft.Replica.Commit.Frame.{Ends, Kept}

module _ {S A : Type 0} (execute : Bytes → Exec S Bytes)
    (returns : (op : Bytes) (s : S) → Ends (execute op s).0) where
  -- The slot after the last that is executed is not there, is not committed, or misses its requests.
  abbrev pub Waits : Node S A → Type 0
  Waits n =
      (get_elem? n.log (n.commit_num + 1) ≡ none)
      ⊎ ((e : LogEntry A) × (get_elem? n.log (n.commit_num + 1) ≡ some e)
          × ((is_empty e.commits ≡ true)
              ⊎ ((p : Verifiable PrePrepare) × (e.pre_prepare ≡ some p)
                  × ((not (p.inner.digest == no_op_digest) && is_empty e.requests) ≡ true))))

  abbrev pub IsCommitted : ℕ → Node S A → Type 0
  IsCommitted op n = (e : LogEntry A) × (get_elem? n.log op ≡ some e) × (is_empty e.commits ≡ false)

  -- What the loop, started at the first state, leaves and ends with.
  abbrev pub Executed : Node S A → Outcome (Unit {0}) × Node S A → Type 0
  Executed n r =
      Ends r.0
      × (n.commit_num ≤ r.1.commit_num)
      × Kept n.log r.1.log
      × ((op : ℕ) → n.commit_num < op → op ≤ r.1.commit_num → IsCommitted op r.1)
      × (r.0 ≡ ok tt → Waits r.1)

  module _ (e : LogEntry A) (p : Verifiable PrePrepare) (n : Node S A)
      (found : get_elem? n.log (n.commit_num + 1) ≡ some e) (done : is_empty e.commits ≡ false)
      (small : length n.log < 2 ^ 32) where
    abbrev after : Node S A
    after = (execute_slot execute e p n).1
