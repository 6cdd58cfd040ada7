-- ===== src/Pbft/Replica/Commit/Drain.antt =====
-- src/pbft/replica.rs: the loop over the Commits that wait for the verification of another ends.
use mur_mesh.Prelude.{
  ℕ, zero, suc, ◌≡◌, ◌≤◌, refl, Bool, true, false, arith, Bool-cases, Option-cases, pop, length-pop,
  leb, get_elem?, inl, inr,
}
use mur_mesh.Exec.{ok}
use mur_mesh.Map
use mur_mesh.Crypto.{Verifiable}
use mur_mesh.Pbft.Messages.{Commit}
use mur_mesh.Pbft.Replica.State.{Node}
use mur_mesh.Pbft.Replica.Ordering.{query_view, is_foreign}
use mur_mesh.Pbft.Replica.Commit.{submit_commit, next_commit, drain_commits, commit_useless}
use mur_mesh.Pbft.Replica.Prepare.{rounds}
use mur_mesh.Pbft.Replica.Prepare.Drain.{rounds_pos, rounds-some, rounds-insert}

module _ {S A : Type 0} where
  -- What a call that submits nothing but messages and work leaves of the state.
  submit_commit-ok :
      (p : Verifiable Commit) (n : Node S A)
      → (b : Bool) × ((submit_commit p n).0 ≡ ok b) × ((submit_commit p n).1.state ≡ n.state)
  unfolding submit_commit query_view
  submit_commit-ok p n = elim (Bool-cases (is_foreign p.inner.view_num n.state)) [
    | inl e ↦ elim (Bool-cases (leb n.view_num p.inner.view_num)) [
      | inl f ↦ simp (e, f) (false, refl, refl)
      | inr f ↦ simp (e, f) (false, refl, refl)
    ]
    | inr e ↦ elim (Bool-cases (commit_useless p (get_elem? n.log p.inner.op_num))) [
      | inl f ↦ simp (e, f) (false, refl, refl)
      | inr f ↦ simp (e, f) (true, refl, refl)
    ]
  ]

  next_commit-ok :
      (fuel op : ℕ) (n : Node S A)
      → rounds op n.pending_commits ≤ fuel
      → (next_commit fuel op n).0 ≡ ok tt
  unfolding next_commit
  next_commit-ok zero op n h = absurd (omega (arith, rounds_pos op n.pending_commits))
  next_commit-ok (suc fuel) op n h = elim (Option-cases (Map.get op n.pending_commits)) [
    | inl e ↦ rw e refl
    | inr (l, e) ↦ elim (Option-cases (pop l)) [
      | inl f ↦ simp (e, f) refl
      | inr ((p, rest), f) ↦
          let m : Node S A = record n {
            state = record (n.state) { pending_commits = Map.insert op rest n.pending_commits };
          } in
          let (b, g, kept) = submit_commit-ok p m in
          let less : rounds op (Map.insert op rest n.pending_commits) ≤ fuel = omega (
            arith,
            rounds-insert op rest n.pending_commits,
            length-pop l f,
            rounds-some op n.pending_commits e,
          ) in
          let again = next_commit-ok fuel op (submit_commit p m).1 (rw kept less) in
          elim (Bool-cases b) [
            | inl done ↦ simp (e, f, g, done) refl
            | inr more ↦ simp (e, f, g, more) again
          ]
    ]
  ]

  -- The loop over the pending Commits of a slot returns: the rounds that it is given are enough.
  pub drain_commits-ok : (op : ℕ) (n : Node S A) → (drain_commits op n).0 ≡ ok tt
  unfolding drain_commits
  drain_commits-ok op n = next_commit-ok (rounds op n.pending_commits) op n (omega arith)
