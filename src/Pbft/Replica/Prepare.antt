-- ===== src/Pbft/Replica/Prepare.antt =====
-- src/pbft/replica.rs: the votes of the first phase, from their signing to the prepared certificate.
pub mod Drain
use mur_mesh.Prelude.{
  ℕ, zero, suc, ◌+◌, Bool, true, false, Option, none, some, List, [], ◌∷◌, ◌++◌, ◌||◌, ◌&&◌, not,
  ltb, sub_usize, ◌==◌, if◌then◌else◌, length, get_elem?, set, pop, is_empty, is_none,
}
use mur_mesh.Exec.{
  when◌then◌else◌, Exec, out_of_fuel, pure, fail, self, assert, match_option, ◌>>=◌, ◌>>◌,
}
use mur_mesh.Map
use mur_mesh.Crypto.{Verifiable}
use mur_mesh.Pbft.Messages.{Prepare, Commit, Quorum, ToReplica}
use mur_mesh.Pbft.Replica.State.{
  LogEntry, State, Node, sign_commit, verify_prepare, to_all, modify_state, send, submit, entry_at,
}
use mur_mesh.Pbft.Replica.Ordering.{query_view, is_foreign}

-- `map.entry(k).or_default()`, then `insert`: the quorum with one more vote.
abbrev pub add_vote {ℓ} : {V : Type ℓ} → ℕ → ℕ → V → Map.Map (Map.Map V) → Map.Map V
add_vote op id v m = elim (Map.get op m) [ none ↦ Map.insert id v [] | some q ↦ Map.insert id v q ]

-- The slot is known not to need the vote: it is prepared, or holds another digest.
abbrev pub prepare_useless : {A : Type 0} → Verifiable Prepare → Option (LogEntry A) → Bool
prepare_useless p none = false
prepare_useless p (some e) =
    not (is_empty e.prepares)
    || (elim e.pre_prepare [ none ↦ false | some q ↦ not (p.inner.digest == q.inner.digest) ])

-- Enough rounds for the votes that are pending, and one to find none.
abbrev pub rounds {ℓ} : {V : Type ℓ} → ℕ → Map.Map (List V) → ℕ
rounds op m = elim (Map.get op m) [ none ↦ 1 | some l ↦ suc (length l) ]

module _ {S A : Type 0} where
  -- The slot becomes prepared: the votes move into the log, and a Commit is submitted for signing.
  unfoldable pub finish_prepare :
      Verifiable Prepare → Quorum Prepare → LogEntry A → Exec (Node S A) (Unit {0})
  finish_prepare p quorum entry = do
    n ← self
    let op = p.inner.op_num
    assert (is_empty entry.prepares)
    modify_state (λ s. record s {
      log = set s.log op (record entry { prepares = quorum });
      prepare_quorums = Map.remove op s.prepare_quorums;
      pending_prepares = Map.remove op s.pending_prepares;
    })
    submit (
        sign_commit (record {
          view_num = n.view_num;
          op_num = op;
          digest = p.inner.digest;
          replica_id = n.id;
        }))

  -- `prepare_quorum.len() + 1 < self.config.num_replica - self.config.num_faulty`
  abbrev pub few_prepares : Quorum Prepare → State S A → Bool
  few_prepares q s = ltb (length q + 1) (sub_usize s.config.num_replica s.config.num_faulty)

  unfoldable pub insert_prepare : Verifiable Prepare → Exec (Node S A) (Unit {0})
  unfolding finish_prepare
  insert_prepare p = do
    n ← self
    let op = p.inner.op_num
    let quorum = add_vote op p.inner.replica_id p n.prepare_quorums
    modify_state (λ s. record s { prepare_quorums = Map.insert op quorum s.prepare_quorums })
    when few_prepares quorum n.state
        then pure tt
        else match_option (get_elem? n.log op) (pure tt) (λ entry.
          when is_none entry.pre_prepare then pure tt else finish_prepare p quorum entry)

  unfoldable pub signed_prepare : Verifiable Prepare → Exec (Node S A) (Unit {0})
  unfolding insert_prepare
  signed_prepare p = do
    n ← self
    when not (p.inner.view_num == n.view_num) then pure tt else (do
      send (to_all (ToReplica.prepare p))
      e ← entry_at p.inner.op_num
      when is_empty e.prepares then insert_prepare p else pure tt)

  -- Whether a verification was submitted.
  unfoldable pub submit_prepare : Verifiable Prepare → Exec (Node S A) Bool
  unfolding query_view
  submit_prepare p = do
    n ← self
    when is_foreign p.inner.view_num n.state
        then (do query_view p.inner.replica_id p.inner.view_num; pure false)
        else (when prepare_useless p (get_elem? n.log p.inner.op_num)
            then pure false
            else (do submit (verify_prepare p); pure true))

  -- A dummy entry says that a vote for the slot is being verified.
  unfoldable pub note_prepare : ℕ → Bool → Exec (Node S A) (Unit {0})
  note_prepare op submitted =
      when submitted
      then modify_state (λ s. record s { pending_prepares = Map.insert op [] s.pending_prepares })
      else pure tt

  unfoldable pub recv_prepare : Verifiable Prepare → Exec (Node S A) (Unit {0})
  unfolding submit_prepare note_prepare
  recv_prepare p = do
    n ← self
    let op = p.inner.op_num
    match_option (Map.get op n.pending_prepares)
        (do submitted ← submit_prepare p; note_prepare op submitted)
        (λ pending. modify_state (λ s. record s {
          pending_prepares = Map.insert op (pending ++ p ∷ []) s.pending_prepares;
        }))

  -- The `loop` of the handler below: the next pending vote, until one is being verified.
  unfoldable pub next_prepare : ℕ → ℕ → Exec (Node S A) (Unit {0})
  unfolding submit_prepare
  next_prepare zero op = fail out_of_fuel
  next_prepare (suc fuel) op =
      let again = next_prepare fuel op in
      self >>= λ n. match_option (Map.get op n.pending_prepares) (pure tt) (λ pending.
        match_option (pop pending)
          (modify_state (λ s. record s { pending_prepares = Map.remove op s.pending_prepares }))
          (λ popped. do
            modify_state
                (λ s. record s { pending_prepares = Map.insert op popped.1 s.pending_prepares })
            submitted ← submit_prepare popped.0
            when submitted then pure tt else again))

  unfoldable pub drain_prepares : ℕ → Exec (Node S A) (Unit {0})
  unfolding next_prepare
  drain_prepares op = do n ← self; next_prepare (rounds op n.pending_prepares) op

  unfoldable pub verified_prepare : Verifiable Prepare → Exec (Node S A) (Unit {0})
  unfolding insert_prepare drain_prepares
  verified_prepare p = do
    n ← self
    let op = p.inner.op_num
    when not (p.inner.view_num == n.view_num) || not (Map.contains_key op n.pending_prepares)
        then pure tt
        else (do insert_prepare p; drain_prepares op)
