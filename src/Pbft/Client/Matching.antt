-- ===== src/Pbft/Client/Matching.antt =====
-- src/pbft/client.rs: when a result is handed up.
use mur_mesh.Prelude.{
  ◌+◌, ◌≡◌, ◌⊎◌, inl, inr, refl, none, some, [], ◌∷◌, ◌++◌, ◌==◌, Bool-cases, Option-cases, ==_iff,
}
use mur_mesh.Exec.{Outcome-cases}
use mur_mesh.Map
use mur_mesh.Model.Schedule
use mur_mesh.Pbft.Messages.{Reply}
use mur_mesh.Pbft.Client.{Node, Outstanding, recv_reply, file_reply, complete, matching}

module _ {A : Type 0} where
  -- The reply is one of `num_faulty + 1` equal results to the operation that is invoked.
  abbrev pub IsDecisive : Reply → Node A → Type 0
  IsDecisive reply n =
      (o : Outstanding) × (n.outstanding ≡ some o)
      × (reply.seq ≡ n.seq)
      × (matching reply.result (Map.insert reply.replica_id reply o.replies)
          ≡ n.config.num_faulty + 1)

  -- The operation is over, with this result and view.
  abbrev pub HasCompleted : Reply → Node A → Node A → Type 0
  HasCompleted reply n m =
      (m.outstanding ≡ none)
      × (m.view_num ≡ reply.view_num)
      × (m.upcalls ≡ n.upcalls ++ reply.result ∷ [])

  complete-upcalls :
      (reply : Reply) (o : Outstanding) (n : Node A)
      → let m = (complete reply o n).1 in (m.upcalls ≡ n.upcalls) ⊎ HasCompleted reply n m
  unfolding complete
  complete-upcalls reply o n = elim (Outcome-cases (Schedule.unset o.timer n.schedule).0) [
    | inl (_, e) ↦ rw e (inr (refl, refl, refl))
    | inr (_, e) ↦ rw e (inl refl)
  ]

  file_reply-upcalls :
      (reply : Reply) (o : Outstanding) (n : Node A)
      → let m = (file_reply reply o n).1 in
        (m.upcalls ≡ n.upcalls)
        ⊎ ((matching reply.result (Map.insert reply.replica_id reply o.replies)
              ≡ n.config.num_faulty + 1)
            × HasCompleted reply n m)
  unfolding file_reply
  file_reply-upcalls reply o n =
      let replies = Map.insert reply.replica_id reply o.replies in
      elim (Bool-cases (matching reply.result replies == n.config.num_faulty + 1)) [
        | inl e ↦
            rw e
              (elim (complete-upcalls reply (record o { replies = replies })
                (record n {
                  state = record (n.state) { outstanding = some (record o { replies = replies }) };
                })) [
                  | inl same ↦ inl same
                  | inr done ↦
                      inr (
                        (==_iff (matching reply.result replies) (n.config.num_faulty + 1)).0 e,
                        done,
                      )
                ])
        | inr e ↦ rw e (inl refl)
      ]

  -- On a reply, the client hands up nothing, or the result of this reply, which is then one of
  -- `num_faulty + 1` equal results filed for the operation that it has invoked, and that operation is over.
  pub recv_reply-upcalls :
      (reply : Reply) (n : Node A)
      → let m = (recv_reply reply n).1 in
        (m.upcalls ≡ n.upcalls) ⊎ (IsDecisive reply n × HasCompleted reply n m)
  unfolding recv_reply file_reply complete
  recv_reply-upcalls reply n = elim (Bool-cases (reply.seq == n.seq)) [
    | inl e ↦ elim (Option-cases n.outstanding) [
      | inl f ↦ rw (e, f) (inl refl)
      | inr (o, f) ↦
          simp (e, f)
            (elim (file_reply-upcalls reply o n) [
              | inl same ↦ inl same
              | inr (enough, done) ↦ inr ((o, refl, (==_iff reply.seq n.seq).0 e, enough), done)
            ])
    ]
    | inr e ↦ rw e (inl refl)
  ]
