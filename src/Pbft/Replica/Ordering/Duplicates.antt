-- ===== src/Pbft/Replica/Ordering/Duplicates.antt =====
-- src/pbft/replica.rs: requests that a replica has seen.
use mur_mesh.Prelude.{
  ℕ, ◌≡◌, ◌≤◌, refl, true, false, Option, none, some, List, [], ◌∷◌, ◌++◌, arith, ltb, ◌==◌,
  Bool-cases, inl, inr, if◌then◌else◌,
}
use mathlib.Core.List.{append-nil}
use mur_mesh.Exec.{ok}
use mur_mesh.Map
use mur_mesh.Pbft.Messages.{Request, Reply}
use mur_mesh.Pbft.Replica.State.{Node, Send, view_change, to_client}
use mur_mesh.Pbft.Replica.Ordering.{recv_request, resend_reply}

-- What goes out for a request that is known: its reply, if it has one and no later request is known.
abbrev pub resent : {A : Type 0} → Request A → ℕ × Option Reply → List (Send A)
resent r known =
    if known.0 == r.seq
    then (elim known.1 [ none ↦ [] | some reply ↦ to_client r.client_addr reply ∷ [] ])
    else []

module _ {S A : Type 0} where
  -- In a view that it has entered, a replica handles a request that is not later than the last one that it
  -- knows of the client without an error and without a change of its state, of its work or of its timers;
  -- it sends the reply that it keeps if the request is that last one, and nothing else.
  pub recv_request-known :
      (r : Request A) (n : Node S A) (known : ℕ × Option Reply)
      → view_change n.state ≡ false
      → Map.get r.client_id n.replies ≡ some known
      → r.seq ≤ known.0
      → recv_request r n ≡ (
        ok tt,
        record n { context = record (n.context) { sent = n.context.sent ++ resent r known } },
      )
  unfolding recv_request resend_reply
  recv_request-known r n (seq, none) entered got old = elim (Bool-cases (seq == r.seq)) [
    | inl e ↦
        let a : ltb r.seq seq ≡ false = ground arith in
        simp (entered, got, a, e, append-nil n.context.sent) refl
    | inr e ↦
        let a : ltb r.seq seq ≡ true = ground arith in
        simp (entered, got, a, e, append-nil n.context.sent) refl
  ]
  recv_request-known r n (seq, some reply) entered got old = elim (Bool-cases (seq == r.seq)) [
    | inl e ↦ let a : ltb r.seq seq ≡ false = ground arith in simp (entered, got, a, e) refl
    | inr e ↦
        let a : ltb r.seq seq ≡ true = ground arith in
        simp (entered, got, a, e, append-nil n.context.sent) refl
  ]
