-- ===== src/Pbft/Replica/Work.antt =====
-- src/pbft/replica.rs: what the crypto worker does with a closure, and the event that it sends back.
-- The digests of messages (`DigestHash`, over SHA-256) and the curve libraries are parameters.
pub mod Delivered
use mur_mesh.Prelude.{
  ℕ, ◌+◌, ◌%◌, Bool, true, false, Option, none, some, List, [], ◌∷◌, ◌||◌, ◌&&◌, leb, sub_usize,
  ◌==◌, if◌then◌else◌, length, is_empty, map,
}
use mur_mesh.Exec.{Outcome, ok, err, bail}
use mur_mesh.Crypto.{H256, Verifiable, Crypto, Curves, sign, verify}
use mur_mesh.Pbft.Messages.{Request, PrePrepare, Prepare, Commit, ViewChange, NewView, Quorum}
use mur_mesh.Pbft.Replica.Event.{Event}
use mur_mesh.Pbft.Replica.Ordering.{pre_prepare_eq}
use mur_mesh.Pbft.Replica.State.{
  Work, sign_batch, sign_prepare, sign_commit, sign_view_change, sign_new_view, verify_pre_prepare,
  verify_prepare, verify_commit, verify_view_change, verify_new_view, no_op_digest,
}
use mur_mesh.Pbft.Replica.ViewChange.{pre_prepares_for_view_changes}

-- `sha256` at the types that are signed, and at batches.
pub record Digests (A : Type 0) : Type 0 where
  pub of_requests : List (Request A) → H256
  pub of_pre_prepare : PrePrepare → H256
  pub of_prepare : Prepare → H256
  pub of_commit : Commit → H256
  pub of_view_change : ViewChange → H256
  pub of_new_view : NewView → H256

abbrev pub is_ok {ℓ} : {R : Type ℓ} → Outcome R → Bool
is_ok (ok _) = true
is_ok (err _) = false

-- `a?; b`
infixl 5 ◌and_then◌
abbrev pub ◌and_then◌ : Outcome (Unit {0}) → Outcome (Unit {0}) → Outcome (Unit {0})
ok _ and_then b = b
err e and_then b = err e

abbrev pub ensured : Bool → Outcome (Unit {0})
ensured b = if b then ok tt else err bail

module _ {A : Type 0} (curves : Curves) (digests : Digests A) (crypto : Crypto) where
  -- The loop over the Prepares of a certificate for the digest.
  unfoldable pub verify_prepares : H256 → Quorum Prepare → Outcome (Unit {0})
  verify_prepares digest [] = ok tt
  verify_prepares digest ((_, p) ∷ ps) =
      ensured (p.inner.digest == digest)
      and_then verify curves digests.of_prepare crypto p.inner.replica_id p
      and_then verify_prepares digest ps

  -- The loop over the certificates of a ViewChange.
  unfoldable pub verify_slots :
      ℕ → ℕ → List (Verifiable PrePrepare × Quorum Prepare) → Outcome (Unit {0})
  unfolding verify_prepares
  verify_slots num_replica num_faulty [] = ok tt
  verify_slots num_replica num_faulty ((p, prepares) ∷ slots) =
      ensured (leb (sub_usize num_replica num_faulty) (length prepares + 1))
      and_then verify curves digests.of_pre_prepare crypto (p.inner.view_num % num_replica) p
      and_then verify_prepares p.inner.digest prepares
      and_then verify_slots num_replica num_faulty slots

  unfoldable pub check_view_change : Verifiable ViewChange → ℕ → ℕ → Outcome (Unit {0})
  unfolding verify_slots
  check_view_change v num_replica num_faulty =
      verify curves digests.of_view_change crypto v.inner.replica_id v
      and_then verify_slots num_replica num_faulty v.inner.log

  unfoldable pub check_view_changes : ℕ → ℕ → Quorum ViewChange → Outcome (Unit {0})
  unfolding check_view_change
  check_view_changes num_replica num_faulty [] = ok tt
  check_view_changes num_replica num_faulty ((_, v) ∷ vs) =
      check_view_change v num_replica num_faulty
      and_then check_view_changes num_replica num_faulty vs

  -- The loop over `zip`, which stops with the shorter list.
  unfoldable pub check_pre_prepares :
      ℕ → List (Verifiable PrePrepare) → List PrePrepare → Outcome (Unit {0})
  check_pre_prepares index [] expected = ok tt
  check_pre_prepares index (p ∷ ps) [] = ok tt
  check_pre_prepares index (p ∷ ps) (q ∷ qs) =
      ensured (pre_prepare_eq p.inner q)
      and_then verify curves digests.of_pre_prepare crypto index p
      and_then check_pre_prepares index ps qs

  -- `do_verify`
  unfoldable pub check_new_view : Verifiable NewView → ℕ → ℕ → Outcome (Unit {0})
  unfolding check_view_changes check_pre_prepares
  check_new_view v num_replica num_faulty =
      let index = v.inner.view_num % num_replica in
      verify curves digests.of_new_view crypto index v
      and_then ensured (leb (sub_usize num_replica num_faulty) (length v.inner.view_changes))
      and_then check_view_changes num_replica num_faulty v.inner.view_changes
      and_then (elim (pre_prepares_for_view_changes v.inner.view_num v.inner.view_changes) [
        | ok expected ↦ check_pre_prepares index v.inner.pre_prepares expected
        | err e ↦ err e
      ])

  -- `requests.sha256() == digest || requests.is_empty() && digest == NO_OP_DIGEST`
  abbrev pub digest_fits : H256 → List (Request A) → Bool
  digest_fits digest requests =
      digests.of_requests requests == digest || (is_empty requests && digest == no_op_digest)

  abbrev pub sent_if : Bool → Event A → Outcome (Option (Event A))
  sent_if b event = ok (if b then some event else none)

  -- The closures. The digest of a batch is left to the worker.
  unfoldable pub signed_batch : ℕ → ℕ → List (Request A) → Event A
  signed_batch view op requests =
      Event.signed_pre_prepare
        (sign curves digests.of_pre_prepare crypto
          (record { view_num = view; op_num = op; digest = digests.of_requests requests }))
        requests

  unfoldable pub signed_view : ℕ → Quorum ViewChange → Outcome (Option (Event A))
  signed_view view votes = elim (pre_prepares_for_view_changes view votes) [
    | ok ps ↦ ok (
        some (
          Event.signed_new_view (
            sign curves digests.of_new_view crypto (record {
              view_num = view;
              pre_prepares = map (sign curves digests.of_pre_prepare crypto) ps;
              view_changes = votes;
            }))))
    | err e ↦ err e
  ]

  unfoldable pub checked_pre_prepare :
      ℕ → Verifiable PrePrepare → List (Request A) → Outcome (Option (Event A))
  checked_pre_prepare primary p requests =
      sent_if
        (digest_fits p.inner.digest requests
          && is_ok (verify curves digests.of_pre_prepare crypto primary p))
        (Event.verified_pre_prepare p requests)

  unfoldable pub checked_prepare : Verifiable Prepare → Outcome (Option (Event A))
  checked_prepare p =
      sent_if (is_ok (verify curves digests.of_prepare crypto p.inner.replica_id p))
        (Event.verified_prepare p)

  unfoldable pub checked_commit : Verifiable Commit → Outcome (Option (Event A))
  checked_commit c =
      sent_if (is_ok (verify curves digests.of_commit crypto c.inner.replica_id c))
        (Event.verified_commit c)

  -- The closure's own result, and the event that it has sent. The signed Prepares, Commits and ViewChanges
  -- are those of `submit_sign`.
  unfoldable pub run : Work A → Outcome (Option (Event A))
  unfolding check_new_view signed_batch signed_view checked_pre_prepare checked_prepare
      checked_commit
  run (sign_batch view op requests) = ok (some (signed_batch view op requests))
  run (sign_prepare p) = ok (some (Event.signed_prepare (sign curves digests.of_prepare crypto p)))
  run (sign_commit c) = ok (some (Event.signed_commit (sign curves digests.of_commit crypto c)))
  run (sign_view_change v) =
      ok (some (Event.signed_view_change (sign curves digests.of_view_change crypto v)))
  run (sign_new_view view votes) = signed_view view votes
  run (verify_pre_prepare primary p requests) = checked_pre_prepare primary p requests
  run (verify_prepare p) = checked_prepare p
  run (verify_commit c) = checked_commit c
  run (verify_view_change v num_replica num_faulty) =
      sent_if (is_ok (check_view_change v num_replica num_faulty)) (Event.verified_view_change v)
  run (verify_new_view v num_replica num_faulty) =
      sent_if (is_ok (check_new_view v num_replica num_faulty)) (Event.verified_new_view v)
