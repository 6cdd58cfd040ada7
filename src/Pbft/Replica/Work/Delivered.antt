-- ===== src/Pbft/Replica/Work/Delivered.antt =====
-- src/pbft/replica.rs: what the worker of one replica signs, the worker of another verifies.
use mur_mesh.Prelude.{
  ℕ, ◌≡◌, ◌≤◌, ◌%◌, refl, sym, ap, subst, true, some, List, [], ◌∷◌, get_elem?, All, map, length,
  leb, sub_usize, ◌==◌, arith,
}
use mur_mesh.Exec.{ok}
use mur_mesh.Crypto.{Verifiable, PublicKey, Crypto, Curves, sign, verify}
use mur_mesh.Crypto.Keys.{IsKeyOf, IsSameScheme, verify-sign}
use mur_mesh.Pbft.Messages.{Request, PrePrepare, ViewChange, NewView}
use mur_mesh.Pbft.Messages.{Quorum}
use mur_mesh.Pbft.Replica.State.{Work}
use mur_mesh.Pbft.Replica.Event.{Event}
use mur_mesh.Pbft.Replica.Ordering.{pre_prepare_eq}
use mur_mesh.Pbft.Replica.ViewChange.{pre_prepares_for_view_changes}
use mur_mesh.Pbft.Replica.Work.{
  Digests, check_view_change, check_view_changes, check_pre_prepares, check_new_view, signed_batch,
  signed_view, checked_pre_prepare, run,
}

pre_prepare_eq_refl : (p : PrePrepare) → pre_prepare_eq p p ≡ true
pre_prepare_eq_refl p = ground arith

module _ {A : Type 0} (curves : Curves) (digests : Digests A) (signer verifier : Crypto) (index : ℕ)
    (key : PublicKey) (at : get_elem? verifier.public_keys index ≡ some key)
    (same : IsSameScheme curves verifier.provider signer.provider)
    (fits : IsKeyOf curves signer.provider key) where
  verified :
      {M : Type 0} (hash : M → ℕ) (m : M)
      → verify curves hash verifier index (sign curves hash signer m) ≡ ok tt
  verified hash m = verify-sign curves hash signer verifier index key m at same fits

  -- A batch that one replica's worker signs as a PrePrepare for a view and an op number is verified by the
  -- worker of another, with the same requests, if that keeps the signer's public key under the index that it
  -- takes for the primary.
  pub run-verify_batch :
      (view op : ℕ) (requests : List (Request A))
      → (p : Verifiable PrePrepare) × (run curves digests signer (Work.sign_batch view op requests)
          ≡ ok (some (Event.signed_pre_prepare p requests)))
        × (p.inner.view_num ≡ view)
        × (p.inner.op_num ≡ op)
        × (run curves digests verifier (Work.verify_pre_prepare index p requests)
            ≡ ok (some (Event.verified_pre_prepare p requests)))
  unfolding run signed_batch checked_pre_prepare sign
  run-verify_batch view op requests =
      let m : PrePrepare = record {
        view_num = view;
        op_num = op;
        digest = digests.of_requests requests;
      } in
      let v = verified digests.of_pre_prepare m in
      let e : (digests.of_requests requests == digests.of_requests requests) ≡ true =
        ground arith in
      (
        sign curves digests.of_pre_prepare signer m,
        refl,
        refl,
        refl,
        rw (checked_pre_prepare, e, v) refl,
      )

  signed_pre_prepares-check :
      (ps : List PrePrepare)
      → check_pre_prepares curves digests verifier index
          (map (sign curves digests.of_pre_prepare signer) ps)
          ps
        ≡ ok tt
  unfolding check_pre_prepares sign
  signed_pre_prepares-check [] = refl
  signed_pre_prepares-check (p ∷ ps) =
      rw (pre_prepare_eq_refl p, verified digests.of_pre_prepare p, signed_pre_prepares-check ps)
        refl

  signed-inner :
      (ps : List PrePrepare)
      → map
          (λ (p : Verifiable PrePrepare). p.inner)
          (map (sign curves digests.of_pre_prepare signer) ps)
        ≡ ps
  unfolding sign
  signed-inner [] = refl
  signed-inner (p ∷ ps) = ap (λ l. p ∷ l) (signed-inner ps)

  votes-check :
      (num_replica num_faulty : ℕ) (votes : Quorum ViewChange)
      → All
          (λ vote. check_view_change curves digests verifier vote.1 num_replica num_faulty ≡ ok tt)
          votes
      → check_view_changes curves digests verifier num_replica num_faulty votes ≡ ok tt
  unfolding check_view_changes
  votes-check num_replica num_faulty [] h = refl
  votes-check num_replica num_faulty (vote ∷ votes) (h, hs) =
      rw (h, votes-check num_replica num_faulty votes hs) refl

  -- The checks of a NewView, one after the other.
  checks :
      (v : Verifiable NewView) (num_replica num_faulty : ℕ) (ps : List PrePrepare)
      → verify curves digests.of_new_view verifier (v.inner.view_num % num_replica) v ≡ ok tt
      → sub_usize num_replica num_faulty ≤ length v.inner.view_changes
      → check_view_changes curves digests verifier num_replica num_faulty v.inner.view_changes
        ≡ ok tt
      → pre_prepares_for_view_changes v.inner.view_num v.inner.view_changes ≡ ok ps
      → check_pre_prepares curves digests verifier
          (v.inner.view_num % num_replica)
          v.inner.pre_prepares
          ps
        ≡ ok tt
      → check_new_view curves digests verifier v num_replica num_faulty ≡ ok tt
  unfolding check_new_view
  checks v num_replica num_faulty ps signed enough votes laid laid_out =
      let e : leb (sub_usize num_replica num_faulty) (length v.inner.view_changes) ≡ true =
        ground arith in
      rw (signed, e, votes, laid) laid_out

  -- A NewView that one replica's worker signs, from votes that lay out the view, holds the votes and what
  -- they lay out, and is verified by the worker of another, if that keeps the signer's public key under the index of the view's primary, each vote
  -- passes the check there, and there are `num_replica - num_faulty` votes.
  pub run-verify_new_view :
      (view num_replica num_faulty : ℕ) (votes : Quorum ViewChange) (ps : List PrePrepare)
      → view % num_replica ≡ index
      → sub_usize num_replica num_faulty ≤ length votes
      → All
          (λ vote. check_view_change curves digests verifier vote.1 num_replica num_faulty ≡ ok tt)
          votes
      → pre_prepares_for_view_changes view votes ≡ ok ps
      → (v : Verifiable NewView) × (run curves digests signer (Work.sign_new_view view votes)
          ≡ ok (some (Event.signed_new_view v)))
        × (v.inner.view_num ≡ view)
        × (v.inner.view_changes ≡ votes)
        × (map (λ p. p.inner) v.inner.pre_prepares ≡ ps)
        × (run curves digests verifier (Work.verify_new_view v num_replica num_faulty)
            ≡ ok (some (Event.verified_new_view v)))
  unfolding run signed_view sign
  run-verify_new_view view num_replica num_faulty votes ps primary enough valid laid =
      let m : NewView = record {
        view_num = view;
        pre_prepares = map (sign curves digests.of_pre_prepare signer) ps;
        view_changes = votes;
      } in
      let v = sign curves digests.of_new_view signer m in
      let checked : check_new_view curves digests verifier v num_replica num_faulty ≡ ok tt =
        checks v num_replica num_faulty ps
          (subst (λ i. verify curves digests.of_new_view verifier i v ≡ ok tt) (sym primary)
            (verified digests.of_new_view m))
          enough (votes-check num_replica num_faulty votes valid) laid
          (subst (λ i. check_pre_prepares curves digests verifier i m.pre_prepares ps ≡ ok tt)
            (sym primary) (signed_pre_prepares-check ps)) in
      (v, rw (signed_view, laid) refl, refl, refl, signed-inner ps, rw checked refl)
