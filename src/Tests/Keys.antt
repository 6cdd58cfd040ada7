-- ===== src/Tests/Keys.antt =====
-- Signing and verifying with toy keys.
use mur_mesh.Prelude.{
  ℕ, zero, suc, ◌<◌, some, map, List, arith, refl, [], ◌∷◌, ◌≡◌, bytes_eq, bytes_eq_refl,
  if◌then◌else◌,
}
use mur_mesh.Exec.{ok, err, bail}
use mur_mesh.Crypto.{Verifiable, Signature, Crypto, CryptoProvider, PublicKey, Curves, sign, verify}
use mur_mesh.Crypto.Keys.{verify-sign}
use mur_mesh.Pbft.Messages.{Quorum, PrePrepare, NewView, ViewChange}
use mur_mesh.Pbft.Replica.State.{Work}
use mur_mesh.Pbft.Replica.Event.{Event}
use mur_mesh.Pbft.Replica.ViewChange.{pre_prepares_for_view_changes}
use mur_mesh.Pbft.Replica.Work.{Digests, check_view_change, run}
use mur_mesh.Pbft.Replica.Work.Delivered.{run-verify_batch, run-verify_new_view}

-- A toy scheme for both curves: the signature is the key and the digest.
abbrev toy : Curves
toy = record {
  sign_ecdsa = λ key digest. digest ∷ key;
  verify_ecdsa =
      λ key digest signature. if bytes_eq signature (digest ∷ key) then ok tt else err bail;
  sign_schnorr = λ key digest. digest ∷ key;
  verify_schnorr =
      λ key digest signature. if bytes_eq signature (digest ∷ key) then ok tt else err bail;
}

abbrev alice : Crypto
alice = record { provider = CryptoProvider.secp256k1_secret (3 ∷ []); public_keys = [] }

abbrev bob : Crypto
bob = record {
  provider = CryptoProvider.secp256k1_secret (4 ∷ []);
  public_keys = PublicKey.secp256k1_key (3 ∷ []) ∷ [];
}

toy-verifies : verify toy (λ (m : ℕ). m) bob 0 (sign toy (λ (m : ℕ). m) alice 6) ≡ ok tt
toy-verifies =
    verify-sign toy (λ (m : ℕ). m) alice bob 0 (PublicKey.secp256k1_key (3 ∷ [])) 6 refl tt
      (λ d. rw (bytes_eq_refl (d ∷ 3 ∷ [])) refl)

-- Everyone signs with the same text.
abbrev keys : Crypto
keys = record {
  provider = CryptoProvider.insecure (1 ∷ []);
  public_keys =
      PublicKey.plain_key (1 ∷ [])
      ∷ PublicKey.plain_key (1 ∷ [])
      ∷ PublicKey.plain_key (1 ∷ [])
      ∷ PublicKey.plain_key (1 ∷ [])
      ∷ [];
}

abbrev zeros : Digests ℕ
zeros = record {
  of_requests = λ _. 0;
  of_pre_prepare = λ _. 0;
  of_prepare = λ _. 0;
  of_commit = λ _. 0;
  of_view_change = λ _. 0;
  of_new_view = λ _. 0;
}

abbrev by_text : {M : Type 0} → M → Verifiable M
by_text m = record { inner = m; signature = Signature.plain (1 ∷ []) }

-- A vote with one Prepare under two keys.
abbrev vote : Verifiable ViewChange
vote = by_text (record {
  view_num = 1;
  log =
      (
        by_text (record { view_num = 0; op_num = 1; digest = 5 }),
        (1, by_text (record { view_num = 0; op_num = 1; digest = 5; replica_id = 1 }))
            ∷ (2, by_text (record { view_num = 0; op_num = 1; digest = 5; replica_id = 1 }))
            ∷ [],
      )
      ∷ [];
  replica_id = 2;
})

-- It is taken for a certificate of three.
vote_checks : check_view_change toy zeros keys vote 4 1 ≡ ok tt
unfolding check_view_change verify
vote_checks = rw (bytes_eq_refl (1 ∷ [])) refl

-- A batch of alice's is verified by bob.
alice-batch :
    (p : Verifiable PrePrepare) × (run toy zeros alice (Work.sign_batch 4 6 [])
      ≡ ok (some (Event.signed_pre_prepare p [])))
    × (p.inner.view_num ≡ 4)
    × (p.inner.op_num ≡ 6)
    × (run toy zeros bob (Work.verify_pre_prepare 0 p [])
        ≡ ok (some (Event.verified_pre_prepare p [])))
alice-batch =
    run-verify_batch toy zeros alice bob 0 (PublicKey.secp256k1_key (3 ∷ [])) refl tt
      (λ d. rw (bytes_eq_refl (d ∷ 3 ∷ [])) refl) 4 6 []

-- Each of three replicas votes with a certificate of its own slot.
abbrev ballot : ℕ → Verifiable ViewChange
ballot id = by_text (record {
  view_num = 1;
  log =
      (
        by_text (record { view_num = 0; op_num = id; digest = 5 }),
        (1, by_text (record { view_num = 0; op_num = id; digest = 5; replica_id = 1 }))
            ∷ (2, by_text (record { view_num = 0; op_num = id; digest = 5; replica_id = 2 }))
            ∷ [],
      )
      ∷ [];
  replica_id = id;
})

ballot_checks : (id : ℕ) → id < 4 → check_view_change toy zeros keys (ballot id) 4 1 ≡ ok tt
unfolding check_view_change verify
ballot_checks zero h = rw (bytes_eq_refl (1 ∷ [])) refl
ballot_checks (suc zero) h = rw (bytes_eq_refl (1 ∷ [])) refl
ballot_checks (suc (suc zero)) h = rw (bytes_eq_refl (1 ∷ [])) refl
ballot_checks (suc (suc (suc zero))) h = rw (bytes_eq_refl (1 ∷ [])) refl
ballot_checks (suc (suc (suc (suc id)))) h = absurd (omega arith)

abbrev ballots : Quorum ViewChange
ballots = (1, ballot 1) ∷ (2, ballot 2) ∷ (3, ballot 3) ∷ []

abbrev planned : List PrePrepare
planned = elim (pre_prepares_for_view_changes 1 ballots) [ ok ps ↦ ps | err _ ↦ [] ]

ballots_laid : pre_prepares_for_view_changes 1 ballots ≡ ok planned
unfolding pre_prepares_for_view_changes mur_mesh.Map.get mur_mesh.Map.insert
ballots_laid = refl

ballots-new_view :
    (v : Verifiable NewView) × (run toy zeros keys (Work.sign_new_view 1 ballots)
      ≡ ok (some (Event.signed_new_view v)))
    × (v.inner.view_num ≡ 1)
    × (v.inner.view_changes ≡ ballots)
    × (map (λ p. p.inner) v.inner.pre_prepares ≡ planned)
    × (run toy zeros keys (Work.verify_new_view v 4 1) ≡ ok (some (Event.verified_new_view v)))
ballots-new_view =
    run-verify_new_view toy zeros keys keys 1 (PublicKey.plain_key (1 ∷ [])) refl tt refl 1 4 1
      ballots planned refl (omega arith)
      (
        ballot_checks 1 (omega arith),
        (ballot_checks 2 (omega arith), (ballot_checks 3 (omega arith), tt)),
      )
      ballots_laid
