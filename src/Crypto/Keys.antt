-- ===== src/Crypto/Keys.antt =====
-- src/crypto.rs: what is signed by a provider is verified by the public key of that provider.
use mur_mesh.Prelude.{ℕ, ◌≡◌, refl, some, bytes_eq_refl, get_elem?}
use mur_mesh.Exec.{ok}
use mur_mesh.Crypto.{
  H256, CryptoProvider, insecure, secp256k1_secret, schnorrkel_keypair, PublicKey, plain_key,
  secp256k1_key, schnorrkel_key, Crypto, Curves, sign, verify, verify_by, sign_by,
}

module _ (curves : Curves) where
  -- The key belongs to the provider: for a curve, that its library verifies what it has signed.
  abbrev pub IsKeyOf : CryptoProvider → PublicKey → Type 0
  IsKeyOf (insecure s) (plain_key expected) = s ≡ expected
  IsKeyOf (secp256k1_secret secret) (secp256k1_key key) =
      (d : H256) → curves.verify_ecdsa key d (curves.sign_ecdsa secret d) ≡ ok tt
  IsKeyOf (schnorrkel_keypair pair) (schnorrkel_key key) =
      (d : H256) → curves.verify_schnorr key d (curves.sign_schnorr pair d) ≡ ok tt
  IsKeyOf _ _ = ⊥

  -- The two providers are of the same kind, each with its own secret.
  abbrev pub IsSameScheme : CryptoProvider → CryptoProvider → Type 0
  IsSameScheme (insecure _) (insecure _) = Unit {0}
  IsSameScheme (secp256k1_secret _) (secp256k1_secret _) = Unit {0}
  IsSameScheme (schnorrkel_keypair _) (schnorrkel_keypair _) = Unit {0}
  IsSameScheme _ _ = ⊥

  verify_by-sign_by :
      (v p : CryptoProvider) (key : PublicKey) (d : H256)
      → IsSameScheme v p
      → IsKeyOf p key
      → verify_by curves v key (sign_by curves p d) d ≡ ok tt
  verify_by-sign_by (insecure _) (insecure s) (plain_key expected) d g h =
      rw (h, bytes_eq_refl expected) refl
  verify_by-sign_by (secp256k1_secret _) (secp256k1_secret _) (secp256k1_key _) d g h = h d
  verify_by-sign_by (schnorrkel_keypair _) (schnorrkel_keypair _) (schnorrkel_key _) d g h = h d
  verify_by-sign_by (insecure _) (secp256k1_secret _) key d g h = elim g [ ]
  verify_by-sign_by (insecure _) (schnorrkel_keypair _) key d g h = elim g [ ]
  verify_by-sign_by (secp256k1_secret _) (insecure _) key d g h = elim g [ ]
  verify_by-sign_by (secp256k1_secret _) (schnorrkel_keypair _) key d g h = elim g [ ]
  verify_by-sign_by (schnorrkel_keypair _) (insecure _) key d g h = elim g [ ]
  verify_by-sign_by (schnorrkel_keypair _) (secp256k1_secret _) key d g h = elim g [ ]
  verify_by-sign_by (insecure _) (insecure _) (secp256k1_key key) d g h = elim h [ ]
  verify_by-sign_by (insecure _) (insecure _) (schnorrkel_key key) d g h = elim h [ ]
  verify_by-sign_by (secp256k1_secret _) (secp256k1_secret _) (plain_key key) d g h = elim h [ ]
  verify_by-sign_by (secp256k1_secret _) (secp256k1_secret _) (schnorrkel_key key) d g h =
      elim h [ ]
  verify_by-sign_by (schnorrkel_keypair _) (schnorrkel_keypair _) (plain_key key) d g h = elim h [ ]
  verify_by-sign_by (schnorrkel_keypair _) (schnorrkel_keypair _) (secp256k1_key key) d g h =
      elim h [ ]

  -- A message signed by one party is verified by another that uses the same scheme, under the index at
  -- which it keeps the signer's public key.
  pub verify-sign :
      {M : Type 0} (hash : M → H256) (signer verifier : Crypto) (index : ℕ) (key : PublicKey)
      (m : M)
      → get_elem? verifier.public_keys index ≡ some key
      → IsSameScheme verifier.provider signer.provider
      → IsKeyOf signer.provider key
      → verify curves hash verifier index (sign curves hash signer m) ≡ ok tt
  unfolding sign verify
  verify-sign hash signer verifier index key m at same h =
      rw at (verify_by-sign_by verifier.provider signer.provider key (hash m) same h)
