-- ===== src/Crypto.antt =====
-- src/crypto.rs: signed messages, and signing and verifying by the provider that a replica uses.
-- The curve libraries and the hash of a message (derived `Hash` under SHA-256) are parameters.
pub mod Keys
use mur_mesh.Prelude.{ℕ, Bool, Option, List, true, if◌then◌else◌, bytes_eq, get_elem?, none, some}
use mur_mesh.Exec.{Outcome, ok, err, bail}

-- Byte strings: keys, payloads, and the signatures of the curve libraries.
abbrev pub Bytes : Type 0
Bytes = List ℕ

-- A 256-bit digest, as a number.
abbrev pub H256 : Type 0
H256 = ℕ

pub data Signature : Type 0 where
  plain : Bytes → Signature
  secp256k1 : Bytes → Signature
  schnorrkel : Bytes → Signature

pub record Verifiable (M : Type 0) : Type 0 where
  pub inner : M
  pub signature : Signature

pub data CryptoProvider : Type 0 where
  insecure : Bytes → CryptoProvider
  secp256k1_secret : Bytes → CryptoProvider
  schnorrkel_keypair : Bytes → CryptoProvider

pub data PublicKey : Type 0 where
  plain_key : Bytes → PublicKey
  secp256k1_key : Bytes → PublicKey
  schnorrkel_key : Bytes → PublicKey

pub record Crypto : Type 0 where
  pub provider : CryptoProvider
  pub public_keys : List PublicKey

-- The `secp256k1` and `schnorrkel` crates: sign a digest by a secret, verify a signature by a key.
pub record Curves : Type 0 where
  pub sign_ecdsa : Bytes → H256 → Bytes
  pub verify_ecdsa : Bytes → H256 → Bytes → Outcome (Unit {0})
  pub sign_schnorr : Bytes → H256 → Bytes
  pub verify_schnorr : Bytes → H256 → Bytes → Outcome (Unit {0})

module _ (curves : Curves) where
  abbrev sign_by : CryptoProvider → H256 → Signature
  sign_by (insecure signature) digest = plain signature
  sign_by (secp256k1_secret key) digest = secp256k1 (curves.sign_ecdsa key digest)
  sign_by (schnorrkel_keypair key) digest = schnorrkel (curves.sign_schnorr key digest)

  abbrev verify_by : CryptoProvider → PublicKey → Signature → H256 → Outcome (Unit {0})
  verify_by (insecure _) (plain_key expected) (plain signature) digest =
      if bytes_eq signature expected then ok tt else err bail
  verify_by (secp256k1_secret _) (secp256k1_key key) (secp256k1 signature) digest =
      curves.verify_ecdsa key digest signature
  verify_by (schnorrkel_keypair _) (schnorrkel_key key) (schnorrkel signature) digest =
      curves.verify_schnorr key digest signature
  verify_by _ _ _ digest = err bail

  abbrev verify_with : Option PublicKey → CryptoProvider → Signature → H256 → Outcome (Unit {0})
  verify_with none provider signature digest = err bail
  verify_with (some key) provider signature digest = verify_by provider key signature digest

  -- `hash` is `DigestHash::sha256` at the type of the message.
  module _ {M : Type 0} (hash : M → H256) where
    unfoldable pub sign : Crypto → M → Verifiable M
    sign crypto message = record {
      inner = message;
      signature = sign_by crypto.provider (hash message);
    }

    unfoldable pub verify : Crypto → ℕ → Verifiable M → Outcome (Unit {0})
    verify crypto index signed =
        verify_with (get_elem? crypto.public_keys index) crypto.provider signed.signature
          (hash signed.inner)
