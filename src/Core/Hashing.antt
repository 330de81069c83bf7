-- ===== src/Core/Hashing.antt =====
-- crates/decision-gate-core/src/core/hashing.rs: digests and the hex encoding. SHA-256 (`sha2`) and
-- the canonical JSON writer (`serde_jcs`, `serde_json`) are parameters.
pub mod Hex
use Prim.Native.Char.{Char}
use Prim.Native.String.{String as Text}
use decision_gate.Prelude.{
  ℕ, String, List, [], ◌∷◌, Bool, true, get_elem?, Option, none, some, PartialEq, ◌+◌, ◌*◌,
  if◌then◌else◌, ltb,
}
use decision_gate.Prelude.Outcome.{Outcome, ok, err, ◌>>=◌}
use decision_gate.Core.Hashing.Hex.{hex_encode}

pub data HashAlgorithm : Type 0 where
  sha256 : HashAlgorithm

abbrev pub default_hash_algorithm : HashAlgorithm
default_hash_algorithm = sha256

pub record HashDigest : Type 0 where
  pub algorithm : HashAlgorithm
  pub value : String

unfoldable pub new : HashAlgorithm → List ℕ → HashDigest
new algorithm bytes = record { algorithm = algorithm; value = hex_encode bytes }

pub data HashError : Type 0 where
  canonicalization : String → HashError
  size_limit_exceeded : (limit actual : ℕ) → HashError

-- `D` stands for the serialisable values that the program hashes.
pub record Codec {ℓ} (D : Type ℓ) : Type ℓ where
  -- `Sha256::digest`
  pub digest : List ℕ → List ℕ
  -- `canonical_json_bytes` and its variant with a limit.
  pub canonical_json_bytes : D → Outcome HashError (List ℕ)
  pub canonical_json_bytes_with_limit : D → ℕ → Outcome HashError (List ℕ)

module _ {ℓ} {D : Type ℓ} (codec : Codec D) where
  unfoldable pub hash_bytes : HashAlgorithm → List ℕ → HashDigest
  hash_bytes sha256 bytes = new sha256 (codec.digest bytes)

  unfoldable pub hash_canonical_json : HashAlgorithm → D → Outcome HashError HashDigest
  hash_canonical_json algorithm value = do
    bytes ← codec.canonical_json_bytes value
    ok (hash_bytes algorithm bytes)

  unfoldable pub hash_canonical_json_with_limit :
      HashAlgorithm → D → ℕ → Outcome HashError HashDigest
  hash_canonical_json_with_limit algorithm value max_bytes = do
    bytes ← codec.canonical_json_bytes_with_limit value max_bytes
    ok (hash_bytes algorithm bytes)
