-- ===== src/Record/Library.antt =====
-- What tui/record calls and this repository does not hold: SHA-256 and Ed25519, the SSH
-- fingerprint of golang.org/x/crypto/ssh, encoding/base64, encoding/hex and encoding/json. Its
-- laws are documented behaviour of those packages.
use netherchat.Base.{◌≡◌, Bool, Option, none, some, [], Text, length}

-- ArtifactMeta (artifact.go)
pub record ArtifactMeta : Type 0 where
  pub source : Text
  pub artifact_ref : Text
  pub artifact_hash : Text
  pub approver_fpr : Text
  pub proposed_at : Text
  pub approved_at : Text
  pub proposal_id : Text
  pub nonce : Text
  pub proposer_fpr : Text

pub record Library : Type 0 where
  -- sha256.Sum256
  pub sha256 : Text → Text
  pub sha256_size : (m : Text) → length (sha256 m) ≡ 32
  -- ed25519.Verify(key, message, signature)
  pub ed25519_verify : Text → Text → Text → Bool
  -- ssh.NewPublicKey, ssh.FingerprintSHA256
  pub ssh_public_key : Text → Option Text
  pub ssh_fingerprint : Text → Text
  -- base64.StdEncoding, hex
  pub base64_encode : Text → Text
  pub base64_decode : Text → Option Text
  pub base64_law : (b : Text) → base64_decode (base64_encode b) ≡ some b
  pub hex_encode : Text → Text
  pub hex_decode : Text → Option Text
  pub hex_law : (b : Text) → hex_decode (hex_encode b) ≡ some b
  -- json.Unmarshal into an ArtifactMeta
  pub parse_artifact : Text → Option ArtifactMeta

-- Fingerprint (tui/internal/crypto/identity.go)
unfoldable pub fingerprint : ⦃l : Library⦄ → Text → Text
fingerprint ⦃l⦄ key = elim (l.ssh_public_key key) [ none ↦ [] | some k ↦ l.ssh_fingerprint k ]
