-- ===== src/Attest/Reasons.antt =====
-- Outcome codes and their classes (identity.go). The human sentence of a verdict is modelled as the
-- values that it names.
use netherchat.Base.{ℕ, List, Text}

-- IdentityReason
pub data Reason : Type 0 where
  no_issuer_pinned no_pinned_issuer_verified not_yet_valid expired revoked unsupported_version
        unsupported_algorithm :
      Reason
  subject_mismatch malformed_artifact malformed_serial malformed_subject malformed_principal
        malformed_principal_type :
      Reason
  malformed_roles malformed_issuer malformed_time inverted_window issuer_did_not_sign : Reason
  signer_key_malformed signer_key_mismatch signature_malformed signature_invalid
        revocation_unverifiable :
      Reason

-- IdentityReasonClass
pub data Class : Type 0 where
  unconfigured unanchored lifecycle malformed forged : Class

-- ClassOf, of a reason that is not ""
abbrev pub class_of : Reason → Class
class_of Reason.no_issuer_pinned = Class.unconfigured
class_of Reason.no_pinned_issuer_verified = Class.unanchored
class_of Reason.not_yet_valid = Class.lifecycle
class_of Reason.expired = Class.lifecycle
class_of Reason.revoked = Class.lifecycle
class_of Reason.signature_invalid = Class.forged
class_of Reason.revocation_unverifiable = Class.forged
class_of _ = Class.malformed

-- severity
abbrev pub severity : Reason → ℕ
severity Reason.signature_invalid = 4
severity Reason.signer_key_mismatch = 3
severity Reason.signer_key_malformed = 2
severity Reason.signature_malformed = 1
severity _ = 0

-- keyOutcome
pub record KeyOutcome : Type 0 where
  pub fpr : Text
  pub reason : Reason

pub data Detail : Type 0 where
  no_detail : Detail
  naming : List Text → Detail
  entry : ℕ → List Text → Detail
  count : ℕ → Detail
  key_failures : List KeyOutcome → Detail
  partly_verified : ℕ → ℕ → List KeyOutcome → Detail

-- What fail stamps onto a result.
pub record Fault : Type 0 where
  pub reason : Reason
  pub detail : Detail
