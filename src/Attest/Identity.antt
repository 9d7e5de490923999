-- ===== src/Attest/Identity.antt =====
-- Identity attestations: an issuer binds a key to a principal and roles for a window (identity.go).
pub mod Structure
pub mod Verify
use netherchat.Base.{ℕ, Bool, Option, List, [], Text, codes}
use netherchat.Base.Int.{ℤ}
use netherchat.Base.Dict.{Dict}
use netherchat.Base.Sort.{sort_strings}
use netherchat.Protocol.Attest.{identity_signing_bytes}
use netherchat.Record.Library.{Library}
use netherchat.Attest.Signers.{b64_map}
use netherchat.Attest.Reasons.{Reason, Class, Detail}
use netherchat.Attest.Revocation.{Revocation}

abbrev pub identity_version : Text
identity_version = codes "v2"

abbrev pub algorithm_ed25519 : Text
algorithm_ed25519 = codes "ed25519"

-- IdentityAttestation
pub record Attestation : Type 0 where
  pub version : Text
  pub serial : Text
  pub subject : Text
  pub principal : Text
  pub display_name : Text
  pub principal_type : Text
  pub roles : List Text
  pub issued_at : Text
  pub expires_at : Text
  pub algorithm : Text
  pub issuer : Text
  pub signatures : Dict Text
  pub signer_keys : Dict Text

-- IdentitySpec
pub record IdentitySpec : Type 0 where
  pub serial : Text
  pub subject : Text
  pub principal : Text
  pub display_name : Text
  pub principal_type : Text
  pub roles : List Text
  pub expires_at : Text
  pub algorithm : Text
  pub issuer : Text

-- IdentityOptions
pub record Options : Type 0 where
  pub issuer_keys : List Text
  pub at : ℤ
  pub revocations : List (Option Revocation)

-- RevocationCheck
pub record RevocationCheck : Type 0 where
  pub statement_id : Text
  pub number : ℕ
  pub issued_at : Text
  pub next_update : Text
  pub issuer : Text
  pub covers_issuer : Bool
  pub listed : Bool
  pub stale : Bool

-- IdentityResult
pub record IdentityResult : Type 0 where
  pub valid : Bool
  pub subject : Text
  pub principal : Text
  pub display_name : Text
  pub principal_type : Text
  pub roles : List Text
  pub serial : Text
  pub issuer : Text
  pub verified_by : List Text
  pub not_before : Text
  pub not_after : Text
  pub evaluated_at : Text
  pub revocation : List RevocationCheck
  pub reason : Option Reason
  pub reason_class : Option Class
  pub detail : Detail

-- IdentitySigningBytes (identity.go)
unfoldable pub signing_bytes : Attestation → Text
signing_bytes a =
    identity_signing_bytes a.serial a.subject a.principal a.display_name a.principal_type a.roles
      a.issued_at a.expires_at a.algorithm a.issuer

module _ ⦃lib : Library⦄ where
  -- NewIdentityAttestation; `now` is the current time in RFC 3339.
  unfoldable pub new_identity_attestation :
      Text → IdentitySpec → Dict Text → Dict Text → Attestation
  new_identity_attestation now spec sigs keys = record {
    version = identity_version;
    serial = spec.serial;
    subject = spec.subject;
    principal = spec.principal;
    display_name = spec.display_name;
    principal_type = spec.principal_type;
    roles = sort_strings spec.roles;
    issued_at = now;
    expires_at = spec.expires_at;
    algorithm = spec.algorithm;
    issuer = spec.issuer;
    signatures = b64_map sigs;
    signer_keys = b64_map keys;
  }

  -- WithSignatures
  unfoldable pub with_signatures : Attestation → Dict Text → Dict Text → Attestation
  with_signatures a sigs keys = record a { signatures = b64_map sigs; signer_keys = b64_map keys }
