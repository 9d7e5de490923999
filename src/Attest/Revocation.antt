-- ===== src/Attest/Revocation.antt =====
-- Revocation statements: serials that an issuer withdrew (revocation.go).
pub mod Verified
use netherchat.Base.{
  ℕ, ◌+◌, Bool, true, false, not, Option, none, some, List, [], ◌∷◌, map, Text, codes, ◌==◌, length,
  is_empty, if◌then◌else◌, Result, Checked, ok, err, ◌>>=◌, ◌>>◌, reject_if, or_fail,
}
use netherchat.Base.Dict.{Dict}
use netherchat.Protocol.Attest.{revocation_signing_bytes}
use netherchat.Record.Library.{Library}
use netherchat.Attest.Formats.{Formats}
use netherchat.Attest.Signers.{b64_map}
use netherchat.Attest.Reasons.{Reason, Class, class_of, Detail, Fault}
use netherchat.Attest.Pinned.{fault, is_fingerprint, check_signatures, check_key_sizes}

abbrev pub revocation_version : Text
revocation_version = codes "v1"

-- RevokedSerial
pub record Revoked : Type 0 where
  pub serial : Text
  pub revoked_at : Text
  pub reason : Text

-- RevocationStatement
pub record Revocation : Type 0 where
  pub version : Text
  pub issuer : Text
  pub statement_id : Text
  pub number : ℕ
  pub issued_at : Text
  pub next_update : Text
  pub revoked : List Revoked
  pub signatures : Dict Text
  pub signer_keys : Dict Text

-- RevocationSpec
pub record RevocationSpec : Type 0 where
  pub issuer : Text
  pub statement_id : Text
  pub number : ℕ
  pub next_update : Text
  pub revoked : List Revoked

-- RevocationResult
pub record RevocationResult : Type 0 where
  pub valid : Bool
  pub issuer : Text
  pub statement_id : Text
  pub number : ℕ
  pub issued_at : Text
  pub next_update : Text
  pub serials : ℕ
  pub verified_by : List Text
  pub reason : Option Reason
  pub reason_class : Option Class
  pub detail : Detail

-- The call is unusable.
pub data CallError : Type 0 where
  nil_statement : CallError
  key_size : ℕ → ℕ → CallError

-- The call is usable and the statement is valid.
abbrev pub is_valid : Result CallError RevocationResult → Bool
is_valid (err e) = false
is_valid (ok res) = res.valid

-- RevocationSigningBytes (revocation.go)
unfoldable pub signing_bytes : Revocation → Text
signing_bytes s =
    revocation_signing_bytes s.issuer s.statement_id s.number s.issued_at s.next_update
      (map (λ r. (r.serial, r.revoked_at, r.reason)) s.revoked)

abbrev init : Revocation → RevocationResult
init s = record {
  valid = false;
  issuer = s.issuer;
  statement_id = s.statement_id;
  number = s.number;
  issued_at = s.issued_at;
  next_update = s.next_update;
  serials = length s.revoked;
  verified_by = [];
  reason = none;
  reason_class = none;
  detail = Detail.no_detail;
}

-- revFail
abbrev rev_fail : RevocationResult → Fault → RevocationResult
rev_fail res f = record res {
  valid = false;
  reason = some f.reason;
  reason_class = some (class_of f.reason);
  detail = f.detail;
}

module _ ⦃lib : Library⦄ where
  -- NewRevocation; `now` is the current time in RFC 3339.
  unfoldable pub new_revocation : Text → RevocationSpec → Dict Text → Dict Text → Revocation
  new_revocation now spec sigs keys = record {
    version = revocation_version;
    issuer = spec.issuer;
    statement_id = spec.statement_id;
    number = spec.number;
    issued_at = now;
    next_update = spec.next_update;
    revoked = spec.revoked;
    signatures = b64_map sigs;
    signer_keys = b64_map keys;
  }

  -- WithSignatures
  unfoldable pub with_signatures : Revocation → Dict Text → Dict Text → Revocation
  with_signatures s sigs keys = record s { signatures = b64_map sigs; signer_keys = b64_map keys }

module _ ⦃lib : Library⦄ ⦃formats : Formats⦄ where
  unfoldable pub check_revoked : ℕ → List Revoked → Checked Fault
  check_revoked i [] = ok tt
  check_revoked i (r ∷ rs) = do
    reject_if (is_empty r.serial) (fault Reason.malformed_serial (Detail.entry i []))
    _ ←
        or_fail (formats.parse_time r.revoked_at)
          (fault Reason.malformed_time (Detail.entry i (r.revoked_at ∷ [])))
    check_revoked (i + 1) rs

  unfoldable pub check_next_update : Text → Checked Fault
  check_next_update t = if is_empty t then ok tt else do
    _ ← or_fail (formats.parse_time t) (fault Reason.malformed_time (Detail.naming (t ∷ [])))
    ok tt

  -- The tests of the fields, in the source's order.
  unfoldable pub check_fields : Revocation → Checked Fault
  check_fields s = do
    reject_if (not (s.version == revocation_version))
        (fault Reason.unsupported_version (Detail.naming (s.version ∷ [])))
    reject_if (not (is_fingerprint s.issuer))
        (fault Reason.malformed_issuer (Detail.naming (s.issuer ∷ [])))
    reject_if (is_empty s.statement_id) (fault Reason.malformed_serial Detail.no_detail)
    _ ←
        or_fail (formats.parse_time s.issued_at)
          (fault Reason.malformed_time (Detail.naming (s.issued_at ∷ [])))
    check_next_update s.next_update
    check_revoked 0 s.revoked

  unfoldable pub check_statement : Revocation → List Text → Result Fault (List Text × Detail)
  check_statement s keys = do
    check_fields s
    check_signatures s.signatures s.signer_keys s.issuer (signing_bytes s) keys

  unfoldable pub judge : Revocation → List Text → RevocationResult
  judge s keys = elim (check_statement s keys) [
    | err f ↦ rev_fail (init s) f
    | ok (verified, detail) ↦ record (init s) {
      verified_by = verified;
      detail = detail;
      valid = true;
    }
  ]

  -- VerifyRevocation
  unfoldable pub verify_revocation :
      Option Revocation → List Text → Result CallError RevocationResult
  verify_revocation none keys = err CallError.nil_statement
  verify_revocation (some s) keys = elim (check_key_sizes 0 keys) [
    | err (i, n) ↦ err (CallError.key_size i n)
    | ok _ ↦ ok (judge s keys)
  ]
