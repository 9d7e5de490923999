-- ===== src/Attest/Identity/Structure.antt =====
-- Steps 1 to 3 of VerifyIdentity: the version, the algorithm and the shape of the fields
-- (identity.go).
pub mod Shape
use netherchat.Base.{
  ℕ, ◌+◌, Bool, true, false, not, ◌||◌, Option, none, some, List, [], ◌∷◌, Text, ◌==◌, is_empty,
  length, eqb, if◌then◌else◌, Result, Checked, ok, err, ◌>>=◌, ◌>>◌, reject_if, or_fail,
}
use netherchat.Base.Int.{ℤ, ltb_ℤ}
use netherchat.Attest.Formats.{Formats}
use netherchat.Attest.Reasons.{Reason, Detail, Fault}
use netherchat.Attest.Pinned.{fault, is_fingerprint}
use netherchat.Attest.Identity.{Attestation, identity_version, algorithm_ed25519}

-- The set `seen` of the roles so far.
unfoldable pub is_seen : Text → List Text → Bool
is_seen r [] = false
is_seen r (s ∷ ss) = s == r || is_seen r ss

-- The loop of rolesProblem.
unfoldable pub check_roles_from : ℕ → List Text → List Text → Checked Detail
check_roles_from i seen [] = ok tt
check_roles_from i seen (r ∷ rs) = do
  reject_if (is_empty r) (Detail.entry i [])
  reject_if (is_seen r seen) (Detail.naming (r ∷ []))
  check_roles_from (i + 1) (r ∷ seen) rs

-- rolesProblem
unfoldable pub roles_problem : List Text → Checked Detail
roles_problem roles = do
  reject_if (eqb (length roles) 0) Detail.no_detail
  check_roles_from 0 [] roles

unfoldable pub check_roles : List Text → Checked Fault
check_roles roles = elim (roles_problem roles) [
  | ok _ ↦ ok tt
  | err what ↦ err (fault Reason.malformed_roles what)
]

module _ ⦃formats : Formats⦄ where
  unfoldable pub check_fields : Attestation → Checked Fault
  check_fields a = do
    reject_if (not (a.version == identity_version))
        (fault Reason.unsupported_version (Detail.naming (a.version ∷ [])))
    reject_if (not (a.algorithm == algorithm_ed25519))
        (fault Reason.unsupported_algorithm (Detail.naming (a.algorithm ∷ [])))
    reject_if (is_empty a.serial) (fault Reason.malformed_serial Detail.no_detail)
    reject_if (not (is_fingerprint a.subject))
        (fault Reason.malformed_subject (Detail.naming (a.subject ∷ [])))
    reject_if (is_empty a.principal) (fault Reason.malformed_principal Detail.no_detail)
    reject_if (is_empty a.principal_type) (fault Reason.malformed_principal_type Detail.no_detail)
    check_roles a.roles
    reject_if (not (is_fingerprint a.issuer))
        (fault Reason.malformed_issuer (Detail.naming (a.issuer ∷ [])))

  -- The window of the attestation: its first and its last instant.
  unfoldable pub check_window : Attestation → Result Fault (ℤ × ℤ)
  check_window a = do
    not_before ←
        or_fail (formats.parse_time a.issued_at)
          (fault Reason.malformed_time (Detail.naming (a.issued_at ∷ [])))
    not_after ←
        or_fail (formats.parse_time a.expires_at)
          (fault Reason.malformed_time (Detail.naming (a.expires_at ∷ [])))
    reject_if (ltb_ℤ not_after not_before)
        (fault Reason.inverted_window (Detail.naming (a.expires_at ∷ a.issued_at ∷ [])))
    ok (not_before, not_after)

  -- Steps 1 to 3.
  unfoldable pub check_structure : Attestation → Result Fault (ℤ × ℤ)
  check_structure a = do check_fields a; check_window a
