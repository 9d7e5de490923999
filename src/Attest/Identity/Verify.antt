-- ===== src/Attest/Identity/Verify.antt =====
-- VerifyIdentity and the check of the supplied revocation statements (identity.go, revocation.go).
pub mod Withdrawn
pub mod Sound
pub mod Order
pub mod Classes
pub mod Issued
use netherchat.Base.{
  ℕ, Bool, true, false, not, Option, none, some, List, [], ◌∷◌, ◌++◌, Text, codes, ◌==◌, is_empty,
  length, eqb, if◌then◌else◌, Result, Checked, ok, err, ◌>>=◌, ◌>>◌, reject_if, or_fail,
}
use netherchat.Base.Int.{ℤ, ltb_ℤ, eqb_ℤ}
use netherchat.Record.Library.{Library}
use netherchat.Attest.Formats.{Formats}
use netherchat.Attest.Reasons.{Reason, class_of, Detail, Fault}
use netherchat.Attest.Pinned.{fault, check_signatures, check_key_sizes}
use netherchat.Attest.Revocation.{
  Revoked, Revocation, RevocationResult, CallError, verify_revocation, is_valid,
}
use netherchat.Attest.Identity.{
  Attestation, Options, RevocationCheck, IdentityResult, signing_bytes,
}
use netherchat.Attest.Identity.Structure.{check_structure}

-- The call is unusable.
pub data IdentityError : Type 0 where
  nil_attestation : IdentityError
  key_size : ℕ → ℕ → IdentityError
  no_time : IdentityError

-- The three results of checkRevocations: the checks, the first statement that lists the serial, and
-- the first that does not verify; "" stands for none.
pub record Checks : Type 0 where
  pub checks : List RevocationCheck
  pub revoked_by : Text
  pub unverifiable : Text

abbrev pub no_checks : Checks
no_checks = record { checks = []; revoked_by = []; unverifiable = [] }

abbrev unnamed : Text
unnamed = codes "(unnamed statement)"

-- The name under which a statement is reported.
abbrev pub id_of : Revocation → Text
id_of s = if is_empty s.statement_id then unnamed else s.statement_id

-- if x == "" { x = id }
abbrev pub set_first : Text → Text → Text
set_first [] id = id
set_first (b ∷ bs) id = b ∷ bs

unfoldable pub lists : Text → List Revoked → Bool
lists serial [] = false
lists serial (r ∷ rs) = if r.serial == serial then true else lists serial rs

abbrev pub init : ⦃f : Formats⦄ → Attestation → Options → IdentityResult
init ⦃f⦄ a opts = record {
  valid = false;
  subject = a.subject;
  principal = a.principal;
  display_name = a.display_name;
  principal_type = a.principal_type;
  roles = a.roles;
  serial = a.serial;
  issuer = a.issuer;
  verified_by = [];
  not_before = a.issued_at;
  not_after = a.expires_at;
  evaluated_at = f.format_time opts.at;
  revocation = [];
  reason = none;
  reason_class = none;
  detail = Detail.no_detail;
}

-- The result once a pinned key verified.
abbrev pub anchored : ⦃f : Formats⦄ → Attestation → Options → List Text → Detail → IdentityResult
anchored a opts verified detail = record (init a opts) { verified_by = verified; detail = detail }

-- fail
abbrev pub fail : IdentityResult → Fault → IdentityResult
fail res f = record res {
  valid = false;
  reason = some f.reason;
  reason_class = some (class_of f.reason);
  detail = f.detail;
}

module _ ⦃formats : Formats⦄ where
  -- The statement says when it is to be replaced, and that time is past.
  unfoldable pub is_stale : Revocation → ℤ → Bool
  is_stale s at =
      if is_empty s.next_update
      then false
      else elim (formats.parse_time s.next_update) [ none ↦ false | some next ↦ ltb_ℤ next at ]

  abbrev pub check_of : Attestation → Options → Revocation → RevocationCheck
  check_of a opts s = record {
    statement_id = s.statement_id;
    number = s.number;
    issued_at = s.issued_at;
    next_update = s.next_update;
    issuer = s.issuer;
    covers_issuer = s.issuer == a.issuer;
    listed = if s.issuer == a.issuer then lists a.serial s.revoked else false;
    stale = is_stale s opts.at;
  }

  -- Step 7.
  unfoldable pub check_instant : Attestation → Options → ℤ × ℤ → Checked Fault
  check_instant a opts (not_before, not_after) = do
    reject_if (ltb_ℤ opts.at not_before) (
        fault Reason.not_yet_valid (Detail.naming (a.issued_at ∷ formats.format_time opts.at ∷ [])))
    reject_if (ltb_ℤ not_after opts.at)
        (fault Reason.expired (Detail.naming (a.expires_at ∷ formats.format_time opts.at ∷ [])))

module _ ⦃lib : Library⦄ ⦃formats : Formats⦄ where
  -- The body of the loop of checkRevocations.
  unfoldable pub check_revocation : Attestation → Options → Checks → Option Revocation → Checks
  check_revocation a opts st none = st
  check_revocation a opts st (some s) =
      if not (is_valid (verify_revocation (some s) opts.issuer_keys))
      then record st { unverifiable = set_first st.unverifiable (id_of s) }
      else record st {
        checks = st.checks ++ check_of a opts s ∷ [];
        revoked_by =
            if (check_of a opts s).listed then set_first st.revoked_by (id_of s) else st.revoked_by;
      }

  -- checkRevocations
  unfoldable pub check_revocations :
      Attestation → Options → Checks → List (Option Revocation) → Checks
  check_revocations a opts st [] = st
  check_revocations a opts st (s ∷ ss) = check_revocations a opts (check_revocation a opts st s) ss

  abbrev verdict : Attestation → IdentityResult → Checks → IdentityResult
  verdict a res c =
      if not (is_empty c.unverifiable)
      then fail res (fault Reason.revocation_unverifiable (Detail.naming (c.unverifiable ∷ [])))
      else if not (is_empty c.revoked_by)
      then fail res (fault Reason.revoked (Detail.naming (a.serial ∷ c.revoked_by ∷ [])))
      else record res { valid = true }

  -- Step 8.
  unfoldable pub conclude : Attestation → Options → IdentityResult → IdentityResult
  conclude a opts res =
      if eqb (length opts.revocations) 0
      then record res { valid = true }
      else let c = check_revocations a opts no_checks opts.revocations in
        verdict a (record res { revocation = c.checks }) c

  -- Steps 1 to 8.
  unfoldable pub judge : Attestation → Options → IdentityResult
  judge a opts = elim (check_structure a) [
    | err f ↦ fail (init a opts) f
    | ok window ↦
        elim (check_signatures a.signatures a.signer_keys a.issuer (signing_bytes a)
          opts.issuer_keys) [
            | err f ↦ fail (init a opts) f
            | ok (verified, detail) ↦
                let res = anchored a opts verified detail in
                elim (check_instant a opts window) [
                  | err f ↦ fail res f
                  | ok _ ↦ conclude a opts res
                ]
          ]
  ]

  -- VerifyIdentity
  unfoldable pub verify_identity :
      Option Attestation → Options → Result IdentityError IdentityResult
  verify_identity none opts = err IdentityError.nil_attestation
  verify_identity (some a) opts = elim (check_key_sizes 0 opts.issuer_keys) [
    | err (i, n) ↦ err (IdentityError.key_size i n)
    | ok _ ↦
        if eqb_ℤ opts.at formats.zero_time then err IdentityError.no_time else ok (judge a opts)
  ]
