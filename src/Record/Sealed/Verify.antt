-- ===== src/Record/Sealed/Verify.antt =====
-- Verify (sealed.go), in the order of its tests. It returns a result whose `reason` says what
-- failed; the error beside it is for a head_hash that is no hex.
pub mod Sound
use netherchat.Base.{
  ℕ, suc, Bool, true, false, not, ◌&&◌, Option, none, some, List, [], ◌∷◌, Text, ◌==◌, eqb, length,
  if◌then◌else◌, Result, ok, err, ◌>>=◌, ◌>>◌, reject_if, or_fail,
}
use netherchat.Base.Dict.{Dict, get, keys}
use netherchat.Base.Sort.{sort_strings}
use netherchat.Protocol.{seal_signing_bytes, seal_signing_bytes_v2}
use netherchat.Record.Library.{Library, fingerprint}
use netherchat.Record.Entry.{Entry, EntryError, hash, verify_entry}
use netherchat.Record.Chain.{u64, zero_hash}
use netherchat.Record.Sealed.{SealedRecord, format_version, format_version_v2}
use netherchat.Record.Sealed.Approvals.{
  ApprovalError, VerifiedApprover, Approvers, verify_artifact_approvals,
}

pub data Reason : Type 0 where
  unsupported_version : Text → Reason
  reordered : ℕ → ℕ → Reason
  unlinked : ℕ → Reason
  bad_entry : EntryError → Reason
  head_mismatch : Text → Text → Reason
  no_signatures : Reason
  no_signer_key malformed_key key_mismatch bad_base64 bad_seal : Text → Reason
  bad_approvals : ApprovalError → Reason

pub record VerifyResult : Type 0 where
  pub valid : Bool
  pub room : Text
  pub entries : ℕ
  pub signers : List Text
  pub head_hash : Text
  pub reason : Option Reason
  pub artifact_approvers : Dict (List Text)
  pub artifact_approver_roles : Dict (List VerifiedApprover)

-- fmt.Errorf("head_hash is not valid hex")
pub data VerifyError : Type 0 where
  bad_hex : VerifyError

abbrev Outcome : Type 0
Outcome = VerifyResult × Option VerifyError

abbrev fail : VerifyResult → Reason → Outcome
fail res why = (record res { reason = some why }, none)

abbrev wrap : Result EntryError (Unit {0}) → Result Reason (Unit {0})
wrap (ok u) = ok u
wrap (err e) = err (bad_entry e)

module _ ⦃lib : Library⦄ where
  -- The walk over the entries from index `i`; the result is the recomputed head.
  unfoldable pub walk : ℕ → Text → List Entry → Result Reason Text
  walk i prev [] = ok prev
  walk i prev (e ∷ es) =
      let rest = walk (suc i) (hash e) es in
      (do
        reject_if (not (eqb e.seq (u64 i))) (reordered i e.seq)
        reject_if (not (e.prev_hash == prev)) (unlinked i)
        wrap (verify_entry e)
        rest)

  -- The endorsement of a signer chooses the preimage that was signed.
  unfoldable pub seal_preimage : SealedRecord → Text → Text → Text
  seal_preimage r prev fpr = elim (get fpr r.endorsements) [
    | none ↦ seal_signing_bytes r.room prev
    | some d ↦ seal_signing_bytes_v2 r.room d.meaning d.name d.signed_at prev
  ]

  -- The body of the loop over the seal signatures.
  unfoldable pub check_seal : SealedRecord → Text → Text → Result Reason (Unit {0})
  check_seal r prev fpr = do
    sig64 ← or_fail (get fpr r.signatures) (no_signer_key fpr)
    key64 ← or_fail (get fpr r.signer_keys) (no_signer_key fpr)
    key ← or_fail (lib.base64_decode key64) (malformed_key fpr)
    reject_if (not (eqb (length key) 32)) (malformed_key fpr)
    reject_if (not (fingerprint key == fpr)) (key_mismatch fpr)
    sig ← or_fail (lib.base64_decode sig64) (bad_base64 fpr)
    reject_if (not (lib.ed25519_verify key (seal_preimage r prev fpr) sig)) (bad_seal fpr)

  unfoldable pub check_seals : SealedRecord → Text → List Text → Result Reason (List Text)
  check_seals r prev [] = ok []
  check_seals r prev (fpr ∷ fprs) = do
    check_seal r prev fpr
    signers ← check_seals r prev fprs
    ok (fpr ∷ signers)

  abbrev accept : VerifyResult → Approvers → Outcome
  accept res a = (
    record res {
      valid = true;
      artifact_approvers = a.approvers;
      artifact_approver_roles = a.roles;
    },
    none,
  )

  -- Step 5 is skipped where the record holds no proofs.
  unfoldable pub verify_approvals : SealedRecord → VerifyResult → Outcome
  verify_approvals r res =
      if eqb (length r.artifact_approvals) 0
      then (record res { valid = true }, none)
      else elim (verify_artifact_approvals r.entries r.artifact_approvals) [
        | err e ↦ fail res (bad_approvals e)
        | ok a ↦ accept res a
      ]

  unfoldable pub verify_seals : SealedRecord → VerifyResult → Text → Outcome
  verify_seals r res prev =
      if eqb (length r.signatures) 0
      then fail res no_signatures
      else elim (check_seals r prev (sort_strings (keys r.signatures))) [
        | err e ↦ fail res e
        | ok signers ↦ verify_approvals r (record res { signers = sort_strings signers })
      ]

  unfoldable pub verify_head : SealedRecord → VerifyResult → Text → Outcome
  verify_head r res prev = elim (lib.hex_decode r.head_hash) [
    | none ↦ (res, some bad_hex)
    | some stored ↦
        if not (stored == prev)
        then fail res (head_mismatch r.head_hash res.head_hash)
        else verify_seals r res prev
  ]

  abbrev init : SealedRecord → VerifyResult
  init r = record {
    valid = false;
    room = r.room;
    entries = length r.entries;
    signers = [];
    head_hash = [];
    reason = none;
    artifact_approvers = [];
    artifact_approver_roles = [];
  }

  unfoldable pub verify : SealedRecord → Outcome
  verify r =
      if not (r.version == format_version) && not (r.version == format_version_v2)
      then fail (init r) (unsupported_version r.version)
      else elim (walk 0 zero_hash r.entries) [
        | err why ↦ fail (init r) why
        | ok prev ↦ verify_head r (record (init r) { head_hash = lib.hex_encode prev }) prev
      ]
