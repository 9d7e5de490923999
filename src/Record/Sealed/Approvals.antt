-- ===== src/Record/Sealed/Approvals.antt =====
-- verifyArtifactApprovals and dedupApproverRoles (sealed.go), ArtifactOf (artifact.go).
pub mod Proofs
pub mod SecondLaw
use netherchat.Base.{
  ℕ, Bool, true, false, not, ◌&&◌, ◌||◌, Option, none, some, List, [], ◌∷◌, ◌++◌, Text, ◌==◌, less,
  is_empty, eqb, ltb, length, if◌then◌else◌, Result, Checked, ok, err, ◌>>=◌, ◌>>◌, reject_if,
  or_fail,
}
use netherchat.Base.Dict.{Dict, get, put, keys}
use netherchat.Base.Sort.{sort_by, sort_strings}
use netherchat.Protocol.{artifact_signing_bytes, artifact_signing_bytes_v2}
use netherchat.Record.Library.{Library, ArtifactMeta, fingerprint}
use netherchat.Record.Entry.{Entry, kind_artifact}
use netherchat.Record.Sealed.{ApprovalProof}

pub record VerifiedApprover : Type 0 where
  pub fingerprint : Text
  pub role : Text

pub data ApprovalError : Type 0 where
  duplicate_proposal : Text → ApprovalError
  unknown_proposal : Text → ApprovalError
  no_nonce : Text → ApprovalError
  malformed_key : Text → Text → ApprovalError
  key_mismatch : Text → Text → ApprovalError
  bad_base64 : Text → Text → ApprovalError
  bad_approval : Text → Text → ApprovalError

abbrev pub same_approver : VerifiedApprover → VerifiedApprover → Bool
same_approver p q = p.fingerprint == q.fingerprint && p.role == q.role

abbrev before : VerifiedApprover → VerifiedApprover → Bool
before p q =
    if p.fingerprint == q.fingerprint then less p.role q.role else less p.fingerprint q.fingerprint

abbrev seen : VerifiedApprover → List VerifiedApprover → Bool
seen p [] = false
seen p (q ∷ qs) = same_approver p q || seen p qs

-- The loop of dedupApproverRoles: `out` holds the pairs that were seen and kept.
unfoldable pub dedup :
    Text → Text → List VerifiedApprover → List VerifiedApprover → List VerifiedApprover
dedup author proposer [] out = out
dedup author proposer (p ∷ ps) out = dedup author proposer ps (
    if p.fingerprint == author || p.fingerprint == proposer || seen p out
    then out
    else out ++ p ∷ [])

unfoldable pub dedup_approver_roles : List VerifiedApprover → Text → Text → List VerifiedApprover
dedup_approver_roles pairs author proposer = sort_by before (dedup author proposer pairs [])

-- `for fpr := range distinct`, skipping the author and the proposer
unfoldable pub without_parties : Text → Text → List Text → List Text
without_parties author proposer [] = []
without_parties author proposer (fpr ∷ fprs) =
    let rest = without_parties author proposer fprs in
    if fpr == author || fpr == proposer then rest else fpr ∷ rest

-- metaByProposal and authorByProposal
pub record Index : Type 0 where
  pub metas : Dict ArtifactMeta
  pub authors : Dict Text

-- The two maps that verifyArtifactApprovals returns.
pub record Approvers : Type 0 where
  pub approvers : Dict (List Text)
  pub roles : Dict (List VerifiedApprover)

-- authorByProposal[pid], "" where the key is missing
abbrev pub author_of : Index → Text → Text
author_of x pid = elim (get pid x.authors) [ none ↦ [] | some a ↦ a ]

abbrev put_some {ℓ} : {A : Type ℓ} → Text → List A → Dict (List A) → Dict (List A)
put_some pid [] d = d
put_some pid (x ∷ xs) d = put pid (x ∷ xs) d

module _ ⦃lib : Library⦄ where
  -- ArtifactOf
  unfoldable pub artifact_of : Entry → Option ArtifactMeta
  artifact_of e = if e.kind == kind_artifact then lib.parse_artifact e.body else none

  abbrev index_one : Entry → Index → ArtifactMeta → Result ApprovalError Index
  index_one e x m = if is_empty m.proposal_id then ok x else elim (get m.proposal_id x.metas) [
    | some _ ↦ err (duplicate_proposal m.proposal_id)
    | none ↦ ok (record {
      metas = put m.proposal_id m x.metas;
      authors = put m.proposal_id e.author_id x.authors;
    })
  ]

  -- The first loop: metaByProposal and authorByProposal.
  unfoldable pub index_artifacts : List Entry → Index → Result ApprovalError Index
  index_artifacts [] x = ok x
  index_artifacts (e ∷ es) x = elim (artifact_of e) [
    | none ↦ index_artifacts es x
    | some m ↦ index_one e x m >>= index_artifacts es
  ]

  -- A non-empty role binds the v2 preimage.
  unfoldable pub approval_preimage : Text → ArtifactMeta → ApprovalProof → Text
  approval_preimage pid m p =
      if not (is_empty p.role)
      then artifact_signing_bytes_v2 pid m.artifact_hash p.approver_fpr m.nonce p.role
      else artifact_signing_bytes pid m.artifact_hash p.approver_fpr m.nonce

  -- The body of the loop over the proofs, up to its verdict.
  unfoldable pub check_proof : Text → ArtifactMeta → ApprovalProof → Checked ApprovalError
  check_proof pid m p = do
    key ← or_fail (lib.base64_decode p.approver_key) (malformed_key pid p.approver_fpr)
    reject_if (not (eqb (length key) 32)) (malformed_key pid p.approver_fpr)
    reject_if (not (fingerprint key == p.approver_fpr)) (key_mismatch pid p.approver_fpr)
    sig ← or_fail (lib.base64_decode p.sig) (bad_base64 pid p.approver_fpr)
    reject_if (not (lib.ed25519_verify key (approval_preimage pid m p) sig))
        (bad_approval pid p.approver_fpr)

  abbrev role_pair : ApprovalProof → List VerifiedApprover
  role_pair p =
      if not (is_empty p.role)
      then record { fingerprint = p.approver_fpr; role = p.role } ∷ []
      else []

  -- The loop over the proofs: the distinct fingerprints and the role pairs.
  unfoldable pub check_proofs :
      Text
      → ArtifactMeta
      → List ApprovalProof
      → Dict Bool
      → List VerifiedApprover
      → Result ApprovalError (Dict Bool × List VerifiedApprover)
  check_proofs pid m [] distinct pairs = ok (distinct, pairs)
  check_proofs pid m (p ∷ ps) distinct pairs =
      check_proof pid m p
      >> check_proofs pid m ps (put p.approver_fpr true distinct) (pairs ++ role_pair p)

  -- The body of the loop over the proposals.
  unfoldable pub check_proposal :
      Index → Text → List ApprovalProof → Approvers → Result ApprovalError Approvers
  check_proposal x pid proofs out = do
    m ← or_fail (get pid x.metas) (unknown_proposal pid)
    reject_if (is_empty m.nonce) (no_nonce pid)
    (distinct, pairs) ← check_proofs pid m proofs [] []
    ok (record {
      approvers =
          put_some pid
            (sort_strings (without_parties (author_of x pid) m.proposer_fpr (keys distinct)))
            out.approvers;
      roles = put_some pid (dedup_approver_roles pairs (author_of x pid) m.proposer_fpr) out.roles;
    })

  abbrev pub proofs_of : Dict (List ApprovalProof) → Text → List ApprovalProof
  proofs_of d pid = elim (get pid d) [ none ↦ [] | some ps ↦ ps ]

  unfoldable pub check_proposals :
      Index → Dict (List ApprovalProof) → List Text → Approvers → Result ApprovalError Approvers
  check_proposals x approvals [] out = ok out
  check_proposals x approvals (pid ∷ pids) out =
      check_proposal x pid (proofs_of approvals pid) out >>= check_proposals x approvals pids

  -- verifyArtifactApprovals
  unfoldable pub verify_artifact_approvals :
      List Entry → Dict (List ApprovalProof) → Result ApprovalError Approvers
  verify_artifact_approvals entries approvals = do
    x ← index_artifacts entries (record { metas = []; authors = [] })
    check_proposals x approvals (sort_strings (keys approvals))
        (record { approvers = []; roles = [] })
