-- ===== src/Record/Sealer.antt =====
-- Sealer (sealer.go): the offline collection of co-signatures and approvals. A method returns the
-- new sealer with its result; an error leaves the sealer as it was.
pub mod Ready
pub mod Session
pub mod Downgrade
use netherchat.Base.{
  ℕ, Bool, not, ◌&&◌, Option, none, some, List, [], ◌∷◌, ◌++◌, Text, ◌==◌, is_empty, eqb, length,
  if◌then◌else◌, Result, ok, err, ◌>>=◌, ◌>>◌, reject_if, or_fail,
}
use netherchat.Base.Dict.{Dict, get, put}
use netherchat.Protocol.{
  seal_signing_bytes, seal_signing_bytes_v2, artifact_signing_bytes, artifact_signing_bytes_v2,
}
use netherchat.Record.Library.{Library, ArtifactMeta, fingerprint}
use netherchat.Record.Entry.{Entry, kind_artifact}
use netherchat.Record.Chain.{Author, head_of}
use netherchat.Record.Sealed.{Endorsement, ApprovalProof, SealedRecord, new_sealed_record}
use netherchat.Record.Sealed.Approvals.{artifact_of, proofs_of}

pub record Sealer : Type 0 where
  pub room : Text
  pub sealed_by : Text
  pub entries : List Entry
  pub head : Text
  pub sigs : Dict Text
  pub keys : Dict Text
  pub endorsements : Dict Endorsement
  pub approvals : Dict (List ApprovalProof)

pub data SealerError : Type 0 where
  key_size : ℕ → SealerError
  bad_cosignature : SealerError
  sign_failed : SealerError
  empty_role : SealerError
  no_artifact : Text → SealerError
  no_nonce : Text → SealerError
  bad_approval : SealerError
  no_cosignatures : SealerError

module _ ⦃lib : Library⦄ where
  -- NewSealer
  unfoldable pub new_sealer : Text → Text → List Entry → Sealer
  new_sealer room sealed_by entries = record {
    room = room;
    sealed_by = sealed_by;
    entries = entries;
    head = head_of entries;
    sigs = [];
    keys = [];
    endorsements = [];
    approvals = [];
  }

  -- SigningBytes, EndorsementSigningBytes
  abbrev pub cosign_bytes : Sealer → Text
  cosign_bytes s = seal_signing_bytes s.room s.head

  abbrev pub endorse_bytes : Sealer → Endorsement → Text
  endorse_bytes s d = seal_signing_bytes_v2 s.room d.meaning d.name d.signed_at s.head

  abbrev endorse : Text → Option Endorsement → Dict Endorsement → Dict Endorsement
  endorse fpr none d = d
  endorse fpr (some e) d = put fpr e d

  -- addVerified
  unfoldable pub add_verified :
      Sealer → Text → Text → Text → Option Endorsement → Result SealerError (Sealer × Text)
  add_verified s key sig preimage end = do
    reject_if (not (eqb (length key) 32)) (key_size (length key))
    reject_if (not (lib.ed25519_verify key preimage sig)) bad_cosignature
    ok (
      record s {
        sigs = put (fingerprint key) sig s.sigs;
        keys = put (fingerprint key) key s.keys;
        endorsements = endorse (fingerprint key) end s.endorsements;
      },
      fingerprint key,
    )

  -- AddCosignature
  unfoldable pub add_cosignature : Sealer → Text → Text → Result SealerError (Sealer × Text)
  add_cosignature s key sig = add_verified s key sig (cosign_bytes s) none

  -- AddEndorsement
  unfoldable pub add_endorsement :
      Sealer → Text → Text → Endorsement → Result SealerError (Sealer × Text)
  add_endorsement s key sig d = add_verified s key sig (endorse_bytes s d) (some d)

  -- Sign
  unfoldable pub sign : Sealer → Author → Result SealerError (Sealer × Text)
  sign s a = do sig ← or_fail (a.sign (cosign_bytes s)) sign_failed; add_cosignature s a.key sig

  -- SignAs; `now` is the current time in RFC 3339.
  unfoldable pub sign_as : Sealer → Author → Text → Text → Result SealerError (Sealer × Text)
  sign_as s a meaning now = do
    let d : Endorsement = record { meaning = meaning; name = a.name; signed_at = now }
    sig ← or_fail (a.sign (endorse_bytes s d)) sign_failed
    add_endorsement s a.key sig d

  -- artifactMetaByProposal
  unfoldable pub artifact_meta_by_proposal : Text → List Entry → Option ArtifactMeta
  artifact_meta_by_proposal pid [] = none
  artifact_meta_by_proposal pid (e ∷ es) =
      let rest = artifact_meta_by_proposal pid es in
      elim (artifact_of e) [ none ↦ rest | some m ↦ if m.proposal_id == pid then some m else rest ]

  abbrev file_proof : Text → ApprovalProof → Dict (List ApprovalProof) → Dict (List ApprovalProof)
  file_proof pid p d = put pid (proofs_of d pid ++ p ∷ []) d

  abbrev proof : Text → Text → Text → ApprovalProof
  proof key sig role = record {
    approver_fpr = fingerprint key;
    approver_key = lib.base64_encode key;
    sig = lib.base64_encode sig;
    role = role;
  }

  -- AddArtifactApproval
  unfoldable pub add_artifact_approval :
      Sealer → Text → Text → Text → Result SealerError (Sealer × Text)
  add_artifact_approval s pid key sig = do
    reject_if (not (eqb (length key) 32)) (key_size (length key))
    m ← or_fail (artifact_meta_by_proposal pid s.entries) (no_artifact pid)
    reject_if (is_empty m.nonce) (no_nonce pid)
    reject_if
        (not (
          lib.ed25519_verify key
            (artifact_signing_bytes pid m.artifact_hash (fingerprint key) m.nonce) sig))
        bad_approval
    ok (record s { approvals = file_proof pid (proof key sig []) s.approvals }, fingerprint key)

  -- ArtifactApprovalSigningBytesV2 of the sealer
  unfoldable pub approval_bytes_v2 : Sealer → Text → Text → Text → Result SealerError Text
  approval_bytes_v2 s pid role key = do
    reject_if (not (eqb (length key) 32)) (key_size (length key))
    reject_if (is_empty role) empty_role
    m ← or_fail (artifact_meta_by_proposal pid s.entries) (no_artifact pid)
    reject_if (is_empty m.nonce) (no_nonce pid)
    ok (artifact_signing_bytes_v2 pid m.artifact_hash (fingerprint key) m.nonce role)

  -- AddArtifactApprovalV2
  unfoldable pub add_artifact_approval_v2 :
      Sealer → Text → Text → Text → Text → Result SealerError (Sealer × Text)
  add_artifact_approval_v2 s pid role key sig = do
    preimage ← approval_bytes_v2 s pid role key
    reject_if (not (lib.ed25519_verify key preimage sig)) bad_approval
    ok (record s { approvals = file_proof pid (proof key sig role) s.approvals }, fingerprint key)

  -- Count
  unfoldable pub count : Sealer → ℕ
  count s = length s.sigs

  -- Finalize; `now` is the current time in RFC 3339.
  unfoldable pub finalize : Sealer → Text → Result SealerError SealedRecord
  finalize s now = do
    reject_if (eqb (length s.sigs) 0) no_cosignatures
    ok (
        new_sealed_record now s.room s.sealed_by s.entries s.head s.sigs s.keys s.endorsements
          s.approvals)
