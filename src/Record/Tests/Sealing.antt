-- ===== src/Record/Tests/Sealing.antt =====
-- Sealing and verification at concrete inputs.
use netherchat.Base.{
  ◌≡◌, refl, ◌↔◌, true, false, none, some, List, [], ◌∷◌, ◌++◌, Text, codes, replicate, ok, ◌==◌,
  less,
}
use netherchat.Base.Dict.{Dict, get, put, keys}
use netherchat.Base.Sort.{sort_strings, sort_by}
use netherchat.Record.Library.{fingerprint}
use netherchat.Record.Entry.{Entry, kind_artifact, hash, extended, canonical}
use netherchat.Record.Chain.{draft, head, head_of}
use netherchat.Record.Sealed.{Endorsement, ApprovalProof, SealedRecord, new_sealed_record}
use netherchat.Record.Sealed.Approvals.{
  Approvers, approval_preimage, verify_artifact_approvals, artifact_of, index_artifacts,
  check_proof, check_proofs, check_proposal, check_proposals, without_parties, dedup,
  dedup_approver_roles,
}
use netherchat.Record.Sealed.Approvals.SecondLaw.{IsEvidence, verify_artifact_approvals-IsEvidence}
use netherchat.Record.Sealed.Verify.{verify}
use netherchat.Record.Sealed.Verify.Sound.{IsSound, verify_iff}
use netherchat.Record.Sealer.{
  Sealer, new_sealer, add_verified, add_cosignature, add_endorsement, cosign_bytes, endorse_bytes,
  finalize,
}
use netherchat.Record.Sealer.Session.{Call, cosign, endorse, run, session-verify}
use netherchat.Record.Sealer.Downgrade.{downgrade_rejected}
use netherchat.Record.Tests.{toy, no_meta, alice_key, first, first-IsLinked}
use netherchat.Protocol.{
  artifact_signing_bytes_v2, record_signing_bytes, seal_signing_bytes, seal_signing_bytes_v2,
}
use netherchat.Protocol.Fields.{be64, field}

abbrev bob_key : Text
bob_key = replicate 32 9

abbrev plan_entry : Entry
plan_entry = record first { kind = kind_artifact; body = codes "plan" }

abbrev bob_proof : ApprovalProof
bob_proof = record {
  approver_fpr = bob_key;
  approver_key = bob_key;
  sig =
      bob_key
      ++ approval_preimage (codes "p1") no_meta (record {
        approver_fpr = bob_key;
        approver_key = bob_key;
        sig = [];
        role = codes "security";
      });
  role = codes "security";
}

abbrev approvals : Dict (List ApprovalProof)
approvals = (codes "p1", bob_proof ∷ []) ∷ []

abbrev approvers : Approvers
approvers = record {
  approvers = (codes "p1", bob_key ∷ []) ∷ [];
  roles = (codes "p1", record { fingerprint = bob_key; role = codes "security" } ∷ []) ∷ [];
}

approved : verify_artifact_approvals (plan_entry ∷ []) approvals ≡ ok approvers
unfolding verify_artifact_approvals artifact_of index_artifacts check_proof check_proofs
    check_proposal check_proposals without_parties dedup dedup_approver_roles approval_preimage
    fingerprint get put keys sort_strings sort_by ◌==◌ less artifact_signing_bytes_v2 field be64
    draft
approved = refl

verify_artifact_approvals-IsEvidence_example : IsEvidence (plan_entry ∷ []) approvals approvers
verify_artifact_approvals-IsEvidence_example =
    verify_artifact_approvals-IsEvidence (plan_entry ∷ []) approvals approvers approved

abbrev opened : Sealer
opened = new_sealer (codes "ops") alice_key (first ∷ [])

abbrev alice_cosigns : Call
alice_cosigns = cosign alice_key (alice_key ++ cosign_bytes opened)

abbrev approval : Endorsement
approval = record { meaning = codes "reviewed"; name = codes "alice"; signed_at = codes "noon" }

abbrev bob_endorses : Call
bob_endorses = endorse bob_key (bob_key ++ endorse_bytes opened approval) approval

abbrev calls : List Call
calls = alice_cosigns ∷ bob_endorses ∷ []

abbrev collected : Sealer
collected = run opened calls

abbrev minutes : SealedRecord
minutes =
    new_sealed_record (codes "noon") collected.room collected.sealed_by collected.entries
      collected.head collected.sigs collected.keys collected.endorsements collected.approvals

finalized : finalize collected (codes "noon") ≡ ok minutes
unfolding finalize add_cosignature add_endorsement add_verified fingerprint new_sealer get put ◌==◌
    seal_signing_bytes_v2 field be64 seal_signing_bytes head_of hash canonical extended draft
    record_signing_bytes head
finalized = refl

nobody_endorsed : get (fingerprint alice_key) opened.endorsements ≡ none
unfolding new_sealer get
nobody_endorsed = refl

session-verify_example : (verify minutes).0.valid ≡ true
session-verify_example =
    session-verify (codes "ops") alice_key (codes "noon") (first ∷ []) calls minutes first-IsLinked
      (nobody_endorsed, tt) finalized

verify_iff_example : ((verify minutes).0.valid ≡ true) ↔ IsSound minutes
verify_iff_example = verify_iff minutes

abbrev endorsed : Sealer
endorsed = record opened {
  sigs = (alice_key, alice_key ++ endorse_bytes opened approval) ∷ [];
  keys = (alice_key, alice_key) ∷ [];
  endorsements = (alice_key, approval) ∷ [];
}

abbrev downgraded : Sealer
downgraded = record endorsed { sigs = (alice_key, alice_key ++ cosign_bytes opened) ∷ [] }

abbrev spoiled : SealedRecord
spoiled =
    new_sealed_record (codes "noon") downgraded.room downgraded.sealed_by downgraded.entries
      downgraded.head downgraded.sigs downgraded.keys downgraded.endorsements downgraded.approvals

endorsed_alice : get (fingerprint alice_key) endorsed.endorsements ≡ some approval
unfolding get fingerprint ◌==◌
endorsed_alice = refl

cosigned_again :
    add_cosignature endorsed alice_key (alice_key ++ cosign_bytes opened)
    ≡ ok (downgraded, alice_key)
unfolding add_cosignature add_verified fingerprint put ◌==◌ seal_signing_bytes field be64 new_sealer
    head_of hash canonical extended draft record_signing_bytes head
cosigned_again = refl

not_over_endorsement :
    toy.ed25519_verify alice_key
      (endorse_bytes endorsed approval)
      (alice_key ++ cosign_bytes opened)
    ≡ false
unfolding ◌==◌ seal_signing_bytes field be64 seal_signing_bytes_v2
not_over_endorsement = refl

finalized_again : finalize downgraded (codes "noon") ≡ ok spoiled
unfolding finalize
finalized_again = refl

downgrade_rejected_example : (verify spoiled).0.valid ≡ false
downgrade_rejected_example =
    downgrade_rejected endorsed downgraded alice_key (alice_key ++ cosign_bytes opened) alice_key
      (codes "noon") approval spoiled endorsed_alice cosigned_again not_over_endorsement
      finalized_again
