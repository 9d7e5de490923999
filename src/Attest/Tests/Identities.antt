-- ===== src/Attest/Tests/Identities.antt =====
-- VerifyIdentity and VerifyRevocation at concrete inputs.
use netherchat.Base.{
  ◌≡◌, refl, ◌↔◌, ◌⊎◌, inl, inr, true, false, some, List, [], ◌∷◌, ◌++◌, Text, codes, ==_refl,
  length, ◌==◌, All, Any, replicate, ok, err,
}
use netherchat.Base.Int.{pos, eqb_ℤ}
use netherchat.Base.Dict.{get}
use netherchat.Record.Library.{fingerprint}
use netherchat.Attest.Tests.{toy, formats, key, key_fpr}
use netherchat.Attest.Signers.{b64_map}
use netherchat.Attest.Reasons.{Reason, Class, Detail}
use netherchat.Attest.Pinned.{
  fault, check_keys, check_key, check_embedded, check_signatures, anchor, no_anchor,
  check_key_sizes, is_fingerprint,
}
use netherchat.Attest.Pinned.Refuted.{IsRefuted}
use netherchat.Attest.Revocation.{Revocation, verify_revocation, is_valid as is_valid_statement}
use netherchat.Attest.Revocation.Verified.{IsStatement, verify_revocation_iff}
use netherchat.Attest.Identity.{
  Attestation, IdentitySpec, Options, signing_bytes, algorithm_ed25519, new_identity_attestation,
  with_signatures,
}
use netherchat.Base.Sort.{sort_by, insert}
use netherchat.Attest.Identity.Structure.{check_structure}
use netherchat.Attest.Pinned.Dialect.{IsFingerprint, is_fingerprint_iff}
use netherchat.Attest.Identity.Structure.Shape.{IsShaped, check_structure_complete}
use netherchat.Attest.Identity.Verify.{verify_identity, judge}
use netherchat.Attest.Identity.Verify.Sound.{IsIdentity, is_valid, verify_identity_iff}
use netherchat.Attest.Identity.Verify.Order.{verify_identity-order}
use netherchat.Attest.Identity.Verify.Issued.{
  IsIssuable, sort_strings-IsRoles, verify_identity-with_signatures,
}
use netherchat.Attest.Identity.Verify.Classes.{IsUnsound, verify_identity-forged}

abbrev spec : IdentitySpec
spec = record {
  serial = codes "s1";
  subject = key_fpr;
  principal = codes "rosa@example.org";
  display_name = [];
  principal_type = codes "person";
  roles = codes "dev-lead" ∷ codes "dev" ∷ [];
  expires_at = codes "much later";
  algorithm = algorithm_ed25519;
  issuer = key_fpr;
}

abbrev now : Text
now = codes "now"

-- Another pinned key.
abbrev other_key : Text
other_key = replicate 32 9

abbrev identity : Attestation
identity =
    with_signatures (new_identity_attestation now spec [] [])
      ((key_fpr, key ++ signing_bytes (new_identity_attestation now spec [] [])) ∷ [])
      ((key_fpr, key) ∷ [])

abbrev at : List Text → Options
at pins = record { issuer_keys = pins; at = pos 5; revocations = [] }

verify_identity_iff_example :
    (is_valid (verify_identity (some identity) (at (key ∷ []))) ≡ true) ↔ (
      All (λ k. length k ≡ 32) (key ∷ [])
      × (eqb_ℤ (pos 5) formats.zero_time ≡ false)
      × IsIdentity identity (at (key ∷ [])))
verify_identity_iff_example = verify_identity_iff identity (at (key ∷ []))

verify_identity-order_example :
    is_valid (verify_identity (some identity) (at (key ∷ other_key ∷ [])))
    ≡ is_valid (verify_identity (some identity) (at (other_key ∷ key ∷ [])))
verify_identity-order_example =
    verify_identity-order identity (at (key ∷ other_key ∷ [])) (at (other_key ∷ key ∷ [])) refl
      (inr (inl refl), (inl refl, tt)) (inr (inl refl), (inl refl, tt)) tt tt

key_fpr-is_fingerprint : is_fingerprint key_fpr ≡ true
unfolding is_fingerprint ◌==◌
key_fpr-is_fingerprint = refl

key_fpr-IsFingerprint : IsFingerprint key_fpr
key_fpr-IsFingerprint = (is_fingerprint_iff key_fpr).0 key_fpr-is_fingerprint

spec-IsIssuable : IsIssuable now spec key (pos 3) (pos 10)
unfolding fingerprint
spec-IsIssuable = record {
  algorithm = refl;
  serial = λ e. cc e;
  subject = key_fpr-IsFingerprint;
  principal = λ e. cc e;
  principal_type = λ e. cc e;
  roles = ((λ e. cc e), ((λ e. cc e), ((λ e. cc e), tt)), (((λ e. cc e), tt), (tt, tt)));
  issuer = key_fpr-IsFingerprint;
  key_id = refl;
  key_size = refl;
  opens = refl;
  closes = refl;
  ordered = refl;
}

verify_identity-with_signatures_example :
    is_valid (verify_identity (some identity) (at (other_key ∷ key ∷ []))) ≡ true
verify_identity-with_signatures_example =
    verify_identity-with_signatures now spec key
      (key ++ signing_bytes (new_identity_attestation now spec [] [])) (pos 3) (pos 10)
      (other_key ∷ key ∷ []) (pos 5) spec-IsIssuable
      (==_refl (key ++ signing_bytes (new_identity_attestation now spec [] []))) (refl, (refl, tt))
      (inr (inl refl)) refl refl refl

abbrev revocation : Revocation
revocation = record {
  version = codes "v1";
  issuer = key_fpr;
  statement_id = codes "r1";
  number = 1;
  issued_at = now;
  next_update = [];
  revoked = record { serial = codes "s9"; revoked_at = now; reason = [] } ∷ [];
  signatures = (key_fpr, codes "bad") ∷ [];
  signer_keys = [];
}

verify_revocation_iff_example :
    (is_valid_statement (verify_revocation (some revocation) (key ∷ [])) ≡ true)
    ↔ (All (λ k. length k ≡ 32) (key ∷ []) × IsStatement (key ∷ []) revocation)
verify_revocation_iff_example = verify_revocation_iff (key ∷ []) revocation

abbrev forgery : Attestation
forgery = record identity { signatures = (key_fpr, codes "bad") ∷ [] }

forgery-judged : verify_identity (some forgery) (at (key ∷ [])) ≡ ok (judge forgery (at (key ∷ [])))
unfolding verify_identity check_key_sizes
forgery-judged = refl

forgery-IsShaped : IsShaped forgery (pos 3) (pos 10)
unfolding with_signatures new_identity_attestation
forgery-IsShaped = record {
  version = refl;
  algorithm = refl;
  serial = λ e. cc e;
  subject = key_fpr-IsFingerprint;
  principal = λ e. cc e;
  principal_type = λ e. cc e;
  roles = sort_strings-IsRoles spec.roles spec-IsIssuable.roles;
  issuer = key_fpr-IsFingerprint;
  opens = refl;
  closes = refl;
  ordered = refl;
}

forgery-structure : check_structure forgery ≡ ok (pos 3, pos 10)
forgery-structure = check_structure_complete forgery (pos 3) (pos 10) forgery-IsShaped

forgery-refused :
    check_signatures forgery.signatures forgery.signer_keys forgery.issuer
      (signing_bytes forgery)
      (key ∷ [])
    ≡ err (
        fault Reason.signature_invalid
          (Detail.key_failures (record { fpr = key_fpr; reason = Reason.signature_invalid } ∷ [])))
unfolding check_keys check_key check_embedded check_signatures anchor no_anchor get fingerprint ◌==◌
    sort_by insert with_signatures b64_map new_identity_attestation
forgery-refused = refl

forgery-forged : (judge forgery (at (key ∷ []))).reason_class ≡ some Class.forged
unfolding judge
forgery-forged = rw (judge, forgery-structure, forgery-refused) refl

verify_identity-forged_example :
    Any (IsRefuted forgery.signatures (signing_bytes forgery)) (key ∷ [])
    ⊎ Any (IsUnsound (key ∷ [])) []
verify_identity-forged_example =
    verify_identity-forged forgery (at (key ∷ [])) (judge forgery (at (key ∷ []))) forgery-judged
      forgery-forged
