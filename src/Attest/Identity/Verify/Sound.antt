-- ===== src/Attest/Identity/Verify/Sound.antt =====
-- VerifyIdentity against a description of a binding that holds at an instant.
use netherchat.Base.{
  ◌≡◌, ◌↔◌, inl, inr, Bool, true, false, some, Text, length, All, Any, Bool-cases, Result-cases,
  Result, ok, err, arith,
}
use netherchat.Base.Int.{ℤ, ltb_ℤ, eqb_ℤ}
use netherchat.Base.Dict.{get}
use netherchat.Record.Library.{Library}
use netherchat.Attest.Formats.{Formats}
use netherchat.Attest.Pinned.{check_signatures, check_key_sizes}
use netherchat.Attest.Pinned.Anchored.{IsAnchor, check_signatures_iff, check_key_sizes_iff}
use netherchat.Attest.Identity.{Attestation, Options, IdentityResult, signing_bytes}
use netherchat.Attest.Identity.Structure.{check_structure}
use netherchat.Attest.Identity.Structure.Shape.{
  IsShaped, check_structure_sound, check_structure_complete,
}
use netherchat.Attest.Identity.Verify.{
  IdentityError, anchored, check_instant, judge, verify_identity,
}
use netherchat.Attest.Identity.Verify.Withdrawn.{IsClear, conclude_iff}

-- The call is usable and the attestation is valid.
abbrev pub is_valid : Result IdentityError IdentityResult → Bool
is_valid (err e) = false
is_valid (ok res) = res.valid

module _ ⦃lib : Library⦄ ⦃formats : Formats⦄ where
  -- The attestation holds at the instant of `opts`.
  pub record IsIdentity (a : Attestation) (opts : Options) : Type 0 where
    pub not_before : ℤ
    pub not_after : ℤ
    pub shaped : IsShaped a not_before not_after
    pub signed : (sig : Text) × (get a.issuer a.signatures ≡ some sig)
    pub anchored : Any (IsAnchor a.signatures a.signer_keys (signing_bytes a)) opts.issuer_keys
    pub opened : ltb_ℤ opts.at not_before ≡ false
    pub open_still : ltb_ℤ not_after opts.at ≡ false
    pub clear : All (IsClear a opts) opts.revocations

  module _ (a : Attestation) (opts : Options)
      (sizes : All (λ k. length k ≡ 32) opts.issuer_keys) where
    judge_sound : (judge a opts).valid ≡ true → IsIdentity a opts
    unfolding judge check_instant
    judge_sound v = elim (Result-cases (check_structure a)) [
      | inr (f, p) ↦ absurd (ground arith)
      | inl ((nb, na), p) ↦
          elim (Result-cases (
            check_signatures a.signatures a.signer_keys a.issuer (signing_bytes a)
              opts.issuer_keys)) [
                | inr (f, q) ↦ absurd (ground arith)
                | inl (out, q) ↦
                    let (s, k) =
                      (check_signatures_iff a.signatures a.signer_keys (signing_bytes a) a.issuer
                          opts.issuer_keys).0
                        (out, q) in
                    record {
                      not_before = nb;
                      not_after = na;
                      shaped = check_structure_sound a nb na p;
                      signed = s;
                      anchored = k;
                      opened = ground arith;
                      open_still = ground arith;
                      clear =
                          (conclude_iff a opts sizes (anchored a opts out.0 out.1)).0
                            (ground arith);
                    }
              ]
    ]

    judge_complete : IsIdentity a opts → (judge a opts).valid ≡ true
    unfolding judge check_instant
    judge_complete i =
        let (out, q) =
          (check_signatures_iff a.signatures a.signer_keys (signing_bytes a) a.issuer
              opts.issuer_keys).1
            (i.signed, i.anchored) in
        let p = check_structure_complete a i.not_before i.not_after i.shaped in
        let c = (conclude_iff a opts sizes (anchored a opts out.0 out.1)).1 i.clear in
        ground (arith, i.opened, i.open_still)

  -- VerifyIdentity calls an attestation valid exactly if every pinned key has 32 bytes, the instant is
  -- not the zero time, and the attestation holds: its fields are well formed, the named issuer has a
  -- signature, some pinned key verifies its own over the whole attestation, the instant lies in the
  -- window, both ends included, and every supplied revocation statement is one that some pinned key
  -- stands behind and, if it is the same issuer's, does not list the serial.
  pub verify_identity_iff :
      (a : Attestation) (opts : Options)
      → (is_valid (verify_identity (some a) opts) ≡ true) ↔ (
          All (λ k. length k ≡ 32) opts.issuer_keys
          × (eqb_ℤ opts.at formats.zero_time ≡ false)
          × IsIdentity a opts)
  unfolding verify_identity
  verify_identity_iff a opts = elim (Result-cases (check_key_sizes 0 opts.issuer_keys)) [
    | inl (u, q) ↦
        let sizes = (check_key_sizes_iff 0 opts.issuer_keys).0 q in
        elim (Bool-cases (eqb_ℤ opts.at formats.zero_time)) [
          | inl z ↦ ((λ v. absurd (ground arith)), (λ (s, n, i). absurd (ground arith)))
          | inr z ↦ (
            (λ v. (sizes, z, judge_sound a opts sizes (ground arith))),
            (λ (s, n, i). ground (arith, judge_complete a opts sizes i)),
          )
        ]
    | inr (e, q) ↦ (
      (λ v. absurd (ground arith)),
      (λ (s, n, i). absurd (ground (arith, (check_key_sizes_iff 0 opts.issuer_keys).1 s))),
    )
  ]
