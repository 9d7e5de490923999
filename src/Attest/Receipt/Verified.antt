-- ===== src/Attest/Receipt/Verified.antt =====
-- VerifyReceipt against a description of a sound receipt, and NewReceipt before it.
use netherchat.Base.{
  ◌≡◌, ◌≢◌, refl, sym, ◌∙◌, ap, subst, ◌↔◌, inl, inr, true, some, [], Text, ◌==◌, ==_iff, eqb,
  length, empty_of_length, All, Bool-cases, Result-cases, arith,
}
use netherchat.Base.Dict.{Dict, keys}
use netherchat.Base.Sort.{sort_strings}
use netherchat.Protocol.Attest.{receipt_signing_bytes}
use netherchat.Record.Library.{Library}
use netherchat.Attest.Formats.{Formats, Core}
use netherchat.Attest.Signers.{check_signers, sorted_keys}
use netherchat.Attest.Signers.Sound.{
  IsSigner, IsCollected, check_signers_iff, b64_map-IsSigner, b64_map-ne,
}
use netherchat.Attest.Receipt.{
  Receipt, receipt_version, sorted_core, core_hash, new_receipt, verify_signatures, verify_receipt,
}

module _ ⦃lib : Library⦄ ⦃formats : Formats⦄ where
  -- The core as it is hashed, with its members sorted.
  abbrev pub by_member : Core → Core
  by_member c = record c { member_fprs = sort_strings c.member_fprs }

  pub record IsReceipt (r : Receipt) : Type 0 where
    pub version : r.version ≡ receipt_version
    pub zeroized : r.core.keys_zeroized ≡ true
    pub hashed : r.receipt_hash ≡ lib.hex_encode (lib.sha256 (formats.core_json (by_member r.core)))
    pub signed : r.signatures ≢ []
    pub signers :
        All
          (IsSigner r.signatures r.signer_keys
            (receipt_signing_bytes (lib.sha256 (formats.core_json (by_member r.core)))))
          (keys r.signatures)

  signatures-ok :
      (r : Receipt) (h : Text)
      → (verify_signatures r h).0.valid ≡ true
      → (r.signatures ≢ [])
        × All (IsSigner r.signatures r.signer_keys (receipt_signing_bytes h)) (keys r.signatures)
  unfolding verify_signatures
  signatures-ok r h v = elim (Bool-cases (eqb (length r.signatures) 0)) [
    | inl z ↦ absurd (ground arith)
    | inr n ↦
        elim (Result-cases (
          check_signers r.signatures r.signer_keys (receipt_signing_bytes h)
            (sorted_keys r.signatures))) [
              | inr (e, q) ↦ absurd (ground arith)
              | inl (l, q) ↦ (
                (λ e. cc (sym n ∙ ap (λ (m : Dict Text). eqb (length m) 0) e)),
                (check_signers_iff r.signatures r.signer_keys (receipt_signing_bytes h)).0 (l, q),
              )
            ]
  ]

  ok-signatures :
      (r : Receipt) (h : Text)
      → r.signatures ≢ []
      → All (IsSigner r.signatures r.signer_keys (receipt_signing_bytes h)) (keys r.signatures)
      → (verify_signatures r h).0.valid ≡ true
  unfolding verify_signatures
  ok-signatures r h n s = elim (Bool-cases (eqb (length r.signatures) 0)) [
    | inl z ↦ absurd (n (empty_of_length r.signatures z))
    | inr z ↦
        let (l, q) = (check_signers_iff r.signatures r.signer_keys (receipt_signing_bytes h)).1 s in
        ground arith
  ]

  sound : (r : Receipt) → (verify_receipt r).0.valid ≡ true → IsReceipt r
  unfolding verify_receipt core_hash
  sound r v = elim (Bool-cases (lib.hex_encode (core_hash r.core) == r.receipt_hash)) [
    | inr n ↦ absurd (ground arith)
    | inl e ↦
        let q : lib.hex_encode (core_hash r.core) ≡ r.receipt_hash =
          (==_iff _ r.receipt_hash).0 e in
        let d : lib.hex_decode r.receipt_hash ≡ some (core_hash r.core) =
          subst (λ x. lib.hex_decode x ≡ some (core_hash r.core)) q
            (lib.hex_law (core_hash r.core)) in
        let s = signatures-ok r (core_hash r.core) (ground arith) in
        record {
          version = ground (arith, ==_iff r.version receipt_version);
          zeroized = ground arith;
          hashed = sym q;
          signed = s.0;
          signers = s.1;
        }
  ]

  complete : (r : Receipt) → IsReceipt r → (verify_receipt r).0.valid ≡ true
  unfolding verify_receipt core_hash
  complete r i =
      let d : lib.hex_decode r.receipt_hash ≡ some (core_hash r.core) =
        subst (λ x. lib.hex_decode x ≡ some (core_hash r.core)) (sym i.hashed)
          (lib.hex_law (core_hash r.core)) in
      ground (
        arith,
        d,
        i.version,
        i.zeroized,
        i.hashed,
        ==_iff r.version receipt_version,
        ==_iff (lib.hex_encode (core_hash r.core)) r.receipt_hash,
        ok-signatures r (core_hash r.core) i.signed i.signers,
      )

  -- VerifyReceipt calls a receipt valid exactly if its version is known, it says that the keys are
  -- destroyed, its hash is the one of its core, it has a signature, and every signature is by a key
  -- of 32 bytes that hashes to its fingerprint, over that hash.
  pub verify_receipt_iff : (r : Receipt) → ((verify_receipt r).0.valid ≡ true) ↔ IsReceipt r
  verify_receipt_iff r = (sound r, complete r)

  -- A receipt that NewReceipt puts together from at least one collected signature passes
  -- VerifyReceipt, where the core says that the keys are destroyed and each signature is by the key
  -- collected under its fingerprint, over the hash of the core with its members sorted.
  pub verify_receipt-new_receipt :
      (core : Core) (sigs raw_keys : Dict Text)
      → core.keys_zeroized ≡ true
      → sigs ≢ []
      → All
          (IsCollected sigs raw_keys (receipt_signing_bytes (core_hash (sorted_core core))))
          (keys sigs)
      → (verify_receipt (new_receipt core sigs raw_keys)).0.valid ≡ true
  unfolding new_receipt core_hash
  verify_receipt-new_receipt core sigs raw_keys z n h =
      complete (new_receipt core sigs raw_keys) (record {
        version = refl;
        zeroized = z;
        hashed = refl;
        signed = b64_map-ne sigs n;
        signers =
            b64_map-IsSigner sigs raw_keys (receipt_signing_bytes (core_hash (sorted_core core))) h;
      })
