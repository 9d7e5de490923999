-- ===== src/Record/Sealed/Verify/Sound.antt =====
-- Verify against an independent description of a sound record.
use netherchat.Base.{
  empty_of_length, ℕ, suc, ◌≡◌, ◌≢◌, refl, sym, ◌∙◌, ap, subst, ◌⊎◌, inl, inr, ◌↔◌, true, false,
  some, List, [], ◌∷◌, Text, less, ==_iff, ==_refl, eqb, length, All, Option-cases, Result-cases,
  Bool-cases, Result, ok, err, arith,
}
use netherchat.Base.Dict.{Dict, get, keys}
use netherchat.Base.Sort.{sort_strings, All-sort, sort-All}
use netherchat.Record.Library.{Library, fingerprint}
use netherchat.Record.Entry.{Entry, EntryError, hash, verify_entry}
use netherchat.Record.Entry.Authentic.{verify_entry_iff}
use netherchat.Record.Chain.{zero_hash, head_of}
use netherchat.Record.Chain.Linked.{IsLinked, head_from, head_of-eq}
use netherchat.Record.Sealed.{SealedRecord, format_version, format_version_v2}
use netherchat.Record.Sealed.Approvals.{Approvers, verify_artifact_approvals}
use netherchat.Record.Sealed.Verify.{
  VerifyResult, init, wrap, walk, seal_preimage, check_seal, check_seals, verify, verify_head,
  verify_seals, verify_approvals,
}

wrap_iff : (r : Result EntryError (Unit {0})) → (wrap r ≡ ok tt) ↔ (r ≡ ok tt)
wrap_iff (ok u) = ground arith
wrap_iff (err e) = ground arith

module _ ⦃lib : Library⦄ where
  walk-ok :
      (i : ℕ) (prev h : Text) (es : List Entry)
      → walk i prev es ≡ ok h
      → IsLinked i prev es × (h ≡ head_from prev es)
  unfolding walk
  walk-ok i prev h [] w = (tt, ground arith)
  walk-ok i prev h (e ∷ es) w =
      let (l, q) = walk-ok (suc i) (hash e) h es (ground arith) in
      (
        (
          record {
            seq = ground arith;
            link = ground (arith, ==_iff e.prev_hash prev);
            authentic = (verify_entry_iff e).0 (ground (arith, wrap_iff (verify_entry e)));
          },
          l,
        ),
        q,
      )

  ok-walk :
      (i : ℕ) (prev : Text) (es : List Entry)
      → IsLinked i prev es
      → walk i prev es ≡ ok (head_from prev es)
  unfolding walk
  ok-walk i prev [] l = refl
  ok-walk i prev (e ∷ es) l = ground (
    arith,
    l.0.seq,
    l.0.link,
    ==_iff e.prev_hash prev,
    (verify_entry_iff e).1 l.0.authentic,
    ok-walk (suc i) (hash e) es l.1,
  )

  -- The signer `fpr` has a key of 32 bytes in the record, the key hashes to `fpr`, and it signed the
  -- preimage of the head `prev` that the signer's endorsement, or its absence, chooses.
  pub record IsCosigner (r : SealedRecord) (prev fpr : Text) : Type 0 where
    pub sig64 : Text
    pub key64 : Text
    pub key : Text
    pub sig : Text
    pub has_sig : get fpr r.signatures ≡ some sig64
    pub has_key : get fpr r.signer_keys ≡ some key64
    pub key_bytes : lib.base64_decode key64 ≡ some key
    pub key_size : length key ≡ 32
    pub key_id : fingerprint key ≡ fpr
    pub sig_bytes : lib.base64_decode sig64 ≡ some sig
    pub verified : lib.ed25519_verify key (seal_preimage r prev fpr) sig ≡ true

  check_seal-ok :
      (r : SealedRecord) (prev fpr : Text) → check_seal r prev fpr ≡ ok tt → IsCosigner r prev fpr
  unfolding check_seal
  check_seal-ok r prev fpr h = elim (Option-cases (get fpr r.signatures)) [
    | inl n ↦ absurd (ground arith)
    | inr (sig64, p₁) ↦ elim (Option-cases (get fpr r.signer_keys)) [
      | inl n ↦ absurd (ground arith)
      | inr (key64, p₂) ↦ elim (Option-cases (lib.base64_decode key64)) [
        | inl n ↦ absurd (ground arith)
        | inr (key, p₃) ↦ elim (Option-cases (lib.base64_decode sig64)) [
          | inl n ↦ absurd (ground arith)
          | inr (sig, p₄) ↦ record {
            sig64 = sig64;
            key64 = key64;
            key = key;
            sig = sig;
            has_sig = p₁;
            has_key = p₂;
            key_bytes = p₃;
            key_size = ground arith;
            key_id = ground (arith, ==_iff (fingerprint key) fpr);
            sig_bytes = p₄;
            verified = ground arith;
          }
        ]
      ]
    ]
  ]

  ok-check_seal :
      (r : SealedRecord) (prev fpr : Text) → IsCosigner r prev fpr → check_seal r prev fpr ≡ ok tt
  unfolding check_seal
  ok-check_seal r prev fpr c = ground (arith, ==_iff (fingerprint c.key) fpr)

  check_seals-ok :
      (r : SealedRecord) (prev : Text) (fprs signers : List Text)
      → check_seals r prev fprs ≡ ok signers
      → All (IsCosigner r prev) fprs
  unfolding check_seals
  check_seals-ok r prev [] signers h = tt
  check_seals-ok r prev (fpr ∷ fprs) signers h = elim (Result-cases (check_seals r prev fprs)) [
    | inr (e, q) ↦ absurd (ground arith)
    | inl (l, q) ↦ (check_seal-ok r prev fpr (ground arith), check_seals-ok r prev fprs l q)
  ]

  ok-check_seals :
      (r : SealedRecord) (prev : Text) (fprs : List Text)
      → All (IsCosigner r prev) fprs
      → check_seals r prev fprs ≡ ok fprs
  unfolding check_seals
  ok-check_seals r prev [] h = refl
  ok-check_seals r prev (fpr ∷ fprs) h =
      ground (arith, ok-check_seal r prev fpr h.0, ok-check_seals r prev fprs h.1)

  -- A sound record: a known version, a linked chain, the head that the chain has, at least one
  -- signature, every signature by a cosigner, and approval proofs that all check, if it has any.
  pub record IsSound (r : SealedRecord) : Type 0 where
    pub version : (r.version ≡ format_version) ⊎ (r.version ≡ format_version_v2)
    pub linked : IsLinked 0 zero_hash r.entries
    pub head : lib.hex_decode r.head_hash ≡ some (head_of r.entries)
    pub signed : r.signatures ≢ []
    pub cosigned : All (IsCosigner r (head_of r.entries)) (keys r.signatures)
    pub approvals :
        (r.artifact_approvals ≡ [])
        ⊎ ((a : Approvers) × (verify_artifact_approvals r.entries r.artifact_approvals ≡ ok a))

  approvals-ok :
      (r : SealedRecord) (res : VerifyResult)
      → res.valid ≡ false
      → (verify_approvals r res).0.valid ≡ true
      → (r.artifact_approvals ≡ [])
        ⊎ ((a : Approvers) × (verify_artifact_approvals r.entries r.artifact_approvals ≡ ok a))
  unfolding verify_approvals
  approvals-ok r res v h = elim (Bool-cases (eqb (length r.artifact_approvals) 0)) [
    | inl z ↦ inl (empty_of_length r.artifact_approvals z)
    | inr n ↦ elim (Result-cases (verify_artifact_approvals r.entries r.artifact_approvals)) [
      | inl (a, q) ↦ inr (a, q)
      | inr (e, q) ↦ absurd (ground arith)
    ]
  ]

  ok-approvals :
      (r : SealedRecord) (res : VerifyResult)
      → (r.artifact_approvals ≡ [])
        ⊎ ((a : Approvers) × (verify_artifact_approvals r.entries r.artifact_approvals ≡ ok a))
      → (verify_approvals r res).0.valid ≡ true
  unfolding verify_approvals
  ok-approvals r res (inl e) = rw e
  ok-approvals r res (inr (a, q)) = ground arith

  seals-ok :
      (r : SealedRecord) (res : VerifyResult) (prev : Text)
      → res.valid ≡ false
      → (verify_seals r res prev).0.valid ≡ true
      → (r.signatures ≢ [])
        × All (IsCosigner r prev) (keys r.signatures)
        × ((r.artifact_approvals ≡ [])
            ⊎ ((a : Approvers) × (verify_artifact_approvals r.entries r.artifact_approvals ≡ ok a)))
  unfolding verify_seals
  seals-ok r res prev v h = elim (Bool-cases (eqb (length r.signatures) 0)) [
    | inl z ↦ absurd (ground arith)
    | inr n ↦ elim (Result-cases (check_seals r prev (sort_strings (keys r.signatures)))) [
      | inr (e, q) ↦ absurd (ground arith)
      | inl (signers, q) ↦ (
        (λ e. cc (sym n ∙ ap (λ (m : Dict Text). eqb (length m) 0) e)),
        sort-All less (IsCosigner r prev) (keys r.signatures)
            (check_seals-ok r prev (sort_strings (keys r.signatures)) signers q),
        approvals-ok r (record res { signers = sort_strings signers }) v (ground arith),
      )
    ]
  ]

  ok-seals :
      (r : SealedRecord) (res : VerifyResult)
      → IsSound r
      → (verify_seals r res (head_of r.entries)).0.valid ≡ true
  unfolding verify_seals
  ok-seals r res s = ground (
    arith,
    ok-check_seals r (head_of r.entries) (sort_strings (keys r.signatures))
        (All-sort less (IsCosigner r (head_of r.entries)) (keys r.signatures) s.cosigned),
    ok-approvals r (record res { signers = sort_strings (sort_strings (keys r.signatures)) })
        s.approvals,
  )

  sound : (r : SealedRecord) → (verify r).0.valid ≡ true → IsSound r
  unfolding verify verify_head
  sound r h = elim (Result-cases (walk 0 zero_hash r.entries)) [
    | inr (e, q) ↦ absurd (ground arith)
    | inl (prev, q) ↦ elim (Option-cases (lib.hex_decode r.head_hash)) [
      | inl n ↦ absurd (ground arith)
      | inr (stored, p) ↦
          build prev stored q p
            (ground (arith, ==_iff r.version format_version, ==_iff r.version format_version_v2))
            (ground (arith, ==_iff stored prev)) (ground arith)
    ]
  ]
    where
      build :
          (prev stored : Text)
          → walk 0 zero_hash r.entries ≡ ok prev
          → lib.hex_decode r.head_hash ≡ some stored
          → (r.version ≡ format_version) ⊎ (r.version ≡ format_version_v2)
          → stored ≡ prev
          → (verify_seals r (record (init r) { head_hash = lib.hex_encode prev }) prev).0.valid
            ≡ true
          → IsSound r
      build prev stored q p v e k =
          let (l, w) = walk-ok 0 zero_hash prev r.entries q in
          let a : prev ≡ head_of r.entries = w ∙ sym (head_of-eq r.entries) in
          let (b, c, d) =
            seals-ok r (record (init r) { head_hash = lib.hex_encode prev }) prev refl k in
          record {
            version = v;
            linked = l;
            head = p ∙ ap some (e ∙ a);
            signed = b;
            cosigned = subst (λ h. All (IsCosigner r h) (keys r.signatures)) a c;
            approvals = d;
          }

  complete : (r : SealedRecord) → IsSound r → (verify r).0.valid ≡ true
  unfolding verify verify_head
  complete r s =
      let w : walk 0 zero_hash r.entries ≡ ok (head_of r.entries) =
        ok-walk 0 zero_hash r.entries s.linked ∙ ap ok (sym (head_of-eq r.entries)) in
      ground (
        arith,
        w,
        s.head,
        ==_iff r.version format_version,
        ==_iff r.version format_version_v2,
        ==_refl (head_of r.entries),
        ok-seals r (record (init r) { head_hash = lib.hex_encode (head_of r.entries) }) s,
      )

  -- Verify calls a record valid exactly if it is sound.
  pub verify_iff : (r : SealedRecord) → ((verify r).0.valid ≡ true) ↔ IsSound r
  verify_iff r = (sound r, complete r)
