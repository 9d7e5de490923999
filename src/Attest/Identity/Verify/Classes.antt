-- ===== src/Attest/Identity/Verify/Classes.antt =====
-- What the reason of VerifyIdentity's verdict says.
use netherchat.Base.{
  ◌≡◌, refl, sym, subst, ◌∙◌, ◌⊎◌, inl, inr, true, false, Option, none, some, List, [], ◌∷◌, Text,
  is_empty, length, eqb, Any, Bool-cases, Result-cases, ok, err, arith,
}
use netherchat.Base.Int.{ℤ}
use netherchat.Record.Library.{Library}
use netherchat.Attest.Formats.{Formats}
use netherchat.Attest.Reasons.{Reason, Class, class_of, Fault, Detail}
use netherchat.Attest.Pinned.{check_signatures}
use netherchat.Attest.Pinned.Refuted.{IsRefuted, IsHarmless, check_signatures-IsRefuted}
use netherchat.Attest.Revocation.{Revocation, verify_revocation, is_valid as is_valid_statement}
use netherchat.Attest.Identity.{Attestation, Options, IdentityResult, signing_bytes}
use netherchat.Attest.Identity.Structure.{check_roles, check_fields, check_window, check_structure}
use netherchat.Attest.Identity.Verify.{
  Checks, no_checks, init, fail, anchored, check_instant, check_revocation, check_revocations,
  conclude, judge, verify_identity,
}

-- The reason and its class are empty exactly if the result is valid.
abbrev pub IsReasoned : IdentityResult → Type 0
IsReasoned res =
    ((res.valid ≡ true) × (res.reason ≡ none) × (res.reason_class ≡ none))
    ⊎ ((why : Reason) × (res.valid ≡ false)
        × (res.reason ≡ some why)
        × (res.reason_class ≡ some (class_of why)))

module _ ⦃lib : Library⦄ ⦃formats : Formats⦄ where
  -- A supplied statement that VerifyRevocation does not call valid.
  abbrev pub IsUnsound : List Text → Option Revocation → Type 0
  IsUnsound keys none = ⊥
  IsUnsound keys (some s) = is_valid_statement (verify_revocation (some s) keys) ≡ false

  conclude-IsReasoned :
      (a : Attestation) (opts : Options) (res : IdentityResult)
      → res.reason ≡ none
      → res.reason_class ≡ none
      → IsReasoned (conclude a opts res)
  unfolding conclude
  conclude-IsReasoned a opts res r c = elim (Bool-cases (eqb (length opts.revocations) 0)) [
    | inl z ↦ rw z (inl (refl, r, c))
    | inr n ↦
        let st = check_revocations a opts no_checks opts.revocations in
        elim (Bool-cases (is_empty st.unverifiable)) [
          | inr u ↦ rw (n, u) (inr (_, refl, refl, refl))
          | inl u ↦ elim (Bool-cases (is_empty st.revoked_by)) [
            | inr w ↦ rw (n, u, w) (inr (_, refl, refl, refl))
            | inl w ↦ rw (n, u, w) (inl (refl, r, c))
          ]
        ]
  ]

  module _ (a : Attestation) (opts : Options) where
    -- The four ways in which the steps end.
    judge-cases :
        (P : IdentityResult → Type 0)
        → ((f : Fault) → check_structure a ≡ err f → P (fail (init a opts) f))
        → ((f : Fault)
            → check_signatures a.signatures a.signer_keys a.issuer
                (signing_bytes a)
                opts.issuer_keys
              ≡ err f
            → P (fail (init a opts) f))
        → ((f : Fault) (window : ℤ × ℤ) (out : List Text × Detail)
            → check_instant a opts window ≡ err f
            → P (fail (anchored a opts out.0 out.1) f))
        → ((out : List Text × Detail) → P (conclude a opts (anchored a opts out.0 out.1)))
        → P (judge a opts)
    unfolding judge
    judge-cases P p₁ p₂ p₃ p₄ = elim (Result-cases (check_structure a)) [
      | inr (f, e) ↦ rw (judge, e) (p₁ f e)
      | inl (window, e) ↦
          elim (Result-cases (
            check_signatures a.signatures a.signer_keys a.issuer (signing_bytes a)
              opts.issuer_keys)) [
                | inr (f, q) ↦ rw (judge, e, q) (p₂ f q)
                | inl (out, q) ↦ elim (Result-cases (check_instant a opts window)) [
                  | inr (f, r) ↦ rw (judge, e, q, r) (p₃ f window out r)
                  | inl (u, r) ↦ rw (judge, e, q, r) (p₄ out)
                ]
              ]
    ]

    judge-IsReasoned : IsReasoned (judge a opts)
    judge-IsReasoned =
        judge-cases IsReasoned (λ f e. inr (f.reason, refl, refl, refl))
          (λ f e. inr (f.reason, refl, refl, refl))
          (λ f window out e. inr (f.reason, refl, refl, refl))
          (λ out. conclude-IsReasoned a opts (anchored a opts out.0 out.1) refl refl)

    structure-IsHarmless : (f : Fault) → check_structure a ≡ err f → IsHarmless f.reason
    unfolding check_structure check_fields check_roles check_window
    structure-IsHarmless f h = ground arith

    instant-IsHarmless :
        (window : ℤ × ℤ) (f : Fault) → check_instant a opts window ≡ err f → IsHarmless f.reason
    unfolding check_instant
    instant-IsHarmless (nb, na) f h = ground arith

    accepted-unverifiable :
        (st : Checks) (s : Revocation)
        → is_valid_statement (verify_revocation (some s) opts.issuer_keys) ≡ true
        → (check_revocation a opts st (some s)).unverifiable ≡ st.unverifiable
    unfolding check_revocation
    accepted-unverifiable st s y = ground arith

    unverifiable-IsUnsound :
        (st : Checks) (ss : List (Option Revocation))
        → Any (IsUnsound opts.issuer_keys) ss
          ⊎ ((check_revocations a opts st ss).unverifiable ≡ st.unverifiable)
    unfolding check_revocations check_revocation
    unverifiable-IsUnsound st [] = inr refl
    unverifiable-IsUnsound st (none ∷ ss) = elim (unverifiable-IsUnsound st ss) [
      | inl u ↦ inl (inr u)
      | inr e ↦ inr e
    ]
    unverifiable-IsUnsound st (some s ∷ ss) =
        elim (Bool-cases (is_valid_statement (verify_revocation (some s) opts.issuer_keys))) [
          | inr n ↦ inl (inl n)
          | inl y ↦ elim (unverifiable-IsUnsound (check_revocation a opts st (some s)) ss) [
            | inl u ↦ inl (inr u)
            | inr e ↦ inr (e ∙ accepted-unverifiable st s y)
          ]
        ]

    conclude-forged :
        (res : IdentityResult)
        → res.reason_class ≡ none
        → (conclude a opts res).reason_class ≡ some Class.forged
        → Any (IsUnsound opts.issuer_keys) opts.revocations
    unfolding conclude
    conclude-forged res n h = elim (unverifiable-IsUnsound no_checks opts.revocations) [
      | inl u ↦ u
      | inr e ↦ absurd (ground arith)
    ]

  judged :
      (a : Attestation) (opts : Options) (res : IdentityResult)
      → verify_identity (some a) opts ≡ ok res
      → judge a opts ≡ res
  unfolding verify_identity
  judged a opts res h = ground arith

  -- VerifyIdentity gives a verdict with a reason and a class exactly if the verdict is not valid, and
  -- the class is that of the reason.
  pub verify_identity-IsReasoned :
      (a : Option Attestation) (opts : Options) (res : IdentityResult)
      → verify_identity a opts ≡ ok res
      → IsReasoned res
  unfolding verify_identity
  verify_identity-IsReasoned none opts res h = absurd (ground arith)
  verify_identity-IsReasoned (some a) opts res h =
      subst IsReasoned (judged a opts res h) (judge-IsReasoned a opts)

  -- VerifyIdentity classes a verdict as a forgery only if the attestation names a pinned key with a
  -- signature that the key does not verify, or a supplied revocation statement is not valid.
  pub verify_identity-forged :
      (a : Attestation) (opts : Options) (res : IdentityResult)
      → verify_identity (some a) opts ≡ ok res
      → res.reason_class ≡ some Class.forged
      → Any (IsRefuted a.signatures (signing_bytes a)) opts.issuer_keys
        ⊎ Any (IsUnsound opts.issuer_keys) opts.revocations
  verify_identity-forged a opts res h c =
      judge-cases a opts
        (λ r.
          r.reason_class ≡ some Class.forged
          → Any (IsRefuted a.signatures (signing_bytes a)) opts.issuer_keys
            ⊎ Any (IsUnsound opts.issuer_keys) opts.revocations)
        (λ f e k. absurd (structure-IsHarmless a opts f e (cc k)))
        (λ f e k.
          elim (check_signatures-IsRefuted a.signatures a.signer_keys (signing_bytes a) a.issuer
            opts.issuer_keys f e) [ inl r ↦ inl r | inr g ↦ absurd (g (cc k)) ])
        (λ f window out e k. absurd (instant-IsHarmless a opts window f e (cc k)))
        (λ out k. inr (conclude-forged a opts (anchored a opts out.0 out.1) refl k))
        (subst (λ (r : IdentityResult). r.reason_class ≡ some Class.forged)
          (sym (judged a opts res h)) c)
