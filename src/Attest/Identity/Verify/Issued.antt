-- ===== src/Attest/Identity/Verify/Issued.antt =====
-- An attestation as an issuer makes it: NewIdentityAttestation, the signature, WithSignatures.
use netherchat.Base.{
  ◌≡◌, ◌≢◌, refl, sym, subst, inl, inr, true, false, some, List, [], ◌∷◌, Text, ==_refl, less,
  length, All, Any, arith,
}
use netherchat.Base.Int.{ℤ, ltb_ℤ, eqb_ℤ}
use netherchat.Base.Dict.{get}
use netherchat.Base.Sort.{sort_strings, sort_by, insert, All-sort, sort-Distinct}
use netherchat.Record.Library.{Library, fingerprint}
use netherchat.Attest.Formats.{Formats}
use netherchat.Attest.Signers.{b64_map}
use netherchat.Attest.Pinned.Dialect.{IsFingerprint}
use netherchat.Attest.Pinned.Anchored.{IsAnchor}
use netherchat.Attest.Identity.{
  Attestation, IdentitySpec, algorithm_ed25519, new_identity_attestation, with_signatures,
  signing_bytes,
}
use netherchat.Attest.Identity.Structure.Shape.{IsRoles, IsShaped}
use netherchat.Attest.Identity.Verify.{verify_identity}
use netherchat.Attest.Identity.Verify.Sound.{is_valid, verify_identity_iff}

sort_strings-ne : (xs : List Text) → xs ≢ [] → sort_strings xs ≢ []
unfolding sort_by insert
sort_strings-ne [] n e = n refl
sort_strings-ne (x ∷ xs) n e = insert-ne (sort_by less xs) e
  where
    insert-ne : (ys : List Text) → insert less x ys ≢ []
    insert-ne [] p = cc p
    insert-ne (y ∷ ys) p = ground arith

pub sort_strings-IsRoles : (rs : List Text) → IsRoles rs → IsRoles (sort_strings rs)
sort_strings-IsRoles rs (n, e, d) =
    (sort_strings-ne rs n, All-sort less (λ r. r ≢ []) rs e, sort-Distinct less rs d)

module _ ⦃lib : Library⦄ ⦃formats : Formats⦄ where
  -- What an issuer with this key decides, between two instants.
  pub record IsIssuable (now : Text) (spec : IdentitySpec) (key : Text) (not_before not_after : ℤ)
      : Type 0 where
    pub algorithm : spec.algorithm ≡ algorithm_ed25519
    pub serial : spec.serial ≢ []
    pub subject : IsFingerprint spec.subject
    pub principal : spec.principal ≢ []
    pub principal_type : spec.principal_type ≢ []
    pub roles : IsRoles spec.roles
    pub issuer : IsFingerprint spec.issuer
    pub key_id : fingerprint key ≡ spec.issuer
    pub key_size : length key ≡ 32
    pub opens : formats.parse_time now ≡ some not_before
    pub closes : formats.parse_time spec.expires_at ≡ some not_after
    pub ordered : ltb_ℤ not_after not_before ≡ false

  module _ (now : Text) (spec : IdentitySpec) (key sig : Text) where
    abbrev unsigned : Attestation
    unsigned = new_identity_attestation now spec [] []

    abbrev signed : Attestation
    signed = with_signatures unsigned ((spec.issuer, sig) ∷ []) ((spec.issuer, key) ∷ [])

    signed-IsShaped : (nb na : ℤ) → IsIssuable now spec key nb na → IsShaped signed nb na
    unfolding with_signatures new_identity_attestation
    signed-IsShaped nb na i = record {
      version = refl;
      algorithm = i.algorithm;
      serial = i.serial;
      subject = i.subject;
      principal = i.principal;
      principal_type = i.principal_type;
      roles = sort_strings-IsRoles spec.roles i.roles;
      issuer = i.issuer;
      opens = i.opens;
      closes = i.closes;
      ordered = i.ordered;
    }

    signed-signing_bytes : signing_bytes signed ≡ signing_bytes unsigned
    unfolding with_signatures signing_bytes
    signed-signing_bytes = refl

    signed-named : (x : Text) × (get signed.issuer signed.signatures ≡ some x)
    unfolding with_signatures new_identity_attestation b64_map get
    signed-named = (lib.base64_encode sig, rw (==_refl spec.issuer) refl)

    signed-IsAnchor :
        (nb na : ℤ)
        → IsIssuable now spec key nb na
        → lib.ed25519_verify key (signing_bytes unsigned) sig ≡ true
        → IsAnchor signed.signatures signed.signer_keys (signing_bytes signed) key
    unfolding with_signatures new_identity_attestation b64_map get
    signed-IsAnchor nb na i v = record {
      sig64 = lib.base64_encode sig;
      sig = sig;
      named = rw (i.key_id, ==_refl spec.issuer) refl;
      consistent =
          rw (i.key_id, ==_refl spec.issuer) (key, lib.base64_law key, i.key_size, i.key_id);
      sig_bytes = lib.base64_law sig;
      verified = rw signed-signing_bytes v;
    }

    -- An attestation that an issuer makes in the two documented steps, a signature over the unsigned
    -- attestation and WithSignatures, is valid for every verifier that pins the issuer's key among
    -- keys of 32 bytes, at every instant of the window but the zero time, where no revocation
    -- statement is supplied.
    pub verify_identity-with_signatures :
        (nb na : ℤ) (pins : List Text) (at : ℤ)
        → IsIssuable now spec key nb na
        → lib.ed25519_verify key (signing_bytes (new_identity_attestation now spec [] [])) sig
          ≡ true
        → All (λ k. length k ≡ 32) pins
        → Any (λ k. k ≡ key) pins
        → eqb_ℤ at formats.zero_time ≡ false
        → ltb_ℤ at nb ≡ false
        → ltb_ℤ na at ≡ false
        → is_valid (
            verify_identity
              (some (
                with_signatures
                  (new_identity_attestation now spec [] [])
                  ((spec.issuer, sig) ∷ [])
                  ((spec.issuer, key) ∷ [])))
              (record { issuer_keys = pins; at = at; revocations = [] }))
          ≡ true
    verify_identity-with_signatures nb na pins at i v sizes m z o c =
        (verify_identity_iff signed (record { issuer_keys = pins; at = at; revocations = [] })).1 (
          sizes,
          z,
          record {
            not_before = nb;
            not_after = na;
            shaped = signed-IsShaped nb na i;
            signed = signed-named;
            anchored = Any-here pins m;
            opened = o;
            open_still = c;
            clear = tt;
          },
        )
      where
        Any-here :
            (ks : List Text)
            → Any (λ k. k ≡ key) ks
            → Any (IsAnchor signed.signatures signed.signer_keys (signing_bytes signed)) ks
        Any-here [] h = absurd h
        Any-here (k ∷ ks) (inl e) = inl (
            subst (IsAnchor signed.signatures signed.signer_keys (signing_bytes signed)) (sym e)
              (signed-IsAnchor nb na i v))
        Any-here (k ∷ ks) (inr h) = inr (Any-here ks h)
