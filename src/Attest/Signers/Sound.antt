-- ===== src/Attest/Signers/Sound.antt =====
-- What the loop over the signatures checks, for every signature.
use netherchat.Base.{
  ◌≡◌, ◌≢◌, refl, ap, ◌↔◌, inl, inr, true, some, List, [], ◌∷◌, Text, ==_iff, less, length, All,
  All-map, Option-cases, Result-cases, ok, arith,
}
use netherchat.Base.Dict.{Dict, get, keys}
use netherchat.Base.Sort.{All-sort, sort-All}
use netherchat.Record.Library.{Library, fingerprint}
use netherchat.Attest.Signers.{check_signer, check_signers, sorted_keys, b64_map}

module _ ⦃lib : Library⦄ where
  -- `fpr` has a key of 32 bytes that hashes to it, and a signature by the key over the preimage.
  pub record IsSigner (signatures signer_keys : Dict Text) (preimage fpr : Text) : Type 0 where
    pub sig64 : Text
    pub key64 : Text
    pub key : Text
    pub sig : Text
    pub has_sig : get fpr signatures ≡ some sig64
    pub has_key : get fpr signer_keys ≡ some key64
    pub key_bytes : lib.base64_decode key64 ≡ some key
    pub key_size : length key ≡ 32
    pub key_id : fingerprint key ≡ fpr
    pub sig_bytes : lib.base64_decode sig64 ≡ some sig
    pub verified : lib.ed25519_verify key preimage sig ≡ true

  module _ (signatures signer_keys : Dict Text) (preimage : Text) where
    check_signer-ok :
        (fpr : Text)
        → check_signer signatures signer_keys preimage fpr ≡ ok tt
        → IsSigner signatures signer_keys preimage fpr
    unfolding check_signer
    check_signer-ok fpr h = elim (Option-cases (get fpr signatures)) [
      | inl n ↦ absurd (ground arith)
      | inr (sig64, p₁) ↦ elim (Option-cases (get fpr signer_keys)) [
        | inl n ↦ absurd (ground arith)
        | inr (key64, p₂) ↦ elim (Option-cases (lib.base64_decode key64)) [
          | inl n ↦ absurd (ground arith)
          | inr (key, p₃) ↦ elim (Option-cases (lib.base64_decode sig64)) [
            | inl n ↦ absurd (ground arith)
            | inr (sig, p₄) ↦ record {
              sig64 = sig64;
              key64 = key64;
              key = key;
              sig = sig;
              has_sig = p₁;
              has_key = p₂;
              key_bytes = p₃;
              key_size = ground arith;
              key_id = ground (arith, ==_iff (fingerprint key) fpr);
              sig_bytes = p₄;
              verified = ground arith;
            }
          ]
        ]
      ]
    ]

    ok-check_signer :
        (fpr : Text)
        → IsSigner signatures signer_keys preimage fpr
        → check_signer signatures signer_keys preimage fpr ≡ ok tt
    unfolding check_signer
    ok-check_signer fpr s = ground (arith, ==_iff (fingerprint s.key) fpr)

    check_signers-ok :
        (fprs signers : List Text)
        → check_signers signatures signer_keys preimage fprs ≡ ok signers
        → All (IsSigner signatures signer_keys preimage) fprs
    unfolding check_signers
    check_signers-ok [] signers h = tt
    check_signers-ok (fpr ∷ fprs) signers h =
        elim (Result-cases (check_signers signatures signer_keys preimage fprs)) [
          | inr (e, q) ↦ absurd (ground arith)
          | inl (l, q) ↦ (check_signer-ok fpr (ground arith), check_signers-ok fprs l q)
        ]

    ok-check_signers :
        (fprs : List Text)
        → All (IsSigner signatures signer_keys preimage) fprs
        → check_signers signatures signer_keys preimage fprs ≡ ok fprs
    unfolding check_signers
    ok-check_signers [] h = refl
    ok-check_signers (fpr ∷ fprs) h =
        ground (arith, ok-check_signer fpr h.0, ok-check_signers fprs h.1)

    -- Every signature on file is by a signer exactly if the loop ends without an error.
    pub check_signers_iff :
        ((signers : List Text) × (check_signers signatures signer_keys preimage
              (sorted_keys signatures)
            ≡ ok signers))
        ↔ All (IsSigner signatures signer_keys preimage) (keys signatures)
    check_signers_iff = (
      (λ (l, q).
          sort-All less (IsSigner signatures signer_keys preimage) (keys signatures)
            (check_signers-ok (sorted_keys signatures) l q)),
      (λ h. (
        sorted_keys signatures,
        ok-check_signers (sorted_keys signatures)
            (All-sort less (IsSigner signatures signer_keys preimage) (keys signatures) h),
      )),
    )

  get-b64_map :
      (fpr v : Text) (d : Dict Text)
      → get fpr d ≡ some v
      → get fpr (b64_map d) ≡ some (lib.base64_encode v)
  unfolding b64_map get
  get-b64_map fpr v [] h = absurd (cc h)
  get-b64_map fpr v ((k, w) ∷ d) h = ground (arith, get-b64_map fpr v d)

  keys-b64_map : (d : Dict Text) → keys (b64_map d) ≡ keys d
  unfolding b64_map
  keys-b64_map [] = refl
  keys-b64_map ((k, w) ∷ d) = ap (λ ks. k ∷ ks) (keys-b64_map d)

  pub b64_map-ne : (d : Dict Text) → d ≢ [] → b64_map d ≢ []
  unfolding b64_map
  b64_map-ne [] n e = n refl
  b64_map-ne (x ∷ d) n e = cc e

  -- Raw keys and signatures on file: each signature is by the key filed under its fingerprint.
  pub record IsCollected (sigs raw_keys : Dict Text) (preimage fpr : Text) : Type 0 where
    pub sig : Text
    pub key : Text
    pub has_sig : get fpr sigs ≡ some sig
    pub has_key : get fpr raw_keys ≡ some key
    pub key_size : length key ≡ 32
    pub key_id : fingerprint key ≡ fpr
    pub verified : lib.ed25519_verify key preimage sig ≡ true

  pub b64_map-IsSigner :
      (sigs raw_keys : Dict Text) (preimage : Text)
      → All (IsCollected sigs raw_keys preimage) (keys sigs)
      → All (IsSigner (b64_map sigs) (b64_map raw_keys) preimage) (keys (b64_map sigs))
  b64_map-IsSigner sigs raw_keys preimage h = rw keys-b64_map (
      All-map (IsCollected sigs raw_keys preimage)
        (IsSigner (b64_map sigs) (b64_map raw_keys) preimage) (keys sigs) coded h)
    where
      coded :
          (fpr : Text)
          → IsCollected sigs raw_keys preimage fpr
          → IsSigner (b64_map sigs) (b64_map raw_keys) preimage fpr
      coded fpr c = record {
        sig64 = lib.base64_encode c.sig;
        key64 = lib.base64_encode c.key;
        key = c.key;
        sig = c.sig;
        has_sig = get-b64_map fpr c.sig sigs c.has_sig;
        has_key = get-b64_map fpr c.key raw_keys c.has_key;
        key_bytes = lib.base64_law c.key;
        key_size = c.key_size;
        key_id = c.key_id;
        sig_bytes = lib.base64_law c.sig;
        verified = c.verified;
      }
