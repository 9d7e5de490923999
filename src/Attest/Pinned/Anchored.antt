-- ===== src/Attest/Pinned/Anchored.antt =====
-- When the pinned keys anchor an artifact.
use netherchat.Base.{
  ℕ, ◌+◌, ◌≡◌, ◌≢◌, refl, ◌↔◌, inl, inr, true, false, Option, none, some, List, [], ◌∷◌, Text,
  ==_iff, eqb, length, empty_of_length, All, Any, Bool-cases, Option-cases, Result-cases, ok, arith,
}
use netherchat.Base.Dict.{Dict, get}
use netherchat.Record.Library.{Library, fingerprint}
use netherchat.Attest.Reasons.{Detail}
use netherchat.Attest.Pinned.{
  check_embedded, check_key, check_keys, anchor, check_signatures, check_key_sizes,
}

module _ ⦃lib : Library⦄ where
  -- A key on file for the fingerprint is a key of 32 bytes that hashes to it.
  abbrev pub IsConsistent : Option Text → Text → Type 0
  IsConsistent none fpr = Unit
  IsConsistent (some key64) fpr =
      (key : Text) × (lib.base64_decode key64 ≡ some key)
      × (length key ≡ 32)
      × (fingerprint key ≡ fpr)

  -- The pinned key signed the preimage, and no other key is on file for it.
  pub record IsAnchor (signatures signer_keys : Dict Text) (preimage pinned : Text) : Type 0 where
    pub sig64 : Text
    pub sig : Text
    pub named : get (fingerprint pinned) signatures ≡ some sig64
    pub consistent : IsConsistent (get (fingerprint pinned) signer_keys) (fingerprint pinned)
    pub sig_bytes : lib.base64_decode sig64 ≡ some sig
    pub verified : lib.ed25519_verify pinned preimage sig ≡ true

  check_embedded-ok :
      (o : Option Text) (fpr : Text) → check_embedded o fpr ≡ ok tt → IsConsistent o fpr
  unfolding check_embedded
  check_embedded-ok none fpr h = tt
  check_embedded-ok (some key64) fpr h = elim (Option-cases (lib.base64_decode key64)) [
    | inl n ↦ absurd (ground arith)
    | inr (key, p) ↦ (key, p, ground arith, ground (arith, ==_iff (fingerprint key) fpr))
  ]

  ok-check_embedded :
      (o : Option Text) (fpr : Text) → IsConsistent o fpr → check_embedded o fpr ≡ ok tt
  unfolding check_embedded
  ok-check_embedded none fpr h = refl
  ok-check_embedded (some key64) fpr (key, p, q, r) = ground (arith, ==_iff (fingerprint key) fpr)

  module _ (signatures signer_keys : Dict Text) (preimage : Text) where
    check_key-ok :
        (pinned sig64 : Text)
        → get (fingerprint pinned) signatures ≡ some sig64
        → check_key
            (get (fingerprint pinned) signer_keys)
            sig64
            preimage
            pinned
            (fingerprint pinned)
          ≡ ok tt
        → IsAnchor signatures signer_keys preimage pinned
    unfolding check_key
    check_key-ok pinned sig64 n h = elim (Option-cases (lib.base64_decode sig64)) [
      | inl p ↦ absurd (ground arith)
      | inr (sig, p) ↦ record {
        sig64 = sig64;
        sig = sig;
        named = n;
        consistent =
            check_embedded-ok (get (fingerprint pinned) signer_keys) (fingerprint pinned)
              (ground arith);
        sig_bytes = p;
        verified = ground arith;
      }
    ]

    ok-check_key :
        (pinned : Text) (a : IsAnchor signatures signer_keys preimage pinned)
        → check_key
            (get (fingerprint pinned) signer_keys)
            a.sig64
            preimage
            pinned
            (fingerprint pinned)
          ≡ ok tt
    unfolding check_key
    ok-check_key pinned a = ground (
      arith,
      ok-check_embedded (get (fingerprint pinned) signer_keys) (fingerprint pinned) a.consistent,
    )

    check_keys-anchored :
        (keys : List Text)
        → (check_keys signatures signer_keys preimage keys).0 ≢ []
        → Any (IsAnchor signatures signer_keys preimage) keys
    unfolding check_keys
    check_keys-anchored [] n = n refl
    check_keys-anchored (k ∷ ks) n = elim (Option-cases (get (fingerprint k) signatures)) [
      | inl p ↦ inr (check_keys-anchored ks (ground arith))
      | inr (sig64, p) ↦
          elim (Result-cases
            (check_key (get (fingerprint k) signer_keys) sig64 preimage k (fingerprint k))) [
              | inl (u, q) ↦ inl (check_key-ok k sig64 p q)
              | inr (e, q) ↦ inr (check_keys-anchored ks (ground arith))
            ]
    ]

    anchored-check_keys :
        (keys : List Text)
        → Any (IsAnchor signatures signer_keys preimage) keys
        → (check_keys signatures signer_keys preimage keys).0 ≢ []
    unfolding check_keys
    anchored-check_keys [] h e = h
    anchored-check_keys (k ∷ ks) (inl a) e = ground (arith, a.named, ok-check_key k a)
    anchored-check_keys (k ∷ ks) (inr h) e = elim (Option-cases (get (fingerprint k) signatures)) [
      | inl p ↦ anchored-check_keys ks h (ground arith)
      | inr (sig64, p) ↦
          elim (Result-cases
            (check_key (get (fingerprint k) signer_keys) sig64 preimage k (fingerprint k))) [
              | inl (u, q) ↦ ground arith
              | inr (why, q) ↦ anchored-check_keys ks h (ground arith)
            ]
    ]

    anchor-verified :
        (keys : List Text) (out : List Text × Detail)
        → anchor signatures signer_keys preimage keys ≡ ok out
        → (check_keys signatures signer_keys preimage keys).0 ≢ []
    unfolding anchor
    anchor-verified keys out h e = ground arith

    verified-anchor :
        (keys : List Text)
        → (check_keys signatures signer_keys preimage keys).0 ≢ []
        → (out : List Text × Detail) × (anchor signatures signer_keys preimage keys ≡ ok out)
    unfolding anchor
    verified-anchor keys n =
        elim (Bool-cases (eqb (length (check_keys signatures signer_keys preimage keys).0) 0)) [
          | inl z ↦
              absurd (n (empty_of_length (check_keys signatures signer_keys preimage keys).0 z))
          | inr z ↦ elim (Result-cases (anchor signatures signer_keys preimage keys)) [
            | inl p ↦ p
            | inr (why, q) ↦ absurd (ground arith)
          ]
        ]

    ne-Any :
        (keys : List Text)
        → Any (IsAnchor signatures signer_keys preimage) keys
        → eqb (length keys) 0 ≡ false
    ne-Any [] h = absurd h
    ne-Any (k ∷ ks) h = ground arith

    -- The signatures pass exactly if the named issuer has one and some pinned key verifies its own.
    pub check_signatures_iff :
        (issuer : Text) (keys : List Text)
        → ((out : List Text × Detail) × (check_signatures signatures signer_keys issuer preimage
                keys
              ≡ ok out))
          ↔ (((sig : Text) × (get issuer signatures ≡ some sig))
              × Any (IsAnchor signatures signer_keys preimage) keys)
    unfolding check_signatures
    check_signatures_iff issuer keys = (there, back)
      where
        there :
            (out : List Text × Detail) × (check_signatures signatures signer_keys issuer preimage
                  keys
                ≡ ok out)
            → ((sig : Text) × (get issuer signatures ≡ some sig))
              × Any (IsAnchor signatures signer_keys preimage) keys
        there (out, h) = elim (Option-cases (get issuer signatures)) [
          | inl n ↦ absurd (ground arith)
          | inr p ↦ (p, check_keys-anchored keys (anchor-verified keys out (ground arith)))
        ]

        back :
            ((sig : Text) × (get issuer signatures ≡ some sig))
              × Any (IsAnchor signatures signer_keys preimage) keys
            → (out : List Text × Detail) × (check_signatures signatures signer_keys issuer preimage
                  keys
                ≡ ok out)
        back ((sig, p), a) =
            let (out, q) = verified-anchor keys (anchored-check_keys keys a) in
            (out, ground (arith, ne-Any keys a))

pub check_key_sizes_iff :
    (i : ℕ) (keys : List Text) → (check_key_sizes i keys ≡ ok tt) ↔ All (λ k. length k ≡ 32) keys
unfolding check_key_sizes
check_key_sizes_iff i [] = ground arith
check_key_sizes_iff i (k ∷ ks) = ground (arith, check_key_sizes_iff (i + 1) ks)
