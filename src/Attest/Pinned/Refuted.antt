-- ===== src/Attest/Pinned/Refuted.antt =====
-- When a pinned key finds a forgery.
use netherchat.Base.{
  ℕ, ◌≡◌, ◌≢◌, sym, subst, ◌⊎◌, inl, inr, false, Option, none, some, List, [], ◌∷◌, Text, length,
  eqb, ltb, All, Any, Bool-cases, Option-cases, Result-cases, err, arith,
}
use netherchat.Base.Dict.{Dict, get}
use netherchat.Base.Sort.{All-sort, sort_by}
use netherchat.Record.Library.{Library, fingerprint}
use netherchat.Attest.Reasons.{Reason, Class, class_of, severity, KeyOutcome, Fault}
use netherchat.Attest.Pinned.{
  check_embedded, check_key, check_keys, no_anchor, anchor, check_signatures, by_fpr, worst,
}

abbrev pub IsHarmless : Reason → Type 0
IsHarmless why = class_of why ≢ Class.forged

module _ ⦃lib : Library⦄ where
  -- The attestation names the pinned key, with a signature that the key does not verify.
  pub record IsRefuted (signatures : Dict Text) (preimage pinned : Text) : Type 0 where
    pub sig64 : Text
    pub sig : Text
    pub named : get (fingerprint pinned) signatures ≡ some sig64
    pub sig_bytes : lib.base64_decode sig64 ≡ some sig
    pub refuted : lib.ed25519_verify pinned preimage sig ≡ false

  check_embedded-IsHarmless :
      (o : Option Text) (fpr : Text) (why : Reason)
      → check_embedded o fpr ≡ err why
      → IsHarmless why
  unfolding check_embedded
  check_embedded-IsHarmless none fpr why h = absurd (ground arith)
  check_embedded-IsHarmless (some key64) fpr why h = λ f. ground arith

  module _ (signatures signer_keys : Dict Text) (preimage : Text) where
    check_key-IsRefuted :
        (k sig64 : Text) (why : Reason)
        → get (fingerprint k) signatures ≡ some sig64
        → check_key (get (fingerprint k) signer_keys) sig64 preimage k (fingerprint k) ≡ err why
        → IsRefuted signatures preimage k ⊎ IsHarmless why
    unfolding check_key
    check_key-IsRefuted k sig64 why n h =
        elim (Result-cases (check_embedded (get (fingerprint k) signer_keys) (fingerprint k))) [
          | inr (w, p) ↦ inr (
              subst IsHarmless (ground arith)
                (check_embedded-IsHarmless (get (fingerprint k) signer_keys) (fingerprint k) w p))
          | inl (u, p) ↦ elim (Option-cases (lib.base64_decode sig64)) [
            | inl q ↦ inr (λ f. ground arith)
            | inr (sig, q) ↦ inl (record {
              sig64 = sig64;
              sig = sig;
              named = n;
              sig_bytes = q;
              refuted = ground arith;
            })
          ]
        ]

    check_keys-IsRefuted :
        (keys : List Text)
        → Any (IsRefuted signatures preimage) keys
          ⊎ All
              (λ (o : KeyOutcome). IsHarmless o.reason)
              (check_keys signatures signer_keys preimage keys).1
    unfolding check_keys
    check_keys-IsRefuted [] = inr tt
    check_keys-IsRefuted (k ∷ ks) = elim (check_keys-IsRefuted ks) [
      | inl r ↦ inl (inr r)
      | inr h ↦ elim (Option-cases (get (fingerprint k) signatures)) [
        | inl n ↦ inr (rw (check_keys, n) h)
        | inr (sig64, n) ↦
            elim (Result-cases
              (check_key (get (fingerprint k) signer_keys) sig64 preimage k (fingerprint k))) [
                | inl (u, p) ↦ inr (rw (check_keys, n, p) h)
                | inr (why, p) ↦ elim (check_key-IsRefuted k sig64 why n p) [
                  | inl r ↦ inl (inl r)
                  | inr f ↦ inr (rw (check_keys, n, p) (f, h))
                ]
              ]
      ]
    ]

    worst-All :
        (P : KeyOutcome → Type 0) (o : KeyOutcome) (os : List KeyOutcome)
        → P o
        → All P os
        → P (worst o os)
    worst-All P o [] p h = p
    worst-All P o (x ∷ os) p h = elim (Bool-cases (ltb (severity o.reason) (severity x.reason))) [
      | inl y ↦ rw y (worst-All P x os h.0 h.1)
      | inr n ↦ rw n (worst-All P o os p h.1)
    ]

    no_anchor-IsHarmless :
        (n : ℕ) (os : List KeyOutcome)
        → All (λ (o : KeyOutcome). IsHarmless o.reason) os
        → IsHarmless (no_anchor n os).reason
    unfolding no_anchor
    no_anchor-IsHarmless n [] h = λ f. ground arith
    no_anchor-IsHarmless n (o ∷ os) h = worst-All (λ o. IsHarmless o.reason) o os h.0 h.1

    anchor-IsRefuted :
        (keys : List Text) (f : Fault)
        → anchor signatures signer_keys preimage keys ≡ err f
        → Any (IsRefuted signatures preimage) keys ⊎ IsHarmless f.reason
    unfolding anchor
    anchor-IsRefuted keys f h = elim (check_keys-IsRefuted keys) [
      | inl r ↦ inl r
      | inr a ↦
          elim (Bool-cases (eqb (length (check_keys signatures signer_keys preimage keys).0) 0)) [
            | inr n ↦ absurd (ground arith)
            | inl z ↦
                let os = sort_by by_fpr (check_keys signatures signer_keys preimage keys).1 in
                let e : f ≡ no_anchor (length keys) os = ground arith in
                inr (
                  subst (λ (g : Fault). IsHarmless g.reason) (sym e)
                    (no_anchor-IsHarmless (length keys) os (
                      All-sort by_fpr (λ o. IsHarmless o.reason)
                        (check_keys signatures signer_keys preimage keys).1 a)))
          ]
    ]

    -- The fault is classed as a forgery only if a pinned key refuted a signature.
    pub check_signatures-IsRefuted :
        (issuer : Text) (keys : List Text) (f : Fault)
        → check_signatures signatures signer_keys issuer preimage keys ≡ err f
        → Any (IsRefuted signatures preimage) keys ⊎ IsHarmless f.reason
    unfolding check_signatures
    check_signatures-IsRefuted issuer keys f h = elim (Option-cases (get issuer signatures)) [
      | inl n ↦ inr (λ c. ground arith)
      | inr (sig, n) ↦ elim (Bool-cases (eqb (length keys) 0)) [
        | inl z ↦ inr (λ c. ground arith)
        | inr z ↦ anchor-IsRefuted keys f (ground arith)
      ]
    ]
