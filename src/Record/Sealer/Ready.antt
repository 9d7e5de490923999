-- ===== src/Record/Sealer/Ready.antt =====
-- What Finalize returns passes Verify.
use netherchat.Base.{
  ◌≡◌, ◌≢◌, refl, sym, ◌∙◌, ap, subst, ◌⊎◌, inl, inr, true, false, Option, none, some, List, [],
  ◌∷◌, Text, ◌==◌, ==_iff, ==_refl, length, All, All-map, Bool-cases, ok, arith,
}
use netherchat.Base.Dict.{Dict, get, put, keys, get-put, get_keys}
use netherchat.Record.Library.{Library, fingerprint}
use netherchat.Record.Entry.{Entry}
use netherchat.Record.Chain.{zero_hash, head_of}
use netherchat.Record.Chain.Linked.{IsLinked}
use netherchat.Record.Sealed.{
  SealedRecord, Endorsement, ApprovalProof, record_version, encode_values, new_sealed_record,
  format_version, format_version_v2,
}
use netherchat.Record.Sealed.Verify.{verify, seal_preimage}
use netherchat.Record.Sealed.Verify.Sound.{IsSound, IsCosigner, verify_iff}
use netherchat.Record.Sealer.{
  Sealer, new_sealer, cosign_bytes, endorse_bytes, endorse, add_verified, add_cosignature,
  add_endorsement, finalize,
}

module _ ⦃lib : Library⦄ where
  -- The preimage that the sealer's endorsements choose for a signer.
  abbrev preimage_for : Sealer → Text → Text
  preimage_for s fpr = elim (get fpr s.endorsements) [
    | none ↦ cosign_bytes s
    | some d ↦ endorse_bytes s d
  ]

  -- The signer's key is on file, hashes to the fingerprint and signed the chosen preimage.
  pub record IsSigner (s : Sealer) (fpr sig : Text) : Type 0 where
    pub key : Text
    pub filed : get fpr s.keys ≡ some key
    pub key_size : length key ≡ 32
    pub key_id : fingerprint key ≡ fpr
    pub verified : lib.ed25519_verify key (preimage_for s fpr) sig ≡ true

  -- The sealer holds a linked chain with its head, and the signatures on file are by signers.
  pub record IsReady (s : Sealer) : Type 0 where
    pub linked : IsLinked 0 zero_hash s.entries
    pub head : s.head ≡ head_of s.entries
    pub signers : (fpr sig : Text) → get fpr s.sigs ≡ some sig → IsSigner s fpr sig
    pub no_approvals : s.approvals ≡ []

  pub new_sealer-IsReady :
      (room by : Text) (es : List Entry) → IsLinked 0 zero_hash es → IsReady (new_sealer room by es)
  unfolding new_sealer get
  new_sealer-IsReady room by es h = record {
    linked = h;
    head = refl;
    signers = λ fpr sig e. absurd (cc e);
    no_approvals = refl;
  }

  abbrev filed : Sealer → Text → Text → Option Endorsement → Sealer
  filed s key sig end = record s {
    sigs = put (fingerprint key) sig s.sigs;
    keys = put (fingerprint key) key s.keys;
    endorsements = endorse (fingerprint key) end s.endorsements;
  }

  endorse-ne :
      (k j : Text) (end : Option Endorsement) (d : Dict Endorsement)
      → (k == j) ≡ false
      → get j (endorse k end d) ≡ get j d
  endorse-ne k j none d h = refl
  endorse-ne k j (some e) d h = ground (arith, get-put k j e d)

  preimage-ne :
      (s : Sealer) (key sig fpr : Text) (end : Option Endorsement)
      → (fingerprint key == fpr) ≡ false
      → preimage_for s fpr ≡ preimage_for (filed s key sig end) fpr
  preimage-ne s key sig fpr end h =
      ground (arith, endorse-ne (fingerprint key) fpr end s.endorsements h)

  filed-signers :
      (s : Sealer) (key sig preimage : Text) (end : Option Endorsement)
      → length key ≡ 32
      → lib.ed25519_verify key preimage sig ≡ true
      → preimage ≡ preimage_for (filed s key sig end) (fingerprint key)
      → IsReady s
      → (fpr sig' : Text) → get fpr (filed s key sig end).sigs ≡ some sig'
      → IsSigner (filed s key sig end) fpr sig'
  filed-signers s key sig preimage end size v e r fpr sig' g =
      elim (Bool-cases (fingerprint key == fpr)) [
        | inl same ↦
            let p : fingerprint key ≡ fpr = (==_iff (fingerprint key) fpr).0 same in
            let q : sig ≡ sig' = ground (arith, get-put (fingerprint key) fpr sig s.sigs) in
            let w : lib.ed25519_verify key (preimage_for (filed s key sig end) fpr) sig' ≡ true =
              subst (λ x. lib.ed25519_verify key (preimage_for (filed s key sig end) fpr) x ≡ true)
                q
                (subst
                  (λ x. lib.ed25519_verify key (preimage_for (filed s key sig end) x) sig ≡ true) p
                  (subst (λ x. lib.ed25519_verify key x sig ≡ true) e v)) in
            record {
              key = key;
              filed = ground (arith, get-put (fingerprint key) fpr key s.keys);
              key_size = size;
              key_id = p;
              verified = w;
            }
        | inr other ↦
            let k = r.signers fpr sig' (ground (arith, get-put (fingerprint key) fpr sig s.sigs)) in
            record {
              key = k.key;
              filed = ground (arith, get-put (fingerprint key) fpr key s.keys, k.filed);
              key_size = k.key_size;
              key_id = k.key_id;
              verified =
                  subst (λ x. lib.ed25519_verify k.key x sig' ≡ true)
                    (preimage-ne s key sig fpr end other) k.verified;
            }
      ]

  -- A co-signature over the preimage that is chosen once it is filed keeps the sealer ready.
  pub add_verified-IsReady :
      (s t : Sealer) (key sig preimage fpr : Text) (end : Option Endorsement)
      → add_verified s key sig preimage end ≡ ok (t, fpr)
      → preimage ≡ preimage_for (filed s key sig end) (fingerprint key)
      → IsReady s
      → IsReady t
  unfolding add_verified
  add_verified-IsReady s t key sig preimage fpr end h e r = subst IsReady (ground arith) (record {
    linked = r.linked;
    head = r.head;
    signers = filed-signers s key sig preimage end (ground arith) (ground arith) e r;
    no_approvals = r.no_approvals;
  })

  pub add_endorsement-IsReady :
      (s t : Sealer) (key sig fpr : Text) (d : Endorsement)
      → add_endorsement s key sig d ≡ ok (t, fpr)
      → IsReady s
      → IsReady t
  unfolding add_endorsement
  add_endorsement-IsReady s t key sig fpr d h =
      add_verified-IsReady s t key sig (endorse_bytes s d) fpr (some d) h (
        ground (
          arith,
          get-put (fingerprint key) (fingerprint key) d s.endorsements,
          ==_refl (fingerprint key),
        ))

  -- A bare co-signature keeps the sealer ready if its key has not endorsed.
  pub add_cosignature-IsReady :
      (s t : Sealer) (key sig fpr : Text)
      → get (fingerprint key) s.endorsements ≡ none
      → add_cosignature s key sig ≡ ok (t, fpr)
      → IsReady s
      → IsReady t
  unfolding add_cosignature
  add_cosignature-IsReady s t key sig fpr n h =
      add_verified-IsReady s t key sig (cosign_bytes s) fpr none h (ground arith)

version_known :
    (es : List Entry) (d : Dict Endorsement) (a : Dict (List ApprovalProof))
    → (record_version es d a ≡ format_version) ⊎ (record_version es d a ≡ format_version_v2)
unfolding record_version
version_known es d a = ground arith

module _ ⦃lib : Library⦄ where
  pub get_encoded :
      (k v : Text) (d : Dict Text)
      → get k d ≡ some v
      → get k (encode_values d) ≡ some (lib.base64_encode v)
  unfolding get
  get_encoded k v [] h = absurd (cc h)
  get_encoded k v ((j, w) ∷ d) h = elim (Bool-cases (j == k)) [
    | inl e ↦ rw e (ap (λ x. some (lib.base64_encode x)) (ground arith))
    | inr e ↦ rw e (get_encoded k v d (ground arith))
  ]

  pub keys-encode_values : (d : Dict Text) → keys (encode_values d) ≡ keys d
  keys-encode_values [] = refl
  keys-encode_values (e ∷ d) = ap (◌∷◌ e.0) (keys-encode_values d)

  encode_values-nil : (d : Dict Text) → encode_values d ≡ [] → d ≡ []
  encode_values-nil [] e = refl
  encode_values-nil (x ∷ d) e = absurd (cc e)

  abbrev pub sealed : Sealer → Text → SealedRecord
  sealed s now =
      new_sealed_record now s.room s.sealed_by s.entries s.head s.sigs s.keys s.endorsements
        s.approvals

  sealed-IsCosigner :
      (s : Sealer) (now fpr sig : Text)
      → get fpr s.sigs ≡ some sig
      → IsSigner s fpr sig
      → IsCosigner (sealed s now) s.head fpr
  unfolding new_sealed_record seal_preimage
  sealed-IsCosigner s now fpr sig g k = record {
    sig64 = lib.base64_encode sig;
    key64 = lib.base64_encode k.key;
    key = k.key;
    sig = sig;
    has_sig = get_encoded fpr sig s.sigs g;
    has_key = get_encoded fpr k.key s.keys k.filed;
    key_bytes = lib.base64_law k.key;
    key_size = k.key_size;
    key_id = k.key_id;
    sig_bytes = lib.base64_law sig;
    verified = k.verified;
  }

  sealed-IsSound : (s : Sealer) (now : Text) → s.sigs ≢ [] → IsReady s → IsSound (sealed s now)
  unfolding new_sealed_record
  sealed-IsSound s now ne r = record {
    version = version_known s.entries s.endorsements s.approvals;
    linked = r.linked;
    head = lib.hex_law s.head ∙ ap some r.head;
    signed = λ e. ne (encode_values-nil s.sigs e);
    cosigned =
        subst (λ h. All (IsCosigner (sealed s now) h) (keys (encode_values s.sigs))) r.head
          (subst (All (IsCosigner (sealed s now) s.head)) (sym (keys-encode_values s.sigs)) (
            All-map _ _ (keys s.sigs)
              (λ k (sig, g). sealed-IsCosigner s now k sig g (r.signers k sig g))
              (get_keys s.sigs)));
    approvals = inl r.no_approvals;
  }

  -- What Finalize makes of a ready sealer passes Verify.
  pub finalize-verify :
      (s : Sealer) (now : Text) (r : SealedRecord)
      → IsReady s
      → finalize s now ≡ ok r
      → (verify r).0.valid ≡ true
  unfolding finalize
  finalize-verify s now r ready h = (verify_iff r).1 (
      subst IsSound (ground arith)
        (sealed-IsSound s now (λ e. ground (arith, ap (λ (d : Dict Text). length d) e)) ready))
