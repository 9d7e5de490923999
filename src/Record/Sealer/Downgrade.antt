-- ===== src/Record/Sealer/Downgrade.antt =====
-- A bare co-signature does not take an endorsement of the same key off the file.
use netherchat.Base.{◌≡◌, subst, false, some, Text, ==_refl, Bool-cases, ok, inl, inr, arith}
use netherchat.Base.Dict.{get, put, keys-at, get-put}
use netherchat.Record.Library.{Library, fingerprint}
use netherchat.Record.Chain.{head_of}
use netherchat.Record.Sealed.{SealedRecord, Endorsement, new_sealed_record, encode_values}
use netherchat.Record.Sealed.Verify.{verify, seal_preimage}
use netherchat.Record.Sealed.Verify.Sound.{IsSound, IsCosigner, verify_iff}
use netherchat.Record.Sealer.{Sealer, add_verified, add_cosignature, endorse_bytes, finalize}
use netherchat.Record.Sealer.Ready.{sealed, get_encoded}

module _ ⦃lib : Library⦄ where
  rejects :
      (t : Sealer) (now key sig : Text) (d : Endorsement)
      → get (fingerprint key) t.endorsements ≡ some d
      → get (fingerprint key) t.sigs ≡ some sig
      → get (fingerprint key) t.keys ≡ some key
      → lib.ed25519_verify key (endorse_bytes t d) sig ≡ false
      → ¬ IsSound (sealed t now)
  unfolding new_sealed_record seal_preimage
  rejects t now key sig d hd hs hk v s =
      let c : IsCosigner (sealed t now) (head_of t.entries) (fingerprint key) =
        keys-at (IsCosigner (sealed t now) (head_of t.entries)) (fingerprint key)
          (lib.base64_encode sig) (encode_values t.sigs) (get_encoded _ sig t.sigs hs) s.cosigned in
      let head : t.head ≡ head_of t.entries = ground (arith, lib.hex_law t.head, s.head) in
      let k : c.key ≡ key = ground (
        arith,
        c.has_key,
        c.key_bytes,
        get_encoded (fingerprint key) key t.keys hk,
        lib.base64_law key,
      ) in
      let g : c.sig ≡ sig = ground (
        arith,
        c.has_sig,
        c.sig_bytes,
        get_encoded (fingerprint key) sig t.sigs hs,
        lib.base64_law sig,
      ) in
      ground (arith, c.verified, k, g, head)

  -- A bare co-signature that is accepted after an endorsement by the same key spoils the record:
  -- the endorsement stays on file, so Verify checks the bare signature against the endorsement's
  -- preimage, and rejects the record that Finalize returns unless the signature verifies there too.
  pub downgrade_rejected :
      (s t : Sealer) (key sig fpr now : Text) (d : Endorsement) (r : SealedRecord)
      → get (fingerprint key) s.endorsements ≡ some d
      → add_cosignature s key sig ≡ ok (t, fpr)
      → lib.ed25519_verify key (endorse_bytes s d) sig ≡ false
      → finalize t now ≡ ok r
      → (verify r).0.valid ≡ false
  unfolding add_cosignature add_verified finalize
  downgrade_rejected s t key sig fpr now d r hd h v f = elim (Bool-cases (verify r).0.valid) [
    | inr bad ↦ bad
    | inl good ↦
        let u : record s {
          sigs = put (fingerprint key) sig s.sigs;
          keys = put (fingerprint key) key s.keys;
        }
            ≡ t =
          ground arith in
        absurd (
          rejects t now key sig d (ground arith)
            (ground (
              arith,
              get-put (fingerprint key) (fingerprint key) sig s.sigs,
              ==_refl (fingerprint key),
            ))
            (ground (
              arith,
              get-put (fingerprint key) (fingerprint key) key s.keys,
              ==_refl (fingerprint key),
            ))
            (ground arith) (subst IsSound (ground arith) ((verify_iff r).0 good)))
  ]
