-- ===== src/Attest/Roster/Verified.antt =====
-- VerifyRoster against a description of a sound roster, and NewRoster before it.
use netherchat.Base.{
  empty_of_length, ◌≡◌, ◌≢◌, refl, sym, ◌∙◌, ap, subst, ◌↔◌, inl, inr, true, some, [], Text, ◌==◌,
  ==_iff, eqb, length, ℕ, All, Bool-cases, Result-cases, arith, List,
}
use netherchat.Base.Dict.{Dict, keys}
use netherchat.Base.Sort.{sort_by}
use netherchat.Protocol.Attest.{roster_signing_bytes}
use netherchat.Record.Library.{Library}
use netherchat.Attest.Signers.{check_signers, sorted_keys}
use netherchat.Attest.Signers.Sound.{
  IsSigner, IsCollected, check_signers_iff, b64_map-IsSigner, b64_map-ne,
}
use netherchat.Attest.Roster.{
  Member, Roster, roster_version, fprs_of, before, set_hash_of, new_roster, verify_signatures,
  verify_roster,
}

module _ ⦃lib : Library⦄ where
  -- What the signers of a roster signed.
  abbrev pub preimage : Roster → Text
  preimage r = roster_signing_bytes r.room r.epoch (set_hash_of (fprs_of r.members))

  pub record IsRoster (r : Roster) : Type 0 where
    pub version : r.version ≡ roster_version
    pub hashed : r.set_hash ≡ lib.hex_encode (set_hash_of (fprs_of r.members))
    pub signed : r.signatures ≢ []
    pub signers : All (IsSigner r.signatures r.signer_keys (preimage r)) (keys r.signatures)

  signatures-ok :
      (r : Roster) (h : Text)
      → (verify_signatures r h).0.valid ≡ true
      → (r.signatures ≢ [])
        × All
            (IsSigner r.signatures r.signer_keys (roster_signing_bytes r.room r.epoch h))
            (keys r.signatures)
  unfolding verify_signatures
  signatures-ok r h v = elim (Bool-cases (eqb (length r.signatures) 0)) [
    | inl z ↦ absurd (ground arith)
    | inr n ↦
        elim (Result-cases (
          check_signers r.signatures r.signer_keys (roster_signing_bytes r.room r.epoch h)
            (sorted_keys r.signatures))) [
              | inr (e, q) ↦ absurd (ground arith)
              | inl (l, q) ↦ (
                (λ e. cc (sym n ∙ ap (λ (m : Dict Text). eqb (length m) 0) e)),
                (check_signers_iff r.signatures r.signer_keys
                      (roster_signing_bytes r.room r.epoch h)).0
                    (l, q),
              )
            ]
  ]

  ok-signatures :
      (r : Roster) (h : Text)
      → r.signatures ≢ []
      → All
          (IsSigner r.signatures r.signer_keys (roster_signing_bytes r.room r.epoch h))
          (keys r.signatures)
      → (verify_signatures r h).0.valid ≡ true
  unfolding verify_signatures
  ok-signatures r h n s = elim (Bool-cases (eqb (length r.signatures) 0)) [
    | inl z ↦ absurd (n (empty_of_length r.signatures z))
    | inr z ↦
        let (l, q) =
          (check_signers_iff r.signatures r.signer_keys (roster_signing_bytes r.room r.epoch h)).1
            s in
        ground arith
  ]

  sound : (r : Roster) → (verify_roster r).0.valid ≡ true → IsRoster r
  unfolding verify_roster
  sound r v = elim (Bool-cases (lib.hex_encode (set_hash_of (fprs_of r.members)) == r.set_hash)) [
    | inr n ↦ absurd (ground arith)
    | inl e ↦
        let q : lib.hex_encode (set_hash_of (fprs_of r.members)) ≡ r.set_hash =
          (==_iff _ r.set_hash).0 e in
        let d : lib.hex_decode r.set_hash ≡ some (set_hash_of (fprs_of r.members)) =
          subst (λ x. lib.hex_decode x ≡ some (set_hash_of (fprs_of r.members))) q
            (lib.hex_law (set_hash_of (fprs_of r.members))) in
        let s = signatures-ok r (set_hash_of (fprs_of r.members)) (ground arith) in
        record {
          version = ground (arith, ==_iff r.version roster_version);
          hashed = sym q;
          signed = s.0;
          signers = s.1;
        }
  ]

  complete : (r : Roster) → IsRoster r → (verify_roster r).0.valid ≡ true
  unfolding verify_roster
  complete r i =
      let d : lib.hex_decode r.set_hash ≡ some (set_hash_of (fprs_of r.members)) =
        subst (λ x. lib.hex_decode x ≡ some (set_hash_of (fprs_of r.members))) (sym i.hashed)
          (lib.hex_law (set_hash_of (fprs_of r.members))) in
      ground (
        arith,
        d,
        i.version,
        i.hashed,
        ==_iff r.version roster_version,
        ==_iff (lib.hex_encode (set_hash_of (fprs_of r.members))) r.set_hash,
        ok-signatures r (set_hash_of (fprs_of r.members)) i.signed i.signers,
      )

  -- VerifyRoster calls a roster valid exactly if its version is known, its set hash is the one of its
  -- members, it has a signature, and every signature is by a key of 32 bytes that hashes to its
  -- fingerprint, over the preimage of the room, the epoch and the members' hash.
  pub verify_roster_iff : (r : Roster) → ((verify_roster r).0.valid ≡ true) ↔ IsRoster r
  verify_roster_iff r = (sound r, complete r)

  -- A roster that NewRoster puts together from at least one collected signature passes VerifyRoster,
  -- where each signature is by the key collected under its fingerprint, over the preimage of the
  -- members in their sorted order.
  pub verify_roster-new_roster :
      (now room by : Text) (epoch : ℕ) (members : List Member) (sigs raw_keys : Dict Text)
      → sigs ≢ []
      → All
          (IsCollected sigs raw_keys
            (roster_signing_bytes room epoch (set_hash_of (fprs_of (sort_by before members)))))
          (keys sigs)
      → (verify_roster (new_roster now room epoch by members sigs raw_keys)).0.valid ≡ true
  unfolding new_roster
  verify_roster-new_roster now room by epoch members sigs raw_keys n h =
      complete (new_roster now room epoch by members sigs raw_keys) (record {
        version = refl;
        hashed = refl;
        signed = b64_map-ne sigs n;
        signers =
            b64_map-IsSigner sigs raw_keys
              (roster_signing_bytes room epoch (set_hash_of (fprs_of (sort_by before members)))) h;
      })
