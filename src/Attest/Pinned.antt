-- ===== src/Attest/Pinned.antt =====
-- The signatures of an identity or a revocation statement against the keys that the caller pinned:
-- the steps that VerifyIdentity (identity.go) and VerifyRevocation (revocation.go) share.
pub mod Dialect
pub mod Anchored
pub mod Refuted
use netherchat.Base.{
  ℕ, ◌+◌, Bool, true, false, not, ◌||◌, Option, none, some, List, [], ◌∷◌, Text, codes, ◌==◌, less,
  ltb, eqb, length, take, drop, if◌then◌else◌, Result, Checked, ok, err, ◌>>=◌, ◌>>◌, reject_if,
  or_fail,
}
use netherchat.Base.Dict.{Dict, get}
use netherchat.Base.Sort.{sort_by, sort_strings}
use netherchat.Record.Library.{Library, fingerprint}
use netherchat.Attest.Formats.{Formats}
use netherchat.Attest.Reasons.{Reason, severity, KeyOutcome, Detail, Fault}

abbrev pub fault : Reason → Detail → Fault
fault why what = record { reason = why; detail = what }

abbrev fingerprint_prefix : Text
fingerprint_prefix = codes "SHA256:"

-- isFingerprint
unfoldable pub is_fingerprint : ⦃f : Formats⦄ → Text → Bool
is_fingerprint ⦃f⦄ s =
    if not (take 7 s == fingerprint_prefix)
    then false
    else if not (eqb (length (drop 7 s)) 43)
    then false
    else elim (f.raw_base64_decode (drop 7 s)) [ none ↦ false | some raw ↦ eqb (length raw) 32 ]

abbrev pub by_fpr : KeyOutcome → KeyOutcome → Bool
by_fpr a b = less a.fpr b.fpr

-- The outcome that is reported: the first of the worst.
abbrev pub worst : KeyOutcome → List KeyOutcome → KeyOutcome
worst w [] = w
worst w (o ∷ os) = worst (if ltb (severity w.reason) (severity o.reason) then o else w) os

module _ ⦃lib : Library⦄ where
  -- The key beside a signature, where there is one, must be that of the fingerprint.
  unfoldable pub check_embedded : Option Text → Text → Checked Reason
  check_embedded none fpr = ok tt
  check_embedded (some key64) fpr = do
    embedded ← or_fail (lib.base64_decode key64) Reason.signer_key_malformed
    reject_if (not (eqb (length embedded) 32)) Reason.signer_key_malformed
    reject_if (not (fingerprint embedded == fpr)) Reason.signer_key_mismatch

  -- The body of the loop for a key that is named.
  unfoldable pub check_key : Option Text → Text → Text → Text → Text → Checked Reason
  check_key key64 sig64 preimage pinned fpr = do
    check_embedded key64 fpr
    sig ← or_fail (lib.base64_decode sig64) Reason.signature_malformed
    reject_if (not (lib.ed25519_verify pinned preimage sig)) Reason.signature_invalid

  -- The loop over the pinned keys: the fingerprints that verified, and the other outcomes.
  unfoldable pub check_keys : Dict Text → Dict Text → Text → List Text → List Text × List KeyOutcome
  check_keys signatures signer_keys preimage [] = ([], [])
  check_keys signatures signer_keys preimage (pinned ∷ keys) =
      let rest = check_keys signatures signer_keys preimage keys in
      let fpr = fingerprint pinned in
      elim (get fpr signatures) [
        | none ↦ rest
        | some sig64 ↦ elim (check_key (get fpr signer_keys) sig64 preimage pinned fpr) [
          | ok _ ↦ (fpr ∷ rest.0, rest.1)
          | err why ↦ (rest.0, record { fpr = fpr; reason = why } ∷ rest.1)
        ]
      ]

  -- No pinned key verified.
  unfoldable pub no_anchor : ℕ → List KeyOutcome → Fault
  no_anchor pinned [] = fault Reason.no_pinned_issuer_verified (Detail.count pinned)
  no_anchor pinned (o ∷ os) = fault (worst o os).reason (Detail.key_failures (o ∷ os))

  abbrev verified_detail : List Text → List KeyOutcome → Detail
  verified_detail verified [] = Detail.no_detail
  verified_detail verified (o ∷ os) =
      Detail.partly_verified (length verified) (length verified + length (o ∷ os)) (o ∷ os)

  unfoldable pub anchor :
      Dict Text → Dict Text → Text → List Text → Result Fault (List Text × Detail)
  anchor signatures signer_keys preimage pinned =
      let (verified, outcomes) = check_keys signatures signer_keys preimage pinned in
      if eqb (length verified) 0
      then err (no_anchor (length pinned) (sort_by by_fpr outcomes))
      else ok (sort_strings verified, verified_detail verified (sort_by by_fpr outcomes))

  -- The named issuer signed, a key is pinned, and a pinned key verifies.
  unfoldable pub check_signatures :
      Dict Text → Dict Text → Text → Text → List Text → Result Fault (List Text × Detail)
  check_signatures signatures signer_keys issuer preimage pinned = do
    _ ←
        or_fail (get issuer signatures)
          (fault Reason.issuer_did_not_sign (Detail.naming (issuer ∷ [])))
    reject_if (eqb (length pinned) 0) (fault Reason.no_issuer_pinned Detail.no_detail)
    anchor signatures signer_keys preimage pinned

-- The pinned keys of the call must be Ed25519 keys: the index and the size of the first that is not.
unfoldable pub check_key_sizes : ℕ → List Text → Checked (ℕ × ℕ)
check_key_sizes i [] = ok tt
check_key_sizes i (k ∷ ks) = do
  reject_if (not (eqb (length k) 32)) (i, length k)
  check_key_sizes (i + 1) ks
