-- ===== src/Attest/Signers.antt =====
-- The loop over the signatures of VerifyRoster and VerifyReceipt, and b64map and sortedKeys of
-- attest.go.
pub mod Sound
use netherchat.Base.{
  Bool, not, Option, none, some, List, [], ◌∷◌, map, Text, ◌==◌, eqb, length, Result, Checked, ok,
  err, ◌>>=◌, ◌>>◌, reject_if, or_fail,
}
use netherchat.Base.Dict.{Dict, get, keys}
use netherchat.Base.Sort.{sort_strings}
use netherchat.Record.Library.{Library, fingerprint}

pub data SignerError : Type 0 where
  no_key malformed_key key_mismatch bad_base64 bad_signature : Text → SignerError

-- sortedKeys
abbrev pub sorted_keys : Dict Text → List Text
sorted_keys d = sort_strings (keys d)

module _ ⦃lib : Library⦄ where
  -- b64map
  unfoldable pub b64_map : Dict Text → Dict Text
  b64_map = map (λ e. (e.0, lib.base64_encode e.1))

  -- The body of the loop.
  unfoldable pub check_signer : Dict Text → Dict Text → Text → Text → Checked SignerError
  check_signer signatures signer_keys preimage fpr = do
    sig64 ← or_fail (get fpr signatures) (no_key fpr)
    key64 ← or_fail (get fpr signer_keys) (no_key fpr)
    key ← or_fail (lib.base64_decode key64) (malformed_key fpr)
    reject_if (not (eqb (length key) 32)) (malformed_key fpr)
    reject_if (not (fingerprint key == fpr)) (key_mismatch fpr)
    sig ← or_fail (lib.base64_decode sig64) (bad_base64 fpr)
    reject_if (not (lib.ed25519_verify key preimage sig)) (bad_signature fpr)

  unfoldable pub check_signers :
      Dict Text → Dict Text → Text → List Text → Result SignerError (List Text)
  check_signers signatures signer_keys preimage [] = ok []
  check_signers signatures signer_keys preimage (fpr ∷ fprs) = do
    check_signer signatures signer_keys preimage fpr
    signers ← check_signers signatures signer_keys preimage fprs
    ok (fpr ∷ signers)
