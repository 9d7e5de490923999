-- ===== src/Attest/Receipt.antt =====
-- Scuttle receipts: a room and its keys were destroyed (receipt.go).
pub mod Verified
use netherchat.Base.{
  ℕ, Bool, true, false, not, Option, none, some, List, [], ◌∷◌, Text, codes, ◌==◌, eqb, length,
  if◌then◌else◌, ok, err,
}
use netherchat.Base.Dict.{Dict}
use netherchat.Base.Sort.{sort_strings}
use netherchat.Protocol.Attest.{receipt_signing_bytes}
use netherchat.Record.Library.{Library}
use netherchat.Attest.Formats.{Formats, Core}
use netherchat.Attest.Signers.{SignerError, b64_map, check_signers, sorted_keys}

abbrev pub receipt_version : Text
receipt_version = codes "v1"

-- ScuttleReceipt
pub record Receipt : Type 0 where
  pub version : Text
  pub core : Core
  pub receipt_hash : Text
  pub signatures : Dict Text
  pub signer_keys : Dict Text

pub data Reason : Type 0 where
  unsupported_version : Text → Reason
  not_zeroized : Reason
  wrong_hash : Text → Text → Reason
  no_signatures : Reason
  bad_signer : SignerError → Reason

-- ReceiptResult
pub record ReceiptResult : Type 0 where
  pub valid : Bool
  pub room : Text
  pub reason : Text
  pub scuttled_at : Text
  pub signers : List Text
  pub receipt_hash : Text
  pub error : Option Reason

pub data ReceiptError : Type 0 where
  bad_hex : ReceiptError

abbrev Outcome : Type 0
Outcome = ReceiptResult × Option ReceiptError

abbrev fail : ReceiptResult → Reason → Outcome
fail res why = (record res { error = some why }, none)

abbrev init : Receipt → ReceiptResult
init r = record {
  valid = false;
  room = r.core.room;
  reason = r.core.reason;
  scuttled_at = r.core.scuttled_at;
  signers = [];
  receipt_hash = r.receipt_hash;
  error = none;
}

abbrev pub sorted_core : Core → Core
sorted_core c = record c { member_fprs = sort_strings c.member_fprs }

module _ ⦃lib : Library⦄ ⦃formats : Formats⦄ where
  -- ReceiptCore.Hash
  unfoldable pub core_hash : Core → Text
  core_hash c = lib.sha256 (formats.core_json (sorted_core c))

  -- NewReceipt
  unfoldable pub new_receipt : Core → Dict Text → Dict Text → Receipt
  new_receipt core sigs keys = record {
    version = receipt_version;
    core = sorted_core core;
    receipt_hash = lib.hex_encode (core_hash (sorted_core core));
    signatures = b64_map sigs;
    signer_keys = b64_map keys;
  }

  unfoldable pub verify_signatures : Receipt → Text → Outcome
  verify_signatures r hash =
      if eqb (length r.signatures) 0
      then fail (init r) no_signatures
      else elim (check_signers r.signatures r.signer_keys (receipt_signing_bytes hash)
          (sorted_keys r.signatures)) [
            | err e ↦ fail (init r) (bad_signer e)
            | ok signers ↦ (record (init r) { signers = sort_strings signers; valid = true }, none)
          ]

  -- VerifyReceipt
  unfoldable pub verify_receipt : Receipt → Outcome
  verify_receipt r =
      let hash = lib.hex_encode (core_hash r.core) in
      if not (r.version == receipt_version)
      then fail (init r) (unsupported_version r.version)
      else if not r.core.keys_zeroized
      then fail (init r) not_zeroized
      else if not (hash == r.receipt_hash)
      then fail (init r) (wrong_hash r.receipt_hash hash)
      else elim (lib.hex_decode r.receipt_hash) [
        | none ↦ (init r, some bad_hex)
        | some bytes ↦ verify_signatures r bytes
      ]
