-- ===== src/Record/Sealed.antt =====
-- SealedRecord and what it is put together from (sealed.go).
pub mod Approvals
pub mod Verify
use netherchat.Base.{Bool, false, ◌||◌, List, [], ◌∷◌, map, Text, codes, ltb, length, if◌then◌else◌}
use netherchat.Base.Dict.{Dict}
use netherchat.Record.Library.{Library}
use netherchat.Record.Entry.{Entry, extended}

abbrev pub format_version : Text
format_version = codes "v1"

abbrev pub format_version_v2 : Text
format_version_v2 = codes "v2"

pub record Endorsement : Type 0 where
  pub meaning : Text
  pub name : Text
  pub signed_at : Text

pub record ApprovalProof : Type 0 where
  pub approver_fpr : Text
  pub approver_key : Text
  pub sig : Text
  pub role : Text

pub record SealedRecord : Type 0 where
  pub version : Text
  pub room : Text
  pub sealed_at : Text
  pub sealed_by : Text
  pub entries : List Entry
  pub head_hash : Text
  pub signatures : Dict Text
  pub signer_keys : Dict Text
  pub endorsements : Dict Endorsement
  pub artifact_approvals : Dict (List ApprovalProof)

unfoldable pub any_extended : List Entry → Bool
any_extended [] = false
any_extended (e ∷ es) = extended e || any_extended es

unfoldable pub record_version : List Entry → Dict Endorsement → Dict (List ApprovalProof) → Text
unfolding any_extended
record_version entries endorsements approvals =
    if ltb 0 (length endorsements) || ltb 0 (length approvals)
    then format_version_v2
    else if any_extended entries
    then format_version_v2
    else format_version

module _ ⦃lib : Library⦄ where
  -- The loops that encode a map of raw bytes.
  abbrev pub encode_values : Dict Text → Dict Text
  encode_values = map (λ e. (e.0, lib.base64_encode e.1))

  -- newSealedRecord; `now` is the current time in RFC 3339.
  unfoldable pub new_sealed_record :
      Text
      → Text
      → Text
      → List Entry
      → Text
      → Dict Text
      → Dict Text
      → Dict Endorsement
      → Dict (List ApprovalProof)
      → SealedRecord
  new_sealed_record now room sealed_by entries head sigs keys endorsements approvals = record {
    version = record_version entries endorsements approvals;
    room = room;
    sealed_at = now;
    sealed_by = sealed_by;
    entries = entries;
    head_hash = lib.hex_encode head;
    signatures = encode_values sigs;
    signer_keys = encode_values keys;
    endorsements = endorsements;
    artifact_approvals = approvals;
  }
