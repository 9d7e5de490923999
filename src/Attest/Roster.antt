-- ===== src/Attest/Roster.antt =====
-- Rosters: who held the room key at an epoch (roster.go).
pub mod Verified
pub mod Members
use netherchat.Base.{
  ℕ, Bool, true, false, not, Option, none, some, List, [], ◌∷◌, ◌++◌, map, Text, codes, ◌==◌, less,
  eqb, length, if◌then◌else◌, ok, err,
}
use netherchat.Base.Dict.{Dict}
use netherchat.Base.Sort.{sort_by, sort_strings}
use netherchat.Protocol.Attest.{roster_signing_bytes}
use netherchat.Record.Library.{Library}
use netherchat.Attest.Signers.{SignerError, b64_map, check_signers, sorted_keys}

abbrev pub roster_version : Text
roster_version = codes "v1"

pub record Member : Type 0 where
  pub name : Text
  pub fpr : Text
  pub verified : Bool

-- RosterAttestation
pub record Roster : Type 0 where
  pub version : Text
  pub room : Text
  pub epoch : ℕ
  pub attested_at : Text
  pub attested_by : Text
  pub members : List Member
  pub set_hash : Text
  pub signatures : Dict Text
  pub signer_keys : Dict Text

pub data Reason : Type 0 where
  unsupported_version : Text → Reason
  wrong_set_hash : Text → Text → Reason
  no_signatures : Reason
  bad_signer : SignerError → Reason

-- RosterResult
pub record RosterResult : Type 0 where
  pub valid : Bool
  pub room : Text
  pub epoch : ℕ
  pub members : ℕ
  pub signers : List Text
  pub set_hash : Text
  pub reason : Option Reason

pub data RosterError : Type 0 where
  bad_hex : RosterError

-- strings.Join(_, "\n")
unfoldable pub join_lines : List Text → Text
join_lines [] = []
join_lines (x ∷ []) = x
join_lines (x ∷ y ∷ ys) = x ++ 10 ∷ join_lines (y ∷ ys)

abbrev pub fprs_of : List Member → List Text
fprs_of = map (λ m. m.fpr)

abbrev pub before : Member → Member → Bool
before m n = less m.fpr n.fpr

abbrev Outcome : Type 0
Outcome = RosterResult × Option RosterError

abbrev fail : RosterResult → Reason → Outcome
fail res why = (record res { reason = some why }, none)

abbrev init : Roster → RosterResult
init r = record {
  valid = false;
  room = r.room;
  epoch = r.epoch;
  members = length r.members;
  signers = [];
  set_hash = r.set_hash;
  reason = none;
}

module _ ⦃lib : Library⦄ where
  -- SetHash
  unfoldable pub set_hash_of : List Text → Text
  set_hash_of fprs = lib.sha256 (join_lines (sort_strings fprs))

  -- NewRoster; `now` is the current time in RFC 3339.
  unfoldable pub new_roster : Text → Text → ℕ → Text → List Member → Dict Text → Dict Text → Roster
  new_roster now room epoch attested_by members sigs keys = record {
    version = roster_version;
    room = room;
    epoch = epoch;
    attested_at = now;
    attested_by = attested_by;
    members = sort_by before members;
    set_hash = lib.hex_encode (set_hash_of (fprs_of (sort_by before members)));
    signatures = b64_map sigs;
    signer_keys = b64_map keys;
  }

  unfoldable pub verify_signatures : Roster → Text → Outcome
  verify_signatures r set_hash =
      if eqb (length r.signatures) 0
      then fail (init r) no_signatures
      else elim (check_signers r.signatures r.signer_keys
          (roster_signing_bytes r.room r.epoch set_hash) (sorted_keys r.signatures)) [
            | err e ↦ fail (init r) (bad_signer e)
            | ok signers ↦ (record (init r) { signers = sort_strings signers; valid = true }, none)
          ]

  -- VerifyRoster
  unfoldable pub verify_roster : Roster → Outcome
  verify_roster r =
      let want = lib.hex_encode (set_hash_of (fprs_of r.members)) in
      if not (r.version == roster_version)
      then fail (init r) (unsupported_version r.version)
      else if not (want == r.set_hash)
      then fail (init r) (wrong_set_hash r.set_hash want)
      else elim (lib.hex_decode r.set_hash) [
        | none ↦ (init r, some bad_hex)
        | some set_hash ↦ verify_signatures r set_hash
      ]
