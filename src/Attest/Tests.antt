-- ===== src/Attest/Tests.antt =====
-- The attestations at concrete inputs, over a toy library: a hash that counts bytes, and signatures
-- that are the key followed by the message.
mod Identities
use netherchat.Base.{
  ℕ, ◌%◌, ◌≡◌, ◌≢◌, refl, ◌↔◌, ◌⊎◌, inl, inr, Bool, true, false, Option, none, some, List, [], ◌∷◌,
  ◌++◌, Text, codes, ◌==◌, ==_refl, subst, sym, less, length, take, All, Any, Distinct, replicate,
  Result, ok, err, arith,
}
use netherchat.Base.Int.{ℤ, pos, eqb_ℤ}
use netherchat.Base.Sort.{sort_strings, sort_by, insert}
use netherchat.Base.Dict.{Dict, get}
use netherchat.Record.Library.{Library, fingerprint}
use netherchat.Protocol.Attest.{roster_signing_bytes, receipt_signing_bytes}
use netherchat.Attest.Formats.{Formats, Core}
use netherchat.Attest.Signers.Sound.{IsCollected}
use netherchat.Attest.Roster.{
  before, Member, Roster, set_hash_of, fprs_of, new_roster, verify_roster,
}
use netherchat.Attest.Roster.Verified.{IsRoster, verify_roster_iff, verify_roster-new_roster}
use netherchat.Attest.Roster.Members.{
  IsLine, Collision, verify_roster-members, verify_roster_merged,
}
use netherchat.Attest.Receipt.{Receipt, core_hash, sorted_core, new_receipt, verify_receipt}
use netherchat.Attest.Receipt.Verified.{IsReceipt, verify_receipt_iff, verify_receipt-new_receipt}

instance abbrev pub toy : Library
toy = record {
  sha256 = λ m. (length m % 256) ∷ replicate 31 1;
  sha256_size = λ m. refl;
  ed25519_verify = λ key m sig. sig == key ++ m;
  ssh_public_key = some;
  ssh_fingerprint = λ key. codes "SHA256:" ++ take 43 (key ++ key);
  base64_encode = λ b. b;
  base64_decode = some;
  base64_law = λ b. refl;
  hex_encode = λ b. b;
  hex_decode = some;
  hex_law = λ b. refl;
  parse_artifact = λ b. none;
}

-- A time is as late as its text is long.
abbrev parse : Text → Option ℤ
parse [] = none
parse (b ∷ bs) = some (pos (length (b ∷ bs)))

instance abbrev pub formats : Formats
formats = record {
  parse_time = parse;
  format_time = λ t. codes "at";
  zero_time = pos 0;
  raw_base64_decode = λ b. some (take 32 b);
  core_json = λ c. c.room ++ c.reason;
}

abbrev pub key : Text
key = replicate 32 7

abbrev pub key_fpr : Text
key_fpr = codes "SHA256:" ++ replicate 43 7

abbrev bob : Member
bob = record { name = codes "bob"; fpr = codes "b"; verified = true }

abbrev carol : Member
carol = record { name = codes "carol"; fpr = codes "c"; verified = false }

abbrev room : Text
room = codes "war-room"

abbrev members : List Member
members = carol ∷ bob ∷ []

abbrev roster_preimage : ℕ → Text
roster_preimage epoch =
    roster_signing_bytes room epoch (set_hash_of (fprs_of (sort_by before members)))

abbrev pub sigs_over : Text → Dict Text
sigs_over m = (key_fpr, key ++ m) ∷ []

abbrev pub keys_on_file : Dict Text
keys_on_file = (key_fpr, key) ∷ []

abbrev roster : ℕ → Roster
roster epoch =
    new_roster (codes "now") room epoch (codes "bob") members (sigs_over (roster_preimage epoch))
      keys_on_file

collected : (m : Text) → IsCollected (sigs_over m) keys_on_file m key_fpr
unfolding fingerprint get ◌==◌
collected m = record {
  sig = key ++ m;
  key = key;
  has_sig = refl;
  has_key = refl;
  key_size = refl;
  key_id = refl;
  verified = ==_refl (key ++ m);
}

verify_roster_iff_example : ((verify_roster (roster 3)).0.valid ≡ true) ↔ IsRoster (roster 3)
verify_roster_iff_example = verify_roster_iff (roster 3)

roster-valid : (epoch : ℕ) → (verify_roster (roster epoch)).0.valid ≡ true
roster-valid epoch =
    verify_roster-new_roster (codes "now") room (codes "bob") epoch members
      (sigs_over (roster_preimage epoch)) keys_on_file (λ e. cc e)
      (collected (roster_preimage epoch), tt)

same_set_hash : (roster 3).set_hash ≡ (roster 4).set_hash
unfolding new_roster
same_set_hash = refl

roster-members : (epoch : ℕ) → (roster epoch).members ≡ bob ∷ carol ∷ []
unfolding new_roster sort_by insert less
roster-members epoch = refl

roster-IsLine : (epoch : ℕ) → All IsLine (fprs_of (roster epoch).members)
roster-IsLine epoch =
    subst (λ ms. All IsLine (fprs_of ms)) (sym (roster-members epoch))
      (((λ e. cc e), ((λ e. cc e), tt)), (((λ e. cc e), ((λ e. cc e), tt)), tt))

verify_roster-members_example :
    (sort_strings (fprs_of (roster 3).members) ≡ sort_strings (fprs_of (roster 4).members))
    ⊎ Collision
verify_roster-members_example =
    verify_roster-members (roster 3) (roster 4) (roster-valid 3) (roster-valid 4) same_set_hash
      (roster-IsLine 3) (roster-IsLine 4)

in_order : less carol.fpr bob.fpr ≡ false
unfolding less
in_order = refl

verify_roster_merged_example :
    (verify_roster (record (roster 3) {
      members = record { name = codes "x"; fpr = bob.fpr ++ 10 ∷ carol.fpr; verified = false } ∷ [];
    })).0.valid
    ≡ true
verify_roster_merged_example =
    verify_roster_merged (roster 3) bob carol (codes "x") false (roster-members 3) in_order
      (roster-valid 3)

abbrev core : Core
core = record {
  room = room;
  first_epoch = 1;
  last_epoch = 4;
  reason = codes "done";
  scuttled_at = codes "now";
  scuttled_by = codes "bob";
  member_fprs = codes "c" ∷ codes "b" ∷ [];
  keys_zeroized = true;
}

abbrev receipt : Receipt
receipt =
    new_receipt core (sigs_over (receipt_signing_bytes (core_hash (sorted_core core)))) keys_on_file

verify_receipt_iff_example : ((verify_receipt receipt).0.valid ≡ true) ↔ IsReceipt receipt
verify_receipt_iff_example = verify_receipt_iff receipt
