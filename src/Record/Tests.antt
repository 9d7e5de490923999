-- ===== src/Record/Tests.antt =====
-- The record modules at concrete inputs, over a toy library: a hash that counts bytes, and
-- signatures that are the key followed by the message.
mod Sealing
use netherchat.Base.{
  ℕ, ◌%◌, ◌≡◌, ◌≢◌, refl, ◌⊎◌, inl, inr, ◌↔◌, Bool, true, false, Option, none, some, List, [], ◌∷◌,
  ◌++◌, map, Text, codes, ◌==◌, ==_iff, length, All, Any, Distinct, replicate, if◌then◌else◌, ok,
  err, arith,
}
use netherchat.Base.Int.{ℤ, pos}
use netherchat.Base.Dict.{Dict, get}
use netherchat.Record.Library.{Library, ArtifactMeta, fingerprint}
use netherchat.Record.Entry.{
  Entry, kind_decision, kind_artifact, canonical, extended, hash, verify_entry,
}
use netherchat.Record.Entry.Authentic.{IsAuthentic, verify_entry_iff}
use netherchat.Record.Chain.{
  Chain, Author, EntrySpec, empty, zero_hash, append, append_remote, draft, head, head_of,
}
use netherchat.Record.Chain.Linked.{Continues, IsLinked, append_remote_iff}
use netherchat.Record.Chain.Converge.{IsIdentity, IsSpec, append-append_remote}
use netherchat.Protocol.Statement.{IsSized}
use netherchat.Record.Chain.Tamper.{statement, Broken, head_of-injective}

abbrev no_meta : ArtifactMeta
no_meta = record {
  source = codes "agent";
  artifact_ref = codes "plan";
  artifact_hash = codes "00ff";
  approver_fpr = [];
  proposed_at = [];
  approved_at = [];
  proposal_id = codes "p1";
  nonce = codes "n1";
  proposer_fpr = codes "agent-key";
}

instance abbrev pub toy : Library
toy = record {
  sha256 = λ m. (length m % 256) ∷ replicate 31 1;
  sha256_size = λ m. refl;
  ed25519_verify = λ key m sig. sig == key ++ m;
  ssh_public_key = some;
  ssh_fingerprint = λ key. key;
  base64_encode = λ b. b;
  base64_decode = some;
  base64_law = λ b. refl;
  hex_encode = λ b. b;
  hex_decode = some;
  hex_law = λ b. refl;
  parse_artifact = λ b. if b == codes "plan" then some no_meta else none;
}

abbrev pub alice_key : Text
alice_key = replicate 32 7

abbrev alice : Author
alice = record {
  id = alice_key;
  name = codes "alice";
  key = alice_key;
  sign = λ m. some (alice_key ++ m);
}

abbrev decide : EntrySpec
decide = record {
  kind = kind_decision;
  actionee = [];
  body = codes "ship it";
  schema = [];
  schema_ver = [];
  links = [];
}

alice-IsIdentity : IsIdentity alice
unfolding fingerprint
alice-IsIdentity = record {
  key_size = refl;
  key_id = refl;
  signs = λ m s h. ground (arith, ==_iff s (alice_key ++ m));
}

decide-IsSpec : IsSpec decide
decide-IsSpec = record { kind = inl (inl refl, refl, refl); links = tt }

abbrev first : Entry
first = let d = draft empty alice (pos 100) decide in record d { sig = alice_key ++ canonical d }

abbrev one_entry : Chain
one_entry = record { entries = first ∷ [] }

append-first : append empty alice (pos 100) decide ≡ ok (one_entry, first)
unfolding append
append-first = refl

append-append_remote_example : append_remote empty first ≡ ok one_entry
append-append_remote_example =
    append-append_remote empty one_entry alice (pos 100) decide first alice-IsIdentity decide-IsSpec
      append-first

verify_entry_iff_example : (verify_entry first ≡ ok tt) ↔ IsAuthentic first
verify_entry_iff_example = verify_entry_iff first

append_remote_iff_example :
    (append_remote empty first ≡ ok one_entry)
    ↔ (Continues 0 (head empty) first × (one_entry ≡ record { entries = first ∷ [] }))
append_remote_iff_example = append_remote_iff empty one_entry first

first-IsLinked : IsLinked 0 zero_hash (first ∷ [])
unfolding head head_of
first-IsLinked = (((append_remote_iff empty one_entry first).0 append-append_remote_example).0, tt)

first-IsSized : All (λ e. IsSized (statement e)) (first ∷ [])
unfolding draft extended ◌==◌
first-IsSized = (omega arith, tt)

head_of-injective_example : (map statement (first ∷ []) ≡ map statement (first ∷ [])) ⊎ Broken
head_of-injective_example =
    head_of-injective (first ∷ []) (first ∷ []) first-IsLinked first-IsLinked first-IsSized
      first-IsSized (omega arith) (omega arith) refl
