-- ===== src/Record/Entry.antt =====
-- Entry, its canonical bytes and VerifyEntry (record.go).
pub mod Authentic
use netherchat.Base.{
  ℕ, suc, Bool, not, ◌||◌, List, [], ◌∷◌, map, Text, codes, ◌==◌, is_empty, eqb, ltb, length,
  if◌then◌else◌, Checked, ok, err, ◌>>◌, reject_if,
}
use netherchat.Base.Int.{ℤ}
use netherchat.Protocol.{record_signing_bytes, record_signing_bytes_v2}
use netherchat.Record.Library.{Library, fingerprint}

abbrev pub kind_decision : Text
kind_decision = codes "decision"

abbrev pub kind_action : Text
kind_action = codes "action"

abbrev pub kind_note : Text
kind_note = codes "note"

abbrev pub kind_artifact : Text
kind_artifact = codes "artifact"

abbrev pub kind_typed : Text
kind_typed = codes "typed"

pub record Link : Type 0 where
  pub hash : Text
  pub relation : Text

pub record Entry : Type 0 where
  pub seq : ℕ
  pub ts : ℤ
  pub author_id : Text
  pub author_name : Text
  pub author_key : Text
  pub kind : Text
  pub actionee : Text
  pub body : Text
  pub prev_hash : Text
  pub sig : Text
  pub schema : Text
  pub schema_ver : Text
  pub links : List Link
  pub replayed : Bool

unfoldable pub extended : Entry → Bool
extended e =
    e.kind == kind_typed
    || not (is_empty e.schema)
    || not (is_empty e.schema_ver)
    || ltb 0 (length e.links)

-- The two slices of splitLinks, paired.
unfoldable pub split_links : List Link → List (Text × Text)
split_links = map (λ l. (l.hash, l.relation))

unfoldable pub canonical : Entry → Text
canonical e =
    if extended e
    then record_signing_bytes_v2 e.seq e.ts e.author_id e.kind e.actionee e.body e.schema
        e.schema_ver (split_links e.links) e.prev_hash
    else record_signing_bytes e.seq e.ts e.author_id e.kind e.actionee e.body e.prev_hash

-- The errors of VerifyEntry, each after the entry's seq.
pub data EntryError : Type 0 where
  key_size : ℕ → ℕ → EntryError
  wrong_author : ℕ → Text → Text → EntryError
  builtin_with_schema : ℕ → Text → EntryError
  typed_without_schema : ℕ → EntryError
  unknown_kind : ℕ → Text → EntryError
  empty_link : ℕ → ℕ → EntryError
  prev_hash_size : ℕ → ℕ → EntryError
  bad_signature : ℕ → Text → EntryError

-- The switch on Kind.
unfoldable pub check_kind : Entry → Checked EntryError
check_kind e =
    if e.kind == kind_decision
      || e.kind == kind_action
      || e.kind == kind_note
      || e.kind == kind_artifact
    then reject_if (not (is_empty e.schema) || not (is_empty e.schema_ver))
        (builtin_with_schema e.seq e.kind)
    else if e.kind == kind_typed
    then reject_if (is_empty e.schema) (typed_without_schema e.seq)
    else err (unknown_kind e.seq e.kind)

-- The loop over the links, `i` the index of the first one left.
unfoldable pub check_links : ℕ → ℕ → List Link → Checked EntryError
check_links seq i [] = ok tt
check_links seq i (l ∷ ls) =
    let rest = check_links seq (suc i) ls in
    if is_empty l.hash then err (empty_link seq i) else rest

module _ ⦃lib : Library⦄ where
  -- Entry.Hash
  unfoldable pub hash : Entry → Text
  hash e = lib.sha256 (canonical e)

  unfoldable pub verify_entry : Entry → Checked EntryError
  verify_entry e = do
    reject_if (not (eqb (length e.author_key) 32)) (key_size e.seq (length e.author_key))
    reject_if (not (fingerprint e.author_key == e.author_id))
        (wrong_author e.seq (fingerprint e.author_key) e.author_id)
    check_kind e
    check_links e.seq 0 e.links
    reject_if (not (eqb (length e.prev_hash) 32)) (prev_hash_size e.seq (length e.prev_hash))
    reject_if (not (lib.ed25519_verify e.author_key (canonical e) e.sig))
        (bad_signature e.seq e.author_id)
