-- ===== src/Record/Entry/Authentic.antt =====
-- What VerifyEntry accepts, said without its order of tests.
use netherchat.Base.{
  ℕ, suc, ◌≡◌, refl, ◌≢◌, ◌⊎◌, true, List, [], ◌∷◌, Text, ==_iff, is_empty, length, All, ok, ◌↔◌,
  arith,
}
use netherchat.Record.Library.{Library, fingerprint}
use netherchat.Record.Entry.{
  Entry, Link, kind_decision, kind_action, kind_note, kind_artifact, kind_typed, canonical,
  check_kind, check_links, verify_entry,
}

abbrev pub IsBuiltin : Text → Type 0
IsBuiltin k = (k ≡ kind_decision) ⊎ (k ≡ kind_action) ⊎ (k ≡ kind_note) ⊎ (k ≡ kind_artifact)

-- A built-in kind has no schema tag, and a typed entry has one.
abbrev pub IsKind : Entry → Type 0
IsKind e =
    (IsBuiltin e.kind × (e.schema ≡ []) × (e.schema_ver ≡ []))
    ⊎ ((e.kind ≡ kind_typed) × (e.schema ≢ []))

module _ ⦃lib : Library⦄ where
  -- The key is the author's and signed the canonical bytes of a well-formed entry.
  pub record IsAuthentic (e : Entry) : Type 0 where
    pub key_size : length e.author_key ≡ 32
    pub author : fingerprint e.author_key ≡ e.author_id
    pub kind : IsKind e
    pub links : All (λ l. l.hash ≢ []) e.links
    pub prev_size : length e.prev_hash ≡ 32
    pub signed : lib.ed25519_verify e.author_key (canonical e) e.sig ≡ true

empty_iff : (t : Text) → (is_empty t ≡ true) ↔ (t ≡ [])
empty_iff t = ground arith

check_links-ok :
    (seq i : ℕ) (ls : List Link) → check_links seq i ls ≡ ok tt → All (λ l. l.hash ≢ []) ls
unfolding check_links
check_links-ok seq i [] h = tt
check_links-ok seq i (l ∷ ls) h =
    ((λ e. ground arith), check_links-ok seq (suc i) ls (ground arith))

ok-check_links :
    (seq i : ℕ) (ls : List Link) → All (λ l. l.hash ≢ []) ls → check_links seq i ls ≡ ok tt
unfolding check_links
ok-check_links seq i [] h = refl
ok-check_links seq i (l ∷ ls) h = ground (arith, ok-check_links seq (suc i) ls h.1)

check_kind-ok : (e : Entry) → check_kind e ≡ ok tt → IsKind e
unfolding check_kind
check_kind-ok e h = ground (
  arith,
  ==_iff e.kind kind_decision,
  ==_iff e.kind kind_action,
  ==_iff e.kind kind_note,
  ==_iff e.kind kind_artifact,
  ==_iff e.kind kind_typed,
)

ok-check_kind : (e : Entry) → IsKind e → check_kind e ≡ ok tt
unfolding check_kind
ok-check_kind e h = ground (
  arith,
  ==_iff e.kind kind_decision,
  ==_iff e.kind kind_action,
  ==_iff e.kind kind_note,
  ==_iff e.kind kind_artifact,
  ==_iff e.kind kind_typed,
)

module _ ⦃lib : Library⦄ where
  -- VerifyEntry accepts exactly the entries whose author key is 32 bytes long, hashes to the
  -- claimed author and signed the canonical bytes, whose kind and schema tag agree, whose links
  -- name a hash and whose prev_hash is 32 bytes long.
  pub verify_entry_iff : (e : Entry) → (verify_entry e ≡ ok tt) ↔ IsAuthentic e
  unfolding verify_entry
  verify_entry_iff e = (
    accepted,
    λ h. ground (
      arith,
      ==_iff (fingerprint e.author_key) e.author_id,
      ok-check_kind e h.kind,
      ok-check_links e.seq 0 e.links h.links,
    ),
  )
    where
      accepted : verify_entry e ≡ ok tt → IsAuthentic e
      accepted h = record {
        key_size = ground arith;
        author = ground (arith, ==_iff (fingerprint e.author_key) e.author_id);
        kind = check_kind-ok e (ground arith);
        links = check_links-ok e.seq 0 e.links (ground arith);
        prev_size = ground arith;
        signed = ground arith;
      }
