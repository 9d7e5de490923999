-- ===== src/Record/Chain/Converge.antt =====
-- The author of an entry and every peer that holds the same chain end with the same chain.
use netherchat.Base.{
  ◌≡◌, refl, sym, true, some, [], ◌∷◌, ◌++◌, Text, length, All, ◌≢◌, Option-cases, ok, arith, subst,
  ◌⊎◌, inl, inr,
}
use netherchat.Base.Int.{ℤ}
use netherchat.Record.Library.{Library, fingerprint}
use netherchat.Record.Entry.{Entry, kind_typed, canonical, extended, hash}
use netherchat.Record.Entry.Authentic.{IsBuiltin}
use netherchat.Record.Chain.{Chain, Author, EntrySpec, head, head_of, draft, append, append_remote}
use netherchat.Record.Chain.Linked.{Continues, IsChain, append_remote_iff, append_remote-IsChain}

module _ ⦃lib : Library⦄ where
  -- The identity: its key hashes to its id, and what it signs verifies under the key.
  pub record IsIdentity (a : Author) : Type 0 where
    pub key_size : length a.key ≡ 32
    pub key_id : fingerprint a.key ≡ a.id
    pub signs : (m s : Text) → a.sign m ≡ some s → lib.ed25519_verify a.key m s ≡ true

  -- A spec that VerifyEntry can accept; Append itself checks none of it.
  pub record IsSpec (s : EntrySpec) : Type 0 where
    pub kind :
        (IsBuiltin s.kind × (s.schema ≡ []) × (s.schema_ver ≡ []))
        ⊎ ((s.kind ≡ kind_typed) × (s.schema ≢ []))
    pub links : All (λ l. l.hash ≢ []) s.links

  length-head : (c : Chain) → length (head c) ≡ 32
  unfolding head head_of hash
  length-head c = elim c.entries as (λ es. length (head_of es) ≡ 32) [
    | [] ↦ refl
    | e ∷ es ↦ lib.sha256_size _
  ]

  abbrev signed : Chain → Author → ℤ → EntrySpec → Text → Entry
  signed c a now spec sig = record (draft c a now spec) { sig = sig }

  -- What Append returned is the draft with the author's signature, at the end of the chain.
  append_parts :
      (c d : Chain) (a : Author) (now : ℤ) (spec : EntrySpec) (e : Entry)
      → append c a now spec ≡ ok (d, e)
      → (sig : Text) × (a.sign (canonical (draft c a now spec)) ≡ some sig)
        × (e ≡ signed c a now spec sig)
        × (d ≡ record { entries = c.entries ++ e ∷ [] })
  unfolding append
  append_parts c d a now spec e h = elim (Option-cases (a.sign (canonical (draft c a now spec)))) [
    | inl q ↦ absurd (ground arith)
    | inr (s, q) ↦ (s, q, ground arith, ground arith)
  ]

  signed-Continues :
      (c : Chain) (a : Author) (now : ℤ) (spec : EntrySpec) (sig : Text)
      → IsIdentity a
      → IsSpec spec
      → a.sign (canonical (draft c a now spec)) ≡ some sig
      → Continues (length c.entries) (head c) (signed c a now spec sig)
  unfolding draft canonical extended
  signed-Continues c a now spec sig ident good h = record {
    seq = refl;
    link = refl;
    authentic = record {
      key_size = ident.key_size;
      author = ident.key_id;
      kind = good.kind;
      links = good.links;
      prev_size = length-head c;
      signed = ident.signs _ sig h;
    };
  }

  -- An entry that Append signed is accepted by AppendRemote on any copy of the chain, with the chain
  -- that Append left as the result.
  pub append-append_remote :
      (c d : Chain) (a : Author) (now : ℤ) (spec : EntrySpec) (e : Entry)
      → IsIdentity a
      → IsSpec spec
      → append c a now spec ≡ ok (d, e)
      → append_remote c e ≡ ok d
  append-append_remote c d a now spec e ident good h =
      let (sig, q, he, hd) = append_parts c d a now spec e h in
      (append_remote_iff c d e).1 (
        subst (Continues (length c.entries) (head c)) (sym he)
            (signed-Continues c a now spec sig ident good q),
        hd,
      )

  -- Append of a valid spec by an identity keeps a chain linked.
  pub append-IsChain :
      (c d : Chain) (a : Author) (now : ℤ) (spec : EntrySpec) (e : Entry)
      → IsIdentity a
      → IsSpec spec
      → append c a now spec ≡ ok (d, e)
      → IsChain c
      → IsChain d
  append-IsChain c d a now spec e ident good h =
      append_remote-IsChain c d e (append-append_remote c d a now spec e ident good h)
