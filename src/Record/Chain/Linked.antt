-- ===== src/Record/Chain/Linked.antt =====
-- A chain is linked: every entry is authentic, numbered by its place and carries the hash of the
-- entry before it.
use netherchat.Base.{
  ℕ, suc, ◌+◌, ◌≡◌, refl, sym, ◌∙◌, subst, List, [], ◌∷◌, ◌++◌, Text, ==_iff, length, last_or, ◌↔◌,
  Checked, ok, err, arith,
}
use netherchat.Record.Library.{Library}
use netherchat.Record.Entry.{Entry, EntryError, hash, verify_entry}
use netherchat.Record.Entry.Authentic.{IsAuthentic, verify_entry_iff}
use netherchat.Record.Chain.{Chain, u64, zero_hash, wrap, head, head_of, append_remote}

module _ ⦃lib : Library⦄ where
  -- The entry continues a chain of `n` entries whose head is `prev`.
  pub record Continues (n : ℕ) (prev : Text) (e : Entry) : Type 0 where
    pub seq : e.seq ≡ u64 n
    pub link : e.prev_hash ≡ prev
    pub authentic : IsAuthentic e

  abbrev pub IsLinked : ℕ → Text → List Entry → Type 0
  IsLinked n prev [] = Unit
  IsLinked n prev (e ∷ es) = Continues n prev e × IsLinked (suc n) (hash e) es

  -- The head after the entries, from a head before them.
  abbrev pub head_from : Text → List Entry → Text
  head_from prev [] = prev
  head_from prev (e ∷ es) = head_from (hash e) es

  head_from-last : (e : Entry) (es : List Entry) → head_from (hash e) es ≡ hash (last_or e es)
  head_from-last e [] = refl
  head_from-last e (f ∷ es) = head_from-last f es

  pub head_of-eq : (es : List Entry) → head_of es ≡ head_from zero_hash es
  unfolding head_of
  head_of-eq [] = refl
  head_of-eq (e ∷ es) = cc (head_from-last e es)

  IsLinked-snoc :
      (n : ℕ) (prev : Text) (es : List Entry) (e : Entry)
      → IsLinked n prev es
      → Continues (n + length es) (head_from prev es) e
      → IsLinked n prev (es ++ e ∷ [])
  IsLinked-snoc n prev [] e h k = (subst (λ m. Continues m prev e) (omega arith) k, tt)
  IsLinked-snoc n prev (f ∷ es) e h k = (
    h.0,
    IsLinked-snoc (suc n) (hash f) es e h.1
        (subst (λ m. Continues m (head_from (hash f) es) e) (omega arith) k),
  )

  abbrev pub IsChain : Chain → Type 0
  IsChain c = IsLinked 0 zero_hash c.entries

  wrap_iff : (r : Checked EntryError) → (wrap r ≡ ok tt) ↔ (r ≡ ok tt)
  wrap_iff (ok u) = ground arith
  wrap_iff (err e) = ground arith

  -- AppendRemote accepts exactly the entries that continue the chain, and then adds the entry at the
  -- end.
  pub append_remote_iff :
      (c d : Chain) (e : Entry)
      → (append_remote c e ≡ ok d)
        ↔ (Continues (length c.entries) (head c) e × (d ≡ record { entries = c.entries ++ e ∷ [] }))
  unfolding append_remote
  append_remote_iff c d e = (
    accepted,
    λ h. ground (
      arith,
      (verify_entry_iff e).1 h.0.authentic,
      h.0.seq,
      h.0.link,
      ==_iff e.prev_hash (head c),
    ),
  )
    where
      accepted :
          append_remote c e ≡ ok d
          → Continues (length c.entries) (head c) e × (d ≡ record { entries = c.entries ++ e ∷ [] })
      accepted h = (
        record {
          seq = ground arith;
          link = ground (arith, ==_iff e.prev_hash (head c));
          authentic = (verify_entry_iff e).0 (ground (arith, wrap_iff (verify_entry e)));
        },
        ground arith,
      )

  -- AppendRemote keeps a chain linked.
  pub append_remote-IsChain :
      (c d : Chain) (e : Entry) → append_remote c e ≡ ok d → IsChain c → IsChain d
  unfolding head
  append_remote-IsChain c d e h k =
      let (p, q) = (append_remote_iff c d e).0 h in
      subst IsChain (sym q) (IsLinked-snoc 0 zero_hash c.entries e k (at_end p))
    where
      at_end :
          Continues (length c.entries) (head c) e
          → Continues (0 + length c.entries) (head_from zero_hash c.entries) e
      at_end p = record {
        seq = omega arith;
        link = p.link ∙ head_of-eq c.entries;
        authentic = p.authentic;
      }
