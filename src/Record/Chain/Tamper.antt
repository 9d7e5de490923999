-- ===== src/Record/Chain/Tamper.antt =====
-- One head, one history: the chain head determines what every entry states.
use netherchat.Base.{
  ℕ, suc, ◌+◌, ◌^◌, ◌<◌, ◌≡◌, ◌≢◌, refl, ap, sym, ◌∙◌, ◌⊎◌, inl, inr, List, [], ◌∷◌, map, Text,
  ◌==◌, ==_iff, Bool-cases, length, last_or, All, if◌then◌else◌, arith,
}
use netherchat.Protocol.Statement.{Statement, entry, entry_v2, bytes, IsSized}
use netherchat.Protocol.Injective.{bytes-injective}
use netherchat.Record.Library.{Library}
use netherchat.Record.Entry.{Entry, extended, canonical, split_links, hash}
use netherchat.Record.Chain.{u64, zero_hash, head_of}
use netherchat.Record.Chain.Linked.{IsLinked, head_from, head_of-eq}

-- What an entry's signature and hash cover.
abbrev pub statement : Entry → Statement
statement e =
    if extended e
    then entry_v2 e.seq e.ts e.author_id e.kind e.actionee e.body e.schema e.schema_ver
        (split_links e.links) e.prev_hash
    else entry e.seq e.ts e.author_id e.kind e.actionee e.body e.prev_hash

canonical-eq : (e : Entry) → canonical e ≡ bytes (statement e)
unfolding canonical
canonical-eq e = ground arith

abbrev seq_of : Statement → ℕ
seq_of (entry seq _ _ _ _ _ _) = seq
seq_of (entry_v2 seq _ _ _ _ _ _ _ _ _) = seq
seq_of _ = 0

abbrev prev_of : Statement → Text
prev_of (entry _ _ _ _ _ _ p) = p
prev_of (entry_v2 _ _ _ _ _ _ _ _ _ p) = p
prev_of _ = []

seq-statement : (e : Entry) → seq_of (statement e) ≡ e.seq
seq-statement e = ground arith

prev-statement : (e : Entry) → prev_of (statement e) ≡ e.prev_hash
prev-statement e = ground arith

module _ ⦃lib : Library⦄ where
  -- Two texts with one SHA-256 hash, or a text whose hash is 32 zero bytes.
  abbrev pub Broken : Type 0
  Broken =
      ((x : Text) × (y : Text) × (x ≢ y) × (lib.sha256 x ≡ lib.sha256 y))
      ⊎ ((x : Text) × (lib.sha256 x ≡ zero_hash))

  -- Entries with one hash state the same, unless SHA-256 is broken.
  same_hash :
      (e f : Entry)
      → IsSized (statement e)
      → IsSized (statement f)
      → hash e ≡ hash f
      → (statement e ≡ statement f) ⊎ Broken
  unfolding hash
  same_hash e f se sf h = elim (Bool-cases (canonical e == canonical f)) [
    | inl q ↦ inl (
        bytes-injective (statement e) (statement f) se sf
          (sym (canonical-eq e) ∙ (==_iff (canonical e) (canonical f)).0 q ∙ canonical-eq f))
    | inr q ↦ inr (
        inl
          (canonical e, canonical f, (λ p. ground (arith, ==_iff (canonical e) (canonical f))), h))
  ]

  abbrev IsSizedEntry : Entry → Type 0
  IsSizedEntry e = IsSized (statement e)

  -- Linked runs of one length with one head start from one head, and state the same.
  same_head_from :
      (n : ℕ) (p q : Text) (es fs : List Entry)
      → length es ≡ length fs
      → IsLinked n p es
      → IsLinked n q fs
      → All IsSizedEntry es
      → All IsSizedEntry fs
      → head_from p es ≡ head_from q fs
      → ((p ≡ q) × (map statement es ≡ map statement fs)) ⊎ Broken
  same_head_from n p q [] [] l he hf se sf h = inl (h, refl)
  same_head_from n p q [] (f ∷ fs) l he hf se sf h = absurd (omega arith)
  same_head_from n p q (e ∷ es) [] l he hf se sf h = absurd (omega arith)
  same_head_from n p q (e ∷ es) (f ∷ fs) l he hf se sf h =
      elim (same_head_from (suc n) (hash e) (hash f) es fs (omega arith) he.1 hf.1 se.1 sf.1 h) [
        | inr b ↦ inr b
        | inl (a, m) ↦ elim (same_hash e f se.0 sf.0 a) [
          | inr b ↦ inr b
          | inl s ↦ inl (
            sym he.0.link ∙ sym (prev-statement e) ∙ ap prev_of s ∙ prev-statement f ∙ hf.0.link,
            cc,
          )
        ]
      ]

  last-seq :
      (n : ℕ) (p : Text) (e : Entry) (es : List Entry)
      → IsLinked n p (e ∷ es)
      → (last_or e es).seq ≡ u64 (n + length es)
  last-seq n p e [] h = h.0.seq ∙ ap u64 (omega arith)
  last-seq n p e (f ∷ es) h = last-seq (suc n) (hash e) f es h.1 ∙ ap u64 (omega arith)

  last-IsSized :
      (e : Entry) (es : List Entry) → All IsSizedEntry (e ∷ es) → IsSizedEntry (last_or e es)
  last-IsSized e [] h = h.0
  last-IsSized e (f ∷ es) h = last-IsSized f es h.1

  -- Two linked chains with one head have entries that state the same, in the same order, unless
  -- SHA-256 is broken: two texts with one hash are at hand, or a text whose hash is 32 zero bytes.
  -- The values of the entries are of Go's ranges.
  pub head_of-injective :
      (es fs : List Entry)
      → IsLinked 0 zero_hash es
      → IsLinked 0 zero_hash fs
      → All IsSizedEntry es
      → All IsSizedEntry fs
      → length es < 2 ^ 64
      → length fs < 2 ^ 64
      → head_of es ≡ head_of fs
      → (map statement es ≡ map statement fs) ⊎ Broken
  unfolding head_of hash
  head_of-injective [] [] he hf se sf le lf h = inl refl
  head_of-injective [] (f ∷ fs) he hf se sf le lf h = inr (inr (canonical (last_or f fs), sym h))
  head_of-injective (e ∷ es) [] he hf se sf le lf h = inr (inr (canonical (last_or e es), h))
  head_of-injective (e ∷ es) (f ∷ fs) he hf se sf le lf h =
      elim (same_hash (last_or e es) (last_or f fs) (last-IsSized e es se) (last-IsSized f fs sf)
        h) [
          | inr b ↦ inr b
          | inl s ↦
              elim (same_head_from 0 zero_hash zero_hash (e ∷ es) (f ∷ fs) (lengths s) he hf se sf
                (sym (head_of-eq (e ∷ es)) ∙ h ∙ head_of-eq (f ∷ fs))) [
                  | inr b ↦ inr b
                  | inl r ↦ inl (r.1)
                ]
        ]
    where
      lengths :
          statement (last_or e es) ≡ statement (last_or f fs) → length (e ∷ es) ≡ length (f ∷ fs)
      lengths s =
          let q : (last_or e es).seq ≡ (last_or f fs).seq =
            sym (seq-statement (last_or e es)) ∙ ap seq_of s ∙ seq-statement (last_or f fs) in
          omega (arith, q, last-seq 0 zero_hash e es he, last-seq 0 zero_hash f fs hf)
