-- ===== src/Attest/Revocation/Verified.antt =====
-- VerifyRevocation against a description of a sound statement.
use netherchat.Base.{
  is_empty_iff, ◌≡◌, ◌≢◌, refl, ◌↔◌, inl, inr, true, none, some, List, [], ◌∷◌, Text, ==_iff,
  length, All, Any, Option-cases, Result-cases, ok, arith, ℕ, ◌+◌,
}
use netherchat.Base.Dict.{get}
use netherchat.Record.Library.{Library}
use netherchat.Attest.Formats.{Formats}
use netherchat.Attest.Pinned.Dialect.{IsFingerprint, is_fingerprint_iff}
use netherchat.Attest.Pinned.{check_key_sizes}
use netherchat.Attest.Pinned.Anchored.{IsAnchor, check_signatures_iff, check_key_sizes_iff}
use netherchat.Attest.Reasons.{Detail}
use netherchat.Attest.Revocation.{
  Revoked, Revocation, revocation_version, signing_bytes, check_revoked, check_next_update,
  check_fields, check_statement, judge, verify_revocation, is_valid,
}

module _ ⦃lib : Library⦄ ⦃formats : Formats⦄ where
  abbrev pub IsTime : Text → Type 0
  IsTime t = formats.parse_time t ≢ none

  abbrev IsEntry : Revoked → Type 0
  IsEntry r = (r.serial ≢ []) × IsTime r.revoked_at

  abbrev IsNextUpdate : Text → Type 0
  IsNextUpdate [] = Unit
  IsNextUpdate (b ∷ bs) = IsTime (b ∷ bs)

  check_revoked_iff : (i : ℕ) (rs : List Revoked) → (check_revoked i rs ≡ ok tt) ↔ All IsEntry rs
  unfolding check_revoked
  check_revoked_iff i [] = ground arith
  check_revoked_iff i (r ∷ rs) = ground (arith, is_empty_iff r.serial, check_revoked_iff (i + 1) rs)

  check_next_update_iff : (t : Text) → (check_next_update t ≡ ok tt) ↔ IsNextUpdate t
  unfolding check_next_update
  check_next_update_iff [] = ground arith
  check_next_update_iff (b ∷ bs) = ground arith

  -- A statement that a pinned key stands behind: its fields are well formed, its named issuer has a
  -- signature, and some pinned key verifies its own over the whole statement.
  pub record IsStatement (keys : List Text) (s : Revocation) : Type 0 where
    pub version : s.version ≡ revocation_version
    pub issuer : IsFingerprint s.issuer
    pub named : s.statement_id ≢ []
    pub issued : IsTime s.issued_at
    pub next : IsNextUpdate s.next_update
    pub entries : All IsEntry s.revoked
    pub signed : (sig : Text) × (get s.issuer s.signatures ≡ some sig)
    pub anchored : Any (IsAnchor s.signatures s.signer_keys (signing_bytes s)) keys

  check_fields-ok :
      (keys : List Text) (s : Revocation) (out : List Text × Detail)
      → check_statement s keys ≡ ok out
      → IsStatement keys s
  unfolding check_statement check_fields
  check_fields-ok keys s out h = elim (Option-cases (formats.parse_time s.issued_at)) [
    | inl n ↦ absurd (ground arith)
    | inr (at, p) ↦
        let q =
          (check_signatures_iff s.signatures s.signer_keys (signing_bytes s) s.issuer keys).0
            (out, ground arith) in
        record {
          version = ground (arith, ==_iff s.version revocation_version);
          issuer = (is_fingerprint_iff s.issuer).0 (ground arith);
          named = (is_empty_iff s.statement_id).0 (ground arith);
          issued = (λ n. ground arith);
          next = (check_next_update_iff s.next_update).0 (ground arith);
          entries = (check_revoked_iff 0 s.revoked).0 (ground arith);
          signed = q.0;
          anchored = q.1;
        }
  ]

  ok-check_fields :
      (keys : List Text) (s : Revocation)
      → IsStatement keys s
      → (out : List Text × Detail) × (check_statement s keys ≡ ok out)
  unfolding check_statement check_fields
  ok-check_fields keys s i =
      let (out, q) =
        (check_signatures_iff s.signatures s.signer_keys (signing_bytes s) s.issuer keys).1
          (i.signed, i.anchored) in
      (
        out,
        ground (
          arith,
          ==_iff s.version revocation_version,
          i.version,
          (is_fingerprint_iff s.issuer).1 i.issuer,
          (is_empty_iff s.statement_id).1 i.named,
          i.issued,
          (check_next_update_iff s.next_update).1 i.next,
          (check_revoked_iff 0 s.revoked).1 i.entries,
        ),
      )

  pub judge_iff :
      (keys : List Text) (s : Revocation) → ((judge s keys).valid ≡ true) ↔ IsStatement keys s
  unfolding judge
  judge_iff keys s = elim (Result-cases (check_statement s keys)) [
    | inl (out, q) ↦ ((λ _. check_fields-ok keys s out q), (λ _. rw (q, judge) refl))
    | inr (why, q) ↦ (
      (λ v. absurd (ground arith)),
      (λ i. let (out, p) = ok-check_fields keys s i in absurd (ground arith)),
    )
  ]

  -- VerifyRevocation calls a statement valid exactly if every pinned key has 32 bytes and a pinned
  -- key stands behind the statement.
  pub verify_revocation_iff :
      (keys : List Text) (s : Revocation)
      → (is_valid (verify_revocation (some s) keys) ≡ true)
        ↔ (All (λ k. length k ≡ 32) keys × IsStatement keys s)
  unfolding verify_revocation
  verify_revocation_iff keys s = elim (Result-cases (check_key_sizes 0 keys)) [
    | inl (u, q) ↦ (
      (λ v. ((check_key_sizes_iff 0 keys).0 q, (judge_iff keys s).0 (ground arith))),
      (λ (k, i). ground (arith, (judge_iff keys s).1 i)),
    )
    | inr (e, q) ↦ (
      (λ v. absurd (ground arith)),
      (λ (k, i). absurd (ground (arith, (check_key_sizes_iff 0 keys).1 k))),
    )
  ]
