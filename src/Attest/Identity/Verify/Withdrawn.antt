-- ===== src/Attest/Identity/Verify/Withdrawn.antt =====
-- When the supplied revocation statements leave a serial standing.
use netherchat.Base.{
  ◌≡◌, ◌≢◌, refl, sym, ◌∙◌, ◌↔◌, inl, inr, Bool, true, false, not, ◌&&◌, Option, none, some, List,
  [], ◌∷◌, Text, ◌==◌, ==_iff, eqb, empty_of_length, subst, is_empty, length, All, Bool-cases,
  arith,
}
use netherchat.Record.Library.{Library}
use netherchat.Attest.Formats.{Formats}
use netherchat.Attest.Revocation.{Revoked as Withdrawal, Revocation, verify_revocation, is_valid}
use netherchat.Attest.Revocation.Verified.{IsStatement, verify_revocation_iff}
use netherchat.Attest.Identity.{Attestation, Options, IdentityResult}
use netherchat.Attest.Identity.Verify.{
  Checks, no_checks, id_of, set_first, lists, check_of, check_revocation, check_revocations,
  conclude,
}

lists_iff :
    (serial : Text) (rs : List Withdrawal)
    → (lists serial rs ≡ false) ↔ All (λ r. r.serial ≢ serial) rs
unfolding lists
lists_iff serial [] = ground arith
lists_iff serial (r ∷ rs) = ground (arith, lists_iff serial rs, ==_iff r.serial serial)

-- Nothing bad was found.
abbrev pub is_clean : Checks → Bool
is_clean c = is_empty c.unverifiable && is_empty c.revoked_by

set_first-id : (x : Text) (s : Revocation) → is_empty (set_first x (id_of s)) ≡ false
set_first-id [] s = elim (Bool-cases (is_empty s.statement_id)) [
  | inl e ↦ rw e refl
  | inr e ↦ rw (e, e) refl
]
set_first-id (b ∷ bs) s = refl

module _ ⦃lib : Library⦄ ⦃formats : Formats⦄ (a : Attestation) (opts : Options) where
  -- A supplied statement that some pinned key stands behind, and that does not withdraw the serial,
  -- by name of the same issuer. A nil statement is skipped.
  abbrev pub IsClear : Option Revocation → Type 0
  IsClear none = Unit
  IsClear (some s) =
      IsStatement opts.issuer_keys s
      × (s.issuer ≡ a.issuer → All (λ r. r.serial ≢ a.serial) s.revoked)

  abbrev is_clear : Option Revocation → Bool
  is_clear none = true
  is_clear (some s) =
      is_valid (verify_revocation (some s) opts.issuer_keys) && not (check_of a opts s).listed

  step-clean :
      (st : Checks) (s : Option Revocation)
      → is_clean (check_revocation a opts st s) ≡ (is_clean st && is_clear s)
  unfolding check_revocation
  step-clean st none = ground arith
  step-clean st (some s) =
      ground (arith, set_first-id st.unverifiable s, set_first-id st.revoked_by s)

  abbrev all_clear : List (Option Revocation) → Bool
  all_clear [] = true
  all_clear (s ∷ ss) = is_clear s && all_clear ss

  check-clean :
      (st : Checks) (ss : List (Option Revocation))
      → is_clean (check_revocations a opts st ss) ≡ (is_clean st && all_clear ss)
  unfolding check_revocations
  check-clean st [] = ground arith
  check-clean st (s ∷ ss) =
      ground (arith, check-clean (check_revocation a opts st s) ss, step-clean st s)

  module _ (sizes : All (λ k. length k ≡ 32) opts.issuer_keys) where
    accepted_iff :
        (s : Revocation)
        → (is_valid (verify_revocation (some s) opts.issuer_keys) ≡ true)
          ↔ IsStatement opts.issuer_keys s
    accepted_iff s =
        let v = verify_revocation_iff opts.issuer_keys s in
        ((λ h. (v.0 h).1), (λ i. v.1 (sizes, i)))

    listed_iff :
        (s : Revocation)
        → ((check_of a opts s).listed ≡ false)
          ↔ (s.issuer ≡ a.issuer → All (λ r. r.serial ≢ a.serial) s.revoked)
    listed_iff s = elim (Bool-cases (s.issuer == a.issuer)) [
      | inl y ↦ (
        (λ h e. (lists_iff a.serial s.revoked).0 (ground arith)),
        (λ f. rw y ((lists_iff a.serial s.revoked).1 (f ((==_iff s.issuer a.issuer).0 y)))),
      )
      | inr n ↦ ((λ h e. absurd (ground (arith, ==_iff s.issuer a.issuer))), (λ f. rw n refl))
    ]

    is_clear_iff : (s : Option Revocation) → (is_clear s ≡ true) ↔ IsClear s
    is_clear_iff none = ground arith
    is_clear_iff (some s) = (
      (λ h. ((accepted_iff s).0 (ground arith), (listed_iff s).0 (ground arith))),
      (λ (i, f). rw ((accepted_iff s).1 i, (listed_iff s).1 f) refl),
    )

    all_clear_iff : (ss : List (Option Revocation)) → (all_clear ss ≡ true) ↔ All IsClear ss
    all_clear_iff [] = ground arith
    all_clear_iff (s ∷ ss) = (
      (λ h. ((is_clear_iff s).0 (ground arith), (all_clear_iff ss).0 (ground arith))),
      (λ (p, q). ground (arith, (is_clear_iff s).1 p, (all_clear_iff ss).1 q)),
    )

    clean_iff :
        (ss : List (Option Revocation))
        → (is_clean (check_revocations a opts no_checks ss) ≡ true) ↔ All IsClear ss
    clean_iff ss = (
      (λ h. (all_clear_iff ss).0 (sym (check-clean no_checks ss) ∙ h)),
      (λ h. check-clean no_checks ss ∙ (all_clear_iff ss).1 h),
    )

    -- Step 8 calls the attestation valid exactly if every supplied statement is clear.
    pub conclude_iff :
        (res : IdentityResult) → ((conclude a opts res).valid ≡ true) ↔ All IsClear opts.revocations
    unfolding conclude
    conclude_iff res = elim (Bool-cases (eqb (length opts.revocations) 0)) [
      | inl z ↦ (
        (λ h. subst (All IsClear) (sym (empty_of_length opts.revocations z)) tt),
        (λ h. rw z refl),
      )
      | inr n ↦ (
        (λ h. (clean_iff opts.revocations).0 (ground arith)),
        (λ h. let c = (clean_iff opts.revocations).1 h in ground arith),
      )
    ]
