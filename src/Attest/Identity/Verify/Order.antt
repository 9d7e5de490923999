-- ===== src/Attest/Identity/Verify/Order.antt =====
-- The verdict of VerifyIdentity does not depend on the order of the pinned keys and the statements.
use netherchat.Base.{
  ◌≡◌, refl, sym, subst, inl, inr, Bool, true, false, Option, none, some, List, [], ◌∷◌, length,
  All, Any,
}
use netherchat.Record.Library.{Library}
use netherchat.Attest.Formats.{Formats}
use netherchat.Attest.Revocation.{Revocation}
use netherchat.Attest.Identity.{Attestation, Options}
use netherchat.Attest.Identity.Verify.{verify_identity}
use netherchat.Attest.Identity.Verify.Withdrawn.{IsClear}
use netherchat.Attest.Identity.Verify.Sound.{is_valid, verify_identity_iff}

module _ {A : Type 0} where
  -- What is in the one list is in the other.
  abbrev pub Within : List A → List A → Type 0
  Within xs ys = All (λ x. Any (λ y. y ≡ x) ys) xs

  All-at : (P : A → Type 0) (x : A) (ys : List A) → Any (λ y. y ≡ x) ys → All P ys → P x
  All-at P x [] m h = absurd m
  All-at P x (y ∷ ys) (inl e) h = subst P e h.0
  All-at P x (y ∷ ys) (inr m) h = All-at P x ys m h.1

  All-within : (P : A → Type 0) (xs ys : List A) → Within xs ys → All P ys → All P xs
  All-within P [] ys w h = tt
  All-within P (x ∷ xs) ys w h = (All-at P x ys w.0 h, All-within P xs ys w.1 h)

  Any-at : (P : A → Type 0) (x : A) (ys : List A) → Any (λ y. y ≡ x) ys → P x → Any P ys
  Any-at P x [] m p = m
  Any-at P x (y ∷ ys) (inl e) p = inl (subst P (sym e) p)
  Any-at P x (y ∷ ys) (inr m) p = inr (Any-at P x ys m p)

  Any-within : (P : A → Type 0) (xs ys : List A) → Within xs ys → Any P xs → Any P ys
  Any-within P [] ys w h = absurd h
  Any-within P (x ∷ xs) ys w (inl p) = Any-at P x ys w.0 p
  Any-within P (x ∷ xs) ys w (inr h) = Any-within P xs ys w.1 h

Bool-iff : (b c : Bool) → (b ≡ true → c ≡ true) → (c ≡ true → b ≡ true) → b ≡ c
Bool-iff true c f g = sym (f refl)
Bool-iff false true f g = g refl
Bool-iff false false f g = refl

module _ ⦃lib : Library⦄ ⦃formats : Formats⦄ where
  Within-IsClear :
      (a : Attestation) (opts other : Options)
      → Within opts.issuer_keys other.issuer_keys
      → (ss : List (Option Revocation)) → All (IsClear a opts) ss
      → All (IsClear a other) ss
  Within-IsClear a opts other w [] h = tt
  Within-IsClear a opts other w (none ∷ ss) h = (tt, Within-IsClear a opts other w ss h.1)
  Within-IsClear a opts other w (some s ∷ ss) h =
      let i = h.0.0 in
      (
        (
          record {
            version = i.version;
            issuer = i.issuer;
            named = i.named;
            issued = i.issued;
            next = i.next;
            entries = i.entries;
            signed = i.signed;
            anchored = Any-within _ opts.issuer_keys other.issuer_keys w i.anchored;
          },
          h.0.1,
        ),
        Within-IsClear a opts other w ss h.1,
      )

  carry :
      (a : Attestation) (opts other : Options)
      → opts.at ≡ other.at
      → Within opts.issuer_keys other.issuer_keys
      → Within other.issuer_keys opts.issuer_keys
      → Within other.revocations opts.revocations
      → is_valid (verify_identity (some a) opts) ≡ true
      → is_valid (verify_identity (some a) other) ≡ true
  carry a opts other e w v r h =
      let (sizes, set, i) = (verify_identity_iff a opts).0 h in
      (verify_identity_iff a other).1 (
        All-within (λ k. length k ≡ 32) other.issuer_keys opts.issuer_keys v sizes,
        rw (sym e) set,
        record {
          not_before = i.not_before;
          not_after = i.not_after;
          shaped = i.shaped;
          signed = i.signed;
          anchored = Any-within _ opts.issuer_keys other.issuer_keys w i.anchored;
          opened = rw (sym e) i.opened;
          open_still = rw (sym e) i.open_still;
          clear =
              Within-IsClear a opts other w other.revocations
                (All-within (IsClear a opts) other.revocations opts.revocations r i.clear);
        },
      )

  -- VerifyIdentity at one instant, with the same pinned keys and the same revocation statements in any
  -- order and any number of times, calls an attestation valid both times or neither time.
  pub verify_identity-order :
      (a : Attestation) (opts other : Options)
      → opts.at ≡ other.at
      → Within opts.issuer_keys other.issuer_keys
      → Within other.issuer_keys opts.issuer_keys
      → Within opts.revocations other.revocations
      → Within other.revocations opts.revocations
      → is_valid (verify_identity (some a) opts) ≡ is_valid (verify_identity (some a) other)
  verify_identity-order a opts other e w v r q =
      Bool-iff (is_valid (verify_identity (some a) opts))
        (is_valid (verify_identity (some a) other)) (carry a opts other e w v q)
        (carry a other opts (sym e) v w r)
