-- ===== src/Attest/Roster/Members.antt =====
-- What the set hash says about the members.
use netherchat.Base.{
  ◌≡◌, ◌≢◌, refl, sym, ◌∙◌, ap, subst, ◌⊎◌, inl, inr, true, false, List, [], ◌∷◌, ◌++◌, Text, ◌==◌,
  less, All, Bool-cases, arith,
}
use netherchat.Base.Dict.{keys}
use netherchat.Base.Sort.{sort_strings, sort_by, insert}
use netherchat.Record.Library.{Library}
use netherchat.Attest.Roster.{Member, Roster, join_lines, fprs_of, set_hash_of, verify_roster}
use netherchat.Base.{==_iff, Bool}
use netherchat.Base.Sort.{All-sort}
use netherchat.Protocol.Attest.{roster_signing_bytes}
use netherchat.Attest.Signers.Sound.{IsSigner}
use netherchat.Attest.Roster.Verified.{IsRoster, verify_roster_iff}

-- A fingerprint is not empty and holds no newline.
abbrev pub IsLine : Text → Type 0
IsLine t = (t ≢ []) × All (λ b. b ≢ 10) t

line_cancel :
    (a b x y : Text)
    → All (λ c. c ≢ 10) a
    → All (λ c. c ≢ 10) b
    → a ++ 10 ∷ x ≡ b ++ 10 ∷ y
    → (a ≡ b) × (x ≡ y)
line_cancel [] [] x y ha hb e = (refl, cc)
line_cancel [] (b ∷ bs) x y ha hb e = absurd (hb.0 (cc e))
line_cancel (a ∷ xs) [] x y ha hb e = absurd (ha.0 (cc e))
line_cancel (a ∷ xs) (b ∷ ys) x y ha hb e =
    let (p, q) = line_cancel xs ys x y ha.1 hb.1 (cc) in (cc, q)

line_ne : (a b x : Text) → All (λ c. c ≢ 10) a → a ≡ b ++ 10 ∷ x → ⊥
line_ne [] [] x ha e = cc e
line_ne [] (b ∷ bs) x ha e = cc e
line_ne (a ∷ xs) [] x ha e = ha.0 (cc e)
line_ne (a ∷ xs) (b ∷ ys) x ha e = line_ne xs ys x ha.1 (cc)

append_ne : (a x : Text) → a ++ 10 ∷ x ≡ [] → ⊥
append_ne [] x e = cc e
append_ne (a ∷ xs) x e = cc e

join_injective :
    (xs ys : List Text) → All IsLine xs → All IsLine ys → join_lines xs ≡ join_lines ys → xs ≡ ys
unfolding join_lines
join_injective [] [] hx hy e = refl
join_injective [] (y ∷ []) hx hy e = absurd (hy.0.0 (sym e))
join_injective [] (y ∷ z ∷ ys) hx hy e = absurd (append_ne y (join_lines (z ∷ ys)) (sym e))
join_injective (x ∷ []) [] hx hy e = absurd (hx.0.0 e)
join_injective (x ∷ z ∷ xs) [] hx hy e = absurd (append_ne x (join_lines (z ∷ xs)) e)
join_injective (x ∷ []) (y ∷ []) hx hy e = cc e
join_injective (x ∷ []) (y ∷ z ∷ ys) hx hy e = absurd (line_ne x y (join_lines (z ∷ ys)) hx.0.1 e)
join_injective (x ∷ z ∷ xs) (y ∷ []) hx hy e =
    absurd (line_ne y x (join_lines (z ∷ xs)) hy.0.1 (sym e))
join_injective (x ∷ w ∷ xs) (y ∷ z ∷ ys) hx hy e =
    let (p, q) = line_cancel x y (join_lines (w ∷ xs)) (join_lines (z ∷ ys)) hx.0.1 hy.0.1 e in
    let r = join_injective (w ∷ xs) (z ∷ ys) hx.1 hy.1 q in cc

All-sort_strings : (P : Text → Type 0) (xs : List Text) → All P xs → All P (sort_strings xs)
All-sort_strings P xs h = All-sort less P xs h

module _ ⦃lib : Library⦄ where
  -- Two texts with one SHA-256 hash.
  abbrev pub Collision : Type 0
  Collision = (x : Text) × (y : Text) × (x ≢ y) × (lib.sha256 x ≡ lib.sha256 y)

  -- One set hash means one set of fingerprints, where no fingerprint is empty or holds a newline.
  set_hash_of-injective :
      (xs ys : List Text)
      → All IsLine xs
      → All IsLine ys
      → set_hash_of xs ≡ set_hash_of ys
      → (sort_strings xs ≡ sort_strings ys) ⊎ Collision
  unfolding set_hash_of
  set_hash_of-injective xs ys hx hy e =
      elim (Bool-cases (join_lines (sort_strings xs) == join_lines (sort_strings ys))) [
        | inl q ↦ inl (
            join_injective (sort_strings xs) (sort_strings ys) (All-sort_strings IsLine xs hx)
              (All-sort_strings IsLine ys hy)
              ((==_iff (join_lines (sort_strings xs)) (join_lines (sort_strings ys))).0 q))
        | inr n ↦ inr (
          join_lines (sort_strings xs),
          join_lines (sort_strings ys),
          (λ p.
              ground (arith, ==_iff (join_lines (sort_strings xs)) (join_lines (sort_strings ys)))),
          e,
        )
      ]

  hex_injective : (a b : Text) → lib.hex_encode a ≡ lib.hex_encode b → a ≡ b
  hex_injective a b e = ground (arith, lib.hex_law a, lib.hex_law b, ap lib.hex_decode e)

  -- Two rosters that pass VerifyRoster with one set hash list the same fingerprints, in sorted order,
  -- where no fingerprint of theirs is empty or holds a newline, or two different texts with one
  -- SHA-256 hash are at hand.
  pub verify_roster-members :
      (r s : Roster)
      → (verify_roster r).0.valid ≡ true
      → (verify_roster s).0.valid ≡ true
      → r.set_hash ≡ s.set_hash
      → All IsLine (fprs_of r.members)
      → All IsLine (fprs_of s.members)
      → (sort_strings (fprs_of r.members) ≡ sort_strings (fprs_of s.members)) ⊎ Collision
  verify_roster-members r s vr vs e hr hs =
      set_hash_of-injective (fprs_of r.members) (fprs_of s.members) hr hs (
        hex_injective (set_hash_of (fprs_of r.members)) (set_hash_of (fprs_of s.members))
          (sym ((verify_roster_iff r).0 vr).hashed ∙ e ∙ ((verify_roster_iff s).0 vs).hashed))

  -- Only the set hash of the members counts.
  same_hash-IsRoster :
      (r : Roster) (ms : List Member)
      → set_hash_of (fprs_of r.members) ≡ set_hash_of (fprs_of ms)
      → IsRoster r
      → IsRoster (record r { members = ms })
  same_hash-IsRoster r ms e i = record {
    version = i.version;
    hashed = i.hashed ∙ ap lib.hex_encode e;
    signed = i.signed;
    signers =
        subst
          (λ h.
            All (IsSigner r.signatures r.signer_keys (roster_signing_bytes r.room r.epoch h))
              (keys r.signatures))
          e i.signers;
  }

  -- Two fingerprints in order and the one of both with a newline between hash alike.
  merged_hash :
      (a b : Text) → less b a ≡ false → set_hash_of (a ∷ b ∷ []) ≡ set_hash_of ((a ++ 10 ∷ b) ∷ [])
  unfolding set_hash_of join_lines sort_by insert
  merged_hash a b o = ground (arith, o)

  -- One member whose fingerprint is two fingerprints and a newline between them can take the place of
  -- the two members: the roster of two members, in sorted order, and the roster of the one pass
  -- VerifyRoster with the same signatures.
  pub verify_roster_merged :
      (r : Roster) (m n : Member) (name : Text) (verified : Bool)
      → r.members ≡ m ∷ n ∷ []
      → less n.fpr m.fpr ≡ false
      → (verify_roster r).0.valid ≡ true
      → (verify_roster (record r {
        members = record { name = name; fpr = m.fpr ++ 10 ∷ n.fpr; verified = verified } ∷ [];
      })).0.valid
        ≡ true
  verify_roster_merged r m n name verified e o v =
      (verify_roster_iff (record r {
        members = record { name = name; fpr = m.fpr ++ 10 ∷ n.fpr; verified = verified } ∷ [];
      })).1
        (same_hash-IsRoster r
          (record { name = name; fpr = m.fpr ++ 10 ∷ n.fpr; verified = verified } ∷ [])
          (rw e (merged_hash m.fpr n.fpr o)) ((verify_roster_iff r).0 v))
