-- ===== src/Attest/Identity/Structure/Shape.antt =====
-- What the structural steps of VerifyIdentity accept.
use netherchat.Base.{
  is_empty_iff, ℕ, ◌+◌, ◌≡◌, ◌≢◌, refl, sym, ◌↔◌, false, some, List, [], ◌∷◌, Text, ==_iff, All,
  Distinct, ok, arith,
}
use netherchat.Base.Int.{ℤ, ltb_ℤ}
use netherchat.Attest.Formats.{Formats}
use netherchat.Attest.Pinned.Dialect.{IsFingerprint, is_fingerprint_iff}
use netherchat.Attest.Identity.{Attestation, identity_version, algorithm_ed25519}
use netherchat.Attest.Identity.Structure.{
  is_seen, check_roles_from, roles_problem, check_roles, check_fields, check_window,
  check_structure,
}

is_seen_iff : (r : Text) (seen : List Text) → (is_seen r seen ≡ false) ↔ All (λ s. s ≢ r) seen
unfolding is_seen
is_seen_iff r [] = ground arith
is_seen_iff r (s ∷ ss) = ground (arith, is_seen_iff r ss, ==_iff s r)

-- Nothing of one list is in the other.
abbrev Apart : List Text → List Text → Type 0
Apart seen [] = Unit
Apart seen (r ∷ rs) = All (λ s. s ≢ r) seen × Apart seen rs

Apart-cons :
    (r : Text) (seen rs : List Text) → All (λ s. s ≢ r) rs → Apart seen rs → Apart (r ∷ seen) rs
Apart-cons r seen [] h a = tt
Apart-cons r seen (s ∷ rs) h a = (((λ e. h.0 (sym e)), a.0), Apart-cons r seen rs h.1 a.1)

cons-Apart :
    (r : Text) (seen rs : List Text) → Apart (r ∷ seen) rs → All (λ s. s ≢ r) rs × Apart seen rs
cons-Apart r seen [] a = (tt, tt)
cons-Apart r seen (s ∷ rs) a =
    let (h, b) = cons-Apart r seen rs a.1 in (((λ e. a.0.0 (sym e)), h), (a.0.1, b))

check_roles_sound :
    (i : ℕ) (seen rs : List Text)
    → check_roles_from i seen rs ≡ ok tt
    → All (λ r. r ≢ []) rs × Distinct rs × Apart seen rs
unfolding check_roles_from
check_roles_sound i seen [] h = (tt, tt, tt)
check_roles_sound i seen (r ∷ rs) h =
    let (e, d, a) = check_roles_sound (i + 1) (r ∷ seen) rs (ground arith) in
    let (f, b) = cons-Apart r seen rs a in
    (((is_empty_iff r).0 (ground arith), e), (f, d), ((is_seen_iff r seen).0 (ground arith), b))

check_roles_complete :
    (i : ℕ) (seen rs : List Text)
    → All (λ r. r ≢ []) rs
    → Distinct rs
    → Apart seen rs
    → check_roles_from i seen rs ≡ ok tt
unfolding check_roles_from
check_roles_complete i seen [] e d a = refl
check_roles_complete i seen (r ∷ rs) e d a = ground (
  arith,
  (is_empty_iff r).1 e.0,
  (is_seen_iff r seen).1 a.0,
  check_roles_complete (i + 1) (r ∷ seen) rs e.1 d.1 (Apart-cons r seen rs d.0 a.1),
)

Apart-nil : (rs : List Text) → Apart [] rs
Apart-nil [] = tt
Apart-nil (r ∷ rs) = (tt, Apart-nil rs)

-- There is a role, none is empty, and none occurs twice.
abbrev pub IsRoles : List Text → Type 0
IsRoles rs = (rs ≢ []) × All (λ r. r ≢ []) rs × Distinct rs

check_roles_iff : (rs : List Text) → (check_roles rs ≡ ok tt) ↔ IsRoles rs
unfolding check_roles roles_problem
check_roles_iff [] = ((λ h. absurd (ground arith)), (λ h. absurd (h.0 refl)))
check_roles_iff (r ∷ rs) = (
  (λ h. let (e, d, a) = check_roles_sound 0 [] (r ∷ rs) (ground arith) in ((λ q. cc q), e, d)),
  (λ (n, e, d).
      let q = check_roles_complete 0 [] (r ∷ rs) e d (Apart-nil (r ∷ rs)) in ground arith),
)

module _ ⦃formats : Formats⦄ where
  -- An attestation of the known version and algorithm whose fields have the shape of §5.3 and whose
  -- window runs from `not_before` to `not_after`.
  pub record IsShaped (a : Attestation) (not_before not_after : ℤ) : Type 0 where
    pub version : a.version ≡ identity_version
    pub algorithm : a.algorithm ≡ algorithm_ed25519
    pub serial : a.serial ≢ []
    pub subject : IsFingerprint a.subject
    pub principal : a.principal ≢ []
    pub principal_type : a.principal_type ≢ []
    pub roles : IsRoles a.roles
    pub issuer : IsFingerprint a.issuer
    pub opens : formats.parse_time a.issued_at ≡ some not_before
    pub closes : formats.parse_time a.expires_at ≡ some not_after
    pub ordered : ltb_ℤ not_after not_before ≡ false

  check_window-ok :
      (a : Attestation) (nb na : ℤ)
      → check_window a ≡ ok (nb, na)
      → (formats.parse_time a.issued_at ≡ some nb)
        × (formats.parse_time a.expires_at ≡ some na)
        × (ltb_ℤ na nb ≡ false)
  unfolding check_window
  check_window-ok a nb na h = ground arith

  pub check_structure_sound :
      (a : Attestation) (nb na : ℤ) → check_structure a ≡ ok (nb, na) → IsShaped a nb na
  unfolding check_structure check_fields
  check_structure_sound a nb na h =
      let (p, q, o) = check_window-ok a nb na (ground arith) in
      record {
        version = ground (arith, ==_iff a.version identity_version);
        algorithm = ground (arith, ==_iff a.algorithm algorithm_ed25519);
        serial = (is_empty_iff a.serial).0 (ground arith);
        subject = (is_fingerprint_iff a.subject).0 (ground arith);
        principal = (is_empty_iff a.principal).0 (ground arith);
        principal_type = (is_empty_iff a.principal_type).0 (ground arith);
        roles = (check_roles_iff a.roles).0 (ground arith);
        issuer = (is_fingerprint_iff a.issuer).0 (ground arith);
        opens = p;
        closes = q;
        ordered = o;
      }

  pub check_structure_complete :
      (a : Attestation) (nb na : ℤ) → IsShaped a nb na → check_structure a ≡ ok (nb, na)
  unfolding check_structure check_fields check_window
  check_structure_complete a nb na s = ground (
    arith,
    ==_iff a.version identity_version,
    s.version,
    ==_iff a.algorithm algorithm_ed25519,
    s.algorithm,
    (is_empty_iff a.serial).1 s.serial,
    (is_fingerprint_iff a.subject).1 s.subject,
    (is_empty_iff a.principal).1 s.principal,
    (is_empty_iff a.principal_type).1 s.principal_type,
    (check_roles_iff a.roles).1 s.roles,
    (is_fingerprint_iff a.issuer).1 s.issuer,
    s.opens,
    s.closes,
    s.ordered,
  )
