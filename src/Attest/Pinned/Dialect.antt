-- ===== src/Attest/Pinned/Dialect.antt =====
-- isFingerprint against a description of an SSH SHA-256 fingerprint.
use netherchat.Base.{
  ℕ, zero, suc, ◌≡◌, refl, sym, ◌∙◌, ap, subst, ◌↔◌, inl, inr, true, some, List, [], ◌∷◌, ◌++◌,
  Text, codes, ==_iff, length, take, drop, Option-cases, arith,
}
use netherchat.Attest.Formats.{Formats}
use netherchat.Attest.Pinned.{is_fingerprint}

take-drop {ℓ} : {A : Type ℓ} (n : ℕ) (xs : List A) → take n xs ++ drop n xs ≡ xs
take-drop zero xs = refl
take-drop (suc n) [] = refl
take-drop (suc n) (x ∷ xs) = ap (λ l. x ∷ l) (take-drop n xs)

module _ ⦃formats : Formats⦄ where
  -- The prefix, then 43 characters of unpadded base64 that stand for 32 bytes.
  pub record IsFingerprint (s : Text) : Type 0 where
    pub body : Text
    pub digest : Text
    pub text : s ≡ codes "SHA256:" ++ body
    pub size : length body ≡ 43
    pub decoded : formats.raw_base64_decode body ≡ some digest
    pub digest_size : length digest ≡ 32

  sound : (s : Text) → is_fingerprint s ≡ true → IsFingerprint s
  unfolding is_fingerprint
  sound s h = elim (Option-cases (formats.raw_base64_decode (drop 7 s))) [
    | inl n ↦ absurd (ground arith)
    | inr (raw, q) ↦
        let p : take 7 s ≡ codes "SHA256:" =
          (==_iff (take 7 s) (codes "SHA256:")).0 (ground arith) in
        record {
          body = drop 7 s;
          digest = raw;
          text = sym (take-drop 7 s) ∙ ap (λ x. x ++ drop 7 s) p;
          size = ground arith;
          decoded = q;
          digest_size = ground arith;
        }
  ]

  plain :
      (body digest : Text)
      → length body ≡ 43
      → formats.raw_base64_decode body ≡ some digest
      → length digest ≡ 32
      → is_fingerprint (codes "SHA256:" ++ body) ≡ true
  unfolding is_fingerprint
  plain body digest a b c = ground (arith, (==_iff (codes "SHA256:") (codes "SHA256:")).1 refl)

  pub is_fingerprint_iff : (s : Text) → (is_fingerprint s ≡ true) ↔ IsFingerprint s
  is_fingerprint_iff s = (
    sound s,
    λ i.
        subst (λ x. is_fingerprint x ≡ true) (sym i.text)
          (plain i.body i.digest i.size i.decoded i.digest_size),
  )
