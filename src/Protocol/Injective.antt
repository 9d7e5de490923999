-- ===== src/Protocol/Injective.antt =====
-- No two statements share their signing bytes.
use mathlib.Core.List.{append_assoc, append-nil}
use netherchat.Base.{
  ℕ, ◌^◌, ◌<◌, ◌≡◌, refl, sym, ◌∙◌, ap, Text, List, [], ◌∷◌, ◌++◌, length, All, arith,
}
use netherchat.Base.Int.{ℤ, to_u64, to_u64-lt, to_u64-injective, IsInt64}
use netherchat.Protocol.Fields.{
  IsSlice, field, be64, fields, be64_cancel, field_cancel, fields_cancel, fields_injective,
}
use netherchat.Protocol.Attest.{
  roster_tag, receipt_tag, identity_tag, revocation_tag, duress_tag, alert_tag,
  roster_signing_bytes, receipt_signing_bytes, identity_signing_bytes, revocation_signing_bytes,
  duress_signing_bytes, alert_signing_bytes, write_revoked,
}
use netherchat.Protocol.{
  record_tag, record_v2_tag, seal_tag, seal_v2_tag, action_tag, action_v2_tag, artifact_tag,
  artifact_v2_tag, msg_tag, record_signing_bytes, record_signing_bytes_v2, seal_signing_bytes,
  seal_signing_bytes_v2, action_signing_bytes, action_signing_bytes_v2, artifact_signing_bytes,
  artifact_signing_bytes_v2, signing_bytes, write_links, direct_tag, direct_auth_bytes,
}
use netherchat.Protocol.Kinds.{same_bytes_same_kind}
use netherchat.Protocol.Statement.{
  Statement, entry, entry_v2, seal, seal_v2, action, action_v2, artifact, artifact_v2, message,
  bytes, IsSized, IsSlicePair, IsSliceTriple, roster, receipt, identity, revocation, duress, alert,
  direct, derivation, blob,
}

write_links_cancel :
    (k l : List (Text × Text)) (x y : Text)
    → length k ≡ length l
    → All IsSlicePair k
    → All IsSlicePair l
    → write_links k ++ x ≡ write_links l ++ y
    → (k ≡ l) × (x ≡ y)
unfolding write_links
write_links_cancel [] [] x y n hk hl e = (refl, e)
write_links_cancel [] (_ ∷ l) x y n hk hl e = absurd (omega arith)
write_links_cancel (_ ∷ k) [] x y n hk hl e = absurd (omega arith)
write_links_cancel ((h, r) ∷ k) ((h', r') ∷ l) x y n hk hl e =
    let p : fields (h ∷ r ∷ []) (write_links k ++ x) ≡ fields (h' ∷ r' ∷ []) (write_links l ++ y) =
      simp append_assoc at e in
    let (a, q) =
      fields_cancel (h ∷ r ∷ []) (h' ∷ r' ∷ []) (write_links k ++ x) (write_links l ++ y) refl
        (hk.0.0, (hk.0.1, tt)) (hl.0.0, (hl.0.1, tt)) p in
    let (b, c) = write_links_cancel k l x y (omega arith) hk.1 hl.1 q in (cc, c)

-- The sequence number, the time and the fields before the rest of an entry.
entry_cancel :
    (t : Text) (xs ys : List Text) (m n : ℕ) (v w : ℤ) (x y : Text)
    → length xs ≡ length ys
    → (m < 2 ^ 64) × IsInt64 v × All IsSlice xs
    → (n < 2 ^ 64) × IsInt64 w × All IsSlice ys
    → IsSlice t
    → field t ++ (be64 m ++ (be64 (to_u64 v) ++ fields xs x))
      ≡ field t ++ (be64 n ++ (be64 (to_u64 w) ++ fields ys y))
    → (m ≡ n) × (v ≡ w) × (xs ≡ ys) × (x ≡ y)
entry_cancel t xs ys m n v w x y l (hm, hv, hx) (hn, hw, hy) ht e =
    let (_, e₁) = field_cancel t t _ _ ht ht e in
    let (a, e₂) = be64_cancel m n _ _ hm hn e₁ in
    let (b, e₃) = be64_cancel (to_u64 v) (to_u64 w) _ _ (to_u64-lt v) (to_u64-lt w) e₂ in
    let (c, d) = fields_cancel xs ys x y l hx hy e₃ in (a, to_u64-injective v w hv hw b, c, d)

entry_v2_cancel :
    (k l : List (Text × Text)) (x y : Text)
    → IsSlice k × All IsSlicePair k
    → IsSlice l × All IsSlicePair l
    → be64 (length k) ++ (write_links k ++ x) ≡ be64 (length l) ++ (write_links l ++ y)
    → (k ≡ l) × (x ≡ y)
entry_v2_cancel k l x y (nk, hk) (nl, hl) e =
    let (n, e') = be64_cancel (length k) (length l) _ _ (omega arith) (omega arith) e in
    write_links_cancel k l x y n hk hl e'

be64_injective : (n m : ℕ) → n < 2 ^ 64 → m < 2 ^ 64 → be64 n ≡ be64 m → n ≡ m
be64_injective n m hn hm e =
    (be64_cancel n m [] [] hn hm (append-nil (be64 n) ∙ e ∙ sym (append-nil (be64 m)))).0

write_revoked_cancel :
    (k l : List (Text × Text × Text))
    → length k ≡ length l
    → All IsSliceTriple k
    → All IsSliceTriple l
    → write_revoked k ≡ write_revoked l
    → k ≡ l
unfolding write_revoked
write_revoked_cancel [] [] n hk hl e = refl
write_revoked_cancel [] (_ ∷ l) n hk hl e = absurd (omega arith)
write_revoked_cancel (_ ∷ k) [] n hk hl e = absurd (omega arith)
write_revoked_cancel ((h, r, s) ∷ k) ((h', r', s') ∷ l) n hk hl e =
    let (a, q) =
      fields_cancel (h ∷ r ∷ s ∷ []) (h' ∷ r' ∷ s' ∷ []) (write_revoked k) (write_revoked l) refl
        (hk.0.0, (hk.0.1, (hk.0.2, tt))) (hl.0.0, (hl.0.1, (hl.0.2, tt))) e in
    let b = write_revoked_cancel k l (omega arith) hk.1 hl.1 q in cc

-- Two statements whose values fit the machine types and whose signing bytes are equal are the same
-- statement: of the same kind, with the same values. A pairing blob counts as its JSON text, of which
-- it is assumed that it opens with a brace.
pub bytes-injective : (p q : Statement) → IsSized p → IsSized q → bytes p ≡ bytes q → p ≡ q
unfolding record_signing_bytes record_signing_bytes_v2 seal_signing_bytes seal_signing_bytes_v2
    action_signing_bytes action_signing_bytes_v2 artifact_signing_bytes artifact_signing_bytes_v2
    signing_bytes roster_signing_bytes receipt_signing_bytes identity_signing_bytes
    revocation_signing_bytes duress_signing_bytes alert_signing_bytes direct_auth_bytes
bytes-injective (entry m v a k o b p) (entry n w a' k' o' b' p') hp hq e =
    let (f₁, f₂, f₃, f₄) =
      entry_cancel record_tag (a ∷ k ∷ o ∷ b ∷ []) (a' ∷ k' ∷ o' ∷ b' ∷ []) m n v w p p' refl hp hq
        (omega arith) e in
    cc
bytes-injective (entry_v2 m v a k o b s u l p) (entry_v2 n w a' k' o' b' s' u' l' p') hp hq e =
    let (f₁, f₂, f₃, f₄) =
      entry_cancel record_v2_tag (a ∷ k ∷ o ∷ b ∷ s ∷ u ∷ []) (a' ∷ k' ∷ o' ∷ b' ∷ s' ∷ u' ∷ []) m n
        v w _ _ refl (hp.0, hp.1, hp.2) (hq.0, hq.1, hq.2) (omega arith) e in
    let (f₅, f₆) = entry_v2_cancel l l' p p' (hp.3, hp.4) (hq.3, hq.4) f₄ in cc
bytes-injective (seal r h) (seal r' h') hp hq e =
    let (f₁, f₂) =
      fields_cancel (seal_tag ∷ r ∷ []) (seal_tag ∷ r' ∷ []) h h' refl (omega arith, hp)
        (omega arith, hq) e in
    cc
bytes-injective (seal_v2 r m n t h) (seal_v2 r' m' n' t' h') hp hq e =
    let (f₁, f₂) =
      fields_cancel (seal_v2_tag ∷ r ∷ m ∷ n ∷ t ∷ []) (seal_v2_tag ∷ r' ∷ m' ∷ n' ∷ t' ∷ []) h h'
        refl (omega arith, hp) (omega arith, hq) e in
    cc
bytes-injective (action i p f n) (action i' p' f' n') hp hq e =
    let (f₁, f₂) =
      fields_injective (action_tag ∷ i ∷ p ∷ f ∷ []) (action_tag ∷ i' ∷ p' ∷ f' ∷ []) n n' refl
        (hp.0, (omega arith, hp.1)) (hq.0, (omega arith, hq.1)) e in
    cc
bytes-injective (action_v2 i p f n m w t) (action_v2 i' p' f' n' m' w' t') hp hq e =
    let (f₁, f₂) =
      fields_injective (action_v2_tag ∷ i ∷ p ∷ f ∷ n ∷ m ∷ w ∷ [])
        (action_v2_tag ∷ i' ∷ p' ∷ f' ∷ n' ∷ m' ∷ w' ∷ []) t t' refl (hp.0, (omega arith, hp.1))
        (hq.0, (omega arith, hq.1)) e in
    cc
bytes-injective (artifact i h f n) (artifact i' h' f' n') hp hq e =
    let (f₁, f₂) =
      fields_injective (artifact_tag ∷ i ∷ h ∷ f ∷ []) (artifact_tag ∷ i' ∷ h' ∷ f' ∷ []) n n' refl
        (hp.0, (omega arith, hp.1)) (hq.0, (omega arith, hq.1)) e in
    cc
bytes-injective (artifact_v2 i h f n r) (artifact_v2 i' h' f' n' r') hp hq e =
    let (f₁, f₂) =
      fields_injective (artifact_v2_tag ∷ i ∷ h ∷ f ∷ n ∷ [])
        (artifact_v2_tag ∷ i' ∷ h' ∷ f' ∷ n' ∷ []) r r' refl (hp.0, (omega arith, hp.1))
        (hq.0, (omega arith, hq.1)) e in
    cc
bytes-injective (message r f m n c) (message r' f' m' n' c') hp hq e =
    let (f₁, f₂) =
      fields_cancel (msg_tag ∷ r ∷ f ∷ []) (msg_tag ∷ r' ∷ f' ∷ []) _ _ refl (omega arith, hp.0)
        (omega arith, hq.0) e in
    let (f₃, f₄) = be64_cancel m m' _ _ hp.1 hq.1 f₂ in
    let (f₅, f₆) =
      fields_injective (n ∷ []) (n' ∷ []) c c' refl (hp.3, (hp.2, tt)) (hq.3, (hq.2, tt)) f₄ in
    cc
bytes-injective (roster r n h) (roster r' n' h') hp hq e =
    let (f₁, f₂) =
      fields_cancel (roster_tag ∷ r ∷ []) (roster_tag ∷ r' ∷ []) _ _ refl (omega arith, (hp.0, tt))
        (omega arith, (hq.0, tt)) e in
    let (f₃, f₄) = be64_cancel n n' _ _ hp.1 hq.1 f₂ in cc
bytes-injective (receipt h) (receipt h') hp hq e =
    let (f₁, f₂) = field_cancel receipt_tag receipt_tag _ _ (omega arith) (omega arith) e in cc
bytes-injective (identity s u p d t r i x a j) (identity s' u' p' d' t' r' i' x' a' j') hp hq e =
    let (f₁, f₂) =
      fields_cancel (identity_tag ∷ s ∷ u ∷ p ∷ d ∷ t ∷ [])
        (identity_tag ∷ s' ∷ u' ∷ p' ∷ d' ∷ t' ∷ []) _ _ refl (omega arith, hp.0)
        (omega arith, hq.0) e in
    let (f₃, f₄) =
      be64_cancel (length r) (length r') _ _ (omega (arith, hp.1)) (omega (arith, hq.1)) f₂ in
    let (f₅, f₆) = fields_cancel r r' _ _ f₃ hp.2 hq.2 f₄ in
    let (f₇, f₈) = fields_injective (i ∷ x ∷ a ∷ []) (i' ∷ x' ∷ a' ∷ []) j j' refl hp.3 hq.3 f₆ in
    cc
bytes-injective (revocation j i n t u r) (revocation j' i' n' t' u' r') hp hq e =
    let (f₁, f₂) =
      fields_cancel (revocation_tag ∷ j ∷ i ∷ []) (revocation_tag ∷ j' ∷ i' ∷ []) _ _ refl
        (omega arith, hp.0) (omega arith, hq.0) e in
    let (f₃, f₄) = be64_cancel n n' _ _ hp.1 hq.1 f₂ in
    let (f₅, f₆) = fields_cancel (t ∷ u ∷ []) (t' ∷ u' ∷ []) _ _ refl hp.2 hq.2 f₄ in
    let (f₇, f₈) =
      be64_cancel (length r) (length r') _ _ (omega (arith, hp.3)) (omega (arith, hq.3)) f₆ in
    let f₉ = write_revoked_cancel r r' f₇ hp.4 hq.4 f₈ in cc
bytes-injective (duress a m c i n) (duress a' m' c' i' n') hp hq e =
    let (f₁, f₂) =
      fields_injective (duress_tag ∷ a ∷ m ∷ c ∷ i ∷ []) (duress_tag ∷ a' ∷ m' ∷ c' ∷ i' ∷ []) n n'
        refl (hp.0, (omega arith, hp.1)) (hq.0, (omega arith, hq.1)) e in
    cc
bytes-injective (alert s v k m r t) (alert s' v' k' m' r' t') hp hq e =
    let (f₁, f₂) =
      fields_cancel (alert_tag ∷ s ∷ v ∷ k ∷ m ∷ r ∷ []) (alert_tag ∷ s' ∷ v' ∷ k' ∷ m' ∷ r' ∷ []) _
        _ refl (omega arith, hp.0) (omega arith, hq.0) e in
    let f₃ =
      to_u64-injective t t' hp.1 hq.1
        (be64_injective (to_u64 t) (to_u64 t') (to_u64-lt t) (to_u64-lt t') f₂) in
    cc
bytes-injective (direct s n p m) (direct s' n' p' m') hp hq e =
    let (f₁, f₂) =
      fields_injective (direct_tag ∷ s ∷ n ∷ p ∷ []) (direct_tag ∷ s' ∷ n' ∷ p' ∷ []) m m' refl
        (hp.0, (omega arith, hp.1)) (hq.0, (omega arith, hq.1)) e in
    cc
bytes-injective derivation derivation hp hq e = refl
bytes-injective (blob json) (blob json') hp hq e = ap blob e
bytes-injective p q hp hq e = absurd (omega (arith, same_bytes_same_kind p q hp hq e))
