-- ===== src/Record/Sealed/Approvals/Proofs.antt =====
-- What the loops of verifyArtifactApprovals have checked when they end.
use netherchat.Base.{
  ◌≡◌, ◌≢◌, refl, ◌⊎◌, sym, ◌∙◌, ap, subst, inl, inr, Bool, true, some, List, [], ◌∷◌, ◌++◌, Text,
  ◌==◌, ==_iff, is_empty, is_empty-true_iff, length, All, All-append, Option-cases, Bool-cases,
  Result-cases, ok, arith,
}
use netherchat.Base.Dict.{Dict, get, put, keys, get-put, IsMap, put-IsMap, All-keys-put}
use netherchat.Protocol.Statement.{Statement, artifact, artifact_v2, bytes}
use netherchat.Record.Library.{Library, ArtifactMeta, fingerprint}
use netherchat.Record.Entry.{Entry}
use netherchat.Record.Sealed.{ApprovalProof}
use netherchat.Record.Sealed.Approvals.{
  VerifiedApprover, Index, artifact_of, index_one, index_artifacts, approval_preimage, check_proof,
  check_proofs, role_pair,
}

module _ ⦃lib : Library⦄ where
  -- What a proof states: the approval of the artifact by the approver, in the proof's role if it has
  -- one.
  abbrev pub Says : Text → ArtifactMeta → ApprovalProof → Statement → Type 0
  Says pid m p s =
      ((p.role ≡ []) × (s ≡ artifact pid m.artifact_hash p.approver_fpr m.nonce))
      ⊎ ((p.role ≢ []) × (s ≡ artifact_v2 pid m.artifact_hash p.approver_fpr m.nonce p.role))

  -- The proof's key is 32 bytes long, hashes to the claimed approver and signed the statement of the
  -- proof.
  pub record IsProof (pid : Text) (m : ArtifactMeta) (p : ApprovalProof) : Type 0 where
    pub key : Text
    pub sig : Text
    pub key_bytes : lib.base64_decode p.approver_key ≡ some key
    pub key_size : length key ≡ 32
    pub key_id : fingerprint key ≡ p.approver_fpr
    pub sig_bytes : lib.base64_decode p.sig ≡ some sig
    pub statement : Statement
    pub says : Says pid m p statement
    pub verified : lib.ed25519_verify key (bytes statement) sig ≡ true

  preimage-Says :
      (pid : Text) (m : ArtifactMeta) (p : ApprovalProof)
      → (s : Statement) × Says pid m p s × (approval_preimage pid m p ≡ bytes s)
  unfolding approval_preimage
  preimage-Says pid m p = elim (Bool-cases (is_empty p.role)) [
    | inl e ↦ (
      artifact pid m.artifact_hash p.approver_fpr m.nonce,
      inl ((is_empty-true_iff p.role).0 e, refl),
      ground arith,
    )
    | inr e ↦ (
      artifact_v2 pid m.artifact_hash p.approver_fpr m.nonce p.role,
      inr ((λ q. cc (sym e ∙ ap is_empty q)), refl),
      ground arith,
    )
  ]

  pub check_proof-ok :
      (pid : Text) (m : ArtifactMeta) (p : ApprovalProof)
      → check_proof pid m p ≡ ok tt
      → IsProof pid m p
  unfolding check_proof
  check_proof-ok pid m p h =
      let (s, says, same) = preimage-Says pid m p in
      elim (Option-cases (lib.base64_decode p.approver_key)) [
        | inl n ↦ absurd (ground arith)
        | inr (key, q) ↦ elim (Option-cases (lib.base64_decode p.sig)) [
          | inl n ↦ absurd (ground arith)
          | inr (sig, r) ↦ record {
            key = key;
            sig = sig;
            key_bytes = q;
            key_size = ground arith;
            key_id = ground (arith, ==_iff (fingerprint key) p.approver_fpr);
            sig_bytes = r;
            statement = s;
            says = says;
            verified = subst (λ b. lib.ed25519_verify key b sig ≡ true) same (ground arith);
          }
        ]
      ]

  role_pair-All :
      (Q : VerifiedApprover → Type 0) (p : ApprovalProof)
      → (p.role ≢ [] → Q (record { fingerprint = p.approver_fpr; role = p.role }))
      → All Q (role_pair p)
  role_pair-All Q p h = elim (Bool-cases (is_empty p.role)) [
    | inl e ↦ rw e tt
    | inr e ↦ rw e (h (λ q. cc (sym e ∙ ap is_empty q)), tt)
  ]

  -- Every proof was checked, every fingerprint and every pair is a proof's, and no fingerprint is
  -- listed twice.
  pub check_proofs-ok :
      (P : Text → Type 0) (Q : VerifiedApprover → Type 0) (pid : Text) (m : ArtifactMeta)
      (ps : List ApprovalProof) (d d' : Dict Bool) (l l' : List VerifiedApprover)
      → All
          (λ p.
            (IsProof pid m p → P p.approver_fpr)
            × (IsProof pid m p
                → p.role ≢ []
                → Q (record { fingerprint = p.approver_fpr; role = p.role })))
          ps
      → check_proofs pid m ps d l ≡ ok (d', l')
      → All P (keys d)
      → All Q l
      → IsMap d
      → All P (keys d') × All Q l' × IsMap d'
  unfolding check_proofs
  check_proofs-ok P Q pid m [] d d' l l' k h hd hl u =
      let a : d ≡ d' = cc in
      let b : l ≡ l' = cc in (subst (λ x. All P (keys x)) a hd, subst (All Q) b hl, subst IsMap a u)
  check_proofs-ok P Q pid m (p ∷ ps) d d' l l' k h hd hl u =
      let good : IsProof pid m p = check_proof-ok pid m p (ground arith) in
      check_proofs-ok P Q pid m ps (put p.approver_fpr true d) d' (l ++ role_pair p) l' k.1
        (ground arith) (All-keys-put P p.approver_fpr true d (k.0.0 good) hd)
        (All-append Q l (role_pair p) hl (role_pair-All Q p (k.0.1 good)))
        (put-IsMap p.approver_fpr true d u)

  -- The authors of the indexed proposals, and where they come from.
  abbrev IsIndex : (Text → ArtifactMeta → Text → Type 0) → Index → Type 0
  IsIndex P x =
      (pid : Text) (m : ArtifactMeta)
      → get pid x.metas ≡ some m
      → (a : Text) × (get pid x.authors ≡ some a) × P pid m a

  abbrev indexed : Entry → ArtifactMeta → Index → Index
  indexed e m x = record {
    metas = put m.proposal_id m x.metas;
    authors = put m.proposal_id e.author_id x.authors;
  }

  put-IsIndex :
      (P : Text → ArtifactMeta → Text → Type 0) (e : Entry) (m : ArtifactMeta) (x : Index)
      → P m.proposal_id m e.author_id
      → IsIndex P x
      → IsIndex P (indexed e m x)
  put-IsIndex P e m x p hx pid n g = elim (Bool-cases (m.proposal_id == pid)) [
    | inl s ↦
        let a : m ≡ n = ground (arith, get-put m.proposal_id pid m x.metas) in
        let b : m.proposal_id ≡ pid = (==_iff m.proposal_id pid).0 s in
        (
          e.author_id,
          ground (arith, get-put m.proposal_id pid e.author_id x.authors),
          subst (λ q. P q n e.author_id) b (subst (λ o. P m.proposal_id o e.author_id) a p),
        )
    | inr s ↦
        let (a, b, c) = hx pid n (ground (arith, get-put m.proposal_id pid m x.metas)) in
        (a, ground (arith, get-put m.proposal_id pid e.author_id x.authors), c)
  ]

  index_one-IsIndex :
      (P : Text → ArtifactMeta → Text → Type 0) (e : Entry) (m : ArtifactMeta) (x y : Index)
      → index_one e x m ≡ ok y
      → P m.proposal_id m e.author_id
      → IsIndex P x
      → IsIndex P y
  index_one-IsIndex P e m x y h p hx = elim (Bool-cases (is_empty m.proposal_id)) [
    | inl z ↦ subst (IsIndex P) (ground arith) hx
    | inr z ↦ elim (Option-cases (get m.proposal_id x.metas)) [
      | inr (o, q) ↦ absurd (ground arith)
      | inl q ↦ subst (IsIndex P) (ground arith) (put-IsIndex P e m x p hx)
    ]
  ]

  pub index_artifacts-ok :
      (P : Text → ArtifactMeta → Text → Type 0) (es : List Entry) (x y : Index)
      → All (λ e. (m : ArtifactMeta) → artifact_of e ≡ some m → P m.proposal_id m e.author_id) es
      → index_artifacts es x ≡ ok y
      → IsIndex P x
      → IsIndex P y
  unfolding index_artifacts
  index_artifacts-ok P [] x y k h hx = subst (IsIndex P) (cc) hx
  index_artifacts-ok P (e ∷ es) x y k h hx = elim (Option-cases (artifact_of e)) [
    | inl n ↦ index_artifacts-ok P es x y k.1 (ground arith) hx
    | inr (m, q) ↦ elim (Result-cases (index_one e x m)) [
      | inr (w, r) ↦ absurd (ground arith)
      | inl (z, r) ↦
          index_artifacts-ok P es z y k.1 (ground arith)
            (index_one-IsIndex P e m x z r (k.0 m q) hx)
    ]
  ]
