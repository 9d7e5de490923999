-- ===== src/Record/Sealed/Approvals/SecondLaw.antt =====
-- The second law: nobody approves an artifact that they proposed or recorded.
use netherchat.Base.{
  ◌≡◌, ◌≢◌, refl, sym, ◌∙◌, ap, subst, ◌⊎◌, inl, inr, Bool, ◌||◌, some, List, [], ◌∷◌, ◌++◌, Text,
  less, ◌==◌, ==_iff, All, All-append, All-map, All-self, Any, Any-map, Distinct, Option-cases,
  Bool-cases, Result-cases, ok, arith,
}
use netherchat.Base.Dict.{Dict, get, keys, get-put, keys-Distinct}
use netherchat.Base.Sort.{sort_by, sort_strings, All-sort, sort-Distinct}
use netherchat.Record.Library.{Library, ArtifactMeta}
use netherchat.Record.Entry.{Entry}
use netherchat.Record.Sealed.{ApprovalProof}
use netherchat.Record.Sealed.Approvals.{
  VerifiedApprover, Index, Approvers, artifact_of, index_artifacts, check_proofs, without_parties,
  dedup, before, seen, dedup_approver_roles, put_some, check_proposal, proofs_of, check_proposals,
  verify_artifact_approvals,
}
use netherchat.Record.Sealed.Approvals.Proofs.{IsProof, check_proofs-ok, index_artifacts-ok}

without_parties-All :
    (P : Text → Type 0) (author proposer : Text) (fprs : List Text)
    → All P fprs
    → All (λ f. P f × (f ≢ author) × (f ≢ proposer)) (without_parties author proposer fprs)
unfolding without_parties
without_parties-All P author proposer [] h = tt
without_parties-All P author proposer (f ∷ fs) h =
    elim (Bool-cases (f == author || f == proposer)) [
      | inl s ↦ rw s (without_parties-All P author proposer fs h.1)
      | inr s ↦ rw s (
        (h.0, (λ e. ground (arith, ==_iff f author)), (λ e. ground (arith, ==_iff f proposer))),
        without_parties-All P author proposer fs h.1,
      )
    ]

without_parties-Distinct :
    (author proposer : Text) (fprs : List Text)
    → Distinct fprs
    → Distinct (without_parties author proposer fprs)
unfolding without_parties
without_parties-Distinct author proposer [] h = tt
without_parties-Distinct author proposer (f ∷ fs) h =
    let k : All (λ g. g ≢ f) (without_parties author proposer fs) =
      All-map _ _ _ (λ g (a, b, c). a) (without_parties-All (λ g. g ≢ f) author proposer fs h.0) in
    ground (arith, without_parties-Distinct author proposer fs h.1)

dedup-All :
    (Q : VerifiedApprover → Type 0) (author proposer : Text) (ps out : List VerifiedApprover)
    → All Q ps
    → All (λ p. Q p × (p.fingerprint ≢ author) × (p.fingerprint ≢ proposer)) out
    → All
        (λ p. Q p × (p.fingerprint ≢ author) × (p.fingerprint ≢ proposer))
        (dedup author proposer ps out)
unfolding dedup
dedup-All Q author proposer [] out h k = k
dedup-All Q author proposer (p ∷ ps) out h k =
    elim (Bool-cases (p.fingerprint == author || p.fingerprint == proposer || seen p out)) [
      | inl s ↦ rw s (dedup-All Q author proposer ps out h.1 k)
      | inr s ↦ rw s (
          dedup-All Q author proposer ps (out ++ p ∷ []) h.1 (
            All-append _ out (p ∷ []) k (
              (
                h.0,
                (λ e. ground (arith, ==_iff p.fingerprint author)),
                (λ e. ground (arith, ==_iff p.fingerprint proposer)),
              ),
              tt,
            )))
    ]

put_some-cases {ℓ} :
    {A : Type ℓ} (p q : Text) (l s : List A) (d : Dict (List A))
    → get q (put_some p l d) ≡ some s
    → ((p ≡ q) × (l ≡ s)) ⊎ (get q d ≡ some s)
put_some-cases p q [] s d h = inr h
put_some-cases p q (x ∷ l) s d h = ground (arith, get-put p q (x ∷ l) d, ==_iff p q)

module _ ⦃lib : Library⦄ where
  -- `fpr` approved the proposal: an artifact entry of the record carries the proposal, `fpr` is
  -- neither the entry's author nor its proposer, and one of the proofs filed under the proposal is
  -- `fpr`'s and verifies against the entry's artifact.
  pub record IsApprover (entries : List Entry) (proofs : List ApprovalProof) (pid fpr : Text)
      : Type 0 where
    pub entry : Entry
    pub meta : ArtifactMeta
    pub recorded : Any (λ e. e ≡ entry) entries
    pub parsed : artifact_of entry ≡ some meta
    pub proposal : meta.proposal_id ≡ pid
    pub not_author : fpr ≢ entry.author_id
    pub not_proposer : fpr ≢ meta.proposer_fpr
    pub proved : Any (λ p. (p.approver_fpr ≡ fpr) × IsProof pid meta p) proofs

  -- The same in a role: a proof of the approver for the artifact of the same entry states the role.
  pub record IsRoleApprover (entries : List Entry) (proofs : List ApprovalProof) (pid : Text)
      (a : VerifiedApprover) : Type 0 where
    pub approver : IsApprover entries proofs pid a.fingerprint
    pub proved :
        Any
          (λ p.
            (p.approver_fpr ≡ a.fingerprint)
            × (p.role ≡ a.role)
            × (p.role ≢ [])
            × IsProof pid approver.meta p)
          proofs

  module _ (entries : List Entry) (approvals : Dict (List ApprovalProof)) where
    -- What the two result maps hold.
    abbrev pub IsEvidence : Approvers → Type 0
    IsEvidence a =
        ((pid : Text) (set : List Text)
          → get pid a.approvers ≡ some set
          → All (IsApprover entries (proofs_of approvals pid) pid) set × Distinct set)
        × ((pid : Text) (set : List VerifiedApprover)
            → get pid a.roles ≡ some set
            → All (IsRoleApprover entries (proofs_of approvals pid) pid) set)

    -- The artifact entry of a proposal, with its metadata and its author.
    abbrev Origin : Text → ArtifactMeta → Text → Type 0
    Origin pid m a =
        (e : Entry) × Any (λ x. x ≡ e) entries
        × (artifact_of e ≡ some m)
        × (m.proposal_id ≡ pid)
        × (e.author_id ≡ a)

    abbrev Proved : Text → ArtifactMeta → Text → Type 0
    Proved pid m f = Any (λ p. (p.approver_fpr ≡ f) × IsProof pid m p) (proofs_of approvals pid)

    abbrev RoleProved : Text → ArtifactMeta → VerifiedApprover → Type 0
    RoleProved pid m a =
        Any
          (λ p.
            (p.approver_fpr ≡ a.fingerprint) × (p.role ≡ a.role) × (p.role ≢ []) × IsProof pid m p)
          (proofs_of approvals pid)

    proofs_count :
        (pid : Text) (m : ArtifactMeta)
        → All
            (λ p.
              (IsProof pid m p → Proved pid m p.approver_fpr)
              × (IsProof pid m p
                  → p.role ≢ []
                  → Proved pid m p.approver_fpr
                    × RoleProved pid m (record { fingerprint = p.approver_fpr; role = p.role })))
            (proofs_of approvals pid)
    proofs_count pid m = All-self _ (proofs_of approvals pid) λ p at. (
      (λ good.
          Any-map _ _ _
            (λ x e.
              (ap (λ (y : ApprovalProof). y.approver_fpr) e, subst (IsProof pid m) (sym e) good))
            at),
      λ good r. (
        Any-map _ _ _
            (λ x e.
              (ap (λ (y : ApprovalProof). y.approver_fpr) e, subst (IsProof pid m) (sym e) good))
            at,
        Any-map _ _ _
            (λ x e. (
              ap (λ (y : ApprovalProof). y.approver_fpr) e,
              ap (λ (y : ApprovalProof). y.role) e,
              (λ z. r (sym (ap (λ (y : ApprovalProof). y.role) e) ∙ z)),
              subst (IsProof pid m) (sym e) good,
            ))
            at,
      ),
    )

    approver :
        (pid : Text) (m : ArtifactMeta) (a f : Text)
        → Origin pid m a
        → Proved pid m f × (f ≢ a) × (f ≢ m.proposer_fpr)
        → IsApprover entries (proofs_of approvals pid) pid f
    approver pid m a f (e, at, parse, prop, author) (pf, na, np) = record {
      entry = e;
      meta = m;
      recorded = at;
      parsed = parse;
      proposal = prop;
      not_author = λ q. na (q ∙ author);
      not_proposer = np;
      proved = pf;
    }

    role_approver :
        (pid : Text) (m : ArtifactMeta) (a : Text) (p : VerifiedApprover)
        → Origin pid m a
        → (Proved pid m p.fingerprint × RoleProved pid m p)
          × (p.fingerprint ≢ a)
          × (p.fingerprint ≢ m.proposer_fpr)
        → IsRoleApprover entries (proofs_of approvals pid) pid p
    role_approver pid m a p (e, at, parse, prop, author) (pr, na, np) = record {
      approver = record {
        entry = e;
        meta = m;
        recorded = at;
        parsed = parse;
        proposal = prop;
        not_author = λ q. na (q ∙ author);
        not_proposer = np;
        proved = pr.0;
      };
      proved = pr.1;
    }

    evidence :
        (pid : Text) (m : ArtifactMeta) (a : Text) (d : Dict Bool) (l : List VerifiedApprover)
        (out : Approvers)
        → Origin pid m a
        → check_proofs pid m (proofs_of approvals pid) [] [] ≡ ok (d, l)
        → IsEvidence out
        → IsEvidence (record {
          approvers =
              put_some pid (sort_strings (without_parties a m.proposer_fpr (keys d))) out.approvers;
          roles = put_some pid (dedup_approver_roles l a m.proposer_fpr) out.roles;
        })
    unfolding dedup_approver_roles
    evidence pid m a d l out origin h ev =
        let (hd, hl, u) =
          check_proofs-ok (Proved pid m) (λ q. Proved pid m q.fingerprint × RoleProved pid m q) pid
            m (proofs_of approvals pid) [] d [] l (proofs_count pid m) h tt tt tt in
        let set = sort_strings (without_parties a m.proposer_fpr (keys d)) in
        let pairs = sort_by before (dedup a m.proposer_fpr l []) in
        let new : All (IsApprover entries (proofs_of approvals pid) pid) set × Distinct set = (
          All-sort less _ _ (
              All-map _ _ _ (λ f t. approver pid m a f origin t)
                (without_parties-All (Proved pid m) a m.proposer_fpr (keys d) hd)),
          sort-Distinct less _
              (without_parties-Distinct a m.proposer_fpr (keys d) (keys-Distinct d u)),
        ) in
        let new_pairs : All (IsRoleApprover entries (proofs_of approvals pid) pid) pairs =
          All-sort before _ _ (
            All-map _ _ _ (λ p t. role_approver pid m a p origin t)
              (dedup-All (λ q. Proved pid m q.fingerprint × RoleProved pid m q) a m.proposer_fpr l
                [] hl tt)) in
        (
          λ q s g. elim (put_some-cases pid q set s out.approvers g) [
            | inr old ↦ ev.0 q s old
            | inl (e, f) ↦
                subst (λ z. All (IsApprover entries (proofs_of approvals z) z) s × Distinct s) e
                  (subst
                    (λ z. All (IsApprover entries (proofs_of approvals pid) pid) z × Distinct z) f
                    new)
          ],
          λ q s g. elim (put_some-cases pid q pairs s out.roles g) [
            | inr old ↦ ev.1 q s old
            | inl (e, f) ↦
                subst (λ z. All (IsRoleApprover entries (proofs_of approvals z) z) s) e
                  (subst (All (IsRoleApprover entries (proofs_of approvals pid) pid)) f new_pairs)
          ],
        )

    check_proposal-IsEvidence :
        (x : Index) (pid : Text) (out next : Approvers)
        → ((q : Text) (m : ArtifactMeta)
            → get q x.metas ≡ some m
            → (a : Text) × (get q x.authors ≡ some a) × Origin q m a)
        → check_proposal x pid (proofs_of approvals pid) out ≡ ok next
        → IsEvidence out
        → IsEvidence next
    unfolding check_proposal
    check_proposal-IsEvidence x pid out next hx h ev = elim (Option-cases (get pid x.metas)) [
      | inl n ↦ absurd (ground arith)
      | inr (m, q) ↦ elim (Result-cases (check_proofs pid m (proofs_of approvals pid) [] [])) [
        | inr (e, r) ↦ absurd (ground arith)
        | inl ((d, l), r) ↦
            let (a, ha, origin) = hx pid m q in
            subst IsEvidence (ground arith) (evidence pid m a d l out origin r ev)
      ]
    ]

    check_proposals-IsEvidence :
        (x : Index) (pids : List Text) (out last : Approvers)
        → ((q : Text) (m : ArtifactMeta)
            → get q x.metas ≡ some m
            → (a : Text) × (get q x.authors ≡ some a) × Origin q m a)
        → check_proposals x approvals pids out ≡ ok last
        → IsEvidence out
        → IsEvidence last
    unfolding check_proposals
    check_proposals-IsEvidence x [] out last hx h ev = subst IsEvidence (cc) ev
    check_proposals-IsEvidence x (pid ∷ pids) out last hx h ev =
        elim (Result-cases (check_proposal x pid (proofs_of approvals pid) out)) [
          | inr (e, r) ↦ absurd (ground arith)
          | inl (next, r) ↦
              check_proposals-IsEvidence x pids next last hx (ground arith)
                (check_proposal-IsEvidence x pid out next hx r ev)
        ]

    -- Where the approval proofs check, every approver listed for a proposal approved it: the record
    -- holds an artifact entry for the proposal that the approver neither recorded nor proposed, and a
    -- filed proof whose key is the approver's and signed the statement of approval of that artifact:
    -- the bare one, or the one with the proof's role. No approver is listed twice. Every approver
    -- listed with a role is one too, with a filed proof that signed that role for the same artifact.
    pub verify_artifact_approvals-IsEvidence :
        (a : Approvers) → verify_artifact_approvals entries approvals ≡ ok a → IsEvidence a
    unfolding verify_artifact_approvals
    verify_artifact_approvals-IsEvidence a h =
        elim (Result-cases (index_artifacts entries (record { metas = []; authors = [] }))) [
          | inr (e, r) ↦ absurd (ground arith)
          | inl (x, r) ↦
              check_proposals-IsEvidence x (sort_strings (keys approvals))
                (record { approvers = []; roles = [] }) a
                (index_artifacts-ok Origin entries (record { metas = []; authors = [] }) x
                  (All-self _ entries (λ e at m p. (e, at, p, refl, refl))) r
                  (λ q m g. absurd (unfold get in cc g)))
                (ground arith) (unfold get in ((λ q s g. absurd (cc g)), (λ q s g. absurd (cc g))))
        ]
