-- ===== src/Client/Action/Frames.antt =====
-- The frames from peers and the timer keep to the rule.
use netherchat.Base.{
  ◌≡◌, refl, sym, subst, ◌⊎◌, inl, inr, not, ◌||◌, some, true, is_empty, is_empty_iff,
  is_empty-true_iff, List, [], ◌∷◌, Text, ◌==◌, ==_iff, eqb, length, Option-cases, Bool-cases,
  arith,
}
use netherchat.Base.Int.{ℤ}
use netherchat.Base.Dict.{get}
use netherchat.Protocol.Statement.{Statement, action, action_v2, bytes}
use netherchat.Record.Library.{Library, fingerprint}
use netherchat.Client.Action.{
  Request, Approval, Tracked, Client, requested, vetoed, expired, rejected, forget, track, observed,
  count_approval, expire_action, on_action_veto, on_action_request,
}
use netherchat.Client.Action.Methods.{Call, approval_frame, approval_bytes, on_action_approval}
use netherchat.Client.Action.Endorsed.{
  Says, Approves, Inv, IsTracked, Ok, count_approval-Ok, forget-Inv, track-Inv,
}

module _ ⦃lib : Library⦄ where
  module _ (own : Text) (policy : Text → ℤ) where
    pub expire_action-Ok :
        (seen : List Call) (c : Client) (id : Text)
        → Inv own policy seen c
        → Ok own policy seen (expire_action c id)
    unfolding expire_action
    expire_action-Ok seen c id i = elim (Option-cases (get id c.actions)) [
      | inl n ↦
          let e : (c, []) ≡ expire_action c id = ground arith in
          subst (Ok own policy seen) e (i, tt)
      | inr (ta, q) ↦
          let e : (forget c id, expired id ∷ []) ≡ expire_action c id =
            ground (arith, (i.tracked id ta q).open_) in
          subst (Ok own policy seen) e (forget-Inv own policy seen c id i, (tt, tt))
    ]

    pub on_action_veto-Ok :
        (seen : List Call) (c : Client) (id : Text)
        → Inv own policy seen c
        → Ok own policy seen (on_action_veto c id)
    unfolding on_action_veto
    on_action_veto-Ok seen c id i = elim (Option-cases (get id c.actions)) [
      | inl n ↦
          let e : (c, []) ≡ on_action_veto c id = ground arith in
          subst (Ok own policy seen) e (i, tt)
      | inr (ta, q) ↦
          let e : (forget c id, vetoed id ∷ []) ≡ on_action_veto c id =
            ground (arith, (i.tracked id ta q).open_) in
          subst (Ok own policy seen) e (forget-Inv own policy seen c id i, (tt, tt))
    ]

    observed-IsTracked :
        (seen : List Call) (body : Request)
        → IsTracked own policy seen body.request_id (observed body)
    observed-IsTracked seen body = record {
      open_ = refl;
      named = refl;
      distinct = tt;
      endorsed = tt;
      policed = λ e. absurd (cc e);
    }

    on_action_request-cases :
        (c : Client) (now : ℤ) (sender : Text) (body : Request)
        → (on_action_request c now sender body ≡ (c, []))
          ⊎ ((on_action_request c now sender body ≡ (c, rejected ∷ []))
              ⊎ (on_action_request c now sender body
                  ≡ (track c body.request_id (observed body), requested body ∷ [])))
    unfolding on_action_request
    on_action_request-cases c now sender body =
        elim (Option-cases (get body.request_id c.actions)) [
          | inl n ↦ ground arith
          | inr (ta, q) ↦ ground arith
        ]

    pub on_action_request-Ok :
        (seen : List Call) (c : Client) (now : ℤ) (sender : Text) (body : Request)
        → Inv own policy seen c
        → Ok own policy seen (on_action_request c now sender body)
    on_action_request-Ok seen c now sender body i =
        elim (on_action_request-cases c now sender body) [
          | inl e ↦ subst (Ok own policy seen) (sym e) (i, tt)
          | inr (inl e) ↦ subst (Ok own policy seen) (sym e) (i, (tt, tt))
          | inr (inr e) ↦ subst (Ok own policy seen) (sym e) (
            track-Inv own policy seen c body.request_id (observed body) i
                (observed-IsTracked seen body),
            (tt, tt),
          )
        ]

    approval_bytes-Says :
        (req : Request) (body : Approval)
        → (s : Statement) × Says req body s × (approval_bytes req body ≡ bytes s)
    unfolding approval_bytes
    approval_bytes-Says req body = elim (Bool-cases (is_empty body.meaning)) [
      | inl e ↦ (
        action req.request_id req.params_hash body.approver_fpr req.nonce,
        inl ((is_empty-true_iff body.meaning).0 e, refl),
        ground arith,
      )
      | inr e ↦ (
        action_v2 req.request_id req.params_hash body.approver_fpr req.nonce body.meaning body.name
            body.signed_at,
        inr ((is_empty_iff body.meaning).0 e, refl),
        ground arith,
      )
    ]

    verified :
        (key : Text) (req : Request) (body : Approval)
        → lib.ed25519_verify key (approval_bytes req body) body.sig ≡ true
        → (s : Statement) × Says req body s × (lib.ed25519_verify key (bytes s) body.sig ≡ true)
    verified key req body h =
        let (s, says, e) = approval_bytes-Says req body in
        (s, says, subst (λ b. lib.ed25519_verify key b body.sig ≡ true) e h)

    -- An approval is counted only if it approves the request.
    on_action_approval-cases :
        (c : Client) (key : Text) (body : Approval)
        → ((ta : Tracked)
            → get body.request_id c.actions ≡ some ta
            → ta.req.request_id ≡ body.request_id)
        → (on_action_approval c key body ≡ (c, []))
          ⊎ ((on_action_approval c key body ≡ (c, rejected ∷ []))
              ⊎ ((on_action_approval c key body
                    ≡ count_approval c body.request_id (fingerprint key))
                  × (ta : Tracked) × (get body.request_id c.actions ≡ some ta)
                  × Approves ta.req (fingerprint key) (approval_frame key body)))
    unfolding on_action_approval
    on_action_approval-cases c key body named =
        elim (Option-cases (get body.request_id c.actions)) [
          | inl n ↦ inl (ground arith)
          | inr (ta, q) ↦ elim (Bool-cases ta.resolved) [
            | inl r ↦ inl (ground arith)
            | inr r ↦ elim (Bool-cases (body.params_hash == ta.req.params_hash)) [
              | inr h ↦ inr (inl (ground arith))
              | inl h ↦ elim (Bool-cases (body.approver_fpr == fingerprint key)) [
                | inr f ↦ inr (inl (ground arith))
                | inl f ↦
                    elim (Bool-cases (
                      not (eqb (length key) 32)
                      || not (lib.ed25519_verify key (approval_bytes ta.req body) body.sig))) [
                        | inl v ↦ inr (inl (ground arith))
                        | inr v ↦ inr (
                            inr (
                              ground arith,
                              ta,
                              q,
                              (
                                sym (named ta q),
                                (==_iff body.params_hash ta.req.params_hash).0 h,
                                (==_iff body.approver_fpr (fingerprint key)).0 f,
                                refl,
                                ground arith,
                                verified key ta.req body (ground arith),
                              ),
                            ))
                      ]
              ]
            ]
          ]
        ]

    pub on_action_approval-Ok :
        (seen : List Call) (c : Client) (key : Text) (body : Approval)
        → Inv own policy (approval_frame key body ∷ seen) c
        → Ok own policy (approval_frame key body ∷ seen) (on_action_approval c key body)
    on_action_approval-Ok seen c key body i =
        elim (on_action_approval-cases c key body
          (λ ta q. (i.tracked body.request_id ta q).named)) [
            | inl e ↦ subst (Ok own policy (approval_frame key body ∷ seen)) (sym e) (i, tt)
            | inr (inl e) ↦
                subst (Ok own policy (approval_frame key body ∷ seen)) (sym e) (i, (tt, tt))
            | inr (inr (e, ta, q, a)) ↦
                subst (Ok own policy (approval_frame key body ∷ seen)) (sym e) (
                  count_approval-Ok own policy (approval_frame key body ∷ seen) c body.request_id
                    (fingerprint key) i
                    (λ tb h.
                      let p : ta ≡ tb = ground arith in
                      inr (
                        inl (
                          subst
                            (λ (t : Tracked).
                              Approves t.req (fingerprint key) (approval_frame key body))
                            p a))))
          ]
