-- ===== src/Client/Action/Answers.antt =====
-- Approvals and vetoes of the client itself keep to the rule.
use netherchat.Base.{
  ◌≡◌, sym, subst, ◌⊎◌, inl, inr, Bool, true, not, ◌||◌, Option, List, [], ◌∷◌, Text, ◌==◌, All, ok,
  err, Option-cases, Bool-cases, arith,
}
use netherchat.Base.Int.{ℤ}
use netherchat.Base.Dict.{get}
use netherchat.Record.Library.{Library}
use netherchat.Client.Action.{
  Approval, Tracked, no_request, Client, Event, vetoed, approval_sent, forget, track,
  count_approval, resolve_action_id,
}
use netherchat.Client.Action.Methods.{
  Call, approval_bytes, params_hash, approval, count_own, approve_tracked, approve_action_as,
  veto_tracked, veto_action,
}
use netherchat.Client.Action.Endorsed.{
  Backs, Inv, IsTracked, Ok, count_approval-Ok, forget-Inv, track-Inv,
}

module _ ⦃lib : Library⦄ where
  module _ (own : Text) (policy : Text → ℤ) where
    approved-IsTracked :
        (seen : List Call) (id : Text) (ta : Tracked)
        → IsTracked own policy seen id ta
        → IsTracked own policy seen id (record ta { approved = true })
    approved-IsTracked seen id ta t = record {
      open_ = t.open_;
      named = t.named;
      distinct = t.distinct;
      endorsed = t.endorsed;
      policed = t.policed;
    }

    -- The outcome of a method is the client, the events and the answer.
    abbrev pub Fine {ℓ} : {A : Type ℓ} → List Call → Client × List Event × A → Type 0
    Fine seen out = Inv own policy seen out.0 × All (Backs own policy seen) out.1

    count_own-Fine :
        (seen : List Call) (c : Client) (body : Approval)
        → Inv own policy seen c
        → Fine seen (count_own c body)
    count_own-Fine seen c body i = elim (Option-cases (get body.request_id c.actions)) [
      | inl n ↦
          let e : (c, approval_sent body ∷ [], ok tt) ≡ count_own c body = ground arith in
          subst (Fine seen) e (i, (tt, tt))
      | inr (ta, q) ↦
          let d = track c body.request_id (record ta { approved = true }) in
          let t = i.tracked body.request_id ta q in
          let e : (
            (count_approval d body.request_id c.fpr).0,
            approval_sent body ∷ (count_approval d body.request_id c.fpr).1,
            ok tt,
          )
              ≡ count_own c body =
            ground (arith, t.open_) in
          let k : Ok own policy seen (count_approval d body.request_id c.fpr) =
            count_approval-Ok own policy seen d body.request_id c.fpr
              (track-Inv own policy seen c body.request_id (record ta { approved = true }) i
                (approved-IsTracked seen body.request_id ta t))
              (λ tb h. inl i.me) in
          subst (Fine seen) e (k.0, (tt, k.1))
    ]

    -- A method leaves the client alone, or does what its last step does.
    approve_tracked-cases :
        (c : Client) (ta : Tracked) (meaning now : Text) (sign : Text → Option Text) (sent : Bool)
        → (((approve_tracked c ta meaning now sign sent).0 ≡ c)
            × ((approve_tracked c ta meaning now sign sent).1 ≡ []))
          ⊎ ((sig : Text) × (approve_tracked c ta meaning now sign sent
                ≡ count_own c (approval c ta.req meaning now sig)))
    approve_tracked-cases c ta meaning now sign sent =
        elim (Option-cases (sign (approval_bytes ta.req (approval c ta.req meaning now [])))) [
          | inl n ↦ inl (ground arith)
          | inr (sig, q) ↦
              elim (Bool-cases (
                ta.resolved
                || ta.req.requester_fpr == c.fpr
                || ta.approved
                || not (params_hash ta.req.params == ta.req.params_hash)
                || not c.ready
                || not sent)) [ inl b ↦ inl (ground arith) | inr b ↦ inr (sig, ground arith) ]
        ]

    approve_tracked-Fine :
        (seen : List Call) (c : Client) (ta : Tracked) (meaning now : Text)
        (sign : Text → Option Text) (sent : Bool)
        → Inv own policy seen c
        → Fine seen (approve_tracked c ta meaning now sign sent)
    approve_tracked-Fine seen c ta meaning now sign sent i =
        elim (approve_tracked-cases c ta meaning now sign sent) [
          | inl (a, b) ↦ (
            subst (Inv own policy seen) (sym a) i,
            subst (All (Backs own policy seen)) (sym b) tt,
          )
          | inr (sig, e) ↦
              subst (Fine seen) (sym e)
                (count_own-Fine seen c (approval c ta.req meaning now sig) i)
        ]

    pub approve_action_as-Fine :
        (seen : List Call) (c : Client) (prefix meaning now : Text) (sign : Text → Option Text)
        (sent : Bool)
        → Inv own policy seen c
        → Fine seen (approve_action_as c prefix meaning now sign sent)
    unfolding approve_action_as
    approve_action_as-Fine seen c prefix meaning now sign sent i =
        elim (Option-cases (resolve_action_id c prefix)) [
          | inl n ↦
              let e : (c, [], err (no_request prefix))
                  ≡ approve_action_as c prefix meaning now sign sent =
                ground arith in
              subst (Fine seen) e (i, tt)
          | inr (id, q) ↦ elim (Option-cases (get id c.actions)) [
            | inl n ↦
                let e : (c, [], err (no_request prefix))
                    ≡ approve_action_as c prefix meaning now sign sent =
                  ground arith in
                subst (Fine seen) e (i, tt)
            | inr (ta, r) ↦
                let e : approve_tracked c ta meaning now sign sent
                    ≡ approve_action_as c prefix meaning now sign sent =
                  ground arith in
                subst (Fine seen) e (approve_tracked-Fine seen c ta meaning now sign sent i)
          ]
        ]

    veto_tracked-cases :
        (c : Client) (id : Text) (ta : Tracked) (sent : Bool)
        → ((veto_tracked c id ta sent).0 ≡ c) ⊎ ((veto_tracked c id ta sent).0 ≡ forget c id)
    veto_tracked-cases c id ta sent = ground arith

    veto_tracked-quiet :
        (c : Client) (id : Text) (ta : Tracked) (sent : Bool)
        → ((veto_tracked c id ta sent).1 ≡ []) ⊎ ((veto_tracked c id ta sent).1 ≡ vetoed id ∷ [])
    veto_tracked-quiet c id ta sent = ground arith

    veto_tracked-Fine :
        (seen : List Call) (c : Client) (id : Text) (ta : Tracked) (sent : Bool)
        → Inv own policy seen c
        → Fine seen (veto_tracked c id ta sent)
    veto_tracked-Fine seen c id ta sent i = (
      elim (veto_tracked-cases c id ta sent) [
        | inl e ↦ subst (Inv own policy seen) (sym e) i
        | inr e ↦ subst (Inv own policy seen) (sym e) (forget-Inv own policy seen c id i)
      ],
      elim (veto_tracked-quiet c id ta sent) [
        | inl e ↦ subst (All (Backs own policy seen)) (sym e) tt
        | inr e ↦ subst (All (Backs own policy seen)) (sym e) (tt, tt)
      ],
    )

    pub veto_action-Fine :
        (seen : List Call) (c : Client) (prefix : Text) (sent : Bool)
        → Inv own policy seen c
        → Fine seen (veto_action c prefix sent)
    unfolding veto_action
    veto_action-Fine seen c prefix sent i = elim (Option-cases (resolve_action_id c prefix)) [
      | inl n ↦
          let e : (c, [], err (no_request prefix)) ≡ veto_action c prefix sent = ground arith in
          subst (Fine seen) e (i, tt)
      | inr (id, q) ↦ elim (Option-cases (get id c.actions)) [
        | inl n ↦
            let e : (c, [], err (no_request prefix)) ≡ veto_action c prefix sent = ground arith in
            subst (Fine seen) e (i, tt)
        | inr (ta, r) ↦
            let e : veto_tracked c id ta sent ≡ veto_action c prefix sent = ground arith in
            subst (Fine seen) e (veto_tracked-Fine seen c id ta sent i)
      ]
    ]
