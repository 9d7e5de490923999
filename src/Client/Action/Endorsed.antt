-- ===== src/Client/Action/Endorsed.antt =====
-- Who endorsed a tracked request, and the requests whose quorum was reached.
use netherchat.Base.{
  suc, ◌≡◌, ◌≢◌, refl, sym, ◌∙◌, subst, ◌⊎◌, inl, inr, Bool, true, false, ◌||◌, Option, none, some,
  List, [], ◌∷◌, Text, ◌==◌, ==_iff, length, length-map, All, All-map, Any, Distinct, Option-cases,
  Bool-cases, arith,
}
use netherchat.Base.Int.{ℤ, pos, ltb_ℤ}
use netherchat.Base.Dict.{
  get, put, keys, IsMap, get-put, get-delete, put-IsMap, All-keys-put, keys-Distinct,
}
use netherchat.Protocol.Statement.{Statement, action, action_v2, bytes}
use netherchat.Record.Library.{Library, fingerprint}
use netherchat.Client.Action.{
  Request, Approval, Tracked, Client, Event, performed, quorum_for, endorsements, flag,
  add_approver, forget, track, count_with, count_approval,
}
use netherchat.Client.Action.Methods.{Call, gate_call, approval_frame}

module _ ⦃lib : Library⦄ where
  -- The statement that an approval of the request makes: the bare one, or the one with its meaning.
  abbrev pub Says : Request → Approval → Statement → Type 0
  Says req body s =
      ((body.meaning ≡ [])
        × (s ≡ action req.request_id req.params_hash body.approver_fpr req.nonce))
      ⊎ ((body.meaning ≢ [])
          × (s
              ≡ action_v2 req.request_id req.params_hash body.approver_fpr req.nonce body.meaning
                  body.name body.signed_at))

  -- The call is the frame of an approval of the request by `fpr`: its key hashes to `fpr` and signed
  -- the statement of the approval.
  abbrev pub Approves : Request → Text → Call → Type 0
  Approves req fpr (approval_frame key body) =
      (body.request_id ≡ req.request_id)
      × (body.params_hash ≡ req.params_hash)
      × (body.approver_fpr ≡ fpr)
      × (fingerprint key ≡ fpr)
      × (length key ≡ 32)
      × ((s : Statement) × Says req body s × (lib.ed25519_verify key (bytes s) body.sig ≡ true))
  Approves req fpr _ = ⊥

  -- The call is the client's own gateAction, whose request was sent under its policy.
  abbrev pub Opens : Text → (Text → ℤ) → Request → Call → Type 0
  Opens own policy req (gate_call name params id nonce expires sent) =
      (req.request_id ≡ id)
      × (req.action ≡ name)
      × (req.params ≡ params)
      × (req.params_hash ≡ lib.hex_encode (lib.sha256 params))
      × (req.nonce ≡ nonce)
      × (req.requester_fpr ≡ own)
      × (req.quorum_needed ≡ policy name)
      × (sent ≡ true)
  Opens own policy req _ = ⊥

  -- The request was opened by a call of the client's own gateAction under a policy of two at least,
  -- and enough other members, each once, approved it in a frame that was seen.
  pub record IsBacked (own : Text) (policy : Text → ℤ) (seen : List Call) (id : Text) : Type 0 where
    pub req : Request
    pub approvers : List Text
    pub named : req.request_id ≡ id
    pub opened_by : Any (Opens own policy req) seen
    pub requester : req.requester_fpr ≡ own
    pub two : ltb_ℤ (policy req.action) (pos 2) ≡ false
    pub distinct : Distinct approvers
    pub others : All (λ f. f ≢ own) approvers
    pub signed : All (λ f. Any (Approves req f) seen) approvers
    pub enough : ltb_ℤ (pos (suc (length approvers))) (policy req.action) ≡ false

  module _ (own : Text) (policy : Text → ℤ) where
    abbrev pub Backs : List Call → Event → Type 0
    Backs seen (performed id) = IsBacked own policy seen id
    Backs seen _ = Unit

    -- An endorser of a request: another one than the requester, by a frame or by the client itself.
    abbrev IsEndorser : List Call → Request → Text → Type 0
    IsEndorser seen req f = (f ≢ req.requester_fpr) × ((f ≡ own) ⊎ Any (Approves req f) seen)

    pub record IsTracked (seen : List Call) (id : Text) (ta : Tracked) : Type 0 where
      pub open_ : ta.resolved ≡ false
      pub named : ta.req.request_id ≡ id
      pub distinct : IsMap ta.approvers
      pub endorsed : All (IsEndorser seen ta.req) (keys ta.approvers)
      pub policed :
          ta.on_approve ≡ true
          → (ta.req.requester_fpr ≡ own)
            × (ta.req.quorum_needed ≡ policy ta.req.action)
            × (ltb_ℤ (policy ta.req.action) (pos 2) ≡ false)
            × Any (Opens own policy ta.req) seen

    pub record Inv (seen : List Call) (c : Client) : Type 0 where
      pub me : c.fpr ≡ own
      pub rule : (a : Text) → quorum_for c a ≡ policy a
      pub tracked : (id : Text) (ta : Tracked) → get id c.actions ≡ some ta → IsTracked seen id ta

    abbrev pub Ok : List Call → Client × List Event → Type 0
    Ok seen out = Inv seen out.0 × All (Backs seen) out.1

    later :
        (call : Call) (seen : List Call) (id : Text) (ta : Tracked)
        → IsTracked seen id ta
        → IsTracked (call ∷ seen) id ta
    later call seen id ta t = record {
      open_ = t.open_;
      named = t.named;
      distinct = t.distinct;
      endorsed =
          All-map (IsEndorser seen ta.req) (IsEndorser (call ∷ seen) ta.req) (keys ta.approvers)
            wider t.endorsed;
      policed = λ o. let (e, q, two, made) = t.policed o in (e, q, two, inr made);
    }
      where
        wider : (f : Text) → IsEndorser seen ta.req f → IsEndorser (call ∷ seen) ta.req f
        wider f (n, inl e) = (n, inl e)
        wider f (n, inr a) = (n, inr (inr a))

    pub Inv-later : (call : Call) (seen : List Call) (c : Client) → Inv seen c → Inv (call ∷ seen) c
    Inv-later call seen c i = record {
      me = i.me;
      rule = i.rule;
      tracked = λ id ta h. later call seen id ta (i.tracked id ta h);
    }

    pub track-Inv :
        (seen : List Call) (c : Client) (id : Text) (ta : Tracked)
        → Inv seen c
        → IsTracked seen id ta
        → Inv seen (track c id ta)
    unfolding quorum_for
    track-Inv seen c id ta i t = record { me = i.me; rule = i.rule; tracked = held }
      where
        held : (j : Text) (x : Tracked) → get j (put id ta c.actions) ≡ some x → IsTracked seen j x
        held j x h = elim (Bool-cases (id == j)) [
          | inl e ↦
              let q : ta ≡ x = ground (arith, get-put id j ta c.actions) in
              subst (λ k. IsTracked seen k x) ((==_iff id j).0 e) (subst (IsTracked seen id) q t)
          | inr n ↦ i.tracked j x (ground (arith, get-put id j ta c.actions))
        ]

    pub forget-Inv :
        (seen : List Call) (c : Client) (id : Text) → Inv seen c → Inv seen (forget c id)
    unfolding quorum_for
    forget-Inv seen c id i = record {
      me = i.me;
      rule = i.rule;
      tracked = λ j x h. i.tracked j x (ground (arith, get-delete id j c.actions));
    }

    -- A request that could not be sent is forgotten again.
    pub untrack-Inv :
        (seen : List Call) (c : Client) (id : Text) (ta : Tracked)
        → Inv seen c
        → Inv seen (forget (track c id ta) id)
    unfolding quorum_for
    untrack-Inv seen c id ta i = record {
      me = i.me;
      rule = i.rule;
      tracked = λ j x h.
          i.tracked j x
            (ground (arith, get-delete id j (put id ta c.actions), get-put id j ta c.actions));
    }

    add_approver-IsTracked :
        (seen : List Call) (id fpr : Text) (ta tb : Tracked)
        → IsTracked seen id ta
        → (fpr ≡ own) ⊎ Any (Approves ta.req fpr) seen
        → add_approver ta fpr ≡ some tb
        → IsTracked seen id tb
    unfolding add_approver
    add_approver-IsTracked seen id fpr ta tb t a h =
        elim (Bool-cases (ta.resolved || fpr == ta.req.requester_fpr || flag fpr ta.approvers)) [
          | inl s ↦ absurd (ground arith)
          | inr s ↦
              let q : record ta { approvers = put fpr true ta.approvers } ≡ tb = ground arith in
              let n : fpr ≢ ta.req.requester_fpr =
                λ e. ground (arith, ==_iff fpr ta.req.requester_fpr) in
              subst (IsTracked seen id) q (record {
                open_ = t.open_;
                named = t.named;
                distinct = put-IsMap fpr true ta.approvers t.distinct;
                endorsed =
                    All-keys-put (IsEndorser seen ta.req) fpr true ta.approvers (n, a) t.endorsed;
                policed = t.policed;
              })
        ]

    -- A request of the client's own that reaches its quorum is backed.
    backed :
        (seen : List Call) (id : Text) (ta : Tracked)
        → IsTracked seen id ta
        → ltb_ℤ (pos (endorsements ta)) ta.req.quorum_needed ≡ false
        → ta.on_approve ≡ true
        → IsBacked own policy seen id
    backed seen id ta t r o =
        let (e, q, two, made) = t.policed o in
        record {
          req = ta.req;
          approvers = keys ta.approvers;
          named = t.named;
          opened_by = made;
          requester = e;
          two = two;
          distinct = keys-Distinct ta.approvers t.distinct;
          others =
              All-map (IsEndorser seen ta.req) (λ f. f ≢ own) (keys ta.approvers)
                (λ f (n, a) p. n (p ∙ sym e)) t.endorsed;
          signed =
              All-map (IsEndorser seen ta.req) (λ f. Any (Approves ta.req f) seen)
                (keys ta.approvers) (λ f x. by_frame f e x) t.endorsed;
          enough =
              subst (λ n. ltb_ℤ (pos (suc n)) (policy ta.req.action) ≡ false)
                (sym (length-map (λ (x : Text × Bool). x.0) ta.approvers))
                (subst (λ k. ltb_ℤ (pos (endorsements ta)) k ≡ false) q r);
        }
      where
        by_frame :
            (f : Text)
            → ta.req.requester_fpr ≡ own
            → IsEndorser seen ta.req f
            → Any (Approves ta.req f) seen
        by_frame f e (n, inl p) = absurd (n (p ∙ sym e))
        by_frame f e (n, inr a) = a

    count_with-Ok :
        (seen : List Call) (c : Client) (id fpr : Text) (x : Option Tracked)
        → Inv seen c
        → ((ta : Tracked) → x ≡ some ta → IsTracked seen id ta)
        → Ok seen (count_with c id fpr x)
    count_with-Ok seen c id fpr none i t = (i, tt)
    count_with-Ok seen c id fpr (some ta) i t =
        elim (Bool-cases (ltb_ℤ (pos (endorsements ta)) ta.req.quorum_needed)) [
          | inl l ↦ rw l (track-Inv seen c id ta i (t ta refl), (tt, tt))
          | inr l ↦ rw l (
            forget-Inv seen c id i,
            (
              tt,
              elim (Bool-cases ta.on_approve) [
                | inl o ↦ rw o (backed seen id ta (t ta refl) l o, (tt, tt))
                | inr o ↦ rw o (tt, tt)
              ],
            ),
          )
        ]

    pub count_approval-Ok :
        (seen : List Call) (c : Client) (id fpr : Text)
        → Inv seen c
        → ((ta : Tracked)
            → get id c.actions ≡ some ta
            → (fpr ≡ own) ⊎ Any (Approves ta.req fpr) seen)
        → Ok seen (count_approval c id fpr)
    unfolding count_approval
    count_approval-Ok seen c id fpr i a = elim (Option-cases (get id c.actions)) [
      | inl n ↦
          let e : (c, []) ≡ count_approval c id fpr = ground arith in subst (Ok seen) e (i, tt)
      | inr (ta, q) ↦
          let e : count_with c id fpr (add_approver ta fpr) ≡ count_approval c id fpr =
            ground (arith, (i.tracked id ta q).open_) in
          subst (Ok seen) e (
            count_with-Ok seen c id fpr (add_approver ta fpr) i
              (λ tb h. add_approver-IsTracked seen id fpr ta tb (i.tracked id ta q) (a ta q) h))
    ]
