-- ===== src/Client/Action/Methods.antt =====
-- The methods of tui/client/action.go that hash, sign or verify, and the calls that a client sees.
use netherchat.Base.{
  Bool, true, not, ◌&&◌, ◌||◌, Option, none, some, List, [], ◌∷◌, Text, ◌==◌, is_empty, eqb, length,
  if◌then◌else◌, Result, ok, err,
}
use netherchat.Base.Int.{ℤ, pos, ltb_ℤ}
use netherchat.Base.Dict.{get}
use netherchat.Protocol.{action_signing_bytes, action_signing_bytes_v2}
use netherchat.Record.Library.{Library, fingerprint}
use netherchat.Client.Action.{
  Request, Approval, Tracked, Client, Event, ActionError, requested, performed_alone, vetoed,
  rejected, approval_sent, low_quorum, no_room_key, send_failed, sign_failed, no_request,
  already_resolved, own_request, already_approved, wrong_params_hash, disabled, no_relay,
  quorum_for, can_gate_quorum, resolve_action_id, forget, track, observed, count_approval,
  on_action_request, on_action_veto, expire_action, clear_actions,
}

-- A method that a user calls, a frame from a peer, or the timer of a request.
pub data Call : Type 0 where
  gate_call : Text → Text → Text → Text → ℤ → Bool → Call
  approve_call : Text → Text → Text → (Text → Option Text) → Bool → Call
  veto_call : Text → Bool → Call
  request_frame : ℤ → Text → Request → Call
  approval_frame : Text → Approval → Call
  veto_frame : Text → Call
  expiry : Text → Call
  clear_call : Call

module _ ⦃lib : Library⦄ where
  -- actionParamsHash
  unfoldable pub params_hash : Text → Text
  params_hash params = lib.hex_encode (lib.sha256 params)

  -- What an approval signs: the v2 preimage if it declares a meaning.
  unfoldable pub approval_bytes : Request → Approval → Text
  approval_bytes req body =
      if not (is_empty body.meaning)
      then action_signing_bytes_v2 req.request_id req.params_hash body.approver_fpr req.nonce
          body.meaning body.name body.signed_at
      else action_signing_bytes req.request_id req.params_hash body.approver_fpr req.nonce

  -- onActionApproval
  unfoldable pub on_action_approval : Client → Text → Approval → Client × List Event
  on_action_approval c key body = elim (get body.request_id c.actions) [
    | none ↦ (c, [])
    | some ta ↦
        if ta.resolved
        then (c, [])
        else if not (body.params_hash == ta.req.params_hash)
        then (c, rejected ∷ [])
        else if not (body.approver_fpr == fingerprint key)
        then (c, rejected ∷ [])
        else if not (eqb (length key) 32)
            || not (lib.ed25519_verify key (approval_bytes ta.req body) body.sig)
        then (c, rejected ∷ [])
        else count_approval c body.request_id (fingerprint key)
  ]

  abbrev pub request : Client → Text → Text → ℤ → Text → Text → ℤ → Request
  request c action params quorum id nonce expires = record {
    request_id = id;
    action = action;
    params_hash = params_hash params;
    params = params;
    requester_fpr = c.fpr;
    room = c.room;
    quorum_needed = quorum;
    expires_unix = expires;
    nonce = nonce;
  }

  abbrev pub opened : Request → Bool → Tracked
  opened body on_approve = record (observed body) { initiator = true; on_approve = on_approve }

  -- RequestAction
  unfoldable pub request_action :
      Client
      → Text
      → Text
      → ℤ
      → Bool
      → Text
      → Text
      → ℤ
      → Bool
      → Client × List Event × Result ActionError Text
  request_action c action params quorum on_approve id nonce expires sent =
      let body = request c action params quorum id nonce expires in
      let d = track c id (opened body on_approve) in
      if ltb_ℤ quorum (pos 2)
      then (c, [], err low_quorum)
      else if not c.ready
      then (c, [], err no_room_key)
      else if not sent
      then (forget d id, [], err send_failed)
      else (d, requested body ∷ [], ok id)

  -- gateAction
  unfoldable pub gate_action :
      Client → Text → Text → Text → Text → ℤ → Bool → Client × List Event × Result ActionError Text
  gate_action c action params id nonce expires sent =
      let q = quorum_for c action in
      if not (ltb_ℤ q (pos 0)) && not (ltb_ℤ (pos 0) q)
      then (c, [], err (disabled action))
      else if not (ltb_ℤ (pos 1) q)
      then (c, performed_alone action ∷ [], ok [])
      else if not (can_gate_quorum c)
      then (c, [], err (no_relay action q))
      else request_action c action params q true id nonce expires sent

  abbrev pub approval : Client → Request → Text → Text → Text → Approval
  approval c req meaning now sig = record {
    request_id = req.request_id;
    params_hash = req.params_hash;
    approver_fpr = c.fpr;
    sig = sig;
    meaning = meaning;
    name = if is_empty meaning then [] else c.name;
    signed_at = if is_empty meaning then [] else now;
  }

  -- The end of ApproveActionAs: the own endorsement is counted where the request is tracked.
  abbrev pub count_own : Client → Approval → Client × List Event × Result ActionError (Unit {0})
  count_own c body = elim (get body.request_id c.actions) [
    | none ↦ (c, approval_sent body ∷ [], ok tt)
    | some ta ↦
        if ta.resolved
        then (c, approval_sent body ∷ [], ok tt)
        else let d = track c body.request_id (record ta { approved = true }) in
          let out = count_approval d body.request_id c.fpr in
          (out.0, approval_sent body ∷ out.1, ok tt)
  ]

  abbrev pub sign_and_send :
      Client
      → Request
      → Text
      → Text
      → (Text → Option Text)
      → Bool
      → Client × List Event × Result ActionError (Unit {0})
  sign_and_send c req meaning now sign sent =
      elim (sign (approval_bytes req (approval c req meaning now []))) [
        | none ↦ (c, [], err sign_failed)
        | some sig ↦
            if not sent
            then (c, [], err send_failed)
            else count_own c (approval c req meaning now sig)
      ]

  -- The switch of ApproveActionAs and what follows it, for a tracked request.
  abbrev pub approve_tracked :
      Client
      → Tracked
      → Text
      → Text
      → (Text → Option Text)
      → Bool
      → Client × List Event × Result ActionError (Unit {0})
  approve_tracked c ta meaning now sign sent =
      if ta.resolved
      then (c, [], err already_resolved)
      else if ta.req.requester_fpr == c.fpr
      then (c, [], err own_request)
      else if ta.approved
      then (c, [], err already_approved)
      else if not (params_hash ta.req.params == ta.req.params_hash)
      then (c, [], err wrong_params_hash)
      else if not c.ready
      then (c, [], err no_room_key)
      else sign_and_send c ta.req meaning now sign sent

  -- ApproveActionAs; `now` is the current time in RFC 3339.
  unfoldable pub approve_action_as :
      Client
      → Text
      → Text
      → Text
      → (Text → Option Text)
      → Bool
      → Client × List Event × Result ActionError (Unit {0})
  approve_action_as c prefix meaning now sign sent = elim (resolve_action_id c prefix) [
    | none ↦ (c, [], err (no_request prefix))
    | some id ↦ elim (get id c.actions) [
      | none ↦ (c, [], err (no_request prefix))
      | some ta ↦ approve_tracked c ta meaning now sign sent
    ]
  ]

  abbrev pub veto_tracked :
      Client → Text → Tracked → Bool → Client × List Event × Result ActionError (Unit {0})
  veto_tracked c id ta sent =
      if ta.resolved
      then (c, [], err already_resolved)
      else if not c.ready
      then (forget c id, [], err no_room_key)
      else if not sent
      then (forget c id, [], err send_failed)
      else (forget c id, vetoed id ∷ [], ok tt)

  -- VetoAction
  unfoldable pub veto_action :
      Client → Text → Bool → Client × List Event × Result ActionError (Unit {0})
  veto_action c prefix sent = elim (resolve_action_id c prefix) [
    | none ↦ (c, [], err (no_request prefix))
    | some id ↦ elim (get id c.actions) [
      | none ↦ (c, [], err (no_request prefix))
      | some ta ↦ veto_tracked c id ta sent
    ]
  ]

  abbrev pub step : Client → Call → Client × List Event
  step c (gate_call action params id nonce expires sent) =
      let out = gate_action c action params id nonce expires sent in (out.0, out.1)
  step c (approve_call prefix meaning now sign sent) =
      let out = approve_action_as c prefix meaning now sign sent in (out.0, out.1)
  step c (veto_call prefix sent) = let out = veto_action c prefix sent in (out.0, out.1)
  step c (request_frame now sender body) = on_action_request c now sender body
  step c (approval_frame key body) = on_action_approval c key body
  step c (veto_frame id) = on_action_veto c id
  step c (expiry id) = expire_action c id
  step c clear_call = (clear_actions c, [])

  -- The client after some calls, the newest first.
  abbrev pub after : Client → List Call → Client
  after c [] = c
  after c (call ∷ earlier) = (step (after c earlier) call).0
