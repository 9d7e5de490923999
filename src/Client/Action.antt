-- ===== src/Client/Action.antt =====
-- The two-person rule of tui/client/action.go. A handler returns the new client and the events it
-- emits. A callback is a flag: `performed` stands for the call of it. Random ids, clocks, the
-- identity's signature and the outcome of sealAndSend are arguments. A method is one step: no frame
-- comes between its critical sections. The timer of a request is the call of expireAction.
pub mod Methods
pub mod Endorsed
pub mod Frames
pub mod Answers
pub mod Quorum
use netherchat.Base.{
  ℕ, suc, Bool, true, false, not, ◌&&◌, ◌||◌, Option, none, some, List, [], ◌∷◌, ◌++◌, map, Text,
  codes, ◌==◌, is_empty, eqb, length, if◌then◌else◌,
}
use netherchat.Base.Int.{ℤ, pos, negsuc, ltb_ℤ}
use netherchat.Base.Dict.{Dict, get, put, delete, keys}

-- protocol.ActionRequestBody, ActionApprovalBody and ActionVetoBody
pub record Request : Type 0 where
  pub request_id : Text
  pub action : Text
  pub params_hash : Text
  pub params : Text
  pub requester_fpr : Text
  pub room : Text
  pub quorum_needed : ℤ
  pub expires_unix : ℤ
  pub nonce : Text

pub record Approval : Type 0 where
  pub request_id : Text
  pub params_hash : Text
  pub approver_fpr : Text
  pub sig : Text
  pub meaning : Text
  pub name : Text
  pub signed_at : Text

pub record Tracked : Type 0 where
  pub req : Request
  pub approvers : Dict Bool
  pub approved : Bool
  pub initiator : Bool
  pub on_approve : Bool
  pub resolved : Bool

-- The part of Client that the rule reads and writes. `transport` is its peer id, `none` for nil.
pub record Client : Type 0 where
  pub fpr : Text
  pub name : Text
  pub room : Text
  pub quorums : Dict ℤ
  pub transport : Option Text
  pub ready : Bool
  pub actions : Dict Tracked

pub data Event : Type 0 where
  requested : Request → Event
  counted : Text → Text → ℕ → ℤ → Event
  performed : Text → Event
  performed_alone : Text → Event
  executed vetoed expired : Text → Event
  rejected : Event
  approval_sent : Approval → Event

pub data ActionError : Type 0 where
  low_quorum no_room_key send_failed sign_failed : ActionError
  no_request : Text → ActionError
  already_resolved own_request already_approved wrong_params_hash : ActionError
  disabled : Text → ActionError
  no_relay : Text → ℤ → ActionError

-- quorumFor
unfoldable pub quorum_for : Client → Text → ℤ
quorum_for c action = elim (get action c.quorums) [ none ↦ pos 1 | some q ↦ q ]

-- canGateQuorum
unfoldable pub can_gate_quorum : Client → Bool
can_gate_quorum c = elim c.transport [ none ↦ false | some peer ↦ is_empty peer ]

-- endorsements
abbrev pub endorsements : Tracked → ℕ
endorsements ta = suc (length ta.approvers)

-- m[k] of a map of Booleans
abbrev pub flag : Text → Dict Bool → Bool
flag k m = elim (get k m) [ none ↦ false | some b ↦ b ]

-- addApprover, `none` for false
unfoldable pub add_approver : Tracked → Text → Option Tracked
add_approver ta fpr =
    if ta.resolved || fpr == ta.req.requester_fpr || flag fpr ta.approvers
    then none
    else some (record ta { approvers = put fpr true ta.approvers })

abbrev pub is_prefix : Text → Text → Bool
is_prefix [] t = true
is_prefix (b ∷ p) [] = false
is_prefix (b ∷ p) (d ∷ t) = eqb b d && is_prefix p t

-- The loop of resolveActionIDLocked: the unresolved ids with the prefix.
unfoldable pub matching : Text → Dict Tracked → List Text
matching prefix [] = []
matching prefix ((id, ta) ∷ m) =
    let rest = matching prefix m in
    if ta.resolved || not (is_prefix prefix id) then rest else id ∷ rest

abbrev only_one : List Text → Option Text
only_one (x ∷ []) = some x
only_one _ = none

-- resolveActionIDLocked
unfoldable pub resolve_action_id : Client → Text → Option Text
resolve_action_id c prefix = elim (get prefix c.actions) [
  | none ↦ only_one (matching prefix c.actions)
  | some ta ↦ if ta.resolved then only_one (matching prefix c.actions) else some prefix
]

abbrev forget : Client → Text → Client
forget c id = record c { actions = delete id c.actions }

abbrev track : Client → Text → Tracked → Client
track c id ta = record c { actions = put id ta c.actions }

abbrev performs : Text → Tracked → List Event
performs id ta = if ta.on_approve then performed id ∷ [] else []

-- countApproval from addApprover on, for a request that is tracked under `id`
abbrev pub count_with : Client → Text → Text → Option Tracked → Client × List Event
count_with c id fpr none = (c, [])
count_with c id fpr (some ta) =
    let news = counted id fpr (endorsements ta) ta.req.quorum_needed in
    if not (ltb_ℤ (pos (endorsements ta)) ta.req.quorum_needed)
    then (forget c id, news ∷ performs id ta ++ executed id ∷ [])
    else (track c id ta, news ∷ [])

-- countApproval
unfoldable pub count_approval : Client → Text → Text → Client × List Event
count_approval c id fpr = elim (get id c.actions) [
  | none ↦ (c, [])
  | some ta ↦ if ta.resolved then (c, []) else count_with c id fpr (add_approver ta fpr)
]

-- clearActionsLocked
unfoldable pub clear_actions : Client → Client
clear_actions c = record c { actions = [] }

-- expireAction
unfoldable pub expire_action : Client → Text → Client × List Event
expire_action c id = elim (get id c.actions) [
  | none ↦ (c, [])
  | some ta ↦ if ta.resolved then (c, []) else (forget c id, expired id ∷ [])
]

-- onActionVeto
unfoldable pub on_action_veto : Client → Text → Client × List Event
on_action_veto c id = elim (get id c.actions) [
  | none ↦ (c, [])
  | some ta ↦ if ta.resolved then (c, []) else (forget c id, vetoed id ∷ [])
]

abbrev observed : Request → Tracked
observed body = record {
  req = body;
  approvers = [];
  approved = false;
  initiator = false;
  on_approve = false;
  resolved = false;
}

-- onActionRequest; `now` is in seconds.
unfoldable pub on_action_request : Client → ℤ → Text → Request → Client × List Event
on_action_request c now sender body =
    if is_empty body.request_id || ltb_ℤ body.quorum_needed (pos 1)
    then (c, [])
    else if not (body.requester_fpr == sender)
    then (c, rejected ∷ [])
    else if ltb_ℤ (pos 0) body.expires_unix && not (ltb_ℤ now body.expires_unix)
    then (c, [])
    else elim (get body.request_id c.actions) [
      | some _ ↦ (c, [])
      | none ↦ (track c body.request_id (observed body), requested body ∷ [])
    ]
