-- ===== src/Server/Ingress/Webhook.antt =====
-- The webhook of a room (server/internal/api/api.go): a payload that fires a rule opens a war room, any
-- other is delivered to the room as a plaintext message. protocol.Encode of the messages, which are
-- JSON, is a parameter.
pub mod Guarded
mod Tests
use netherchat.Base.{
  ℕ, Bool, true, false, not, ◌||◌, Option, none, some, List, [], ◌∷◌, ◌++◌, Text, codes, ◌==◌,
  is_empty, if◌then◌else◌, Result, ok, err,
}
use netherchat.Base.Int.{ℤ}
use netherchat.Base.Dict.{Dict, get}
use netherchat.Server.Hub.{Hub, Event, broadcast}
use netherchat.Server.Invite.{Store as Invites}
use netherchat.Server.Ephemeral.{Registry}
use netherchat.Server.Route.{Json, Fields, Route, Regexp, field_of, match_route}
use netherchat.Server.Ingress.{Web, Request, trim_at, spawn_war_room}

-- What the webhook reads of config.RoomConfig
pub record RoomConfig : Type 0 where
  pub webhook : Bool
  pub webhook_token : Text

-- protocol.Encode of a ServerMessage (from, text) and of a RouteFired (room, index of the rule,
-- invitees), with the time of the request.
pub record Encoding : Type 0 where
  pub server_message : ℤ → Text → Text → Text
  pub route_fired : ℤ → Text → ℕ → List Text → Text

-- A webhook request: as that of an alert, with the room of its path, the payload or the status of its
-- refusal, and the verdict of the limiter before authentication.
pub record Delivery : Type 0 where
  pub room : Text
  pub payload : Result ℕ Fields
  pub allow_unauth : Bool
  pub request : Request

pub data Reply : Type 0 where
  refused : ℕ → Reply
  delivered : Reply
  fired : Text → Dict Text → Reply

-- payload[k].(string), "" where it is not one.
unfoldable pub text_field : Text → Fields → Text
text_field k payload = elim (field_of k payload) [
  | none ↦ []
  | some v ↦ elim v [ Json.text t ↦ t | _ ↦ [] ]
]

abbrev pub Stores : Type 0
Stores = Option (Registry × Invites)

abbrev pub Outcome : Type 0
Outcome = Stores × List Event × Reply

abbrev from_or_webhook : Text → Text
from_or_webhook from = if is_empty from then codes "webhook" else from

module _ ⦃encoding : Encoding⦄ where
  -- The delivery of a payload that fires no rule.
  unfoldable pub deliver_text : Hub → Stores → Delivery → Fields → Outcome
  deliver_text hub stores d payload =
      let text = text_field (codes "text") payload in
      let from = from_or_webhook (text_field (codes "from") payload) in
      if is_empty text then (stores, [], Reply.refused 400) else (
        stores,
        broadcast hub d.room [] (encoding.server_message d.request.unix from text),
        Reply.delivered,
      )

  -- The refusal of a request that is not authenticated.
  abbrev turn_away : Stores → Delivery → ℕ → Outcome
  turn_away stores d status =
      (stores, [], Reply.refused (if not d.allow_unauth then 429 else status))

  module _ ⦃web : Web⦄ ⦃re : Regexp⦄ where
    -- The names that spawnWarRoom invites.
    unfoldable pub invitees : List Text → List Text
    invitees [] = []
    invitees (n ∷ ns) =
        let name = trim_at (web.trim_space n) in
        let rest = invitees ns in if is_empty name then rest else name ∷ rest

    -- fireRoute; nothing where the draws of the room name end.
    unfoldable pub fire_route : Hub → Stores → Delivery → ℕ → Route → Option Outcome
    fire_route hub none d idx rule = some (none, [], Reply.refused 500)
    fire_route hub (some stores) d idx rule =
        elim (spawn_war_room d.request rule (codes "webhook:" ++ d.room) [] stores) [
          | none ↦ none
          | some (stores', (room, links)) ↦ some (
            some stores',
            broadcast hub d.room []
                (encoding.route_fired d.request.unix room idx (invitees rule.invite)),
            Reply.fired room links,
          )
        ]

    unfoldable pub route_payload : List Route → Hub → Stores → Delivery → Fields → Option Outcome
    route_payload routes hub stores d payload = elim (match_route routes payload) [
      | none ↦ some (deliver_text hub stores d payload)
      | some (idx, rule) ↦
          if not d.request.allow_spawn
          then some (stores, [], Reply.refused 429)
          else fire_route hub stores d idx rule
    ]

    -- webhook
    unfoldable pub handle_webhook :
        (Text → RoomConfig) → List Route → Hub → Stores → Delivery → Option Outcome
    handle_webhook policy_of routes hub stores d =
        let policy = policy_of d.room in
        if not policy.webhook
        then some (turn_away stores d 404)
        else if is_empty policy.webhook_token
            || not (d.request.header_token == policy.webhook_token)
        then some (turn_away stores d 401)
        else if not d.request.allow_request
        then some (stores, [], Reply.refused 429)
        else elim d.payload [
          | err status ↦ some (stores, [], Reply.refused status)
          | ok payload ↦ route_payload routes hub stores d payload
        ]
