-- ===== src/Server/Ingress.antt =====
-- The alert socket of server/internal/api/api.go: from a posted alert to a war room with its invites.
-- What is read of the body and the verdicts of the rate limiters are in the request; responses are the status and what the body tells of the room.
pub mod Admitted
pub mod Webhook
mod Tests
use netherchat.Base.{
  ℕ, ◌+◌, Bool, true, false, not, Option, none, some, List, [], ◌∷◌, ◌++◌, Text, codes, ◌==◌, eqb,
  is_empty, if◌then◌else◌, Result, ok, err,
}
use netherchat.Base.Int.{ℤ, pos}
use netherchat.Base.Dict.{Dict, put}
use netherchat.Server.Invite.{Store as Invites, generate}
use netherchat.Server.Ephemeral.{Registry, clamp_ttl, create_named_notice}
use netherchat.Server.Alert.{Alert, Source, FreshnessConfig, Guards, Mac, authenticate, allow_fresh}
use netherchat.Server.Route.{Json, Fields, Route, Regexp, match_route}

-- strings.TrimSpace, and url.Values.Encode of the room and the token of a link.
pub record Web : Type 0 where
  pub trim_space : Text → Text
  pub query : Text → Text → Text

-- What the handler reads of the configuration.
pub record Config : Type 0 where
  pub sources : List Source
  pub routes : List Route
  pub freshness : FreshnessConfig

-- What it changes; nothing stands for the stores that are nil.
pub record State : Type 0 where
  pub guards : Option Guards
  pub stores : Option (Registry × Invites)

-- A request: what the reading of its body and Parse give, or the status of their refusal, the bearer token, the base of links, the limiters' verdicts, the times in
-- seconds and nanoseconds, and what crypto/rand draws for the room name and the tokens.
pub record Request : Type 0 where
  pub parsed : Result ℕ Alert
  pub header_token : Text
  pub base : Text
  pub allow_request : Bool
  pub allow_spawn : Bool
  pub unix : ℤ
  pub now : ℕ
  pub suffixes : List Text
  pub tokens : ℕ → Text

pub data Response : Type 0 where
  rejected : ℕ → Response
  accepted : Response
  spawned : Text → Dict Text → Response

-- Config.Source
unfoldable pub source_named : Text → List Source → Option Source
source_named name [] = none
source_named name (s ∷ ss) = if s.name == name then some s else source_named name ss

-- ToMatchMap
abbrev pub to_match_map : Alert → Fields
to_match_map a = Fields.with_field (codes "source") (Json.text a.source) (
    Fields.with_field (codes "severity") (Json.text a.severity) (
      Fields.with_field (codes "kind") (Json.text a.kind) (
        Fields.with_field (codes "summary") (Json.text a.summary)
          (Fields.with_field (codes "ref") (Json.text a.ref) Fields.empty))))

-- NoticeLine
abbrev pub notice_line : Alert → Text
notice_line a =
    codes "["
    ++ a.severity
    ++ codes "] "
    ++ a.source
    ++ codes "/"
    ++ a.kind
    ++ (if is_empty a.summary then [] else codes ": " ++ a.summary)
    ++ (if is_empty a.ref then [] else codes " (ref " ++ a.ref ++ codes ")")

-- strings.TrimRight(_, "/")
unfoldable pub trim_slashes : Text → Text
trim_slashes [] = []
trim_slashes (b ∷ bs) =
    let rest = trim_slashes bs in
    if is_empty rest then (if eqb b 47 then [] else b ∷ []) else b ∷ rest

-- strings.TrimPrefix(_, "@")
abbrev pub trim_at : Text → Text
trim_at [] = []
trim_at (b ∷ bs) = if eqb b 64 then bs else b ∷ bs

module _ ⦃web : Web⦄ where
  -- joinLink
  unfoldable pub join_link : Text → Text → Text → Text
  join_link base room token = trim_slashes base ++ codes "/join?" ++ web.query room token

  -- The loop over the invitees; `i` counts the tokens.
  unfoldable pub invite_all :
      Request → Text → ℤ → ℕ → List Text → Invites × Dict Text → Invites × Dict Text
  invite_all req room ttl i [] st = st
  invite_all req room ttl i (invitee ∷ names) (invites, links) =
      let name = trim_at (web.trim_space invitee) in
      let token = req.tokens i in
      let skipped = invite_all req room ttl i names (invites, links) in
      let rest = invite_all req room ttl (i + 1) names (
        (generate invites req.now token room ttl).0,
        put name (join_link req.base room token) links,
      ) in
      if is_empty name then skipped else rest

  abbrev prefix_or_inc : Text → Text
  prefix_or_inc prefix = if is_empty prefix then codes "inc" else prefix

  -- spawnWarRoom; nothing where the draws of the room name end.
  unfoldable pub spawn_war_room :
      Request
      → Route
      → Text
      → Text
      → Registry × Invites
      → Option ((Registry × Invites) × (Text × Dict Text))
  spawn_war_room req rule by notice (rooms, invites) =
      let ttl = clamp_ttl rule.ttl in
      elim (create_named_notice rooms req.suffixes req.now ttl by (prefix_or_inc rule.room_prefix)
        notice) [
          | none ↦ none
          | some (rooms', room) ↦
              let (invites', links) = invite_all req room.name ttl 0 rule.invite (invites, []) in
              some ((rooms', invites'), (room.name, links))
        ]

  module _ ⦃mac : Mac⦄ ⦃re : Regexp⦄ where
    abbrev finish : State → Request → Route → Alert → Option (State × Response)
    finish st req rule a = elim st.stores [
      | none ↦ some (st, Response.rejected 500)
      | some stores ↦
          elim (spawn_war_room req rule (codes "alert:" ++ a.source) (notice_line a) stores) [
            | none ↦ none
            | some (stores', (room, links)) ↦
                some (record st { stores = some stores' }, Response.spawned room links)
          ]
    ]

    abbrev route_alert : Config → State → Request → Source → Alert → Option (State × Response)
    route_alert cfg st req src a = elim (match_route cfg.routes (to_match_map a)) [
      | none ↦ some (st, Response.accepted)
      | some (i, rule) ↦
          if not req.allow_spawn then some (st, Response.rejected 429) else finish st req rule a
    ]

    unfoldable pub admit : Config → State → Request → Source → Alert → Option (State × Response)
    admit cfg st req src a =
        let (guards, verdict) = allow_fresh req.unix st.guards src a.ts cfg.freshness in
        let st' = record st { guards = guards } in
        if not req.allow_request
        then some (st, Response.rejected 429)
        else elim (authenticate src a req.header_token) [
          | err e ↦ some (st, Response.rejected 401)
          | ok _ ↦
              if not verdict.0
              then some (st', Response.rejected 400)
              else route_alert cfg st' req src a
        ]

    -- alert
    unfoldable pub handle_alert : Config → State → Request → Option (State × Response)
    handle_alert cfg st req = elim req.parsed [
      | err status ↦ some (st, Response.rejected status)
      | ok a ↦ elim (source_named a.source cfg.sources) [
        | none ↦ some (st, Response.rejected 401)
        | some src ↦ admit cfg st req src a
      ]
    ]
