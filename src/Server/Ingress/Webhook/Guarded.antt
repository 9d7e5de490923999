-- ===== src/Server/Ingress/Webhook/Guarded.antt =====
-- What it takes for a webhook request to change or to send anything.
use netherchat.Base.{
  ℕ, ◌≡◌, ◌≢◌, ◌⊎◌, inl, inr, true, some, List, [], Text, ◌==◌, ==_iff, is_empty, is_empty_iff,
  Bool-cases, Option-cases, Result-cases, ok, arith,
}
use netherchat.Server.Hub.{Hub, Event}
use netherchat.Server.Route.{Route, Fields, Regexp, match_route}
use netherchat.Server.Route.Found.{IsFirst, match_route_iff}
use netherchat.Server.Ingress.{Web}
use netherchat.Server.Ingress.Webhook.{
  RoomConfig, Encoding, Delivery, Reply, Stores, deliver_text, route_payload, handle_webhook,
}

module _ ⦃encoding : Encoding⦄ ⦃web : Web⦄ ⦃re : Regexp⦄ (policy_of : Text → RoomConfig)
    (routes : List Route) (hub : Hub) (stores : Stores) (d : Delivery) where
  -- The room takes webhooks, has a token, and the request bears it and is within the rate limit.
  pub record IsGuarded : Type 0 where
    pub payload : Fields
    pub enabled : (policy_of d.room).webhook ≡ true
    pub has_token : (policy_of d.room).webhook_token ≢ []
    pub bearer : d.request.header_token ≡ (policy_of d.room).webhook_token
    pub requested : d.request.allow_request ≡ true
    pub decoded : d.payload ≡ ok payload

  -- Nothing changes in the stores, or a rule fires on the payload and the spawn limit allows it.
  abbrev pub IsSpawn : Fields → Stores → Type 0
  IsSpawn payload stores' =
      (stores' ≡ stores)
      ⊎ ((i : ℕ) × (rule : Route) × IsFirst payload routes i rule × (d.request.allow_spawn ≡ true))

  deliver_text-stores : (payload : Fields) → (deliver_text hub stores d payload).0 ≡ stores
  unfolding deliver_text
  deliver_text-stores payload = ground arith

  routed :
      (payload : Fields) (stores' : Stores) (events : List Event) (reply : Reply)
      → route_payload routes hub stores d payload ≡ some (stores', events, reply)
      → IsSpawn payload stores'
  unfolding route_payload
  routed payload stores' events reply h = elim (Option-cases (match_route routes payload)) [
    | inl n ↦ inl (let e = deliver_text-stores payload in ground arith)
    | inr ((i, rule), m) ↦ elim (Bool-cases d.request.allow_spawn) [
      | inr n ↦ inl (ground arith)
      | inl s ↦ inr (i, rule, (match_route_iff routes payload i rule).0 m, s)
    ]
  ]

  -- The webhook changes and sends nothing, or its room takes webhooks and has a token, the request bears
  -- it, is within the rate limit and has a payload; and then the stores stay, or a rule is the first that
  -- fires on the payload and the spawn limit allows it.
  pub handle_webhook-IsGuarded :
      (stores' : Stores) (events : List Event) (reply : Reply)
      → handle_webhook policy_of routes hub stores d ≡ some (stores', events, reply)
      → ((stores' ≡ stores) × (events ≡ [])) ⊎ ((g : IsGuarded) × IsSpawn g.payload stores')
  unfolding handle_webhook
  handle_webhook-IsGuarded stores' events reply h = elim (Bool-cases (policy_of d.room).webhook) [
    | inr n ↦ inl (ground arith)
    | inl w ↦ elim (Bool-cases (is_empty (policy_of d.room).webhook_token)) [
      | inl e ↦ inl (ground arith)
      | inr e ↦ elim (Bool-cases (d.request.header_token == (policy_of d.room).webhook_token)) [
        | inr n ↦ inl (ground arith)
        | inl t ↦ elim (Bool-cases d.request.allow_request) [
          | inr n ↦ inl (ground arith)
          | inl r ↦ elim (Result-cases d.payload) [
            | inr (s, q) ↦ inl (ground arith)
            | inl (p, q) ↦ inr (
              record {
                payload = p;
                enabled = w;
                has_token = (is_empty_iff (policy_of d.room).webhook_token).0 e;
                bearer = (==_iff d.request.header_token (policy_of d.room).webhook_token).0 t;
                requested = r;
                decoded = q;
              },
              routed p stores' events reply (ground arith),
            )
          ]
        ]
      ]
    ]
  ]
