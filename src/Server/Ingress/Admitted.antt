-- ===== src/Server/Ingress/Admitted.antt =====
-- What it takes for an alert to open a room.
use netherchat.Base.{
  ℕ, ◌≡◌, ◌⊎◌, inl, inr, true, some, Bool-cases, Option-cases, Result-cases, ok, arith,
}
use netherchat.Server.Alert.{Alert, Source, Mac, authenticate, allow_fresh}
use netherchat.Server.Alert.Signed.{IsAuthentic, authenticate_iff}
use netherchat.Server.Route.{Route, Regexp, match_route}
use netherchat.Server.Route.Found.{IsFirst, match_route_iff}
use netherchat.Server.Ingress.{
  Web, Config, State, Request, Response, source_named, to_match_map, admit, handle_alert,
}

module _ ⦃web : Web⦄ ⦃mac : Mac⦄ ⦃re : Regexp⦄ (cfg : Config) (st : State) (req : Request) where
  -- The alert is of a configured source, authentic, passes the freshness gate and both limits, and a
  -- rule fires on it.
  pub record IsAdmitted : Type 0 where
    pub alert : Alert
    pub source : Source
    pub rule : Route
    pub place : ℕ
    pub parsed : req.parsed ≡ ok alert
    pub configured : source_named alert.source cfg.sources ≡ some source
    pub requested : req.allow_request ≡ true
    pub authentic : IsAuthentic source alert req.header_token
    pub fresh : (allow_fresh req.unix st.guards source alert.ts cfg.freshness).1.0 ≡ true
    pub matched : IsFirst (to_match_map alert) cfg.routes place rule
    pub within_cap : req.allow_spawn ≡ true

  admitted :
      (a : Alert) (src : Source) (st' : State) (resp : Response)
      → req.parsed ≡ ok a
      → source_named a.source cfg.sources ≡ some src
      → admit cfg st req src a ≡ some (st', resp)
      → (st'.stores ≡ st.stores) ⊎ IsAdmitted
  unfolding admit
  admitted a src st' resp p c h = elim (Bool-cases req.allow_request) [
    | inr n ↦ inl (ground arith)
    | inl r ↦ elim (Result-cases (authenticate src a req.header_token)) [
      | inr (e, q) ↦ inl (ground arith)
      | inl (u, q) ↦ elim (Bool-cases (allow_fresh req.unix st.guards src a.ts cfg.freshness).1.0) [
        | inr n ↦ inl (ground arith)
        | inl f ↦ elim (Option-cases (match_route cfg.routes (to_match_map a))) [
          | inl n ↦ inl (ground arith)
          | inr ((i, rule), m) ↦ elim (Bool-cases req.allow_spawn) [
            | inr n ↦ inl (ground arith)
            | inl s ↦ inr (record {
              alert = a;
              source = src;
              rule = rule;
              place = i;
              parsed = p;
              configured = c;
              requested = r;
              authentic = (authenticate_iff src a req.header_token).0 q;
              fresh = f;
              matched = (match_route_iff cfg.routes (to_match_map a) i rule).0 m;
              within_cap = s;
            })
          ]
        ]
      ]
    ]
  ]

  -- The alert socket leaves the rooms and the invites as they are, or the alert was of a configured
  -- source, authentic, let through by the freshness gate and both rate limits, and its rule is the first
  -- that fires on it.
  pub handle_alert-IsAdmitted :
      (st' : State) (resp : Response)
      → handle_alert cfg st req ≡ some (st', resp)
      → (st'.stores ≡ st.stores) ⊎ IsAdmitted
  unfolding handle_alert
  handle_alert-IsAdmitted st' resp h = elim (Result-cases req.parsed) [
    | inr (e, q) ↦ inl (ground arith)
    | inl (a, q) ↦ elim (Option-cases (source_named a.source cfg.sources)) [
      | inl n ↦ inl (ground arith)
      | inr (src, c) ↦ admitted a src st' resp q c (ground arith)
    ]
  ]
