-- ===== src/Server/Route/Tests.antt =====
-- Match at concrete inputs.
use netherchat.Base.{◌≡◌, ◌↔◌, none, some, [], ◌∷◌, codes}
use netherchat.Base.Int.{pos}
use netherchat.Server.Route.{Route, Fields, Json, Regexp, match_route}
use netherchat.Server.Route.Found.{IsFirst, match_route_iff}

instance abbrev no_regexp : Regexp
no_regexp = record { match_string = λ pattern actual. none }

abbrev critical : Route
critical = record {
  match = (codes "severity", codes "critical") ∷ [];
  action = codes "break-glass";
  invite = [];
  ttl = pos 0;
  room_prefix = [];
  reply_url = [];
}

abbrev payload : Fields
payload = Fields.with_field (codes "severity") (Json.text (codes "critical")) Fields.empty

match_route_iff_example :
    (match_route (critical ∷ []) payload ≡ some (0, critical))
    ↔ IsFirst payload (critical ∷ []) 0 critical
match_route_iff_example = match_route_iff (critical ∷ []) payload 0 critical
