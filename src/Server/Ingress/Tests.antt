-- ===== src/Server/Ingress/Tests.antt =====
-- The alert socket at a concrete request: an alert that opens a room with one invite.
use netherchat.Base.{
  ◌≡◌, refl, ◌⊎◌, ◌==◌, Option, none, some, [], ◌∷◌, ◌++◌, codes, true, false, ok,
}
use netherchat.Base.Int.{pos}
use netherchat.Server.Alert.{Alert, Source, Mac, authenticate, check_secret, allow_fresh}
use netherchat.Server.Route.{Regexp, Route, matches, match_from, match_route}
use netherchat.Server.Invite.{empty as no_invites}
use netherchat.Server.Ephemeral.{empty as no_rooms, create_named_notice, draw_name, create_named}
use netherchat.Server.Ingress.{
  Web, Config, State, Request, Response, source_named, admit, handle_alert, spawn_war_room,
}
use netherchat.Server.Ingress.Admitted.{IsAdmitted, handle_alert-IsAdmitted}
use netherchat.Base.Dict.{get}

instance abbrev toy_mac : Mac
toy_mac = record { hmac = λ secret m. secret ++ m; hex_decode = some }

instance abbrev no_regexp : Regexp
no_regexp = record { match_string = λ pattern actual. none }

instance abbrev plain_web : Web
plain_web = record { trim_space = λ t. t; query = λ room token. room ++ token }

abbrev scanner : Source
scanner = record {
  name = codes "scanner";
  token = codes "t";
  hmac_secret = [];
  require_fresh = false;
  freshness_window = pos 0;
  freshness_future_skew = pos 0;
}

abbrev any_alert : Route
any_alert = record {
  match = [];
  action = codes "break-glass";
  invite = codes "@bob" ∷ [];
  ttl = pos 0;
  room_prefix = [];
  reply_url = [];
}

abbrev cfg : Config
cfg = record {
  sources = scanner ∷ [];
  routes = any_alert ∷ [];
  freshness = record { window = pos 0; future_skew = pos 0 };
}

abbrev st : State
st = record { guards = some (record { warned = [] }); stores = some (no_rooms, no_invites) }

abbrev alert : Alert
alert = record {
  source = codes "scanner";
  severity = codes "high";
  kind = codes "leak";
  summary = [];
  ref = [];
  ts = pos 0;
  signature = [];
}

abbrev req : Request
req = record {
  parsed = ok alert;
  header_token = codes "t";
  base = [];
  allow_request = true;
  allow_spawn = true;
  unix = pos 1;
  now = 1;
  suffixes = codes "00" ∷ [];
  tokens = λ i. codes "x";
}

abbrev outcome : Option (State × Response) → State × Response
outcome none = (st, Response.accepted)
outcome (some x) = x

opened : handle_alert cfg st req ≡ some (outcome (handle_alert cfg st req))
unfolding handle_alert admit source_named authenticate ◌==◌ check_secret allow_fresh match_route
    match_from matches spawn_war_room create_named_notice create_named draw_name get
opened = refl

handle_alert-IsAdmitted_example :
    ((outcome (handle_alert cfg st req)).0.stores ≡ st.stores) ⊎ IsAdmitted cfg st req
handle_alert-IsAdmitted_example =
    handle_alert-IsAdmitted cfg st req (outcome (handle_alert cfg st req)).0
      (outcome (handle_alert cfg st req)).1 opened
