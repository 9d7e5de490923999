-- ===== src/Server/Ingress/Webhook/Tests.antt =====
-- The webhook at a concrete request: a message that is delivered to the room.
use netherchat.Base.{◌≡◌, refl, ◌⊎◌, none, some, List, [], ◌++◌, Text, codes, true, ok, ◌==◌}
use netherchat.Base.Int.{pos}
use netherchat.Server.Hub.{Hub, Event, broadcast, recipients}
use netherchat.Server.Route.{Regexp, Json, Fields, field_of, match_from, match_route}
use netherchat.Server.Ingress.{Web}
use netherchat.Server.Ingress.Webhook.{
  RoomConfig, Encoding, Delivery, Reply, Stores, handle_webhook, deliver_text, text_field,
  route_payload,
}
use netherchat.Server.Ingress.Webhook.Guarded.{IsGuarded, IsSpawn, handle_webhook-IsGuarded}
use netherchat.Base.{err}
use netherchat.Base.Dict.{get}

instance abbrev no_regexp : Regexp
no_regexp = record { match_string = λ pattern actual. none }

instance abbrev plain_web : Web
plain_web = record { trim_space = λ t. t; query = λ room token. room ++ token }

instance abbrev plain_encoding : Encoding
plain_encoding = record {
  server_message = λ at from text. from ++ text;
  route_fired = λ at room i names. room;
}

abbrev ops : Text → RoomConfig
ops room = record { webhook = true; webhook_token = codes "t" }

abbrev hub : Hub
hub = record { rooms = [] }

abbrev unset : Stores
unset = none

abbrev silent : List Event
silent = []

abbrev delivery : Delivery
delivery = record {
  room = codes "ops";
  payload = ok (Fields.with_field (codes "text") (Json.text (codes "hi")) Fields.empty);
  allow_unauth = true;
  request = record {
    parsed = err 400;
    header_token = codes "t";
    base = [];
    allow_request = true;
    allow_spawn = true;
    unix = pos 1;
    now = 1;
    suffixes = [];
    tokens = λ i. [];
  };
}

delivered : handle_webhook ops [] hub none delivery ≡ some (none, [], Reply.delivered)
unfolding handle_webhook ◌==◌ route_payload match_route match_from deliver_text text_field field_of
    broadcast recipients get
delivered = refl

handle_webhook-IsGuarded_example :
    ((unset ≡ unset) × (silent ≡ []))
    ⊎ ((g : IsGuarded ops [] hub none delivery) × IsSpawn ops [] hub none delivery g.payload none)
handle_webhook-IsGuarded_example =
    handle_webhook-IsGuarded ops [] hub none delivery none [] Reply.delivered delivered
