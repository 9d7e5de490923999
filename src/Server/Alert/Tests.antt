-- ===== src/Server/Alert/Tests.antt =====
-- Alerts at concrete inputs; the toy HMAC is the secret followed by the message.
use netherchat.Base.{◌≡◌, ◌≢◌, refl, ◌↔◌, ◌⊎◌, inl, true, some, [], ◌++◌, Text, codes, ok, arith}
use netherchat.Base.Int.{pos}
use netherchat.Server.Alert.{
  Alert, Source, FreshnessConfig, Mac, signed_bytes, authenticate, allow_fresh,
}
use netherchat.Server.Alert.Signed.{
  IsAuthentic, IsSizedAlert, authenticate_iff, authenticate-same_signature,
}
use netherchat.Server.Alert.Fresh.{IsAllowed, farthest, allow_fresh_iff}

instance abbrev toy_mac : Mac
toy_mac = record { hmac = λ secret m. secret ++ m; hex_decode = some }

abbrev scanner : Source
scanner = record {
  name = codes "scanner";
  token = [];
  hmac_secret = codes "k";
  require_fresh = true;
  freshness_window = pos 0;
  freshness_future_skew = pos 0;
}

abbrev unsigned : Alert
unsigned = record {
  source = codes "scanner";
  severity = codes "high";
  kind = codes "leak";
  summary = [];
  ref = [];
  ts = pos 1000;
  signature = [];
}

abbrev signed : Alert
signed = record unsigned { signature = codes "k" ++ signed_bytes unsigned }

authenticate_iff_example : (authenticate scanner signed [] ≡ ok tt) ↔ IsAuthentic scanner signed []
authenticate_iff_example = authenticate_iff scanner signed []

signed-IsAuthentic : (token : Text) → IsAuthentic scanner signed token
signed-IsAuthentic token = record {
  declared = inl (λ e. cc e);
  signed = λ n. ((λ e. cc e), refl);
  bearer = λ n. absurd (n refl);
}

signed-sized : IsSizedAlert signed
signed-sized =
    ((omega arith, (omega arith, (omega arith, (omega arith, (omega arith, tt))))), omega arith)

authenticate-same_signature_example :
    (signed ≡ signed)
    ⊎ ((x : Text) × (y : Text) × (x ≢ y)
        × (toy_mac.hmac (codes "k") x ≡ toy_mac.hmac (codes "k") y))
authenticate-same_signature_example =
    authenticate-same_signature scanner signed signed [] (codes "t") (λ e. cc e)
      ((authenticate_iff scanner signed []).1 (signed-IsAuthentic []))
      ((authenticate_iff scanner signed (codes "t")).1 (signed-IsAuthentic (codes "t"))) refl
      signed-sized signed-sized

abbrev defaults : FreshnessConfig
defaults = record { window = pos 0; future_skew = pos 0 }

allow_fresh_iff_example :
    ((allow_fresh (pos 1200) (some (record { warned = [] })) scanner (farthest 1200) defaults).1.0
      ≡ true)
    ↔ IsAllowed 1200 scanner (farthest 1200) defaults
allow_fresh_iff_example =
    allow_fresh_iff 1200 (record { warned = [] }) scanner (farthest 1200) defaults (omega arith)
      (omega arith) (omega arith, omega arith, omega arith, omega arith)
