-- ===== src/Server/Alert.antt =====
-- server/internal/alert/alert.go: alerts that other systems sign, their authentication and the check of
-- their timestamp. The rate limits call golang.org/x/time/rate and are not here.
pub mod Signed
pub mod Fresh
mod Tests
use netherchat.Base.{
  ℕ, ◌+◌, ◌*◌, ◌/◌, ◌^◌, Bool, true, false, not, ◌||◌, ◌&&◌, Option, none, some, List, [], ◌∷◌,
  Text, codes, ◌==◌, is_empty, length, ltb, if◌then◌else◌, Result, Checked, ok, err, ◌>>=◌, ◌>>◌,
  reject_if, or_fail,
}
use netherchat.Base.Int.{ℤ, pos, negsuc, ltb_ℤ, sub_int64}
use netherchat.Protocol.Attest.{alert_signing_bytes}

-- AlertV1
pub record Alert : Type 0 where
  pub source : Text
  pub severity : Text
  pub kind : Text
  pub summary : Text
  pub ref : Text
  pub ts : ℤ
  pub signature : Text

-- config.SourceConfig without its rate limits; the durations are in nanoseconds.
pub record Source : Type 0 where
  pub name : Text
  pub token : Text
  pub hmac_secret : Text
  pub require_fresh : Bool
  pub freshness_window : ℤ
  pub freshness_future_skew : ℤ

-- config.FreshnessConfig
pub record FreshnessConfig : Type 0 where
  pub window : ℤ
  pub future_skew : ℤ

-- Guards without the rate limiters: the sources that were warned about.
pub record Guards : Type 0 where
  pub warned : List Text

-- What the package calls: HMAC-SHA256 with a secret, and hex.DecodeString.
pub record Mac : Type 0 where
  pub hmac : Text → Text → Text
  pub hex_decode : Text → Option Text

pub data AlertError : Type 0 where
  missing_field source_too_long severity_too_long kind_too_long ref_too_long summary_too_long :
      AlertError
  missing_signature bad_hex bad_signature invalid_token no_credentials : AlertError

abbrev max_summary_bytes : ℕ
max_summary_bytes = 1024

abbrev max_field_bytes : ℕ
max_field_bytes = 256

-- Validate
unfoldable pub validate : Alert → Checked AlertError
validate a = do
  reject_if (is_empty a.source || is_empty a.severity || is_empty a.kind) AlertError.missing_field
  reject_if (ltb max_field_bytes (length a.source)) AlertError.source_too_long
  reject_if (ltb max_field_bytes (length a.severity)) AlertError.severity_too_long
  reject_if (ltb max_field_bytes (length a.kind)) AlertError.kind_too_long
  reject_if (ltb max_field_bytes (length a.ref)) AlertError.ref_too_long
  reject_if (ltb max_summary_bytes (length a.summary)) AlertError.summary_too_long

abbrev pub signed_bytes : Alert → Text
signed_bytes a = alert_signing_bytes a.source a.severity a.kind a.summary a.ref a.ts

module _ ⦃mac : Mac⦄ where
  -- verifyHMAC
  unfoldable pub verify_hmac : Text → Alert → Checked AlertError
  verify_hmac secret a = do
    reject_if (is_empty a.signature) AlertError.missing_signature
    got ← or_fail (mac.hex_decode a.signature) AlertError.bad_hex
    reject_if (not (got == mac.hmac secret (signed_bytes a))) AlertError.bad_signature

  unfoldable pub check_secret : Source → Alert → Checked AlertError
  check_secret src a = if is_empty src.hmac_secret then ok tt else verify_hmac src.hmac_secret a

  -- Authenticate
  unfoldable pub authenticate : Source → Alert → Text → Checked AlertError
  authenticate src a header_token = do
    check_secret src a
    reject_if (not (is_empty src.token) && not (header_token == src.token)) AlertError.invalid_token
    reject_if (is_empty src.hmac_secret && is_empty src.token) AlertError.no_credentials

-- config.DefaultFreshnessWindow and config.DefaultFreshnessFutureSkew, in nanoseconds
abbrev pub default_freshness_window : ℕ
default_freshness_window = 300 * 10 ^ 9

abbrev pub default_freshness_future_skew : ℕ
default_freshness_future_skew = 60 * 10 ^ 9

abbrev or_positive : ℤ → ℕ → ℕ
or_positive (pos d) other = if ltb 0 d then d else other
or_positive (negsuc d) other = other

-- resolveDuration
unfoldable pub resolve_duration : ℤ → ℤ → ℕ → ℕ
resolve_duration override global builtin = or_positive override (or_positive global builtin)

-- window/time.Second
abbrev pub seconds : ℕ → ℕ
seconds d = d / 10 ^ 9

unfoldable pub was_warned : Text → List Text → Bool
was_warned name [] = false
was_warned name (x ∷ xs) = x == name || was_warned name xs

abbrev pub Freshness : Type 0
Freshness = Bool × Text × Text

-- warnOnce
unfoldable pub warn_once : Guards → Text → Guards × Text
warn_once g name = if was_warned name g.warned then (g, []) else (
  record g { warned = name ∷ g.warned },
  codes "freshness inactive: source sends no timestamp",
)

-- The test of a timestamp against the two tolerances, in seconds.
unfoldable pub check_age : ℤ → ℤ → ℕ → ℕ → Freshness
check_age now ts window skew =
    let age = sub_int64 now ts in
    if ltb_ℤ (pos window) age
    then (false, codes "stale timestamp", [])
    else if ltb_ℤ (pos skew) (sub_int64 (pos 0) age)
    then (false, codes "future timestamp", [])
    else (true, [], [])

abbrev pub window_of : Source → FreshnessConfig → ℕ
window_of src def =
    seconds (resolve_duration src.freshness_window def.window default_freshness_window)

abbrev pub skew_of : Source → FreshnessConfig → ℕ
skew_of src def =
    seconds
      (resolve_duration src.freshness_future_skew def.future_skew default_freshness_future_skew)

abbrev pub is_zero : ℤ → Bool
is_zero (pos n) = not (ltb 0 n)
is_zero (negsuc n) = false

-- AllowFresh at the unix time `now`; the guards are nil where there are none.
unfoldable pub allow_fresh :
    ℤ → Option Guards → Source → ℤ → FreshnessConfig → Option Guards × Freshness
allow_fresh now none src ts def = (none, (true, [], []))
allow_fresh now (some g) src ts def =
    let (warned, warning) = warn_once g src.name in
    if is_empty src.hmac_secret
    then (some g, (true, [], []))
    else if is_zero ts
    then (if src.require_fresh
        then (some g, (false, codes "missing timestamp", []))
        else (some warned, (true, [], warning)))
    else (some g, check_age now ts (window_of src def) (skew_of src def))
