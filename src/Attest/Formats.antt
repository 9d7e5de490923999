-- ===== src/Attest/Formats.antt =====
-- What tui/attest calls outside the repository beside the record's library: time.Parse for RFC 3339,
-- the unpadded base64, and encoding/json for the core of a receipt. A time is an integer, later
-- ones greater.
use netherchat.Base.{ℕ, Bool, Option, List, Text}
use netherchat.Base.Int.{ℤ}

-- ReceiptCore without its version, which Hash overwrites, and EpochRange (receipt.go)
pub record Core : Type 0 where
  pub room : Text
  pub first_epoch : ℕ
  pub last_epoch : ℕ
  pub reason : Text
  pub scuttled_at : Text
  pub scuttled_by : Text
  pub member_fprs : List Text
  pub keys_zeroized : Bool

pub record Formats : Type 0 where
  -- time.Parse(time.RFC3339, s)
  pub parse_time : Text → Option ℤ
  -- t.UTC().Format(time.RFC3339)
  pub format_time : ℤ → Text
  -- the zero time.Time
  pub zero_time : ℤ
  -- base64.RawStdEncoding
  pub raw_base64_decode : Text → Option Text
  -- json.Marshal of a ReceiptCore whose version is "v1"
  pub core_json : Core → Text
