-- ===== src/Server/Invite.antt =====
-- server/internal/invite: one-time invite tokens. A time is in nanoseconds, 0 the zero time; the
-- token that crypto/rand draws is an argument.
pub mod Once
pub mod Janitor
use netherchat.Base.{
  ℕ, suc, ◌+◌, Bool, true, false, not, ◌&&◌, none, some, [], ◌∷◌, Text, ◌==◌, eqb, ltb,
  if◌then◌else◌,
}
use netherchat.Base.Int.{ℤ, pos, negsuc, ltb_ℤ}
use netherchat.Base.Dict.{Dict, get, put, delete}

pub record Token : Type 0 where
  pub room : Text
  pub expires : ℕ

pub record Store : Type 0 where
  pub tokens : Dict Token

-- New
abbrev pub empty : Store
empty = record { tokens = [] }

abbrev nanoseconds : ℤ → ℕ
nanoseconds (pos n) = n
nanoseconds (negsuc n) = 0

abbrev pub expiry : ℤ → ℕ → ℕ
expiry ttl now = if ltb_ℤ (pos 0) ttl then now + nanoseconds ttl else 0

-- The entry that Generate files.
abbrev pub minted : ℕ → Text → ℤ → Token
minted now room ttl = record { room = room; expires = expiry ttl now }

-- Generate
unfoldable pub generate : Store → ℕ → Text → Text → ℤ → Store × ℕ
generate s now token room ttl =
    (record s { tokens = put token (minted now room ttl) s.tokens }, expiry ttl now)

-- !e.expires.IsZero() && now.After(e.expires)
unfoldable pub expired : ℕ → Token → Bool
expired now e = not (eqb e.expires 0) && ltb e.expires now

-- Redeem
unfoldable pub redeem : Store → ℕ → Text → Text → Store × Bool
redeem s now token room = elim (get token s.tokens) [
  | none ↦ (s, false)
  | some e ↦
      if expired now e
      then (record s { tokens = delete token s.tokens }, false)
      else if not (e.room == room)
      then (s, false)
      else (record s { tokens = delete token s.tokens }, true)
]

-- The loop of sweep: the tokens that stay, and how many went.
unfoldable pub reclaim : ℕ → Dict Token → Dict Token × ℕ
reclaim now [] = ([], 0)
reclaim now ((k, e) ∷ m) =
    let rest = reclaim now m in
    if expired now e then (rest.0, suc rest.1) else ((k, e) ∷ rest.0, rest.1)

-- sweep
unfoldable pub sweep : Store → ℕ → Store × ℕ
sweep s now = (record s { tokens = (reclaim now s.tokens).0 }, (reclaim now s.tokens).1)

-- The calls that a store sees, each with the time of the call.
pub data Call : Type 0 where
  generate_call : ℕ → Text → Text → ℤ → Call
  redeem_call : ℕ → Text → Text → Call
  sweep_call : ℕ → Call

abbrev pub step : Store → Call → Store
step s (generate_call now token room ttl) = (generate s now token room ttl).0
step s (redeem_call now token room) = (redeem s now token room).0
step s (sweep_call now) = (sweep s now).0
