-- ===== src/Server/Beacon.antt =====
-- server/internal/beacon: one ciphertext for each room, with an expiry.
pub mod Latest
use netherchat.Base.{ℕ, Bool, not, Option, none, some, [], Text, ltb, if◌then◌else◌}
use netherchat.Base.Int.{ℤ}
use netherchat.Base.Dict.{Dict, get, put, delete}
use netherchat.Base.Keep.{keep}
use netherchat.Server.Clock.{add}

pub record Entry : Type 0 where
  pub ciphertext : Text
  pub updated_at : ℕ
  pub expires : ℕ

pub record Store : Type 0 where
  pub beacons : Dict Entry

-- New
abbrev pub empty : Store
empty = record { beacons = [] }

-- The entry that Set stores.
abbrev pub fresh : ℕ → Text → ℤ → Entry
fresh now ciphertext ttl = record {
  ciphertext = ciphertext;
  updated_at = now;
  expires = add now ttl;
}

-- Set
unfoldable pub set : Store → ℕ → Text → Text → ℤ → Store
set s now room ciphertext ttl = record s { beacons = put room (fresh now ciphertext ttl) s.beacons }

-- Get, which deletes what has expired
unfoldable pub lookup : Store → ℕ → Text → Store × Option Entry
lookup s now room = elim (get room s.beacons) [
  | none ↦ (s, none)
  | some e ↦
      if ltb e.expires now
      then (record s { beacons = delete room s.beacons }, none)
      else (s, some e)
]

-- Delete
unfoldable pub remove : Store → Text → Store
remove s room = record s { beacons = delete room s.beacons }

-- Purge
unfoldable pub purge : Store → ℕ → Store
purge s now = record s { beacons = keep (λ e. not (ltb e.expires now)) s.beacons }

-- The calls that a store sees, with their times.
pub data Call : Type 0 where
  set_call : ℕ → Text → Text → ℤ → Call
  lookup_call : ℕ → Text → Call
  remove_call : ℕ → Text → Call
  purge_call : ℕ → Call

abbrev pub step : Store → Call → Store
step s (set_call now room ciphertext ttl) = set s now room ciphertext ttl
step s (lookup_call now room) = (lookup s now room).0
step s (remove_call now room) = remove s room
step s (purge_call now) = purge s now
