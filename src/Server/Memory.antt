-- ===== src/Server/Memory.antt =====
-- server/internal/store/memory.go: the recent envelopes of each room. An envelope is opaque to the
-- store.
pub mod Recent
use netherchat.Base.{
  ℕ, zero, suc, ◌-◌, Bool, Option, none, some, List, [], ◌∷◌, ◌++◌, Text, ltb, length, drop,
  if◌then◌else◌,
}
use netherchat.Base.Int.{ℤ, pos, negsuc}
use netherchat.Base.Dict.{Dict, get, put}

pub record Memory (Envelope : Type 0) : Type 0 where
  pub max : ℕ
  pub rooms : Dict (List Envelope)

module _ {Envelope : Type 0} where
  -- NewMemory
  unfoldable pub new_memory : ℤ → Memory Envelope
  new_memory (pos zero) = record { max = 100; rooms = [] }
  new_memory (pos (suc n)) = record { max = suc n; rooms = [] }
  new_memory (negsuc n) = record { max = 100; rooms = [] }

  -- m.rooms[room], empty where the key is missing
  abbrev pub buffer : Memory Envelope → Text → List Envelope
  buffer m room = elim (get room m.rooms) [ none ↦ [] | some b ↦ b ]

  -- buf[len(buf)-n:] where the buffer is longer than n
  abbrev pub last_of : ℕ → List Envelope → List Envelope
  last_of n b = if ltb n (length b) then drop (length b - n) b else b

  -- Append
  unfoldable pub append : Memory Envelope → Text → Envelope → Memory Envelope
  append m room env = record m {
    rooms = put room (last_of m.max (buffer m room ++ env ∷ [])) m.rooms;
  }

  abbrev bounded : ℤ → List Envelope → List Envelope
  bounded (pos zero) b = b
  bounded (pos (suc n)) b = last_of (suc n) b
  bounded (negsuc n) b = b

  -- History
  unfoldable pub history : Memory Envelope → Text → ℤ → List Envelope
  history m room limit = bounded limit (buffer m room)
