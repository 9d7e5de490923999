-- ===== src/Server/Transfers.antt =====
-- server/internal/ws/transfers.go: the bound on artifact transfers that run at once in a room.
pub mod Bounded
pub mod Started
use netherchat.Base.{
  ℕ, zero, suc, ◌+◌, ◌*◌, Bool, true, false, not, Option, none, some, List, [], ◌∷◌, Text, ◌==◌,
  eqb, ltb, leb, length, if◌then◌else◌,
}
use netherchat.Base.Int.{ℤ, pos, negsuc}
use netherchat.Base.Dict.{Dict, get, put, delete}
use netherchat.Base.Keep.{keep}

-- Five minutes, in nanoseconds
abbrev pub transfer_ttl : ℕ
transfer_ttl = 5 * 60 * 1000000000

pub record Transfer : Type 0 where
  pub owner : Text
  pub started : ℕ

pub record Tracker : Type 0 where
  pub max : ℕ
  pub rooms : Dict (Dict Transfer)

-- newTransferTracker
unfoldable pub new_tracker : ℤ → Tracker
new_tracker (pos zero) = record { max = 1; rooms = [] }
new_tracker (pos (suc n)) = record { max = suc n; rooms = [] }
new_tracker (negsuc n) = record { max = 1; rooms = [] }

-- t.rooms[room], empty where it is nil
abbrev pub slots : Tracker → Text → Dict Transfer
slots t room = elim (get room t.rooms) [ none ↦ [] | some m ↦ m ]

abbrev pub stale : ℕ → Transfer → Bool
stale now x = ltb (x.started + transfer_ttl) now

-- sweepLocked
abbrev pub sweep : ℕ → Dict Transfer → Dict Transfer
sweep now = keep (λ x. not (stale now x))

abbrev store : Tracker → Text → Dict Transfer → Tracker
store t room m = record t { rooms = put room m t.rooms }

-- tryStart
unfoldable pub try_start : Tracker → ℕ → Text → Text → Text → Tracker × Bool
try_start t now room tid owner =
    let m = sweep now (slots t room) in
    elim (get tid m) [
      | some _ ↦ (store t room m, true)
      | none ↦
          if leb t.max (length m)
          then (store t room m, false)
          else (store t room (put tid (record { owner = owner; started = now }) m), true)
    ]

-- A room without transfers is dropped.
unfoldable pub store_or_drop : Tracker → Text → Dict Transfer → Tracker
store_or_drop t room m =
    if eqb (length m) 0 then record t { rooms = delete room t.rooms } else store t room m

-- finish
unfoldable pub finish : Tracker → Text → Text → Tracker
finish t room tid = elim (get room t.rooms) [
  | none ↦ t
  | some m ↦ store_or_drop t room (delete tid m)
]

-- The ids that abortBy collects.
unfoldable pub owned : Text → Dict Transfer → List Text
owned owner [] = []
owned owner ((tid, x) ∷ m) =
    let rest = owned owner m in if x.owner == owner then tid ∷ rest else rest

-- abortBy
unfoldable pub abort_by : Tracker → Text → Text → Tracker × List Text
abort_by t room owner = elim (get room t.rooms) [
  | none ↦ (t, [])
  | some m ↦ (store_or_drop t room (keep (λ x. not (x.owner == owner)) m), owned owner m)
]

-- The calls that a tracker sees, with their times.
pub data Call : Type 0 where
  start_call : ℕ → Text → Text → Text → Call
  finish_call : Text → Text → Call
  abort_call : Text → Text → Call

abbrev pub step : Tracker → Call → Tracker
step t (start_call now room tid owner) = (try_start t now room tid owner).0
step t (finish_call room tid) = finish t room tid
step t (abort_call room owner) = (abort_by t room owner).0

abbrev pub run : Tracker → List Call → Tracker
run t [] = t
run t (c ∷ cs) = run (step t c) cs
