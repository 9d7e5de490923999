-- ===== src/Server/Scuttle.antt =====
-- server/internal/scuttle/scuttle.go: the dead-man's switch. A goroutine of idleLoop is a Janitor, a
-- stop channel and a timer are numbers. The idle loop and the callback of a timer take the lock late,
-- so each is two steps: what they decide, and what they do under the lock; other calls can come
-- between. A tick may be chosen although the stop channel is closed, as `select` may.
pub mod Steps
mod Tests
use netherchat.Base.{
  ℕ, ◌+◌, Bool, true, false, not, Option, none, some, List, [], ◌∷◌, Text, eqb, leb, if◌then◌else◌,
}
use netherchat.Base.Int.{ℤ, pos, negsuc}
use netherchat.Base.Dict.{Dict, get, put, delete}

pub record Policy : Type 0 where
  pub idle_after : ℤ
  pub owner_loss_burn : Bool
  pub heartbeat : ℤ

-- A goroutine of idleLoop.
pub record Janitor : Type 0 where
  pub room : Text
  pub policy : Policy
  pub channel : ℕ

-- A timer of Arm, and when it is due.
pub record Timer : Type 0 where
  pub number : ℕ
  pub room : Text
  pub at : ℕ

-- The fields of Manager, with the goroutines and timers that they refer to: the closed channels, the
-- janitors in their loop and those that are to call forget and, it may be, Scuttle; the running timers
-- and the callbacks that have begun. `fresh` is the next channel or timer.
pub record Manager : Type 0 where
  pub idle : Dict ℕ
  pub armed : Dict ℕ
  pub closed : List ℕ
  pub janitors : List Janitor
  pub leaving : List (Janitor × Bool)
  pub timers : List Timer
  pub begun : List Timer
  pub fresh : ℕ

-- New
abbrev pub new_manager : Manager
new_manager = record {
  idle = [];
  armed = [];
  closed = [];
  janitors = [];
  leaving = [];
  timers = [];
  begun = [];
  fresh = 0;
}

abbrev pub positive : ℤ → Bool
positive (pos n) = not (eqb n 0)
positive (negsuc n) = false

abbrev pub watched : Manager → Text → Policy → Manager
watched m room pol = record m {
  idle = put room m.fresh m.idle;
  janitors = record { room = room; policy = pol; channel = m.fresh } ∷ m.janitors;
  fresh = m.fresh + 1;
}

-- Start
unfoldable pub start : (Text → Policy) → Manager → Text → Manager
start policy_of m room =
    if not (positive (policy_of room).idle_after)
    then m
    else elim (get room m.idle) [ some running ↦ m | none ↦ watched m room (policy_of room) ]

-- Timer.Stop: a timer that has fired is not stopped.
unfoldable pub stop_timer : ℕ → List Timer → List Timer
stop_timer n [] = []
stop_timer n (t ∷ ts) = let rest = stop_timer n ts in if eqb t.number n then rest else t ∷ rest

abbrev pub close_idle : Manager → Text → Manager
close_idle m room = elim (get room m.idle) [
  | none ↦ m
  | some channel ↦ record m { closed = channel ∷ m.closed; idle = delete room m.idle }
]

abbrev pub cancel_armed : Manager → Text → Manager
cancel_armed m room = elim (get room m.armed) [
  | none ↦ m
  | some n ↦ record m { timers = stop_timer n m.timers; armed = delete room m.armed }
]

-- Stop
unfoldable pub stop : Manager → Text → Manager
stop m room = cancel_armed (close_idle m room) room

-- OwnerLeft: whether the room is scuttled.
unfoldable pub owner_left : (Text → Policy) → Text → Bool
owner_left policy_of room = (policy_of room).owner_loss_burn

abbrev pub replaced : Manager → Text → List Timer
replaced m room = elim (get room m.armed) [ none ↦ m.timers | some n ↦ stop_timer n m.timers ]

-- Arm
unfoldable pub arm : Manager → ℕ → Text → ℤ → Manager
arm m now room (negsuc d) = m
arm m now room (pos d) = if eqb d 0 then m else record m {
  armed = put room m.fresh m.armed;
  timers = record { number = m.fresh; room = room; at = now + d } ∷ replaced m room;
  fresh = m.fresh + 1;
}

pub data Verdict : Type 0 where
  stays gone burns : Verdict

-- time.Since(last) >= d
abbrev pub has_been : ℕ → ℕ → ℤ → Bool
has_been now last (pos d) = leb (last + d) now
has_been now last (negsuc d) = leb last (now + (d + 1))

-- idleLoop at a tick, up to the call of forget; `last` is what LastActivity gives.
unfoldable pub idle_check : Policy → ℕ → Option ℕ → Verdict
idle_check pol now none = Verdict.gone
idle_check pol now (some last) =
    if has_been now last pol.idle_after then Verdict.burns else Verdict.stays

-- forget
abbrev pub forget : Manager → Text → Manager
forget m room = record m { idle = delete room m.idle }

-- The callback of a timer under the lock.
abbrev pub disarm : Manager → Text → Manager
disarm m room = record m { armed = delete room m.armed }
