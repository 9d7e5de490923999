-- ===== src/Server/Scuttle/Steps.antt =====
-- The runs of the manager and its goroutines.
pub mod Causes
pub mod Caused
pub mod Watched
pub mod Twice
pub mod Quiet
use netherchat.Base.{ℕ, ◌≡◌, Bool, true, false, List, [], ◌∷◌, ◌++◌, Text, Any, leb}
use netherchat.Base.Int.{ℤ}
use netherchat.Server.Hub.{Hub, last_activity}
use netherchat.Server.Scuttle.{
  Policy, Janitor, Timer, Manager, Verdict, new_manager, start, stop, owner_left, arm, idle_check,
  forget, disarm,
}

pub data Reason : Type 0 where
  idle owner_loss armed : Reason

-- A call of Hub.Scuttle.
pub record Burn : Type 0 where
  pub room : Text
  pub reason : Reason

pub data Event : Type 0 where
  start_called stop_called owner_gone ended forgot disarmed : Text → Event
  arm_called : ℕ → Text → ℤ → Event
  ticked : ℕ → Hub → Text → Event
  fired : ℕ → Text → Event

abbrev pub burn_if : Bool → Text → Reason → List Burn
burn_if true room why = record { room = room; reason = why } ∷ []
burn_if false room why = []

-- One step of a caller, a janitor or a timer: the event, the rooms that it burns, and the state after.
pub data Step (policy_of : Text → Policy) (m : Manager) : Event → List Burn → Manager → Type 0 where
  starts : (room : Text) → Step policy_of m (start_called room) [] (start policy_of m room)
  stops : (room : Text) → Step policy_of m (stop_called room) [] (stop m room)
  owner_leaves :
      (room : Text)
      → Step policy_of m (owner_gone room) (burn_if (owner_left policy_of room) room owner_loss) m
  arms :
      (now : ℕ) (room : Text) (d : ℤ)
      → Step policy_of m (arm_called now room d) [] (arm m now room d)
  ticks_on :
      (now : ℕ) (h : Hub) (j : Janitor)
      → Any (λ k. k ≡ j) m.janitors
      → idle_check j.policy now (last_activity h j.room) ≡ Verdict.stays
      → Step policy_of m (ticked now h j.room) [] m
  finds_gone :
      (now : ℕ) (h : Hub) (j : Janitor) (xs ys : List Janitor)
      → m.janitors ≡ xs ++ j ∷ ys
      → idle_check j.policy now (last_activity h j.room) ≡ Verdict.gone
      → Step policy_of m
          (ticked now h j.room)
          []
          (record m { janitors = xs ++ ys; leaving = (j, false) ∷ m.leaving })
  finds_idle :
      (now : ℕ) (h : Hub) (j : Janitor) (xs ys : List Janitor)
      → m.janitors ≡ xs ++ j ∷ ys
      → idle_check j.policy now (last_activity h j.room) ≡ Verdict.burns
      → Step policy_of m
          (ticked now h j.room)
          []
          (record m { janitors = xs ++ ys; leaving = (j, true) ∷ m.leaving })
  forgets :
      (j : Janitor) (b : Bool) (xs ys : List (Janitor × Bool))
      → m.leaving ≡ xs ++ (j, b) ∷ ys
      → Step policy_of m
          (forgot j.room)
          (burn_if b j.room idle)
          (record (forget m j.room) { leaving = xs ++ ys })
  ends :
      (j : Janitor) (xs ys : List Janitor)
      → m.janitors ≡ xs ++ j ∷ ys
      → Any (λ c. c ≡ j.channel) m.closed
      → Step policy_of m (ended j.room) [] (record m { janitors = xs ++ ys })
  fires :
      (now : ℕ) (t : Timer) (xs ys : List Timer)
      → m.timers ≡ xs ++ t ∷ ys
      → leb t.at now ≡ true
      → Step policy_of m (fired now t.room) [] (record m { timers = xs ++ ys; begun = t ∷ m.begun })
  calls :
      (t : Timer) (xs ys : List Timer)
      → m.begun ≡ xs ++ t ∷ ys
      → Step policy_of m
          (disarmed t.room)
          (record { room = t.room; reason = armed } ∷ [])
          (record (disarm m t.room) { begun = xs ++ ys })

-- A run from New: its events, the latest first, its burns, and the state that it reaches.
pub data Run (policy_of : Text → Policy) : List Event → List Burn → Manager → Type 0 where
  begins : Run policy_of [] [] new_manager
  goes :
      {log : List Event} {done new : List Burn} {m n : Manager} {e : Event}
      → Run policy_of log done m
      → Step policy_of m e new n
      → Run policy_of (e ∷ log) (new ++ done) n
