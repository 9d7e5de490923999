-- ===== src/Server/Scuttle/Tests.antt =====
-- The scuttle manager at concrete inputs.
use netherchat.Base.{◌≡◌, ◌≢◌, refl, true, some, List, [], ◌∷◌, Text, codes, All, leb→le, ◌==◌}
use netherchat.Base.Int.{pos}
use netherchat.Base.Dict.{get, put}
use netherchat.Server.Hub.{Hub, no_room, last_activity}
use netherchat.Server.Scuttle.{Policy, Manager, new_manager, start, owner_left, Janitor}
use netherchat.Server.Scuttle.Steps.{Reason, Burn, Event, Step, Run}
use netherchat.Server.Scuttle.Steps.Causes.{IsCaused}
use netherchat.Server.Scuttle.Steps.Caused.{Run-IsCaused}
use netherchat.Server.Scuttle.Steps.Quiet.{Run-quiet}
use netherchat.Server.Scuttle.Steps.Twice.{Run-two_janitors}

abbrev after_ten : Text → Policy
after_ten room = record { idle_after = pos 10; owner_loss_burn = true; heartbeat = pos 1 }

abbrev room : Text
room = codes "ops"

abbrev hub : Hub
hub = record { rooms = (room, no_room) ∷ [] }

abbrev started : Manager
started = start after_ten new_manager room

Run-started : Run after_ten (Event.start_called room ∷ []) [] started
Run-started = Run.goes Run.begins (Step.starts room)

none_leaves : started.leaving ≡ []
unfolding start get
none_leaves = refl

registered : get room started.idle ≡ some 0
unfolding start get put ◌==◌
registered = refl

known : last_activity hub room ≡ some 0
unfolding last_activity get ◌==◌
known = refl

Run-quiet_example :
    (n : Manager) × Run after_ten
      (Event.forgot room ∷ Event.ticked 12 hub room ∷ Event.start_called room ∷ [])
      (record { room = room; reason = Reason.idle } ∷ [])
      n
Run-quiet_example =
    Run-quiet after_ten (Event.start_called room ∷ []) [] started room 0 12 0 10 hub Run-started
      none_leaves registered known refl (leb→le 10 12 refl)

abbrev burned : List Burn
burned = record { room = room; reason = Reason.owner_loss } ∷ []

Run-burned : Run after_ten (Event.owner_gone room ∷ Event.start_called room ∷ []) burned started
unfolding owner_left
Run-burned = Run.goes Run-started (Step.owner_leaves room)

Run-IsCaused_example :
    All (IsCaused after_ten (Event.owner_gone room ∷ Event.start_called room ∷ [])) burned
Run-IsCaused_example = Run-IsCaused after_ten Run-burned

Run-two_janitors_example :
    (log : List Event) × (m : Manager) × Run after_ten log [] m
    × (j : Janitor) × (k : Janitor) × (m.janitors ≡ j ∷ k ∷ [])
    × (j.room ≡ room)
    × (k.room ≡ room)
    × (j.channel ≢ k.channel)
    × All (λ c. (c ≢ j.channel) × (c ≢ k.channel)) m.closed
    × (get room m.idle ≡ some j.channel)
Run-two_janitors_example = Run-two_janitors after_ten room refl
