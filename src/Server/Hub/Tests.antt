-- ===== src/Server/Hub/Tests.antt =====
-- A hub at concrete inputs.
use netherchat.Base.{◌≡◌, ◌↔◌, refl, true, none, [], ◌∷◌, codes, ◌==◌}
use netherchat.Base.Dict.{get, put}
use netherchat.Server.Hub.{Member, join}
use netherchat.Server.Hub.Rooms.{IsHub}
use netherchat.Server.Hub.Joining.{
  Call, join_call, leave_call, run, IsNew, empty, run-IsHub, join_iff,
}
use netherchat.Base.{List}

abbrev alice : Member
alice = record { id = codes "a"; name = codes "alice"; has_send = true; has_close = true }

abbrev bob : Member
bob = record { id = codes "b"; name = codes "bob"; has_send = true; has_close = true }

abbrev calls : List Call
calls =
    join_call 1 (codes "ops") alice
    ∷ join_call 2 (codes "ops") bob
    ∷ leave_call (codes "ops") (codes "a")
    ∷ []

calls-IsNew : IsNew empty calls
unfolding join get put ◌==◌
calls-IsNew = (refl, (refl, tt))

run-IsHub_example : IsHub (run empty calls)
run-IsHub_example = run-IsHub calls calls-IsNew

join_iff_example :
    ((join (run empty calls) 5 (codes "ops") alice).1.you_are_first ≡ true)
    ↔ ((join (run empty calls) 5 (codes "ops") alice).1.distributor ≡ none)
join_iff_example = join_iff (run empty calls) 5 (codes "ops") alice (run-IsHub calls calls-IsNew)
