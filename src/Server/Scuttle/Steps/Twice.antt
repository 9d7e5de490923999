-- ===== src/Server/Scuttle/Steps/Twice.antt =====
-- Two janitors for one room: forget of a janitor that is late drops the registration of the next one.
use netherchat.Base.{
  ℕ, ◌+◌, ◌≡◌, ◌≢◌, refl, subst, Bool, true, false, some, List, [], ◌∷◌, Text, ==_refl, All, arith,
}
use netherchat.Base.Dict.{Dict, get, put, delete}
use netherchat.Server.Hub.{Hub, last_activity}
use netherchat.Server.Scuttle.{
  Policy, Janitor, Manager, Verdict, positive, start, stop, idle_check, forget,
}
use netherchat.Server.Scuttle.Steps.{Event, Step, Run}

abbrev no_rooms : Hub
no_rooms = record { rooms = [] }

module _ (policy_of : Text → Policy) (room : Text)
    (p : positive (policy_of room).idle_after ≡ true) where
  abbrev janitor : ℕ → Janitor
  janitor c = record { room = room; policy = policy_of room; channel = c }

  abbrev at : Dict ℕ → List ℕ → List Janitor → List (Janitor × Bool) → ℕ → Manager
  at idle closed js ls n = record {
    idle = idle;
    armed = [];
    closed = closed;
    janitors = js;
    leaving = ls;
    timers = [];
    begun = [];
    fresh = n;
  }

  start-at :
      (closed : List ℕ) (js : List Janitor) (ls : List (Janitor × Bool)) (n : ℕ)
      → start policy_of (at [] closed js ls n) room
        ≡ at ((room, n) ∷ []) closed (janitor n ∷ js) ls (n + 1)
  unfolding start get put
  start-at closed js ls n = rw (start, p) refl

  stop-at :
      (js : List Janitor) (n c : ℕ)
      → stop (at ((room, c) ∷ []) [] js [] n) room ≡ at [] (c ∷ []) js [] n
  unfolding stop get delete
  stop-at js n c = ground (arith, ==_refl room)

  forget-at :
      (closed : List ℕ) (js : List Janitor) (n c : ℕ)
      → record (forget (at ((room, c) ∷ []) closed js ((janitor 0, false) ∷ []) n) room) {
        leaving = [];
      }
        ≡ at [] closed js [] n
  unfolding delete
  forget-at closed js n c = rw (forget, ==_refl room) refl

  abbrev twice : Manager
  twice = at ((room, 2) ∷ []) (0 ∷ []) (janitor 2 ∷ janitor 1 ∷ []) [] 3

  abbrev log : List Event
  log =
      Event.start_called room
      ∷ Event.forgot room
      ∷ Event.start_called room
      ∷ Event.ticked 0 no_rooms room
      ∷ Event.stop_called room
      ∷ Event.start_called room
      ∷ []

  gone-at : idle_check (policy_of room) 0 (last_activity no_rooms room) ≡ Verdict.gone
  unfolding idle_check last_activity get
  gone-at = refl

  Run-twice : Run policy_of log [] twice
  Run-twice =
      let r₁ : Run policy_of _ [] (at ((room, 0) ∷ []) [] (janitor 0 ∷ []) [] 1) =
        subst (Run policy_of (Event.start_called room ∷ []) []) (start-at [] [] [] 0)
          (Run.goes Run.begins (Step.starts room)) in
      let r₂ : Run policy_of (Event.stop_called room ∷ Event.start_called room ∷ []) []
          (at [] (0 ∷ []) (janitor 0 ∷ []) [] 1) =
        subst (Run policy_of (Event.stop_called room ∷ Event.start_called room ∷ []) [])
          (stop-at (janitor 0 ∷ []) 1 0) (Run.goes r₁ (Step.stops room)) in
      let r₃ : Run policy_of
          (Event.ticked 0 no_rooms room ∷ Event.stop_called room ∷ Event.start_called room ∷ []) []
          (at [] (0 ∷ []) [] ((janitor 0, false) ∷ []) 1) =
        Run.goes r₂ (Step.finds_gone 0 no_rooms (janitor 0) [] [] refl gone-at) in
      let r₄ : Run policy_of
          (Event.start_called room
            ∷ Event.ticked 0 no_rooms room
            ∷ Event.stop_called room
            ∷ Event.start_called room
            ∷ [])
          [] (at ((room, 1) ∷ []) (0 ∷ []) (janitor 1 ∷ []) ((janitor 0, false) ∷ []) 2) =
        subst (Run policy_of _ []) (start-at (0 ∷ []) [] ((janitor 0, false) ∷ []) 1)
          (Run.goes r₃ (Step.starts room)) in
      let r₅ : Run policy_of
          (Event.forgot room
            ∷ Event.start_called room
            ∷ Event.ticked 0 no_rooms room
            ∷ Event.stop_called room
            ∷ Event.start_called room
            ∷ [])
          [] (at [] (0 ∷ []) (janitor 1 ∷ []) [] 2) =
        subst (Run policy_of _ []) (forget-at (0 ∷ []) (janitor 1 ∷ []) 2 1)
          (Run.goes r₄ (Step.forgets (janitor 0) false [] [] refl)) in
      subst (Run policy_of log []) (start-at (0 ∷ []) (janitor 1 ∷ []) [] 2)
        (Run.goes r₅ (Step.starts room))

  -- A room whose policy has an idle time can come to have two janitors that both run on: their stop
  -- channels differ, neither is closed, and one of the two is not registered, so that Stop does not end
  -- it.
  pub Run-two_janitors :
      (log : List Event) × (m : Manager) × Run policy_of log [] m
      × (j : Janitor) × (k : Janitor) × (m.janitors ≡ j ∷ k ∷ [])
      × (j.room ≡ room)
      × (k.room ≡ room)
      × (j.channel ≢ k.channel)
      × All (λ c. (c ≢ j.channel) × (c ≢ k.channel)) m.closed
      × (get room m.idle ≡ some j.channel)
  unfolding get
  Run-two_janitors = (
    log,
    twice,
    Run-twice,
    janitor 2,
    janitor 1,
    refl,
    refl,
    refl,
    (λ e. ground arith),
    (((λ e. ground arith), (λ e. ground arith)), tt),
    rw (==_refl room) refl,
  )
