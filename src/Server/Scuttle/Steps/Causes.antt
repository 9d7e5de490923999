-- ===== src/Server/Scuttle/Steps/Causes.antt =====
-- The causes of a burn, and how the calls of the manager keep track of them.
use netherchat.Base.{
  ℕ, ◌+◌, ◌≤◌, ◌<◌, ◌≡◌, refl, subst, inl, inr, true, some, List, [], ◌∷◌, Text, eqb, All, All-map,
  Any, Bool-cases, Option-cases, arith,
}
use netherchat.Base.Int.{ℤ, pos, negsuc}
use netherchat.Base.Dict.{get}
use netherchat.Server.Hub.{Hub, last_activity}
use netherchat.Server.Scuttle.{
  Policy, Janitor, Timer, Manager, Verdict, positive, start, stop_timer, close_idle, cancel_armed,
  stop, arm, replaced, idle_check,
}
use netherchat.Server.Scuttle.Steps.{Reason, Burn, Event}

module _ (log : List Event) (room : Text) where
  abbrev pub Occurs : Event → Type 0
  Occurs e = Any (λ x. x ≡ e) log

  -- At some tick the room had been quiet for the time of its policy.
  pub record IsIdle (policy_of : Text → Policy) : Type 0 where
    pub now : ℕ
    pub hub : Hub
    pub last : ℕ
    pub after : ℕ
    pub seen : Occurs (Event.ticked now hub room)
    pub last_seen : last_activity hub room ≡ some last
    pub policy : (policy_of room).idle_after ≡ pos after
    pub set : 0 < after
    pub quiet : last + after ≤ now

  -- Arm was called for the room, and after the time that it was given a timer fired.
  pub record IsDue : Type 0 where
    pub called : ℕ
    pub after : ℕ
    pub now : ℕ
    pub armed : Occurs (Event.arm_called called room (pos after))
    pub fired : Occurs (Event.fired now room)
    pub set : 0 < after
    pub passed : called + after ≤ now

abbrev pub CauseOf : (Text → Policy) → List Event → Text → Reason → Type 0
CauseOf policy_of log room Reason.idle = IsIdle log room policy_of
CauseOf policy_of log room Reason.armed = IsDue log room
CauseOf policy_of log room Reason.owner_loss =
    Occurs log room (Event.owner_gone room) × ((policy_of room).owner_loss_burn ≡ true)

-- The cause of a burn.
abbrev pub IsCaused : (Text → Policy) → List Event → Burn → Type 0
IsCaused policy_of log b = CauseOf policy_of log b.room b.reason

module _ (policy_of : Text → Policy) where
  abbrev pub HasPolicy : Janitor → Type 0
  HasPolicy j = (j.policy ≡ policy_of j.room) × (positive j.policy.idle_after ≡ true)

  pub record IsPending (log : List Event) (t : Timer) : Type 0 where
    pub called : ℕ
    pub after : ℕ
    pub armed : Occurs log t.room (Event.arm_called called t.room (pos after))
    pub set : 0 < after
    pub due : t.at ≡ called + after

  pub record Inv (log : List Event) (m : Manager) : Type 0 where
    pub janitors : All HasPolicy m.janitors
    pub leaving : All (λ (j, b). b ≡ true → IsIdle log j.room policy_of) m.leaving
    pub timers : All (IsPending log) m.timers
    pub begun : All (λ (t : Timer). IsDue log t.room) m.begun

  module _ (e : Event) (log : List Event) where
    later-IsIdle : (room : Text) → IsIdle log room policy_of → IsIdle (e ∷ log) room policy_of
    later-IsIdle room i = record {
      now = i.now;
      hub = i.hub;
      last = i.last;
      after = i.after;
      seen = inr i.seen;
      last_seen = i.last_seen;
      policy = i.policy;
      set = i.set;
      quiet = i.quiet;
    }

    later-IsDue : (room : Text) → IsDue log room → IsDue (e ∷ log) room
    later-IsDue room i = record {
      called = i.called;
      after = i.after;
      now = i.now;
      armed = inr i.armed;
      fired = inr i.fired;
      set = i.set;
      passed = i.passed;
    }

    pub later-CauseOf :
        (room : Text) (why : Reason)
        → CauseOf policy_of log room why
        → CauseOf policy_of (e ∷ log) room why
    later-CauseOf room Reason.idle c = later-IsIdle room c
    later-CauseOf room Reason.armed c = later-IsDue room c
    later-CauseOf room Reason.owner_loss (o, p) = (inr o, p)

    pub later-Inv : (m : Manager) → Inv log m → Inv (e ∷ log) m
    later-Inv m i = record {
      janitors = i.janitors;
      leaving = All-map _ _ m.leaving (λ (j, b) f q. later-IsIdle j.room (f q)) i.leaving;
      timers =
          All-map (IsPending log) (IsPending (e ∷ log)) m.timers
            (λ t p. record {
              called = p.called;
              after = p.after;
              armed = inr p.armed;
              set = p.set;
              due = p.due;
            })
            i.timers;
      begun =
          All-map (λ (t : Timer). IsDue log t.room) (λ (t : Timer). IsDue (e ∷ log) t.room) m.begun
            (λ t. later-IsDue t.room) i.begun;
    }

  stop_timer-All :
      (P : Timer → Type 0) (n : ℕ) (ts : List Timer) → All P ts → All P (stop_timer n ts)
  unfolding stop_timer
  stop_timer-All P n [] h = tt
  stop_timer-All P n (t ∷ ts) h = elim (Bool-cases (eqb t.number n)) [
    | inl y ↦ rw (stop_timer, y) (stop_timer-All P n ts h.1)
    | inr f ↦ rw (stop_timer, f) (h.0, stop_timer-All P n ts h.1)
  ]

  pub start-Inv :
      (log : List Event) (m : Manager) (room : Text) → Inv log m → Inv log (start policy_of m room)
  unfolding start
  start-Inv log m room i = elim (Bool-cases (positive (policy_of room).idle_after)) [
    | inr n ↦ rw (start, n) i
    | inl p ↦ elim (Option-cases (get room m.idle)) [
      | inr (c, q) ↦ rw (start, p, q) i
      | inl q ↦
          rw (start, p, q)
            (record {
              janitors = ((refl, p), i.janitors);
              leaving = i.leaving;
              timers = i.timers;
              begun = i.begun;
            })
    ]
  ]

  close_idle-Inv :
      (log : List Event) (m : Manager) (room : Text) → Inv log m → Inv log (close_idle m room)
  close_idle-Inv log m room i = elim (Option-cases (get room m.idle)) [
    | inl n ↦ rw (close_idle, n) i
    | inr (c, q) ↦
        rw (close_idle, q)
          (record {
            janitors = i.janitors;
            leaving = i.leaving;
            timers = i.timers;
            begun = i.begun;
          })
  ]

  cancel_armed-Inv :
      (log : List Event) (m : Manager) (room : Text) → Inv log m → Inv log (cancel_armed m room)
  cancel_armed-Inv log m room i = elim (Option-cases (get room m.armed)) [
    | inl n ↦ rw (cancel_armed, n) i
    | inr (c, q) ↦
        rw (cancel_armed, q)
          (record {
            janitors = i.janitors;
            leaving = i.leaving;
            timers = stop_timer-All (IsPending log) c m.timers i.timers;
            begun = i.begun;
          })
  ]

  pub stop-Inv : (log : List Event) (m : Manager) (room : Text) → Inv log m → Inv log (stop m room)
  unfolding stop
  stop-Inv log m room i =
      cancel_armed-Inv log (close_idle m room) room (close_idle-Inv log m room i)

  replaced-All :
      (P : Timer → Type 0) (m : Manager) (room : Text) → All P m.timers → All P (replaced m room)
  replaced-All P m room h = elim (Option-cases (get room m.armed)) [
    | inl n ↦ rw (replaced, n) h
    | inr (c, q) ↦ rw (replaced, q) (stop_timer-All P c m.timers h)
  ]

  pub arm-Inv :
      (log : List Event) (m : Manager) (now : ℕ) (room : Text) (d : ℤ)
      → Inv log m
      → Inv (Event.arm_called now room d ∷ log) (arm m now room d)
  unfolding arm
  arm-Inv log m now room (negsuc d) i = later-Inv (Event.arm_called now room (negsuc d)) log m i
  arm-Inv log m now room (pos d) i =
      let k = later-Inv (Event.arm_called now room (pos d)) log m i in
      elim (Bool-cases (eqb d 0)) [
        | inl z ↦ rw (arm, z) k
        | inr z ↦
            rw (arm, z)
              (record {
                janitors = k.janitors;
                leaving = k.leaving;
                timers = (
                  record {
                    called = now;
                    after = d;
                    armed = inl refl;
                    set = ground arith;
                    due = refl;
                  },
                  replaced-All _ m room k.timers,
                );
                begun = k.begun;
              })
      ]

  pub IsIdle-found :
      (log : List Event) (now : ℕ) (h : Hub) (j : Janitor)
      → HasPolicy j
      → idle_check j.policy now (last_activity h j.room) ≡ Verdict.burns
      → IsIdle (Event.ticked now h j.room ∷ log) j.room policy_of
  unfolding idle_check
  IsIdle-found log now h j (p, q) v = elim (Option-cases (last_activity h j.room)) [
    | inl n ↦ absurd (ground arith)
    | inr (last, s) ↦ found j.policy.idle_after refl last s
  ]
    where
      found :
          (d : ℤ)
          → j.policy.idle_after ≡ d
          → (last : ℕ) → last_activity h j.room ≡ some last
          → IsIdle (Event.ticked now h j.room ∷ log) j.room policy_of
      found (negsuc d) e last s = absurd (ground arith)
      found (pos d) e last s = record {
        now = now;
        hub = h;
        last = last;
        after = d;
        seen = inl refl;
        last_seen = s;
        policy = subst (λ (x : Policy). x.idle_after ≡ pos d) p e;
        set = ground arith;
        quiet = ground arith;
      }
