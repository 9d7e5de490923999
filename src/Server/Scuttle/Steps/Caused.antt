-- ===== src/Server/Scuttle/Steps/Caused.antt =====
-- Every room that is scuttled was idle for long enough, armed for long enough ago, or lost its owner.
use netherchat.Base.{
  ◌≤◌, ◌≡◌, refl, subst, inl, Bool, true, false, List, ◌∷◌, Text, leb→le, All, All-map, All-append,
  All-middle,
}
use netherchat.Server.Scuttle.{Policy, Timer, Manager, owner_left}
use netherchat.Server.Scuttle.Steps.{Reason, Burn, Event, Step, Run, burn_if}
use netherchat.Server.Scuttle.Steps.Causes.{
  IsIdle, IsDue, CauseOf, IsCaused, HasPolicy, IsPending, Inv, later-Inv, later-CauseOf, start-Inv,
  stop-Inv, arm-Inv, IsIdle-found,
}

module _ (policy_of : Text → Policy) where
  step-Inv :
      (log : List Event) (m n : Manager) (e : Event) (new : List Burn)
      → Step policy_of m e new n
      → Inv policy_of log m
      → Inv policy_of (e ∷ log) n
  step-Inv log m n e new (Step.starts room) i =
      later-Inv policy_of e log n (start-Inv policy_of log m room i)
  step-Inv log m n e new (Step.stops room) i =
      later-Inv policy_of e log n (stop-Inv policy_of log m room i)
  step-Inv log m n e new (Step.owner_leaves room) i = later-Inv policy_of e log n i
  step-Inv log m n e new (Step.arms now room d) i = arm-Inv policy_of log m now room d i
  step-Inv log m n e new (Step.ticks_on now h j k v) i = later-Inv policy_of e log n i
  step-Inv log m n e new (Step.finds_gone now h j xs ys q v) i =
      let k = later-Inv policy_of e log m i in
      record {
        janitors =
            (All-middle (HasPolicy policy_of) xs j ys
              (subst (All (HasPolicy policy_of)) q i.janitors)).1;
        leaving = ((λ p. cc p), k.leaving);
        timers = k.timers;
        begun = k.begun;
      }
  step-Inv log m n e new (Step.finds_idle now h j xs ys q v) i =
      let k = later-Inv policy_of e log m i in
      let (p, r) =
        All-middle (HasPolicy policy_of) xs j ys (subst (All (HasPolicy policy_of)) q i.janitors) in
      record {
        janitors = r;
        leaving = ((λ _. IsIdle-found policy_of log now h j p v), k.leaving);
        timers = k.timers;
        begun = k.begun;
      }
  step-Inv log m n e new (Step.forgets j b xs ys q) i =
      let k = later-Inv policy_of e log m i in
      record {
        janitors = k.janitors;
        leaving =
            (All-middle (λ (x, c). c ≡ true → IsIdle (e ∷ log) x.room policy_of) xs (j, b) ys
              (subst (All (λ (x, c). c ≡ true → IsIdle (e ∷ log) x.room policy_of)) q k.leaving)).1;
        timers = k.timers;
        begun = k.begun;
      }
  step-Inv log m n e new (Step.ends j xs ys q c) i =
      let k = later-Inv policy_of e log m i in
      record {
        janitors =
            (All-middle (HasPolicy policy_of) xs j ys
              (subst (All (HasPolicy policy_of)) q i.janitors)).1;
        leaving = k.leaving;
        timers = k.timers;
        begun = k.begun;
      }
  step-Inv log m n e new (Step.fires now t xs ys q l) i =
      let k = later-Inv policy_of e log m i in
      let (p, r) =
        All-middle (IsPending policy_of (e ∷ log)) xs t ys
          (subst (All (IsPending policy_of (e ∷ log))) q k.timers) in
      record {
        janitors = k.janitors;
        leaving = k.leaving;
        timers = r;
        begun = (
          record {
            called = p.called;
            after = p.after;
            now = now;
            armed = p.armed;
            fired = inl refl;
            set = p.set;
            passed = subst (λ x. x ≤ now) p.due (leb→le t.at now l);
          },
          k.begun,
        );
      }
  step-Inv log m n e new (Step.calls t xs ys q) i =
      let k = later-Inv policy_of e log m i in
      record {
        janitors = k.janitors;
        leaving = k.leaving;
        timers = k.timers;
        begun =
            (All-middle (λ (x : Timer). IsDue (e ∷ log) x.room) xs t ys
              (subst (All (λ (x : Timer). IsDue (e ∷ log) x.room)) q k.begun)).1;
      }

  burn_if-IsCaused :
      (log : List Event) (b : Bool) (room : Text) (why : Reason)
      → (b ≡ true → CauseOf policy_of log room why)
      → All (IsCaused policy_of log) (burn_if b room why)
  burn_if-IsCaused log true room why f = (f refl, tt)
  burn_if-IsCaused log false room why f = tt

  step-IsCaused :
      (log : List Event) (m n : Manager) (e : Event) (new : List Burn)
      → Step policy_of m e new n
      → Inv policy_of log m
      → All (IsCaused policy_of (e ∷ log)) new
  unfolding owner_left
  step-IsCaused log m n e new (Step.starts room) i = tt
  step-IsCaused log m n e new (Step.stops room) i = tt
  step-IsCaused log m n e new (Step.owner_leaves room) i =
      burn_if-IsCaused (e ∷ log) _ room Reason.owner_loss (λ o. (inl refl, o))
  step-IsCaused log m n e new (Step.arms now room d) i = tt
  step-IsCaused log m n e new (Step.ticks_on now h j k v) i = tt
  step-IsCaused log m n e new (Step.finds_gone now h j xs ys q v) i = tt
  step-IsCaused log m n e new (Step.finds_idle now h j xs ys q v) i = tt
  step-IsCaused log m n e new (Step.forgets j b xs ys q) i =
      let k = later-Inv policy_of e log m i in
      burn_if-IsCaused (e ∷ log) b j.room Reason.idle
        (All-middle (λ (x, c). c ≡ true → IsIdle (e ∷ log) x.room policy_of) xs (j, b) ys
          (subst (All (λ (x, c). c ≡ true → IsIdle (e ∷ log) x.room policy_of)) q k.leaving)).0
  step-IsCaused log m n e new (Step.ends j xs ys q c) i = tt
  step-IsCaused log m n e new (Step.fires now t xs ys q l) i = tt
  step-IsCaused log m n e new (Step.calls t xs ys q) i =
      let k = later-Inv policy_of e log m i in
      (
        (All-middle (λ (x : Timer). IsDue (e ∷ log) x.room) xs t ys
            (subst (All (λ (x : Timer). IsDue (e ∷ log) x.room)) q k.begun)).0,
        tt,
      )

  Run-Inv :
      {log : List Event} {burned : List Burn} {m : Manager}
      → Run policy_of log burned m
      → Inv policy_of log m
  Run-Inv Run.begins = record { janitors = tt; leaving = tt; timers = tt; begun = tt }
  Run-Inv (Run.goes r s) = step-Inv _ _ _ _ _ s (Run-Inv r)

  pub Run-HasPolicy :
      {log : List Event} {burned : List Burn} {m : Manager}
      → Run policy_of log burned m
      → All (HasPolicy policy_of) m.janitors
  Run-HasPolicy r = (Run-Inv r).janitors

  -- In a run of the manager every scuttled room has its cause: it was quiet at a tick for the time of
  -- its policy, a call of Arm for it lies its delay before the firing of a timer, or its owner left
  -- and its policy says that this burns it.
  pub Run-IsCaused :
      {log : List Event} {burned : List Burn} {m : Manager}
      → Run policy_of log burned m
      → All (IsCaused policy_of log) burned
  Run-IsCaused Run.begins = tt
  Run-IsCaused (Run.goes {log} {done} {new} {m} {n} {e} r s) =
      All-append (IsCaused policy_of (e ∷ log)) new done (step-IsCaused log m n e new s (Run-Inv r))
        (All-map (IsCaused policy_of log) (IsCaused policy_of (e ∷ log)) done
          (λ b. later-CauseOf policy_of e log b.room b.reason) (Run-IsCaused r))
