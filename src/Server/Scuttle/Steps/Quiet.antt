-- ===== src/Server/Scuttle/Steps/Quiet.antt =====
-- A registered room that is quiet for the time of its policy can be burned.
use netherchat.Base.{
  ℕ, ◌+◌, ◌≤◌, ◌≡◌, refl, subst, ◌∙◌, ap, inl, inr, true, some, List, [], ◌∷◌, Text, All,
  All-middle, Any, arith,
}
use netherchat.Base.Int.{pos}
use netherchat.Base.Dict.{get}
use netherchat.Server.Hub.{Hub, last_activity}
use netherchat.Server.Scuttle.{Policy, Manager, Verdict, idle_check}
use netherchat.Server.Scuttle.Steps.{Reason, Burn, Event, Step, Run}
use netherchat.Server.Scuttle.Steps.Causes.{HasPolicy}
use netherchat.Server.Scuttle.Steps.Caused.{Run-HasPolicy}
use netherchat.Server.Scuttle.Steps.Watched.{IsWatcher, Any-split, Run-Inv}

idle_check-burns :
    (pol : Policy) (now last d : ℕ)
    → pol.idle_after ≡ pos d
    → last + d ≤ now
    → idle_check pol now (some last) ≡ Verdict.burns
unfolding idle_check
idle_check-burns pol now last d e l = rw (idle_check, e) (ground arith)

module _ (policy_of : Text → Policy) where
  -- In a state that a run reaches and in which no janitor is leaving, let a room be registered, known
  -- to the hub, and quiet for the time of its policy. Then the run can go on with two steps, a tick
  -- and a forget, that burn the room as idle.
  pub Run-quiet :
      (log : List Event) (burned : List Burn) (m : Manager) (room : Text) (channel now last d : ℕ)
      (h : Hub)
      → Run policy_of log burned m
      → m.leaving ≡ []
      → get room m.idle ≡ some channel
      → last_activity h room ≡ some last
      → (policy_of room).idle_after ≡ pos d
      → last + d ≤ now
      → (n : Manager) × Run policy_of
          (Event.forgot room ∷ Event.ticked now h room ∷ log)
          (record { room = room; reason = Reason.idle } ∷ burned)
          n
  Run-quiet log burned m room c now last d h r none_leaves registered seen pol quiet =
      elim ((Run-Inv policy_of r).live room c registered) [
        | inr l ↦ absurd (subst (Any (λ (j, b). IsWatcher room c j)) none_leaves l)
        | inl a ↦
            let (xs, j, ys, e, w) = Any-split (IsWatcher room c) m.janitors a in
            let p =
              (All-middle (HasPolicy policy_of) xs j ys
                (subst (All (HasPolicy policy_of)) e (Run-HasPolicy policy_of r))).0.0 in
            let v : idle_check j.policy now (last_activity h j.room) ≡ Verdict.burns =
              rw (w.0, seen)
                (idle_check-burns j.policy now last d (ap (λ x. x.idle_after) p ∙ rw w.0 pol)
                  quiet) in
            subst
              (λ x.
                (n : Manager) × Run policy_of (Event.forgot x ∷ Event.ticked now h x ∷ log)
                  (record { room = x; reason = Reason.idle } ∷ burned) n)
              w.0
              (
                _,
                Run.goes (Run.goes r (Step.finds_idle now h j xs ys e v))
                    (Step.forgets j true [] m.leaving refl),
              )
      ]
