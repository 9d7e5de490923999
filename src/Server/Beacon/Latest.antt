-- ===== src/Server/Beacon/Latest.antt =====
-- Get answers with the latest beacon of the room while it lasts.
use netherchat.Base.{
  ℕ, ◌≤◌, ◌≡◌, refl, ◌⊎◌, inl, inr, true, not, Option, none, some, List, [], ◌∷◌, Text, ◌==◌,
  ==_iff, ltb, Option-cases, Bool-cases, if◌then◌else◌, arith,
}
use netherchat.Base.Dict.{get, get-put, get-delete, IsMap, put-IsMap, delete-IsMap}
use netherchat.Base.Keep.{get-keep, keep-IsMap}
use netherchat.Server.Beacon.{
  Entry, Store, Call, set_call, lookup_call, remove_call, purge_call, fresh, empty, set, lookup,
  remove, purge, step,
}

abbrev pub run : Store → List Call → Store
run s [] = s
run s (c ∷ cs) = run (step s c) cs

abbrev pub time : Call → ℕ
time (set_call now room ciphertext ttl) = now
time (lookup_call now room) = now
time (remove_call now room) = now
time (purge_call now) = now

-- The clock does not go back, and ends at `u` at the latest.
abbrev pub IsTimed : ℕ → List Call → ℕ → Type 0
IsTimed t [] u = t ≤ u
IsTimed t (c ∷ cs) u = (t ≤ time c) × IsTimed (time c) cs u

-- The beacon that a room was last given, if it was not taken away since: `x` stands before the calls.
abbrev pub latest : Text → Option Entry → List Call → Option Entry
latest room x [] = x
latest room x (set_call now r ciphertext ttl ∷ cs) =
    latest room (if r == room then some (fresh now ciphertext ttl) else x) cs
latest room x (remove_call now r ∷ cs) = latest room (if r == room then none else x) cs
latest room x (lookup_call now r ∷ cs) = latest room x cs
latest room x (purge_call now ∷ cs) = latest room x cs

-- What has not passed its expiry.
abbrev pub live : ℕ → Option Entry → Option Entry
live now none = none
live now (some e) = if ltb e.expires now then none else some e

-- A store may lack what has expired.
abbrev Agree : ℕ → Option Entry → Option Entry → Type 0
Agree t x y = (x ≡ y) ⊎ ((x ≡ none) × (e : Entry) × (y ≡ some e) × (ltb e.expires t ≡ true))

later-Agree : (t u : ℕ) (x y : Option Entry) → t ≤ u → Agree t x y → Agree u x y
later-Agree t u x y h (inl p) = inl p
later-Agree t u x y h (inr (n, e, q, l)) = inr (n, e, q, ground arith)

step-IsMap : (s : Store) (c : Call) → IsMap s.beacons → IsMap (step s c).beacons
unfolding set lookup remove purge
step-IsMap s (set_call now room ciphertext ttl) h =
    put-IsMap room (fresh now ciphertext ttl) s.beacons h
step-IsMap s (lookup_call now room) h = elim (Option-cases (get room s.beacons)) [
  | inl n ↦ ground arith
  | inr (e, q) ↦ ground (arith, delete-IsMap room s.beacons h)
]
step-IsMap s (remove_call now room) h = delete-IsMap room s.beacons h
step-IsMap s (purge_call now) h = keep-IsMap (λ e. not (ltb e.expires now)) s.beacons h

step-Agree :
    (s : Store) (c : Call) (room : Text) (x : Option Entry)
    → IsMap s.beacons
    → Agree (time c) (get room s.beacons) x
    → Agree (time c) (get room (step s c).beacons) (latest room x (c ∷ []))
unfolding set lookup remove purge
step-Agree s (set_call now r ciphertext ttl) room x m h =
    ground (arith, h, get-put r room (fresh now ciphertext ttl) s.beacons)
step-Agree s (remove_call now r) room x m h = ground (arith, h, get-delete r room s.beacons)
step-Agree s (lookup_call now r) room x m h = elim (Option-cases (get r s.beacons)) [
  | inl n ↦ ground (arith, h)
  | inr (e, q) ↦ elim (Bool-cases (ltb e.expires now)) [
    | inr l ↦ ground (arith, h)
    | inl l ↦ elim (Bool-cases (r == room)) [
      | inr n ↦ ground (arith, h, get-delete r room s.beacons)
      | inl y ↦
          inr (ground (arith, get-delete r room s.beacons), e, ground (arith, h, ==_iff r room), l)
    ]
  ]
]
step-Agree s (purge_call now) room x m h = elim (Option-cases (get room s.beacons)) [
  | inl n ↦ ground (arith, h, get-keep room (λ e. not (ltb e.expires now)) s.beacons m)
  | inr (e, q) ↦ elim (Bool-cases (ltb e.expires now)) [
    | inl l ↦ inr (
      ground (arith, get-keep room (λ e. not (ltb e.expires now)) s.beacons m),
      e,
      ground (arith, h),
      l,
    )
    | inr l ↦ ground (arith, h, get-keep room (λ e. not (ltb e.expires now)) s.beacons m)
  ]
]

latest_cons :
    (room : Text) (x : Option Entry) (c : Call) (cs : List Call)
    → latest room x (c ∷ cs) ≡ latest room (latest room x (c ∷ [])) cs
latest_cons room x (set_call now r ciphertext ttl) cs = refl
latest_cons room x (remove_call now r) cs = refl
latest_cons room x (lookup_call now r) cs = refl
latest_cons room x (purge_call now) cs = refl

run-Agree :
    (t u : ℕ) (s : Store) (cs : List Call) (room : Text) (x : Option Entry)
    → IsTimed t cs u
    → IsMap s.beacons
    → Agree t (get room s.beacons) x
    → Agree u (get room (run s cs).beacons) (latest room x cs)
run-Agree t u s [] room x h m a = later-Agree t u (get room s.beacons) x h a
run-Agree t u s (c ∷ cs) room x h m a = rw latest_cons (
    run-Agree (time c) u (step s c) cs room (latest room x (c ∷ [])) h.1 (step-IsMap s c m)
      (step-Agree s c room x m (later-Agree t (time c) (get room s.beacons) x h.0 a)))

-- After any calls on a clock that does not go back, Get answers with the latest beacon that the room
-- was given and that was not deleted since, until its expiry has passed, and with nothing then.
-- Neither the reads nor the purges in between change the answer.
pub lookup-run :
    (now : ℕ) (cs : List Call) (room : Text)
    → IsTimed 0 cs now
    → (lookup (run empty cs) now room).1 ≡ live now (latest room none cs)
unfolding lookup get
lookup-run now cs room h = ground (arith, run-Agree 0 now empty cs room none h tt (inl refl))
