-- ===== src/Server/Transfers/Bounded.antt =====
-- No room holds more transfers than the bound, and a member who leaves frees theirs.
use netherchat.Base.{
  ℕ, zero, suc, ◌<◌, ◌≤◌, ◌≡◌, refl, sym, ◌∙◌, subst, ap, ◌⊎◌, inl, inr, Bool, not, none, some,
  List, [], ◌∷◌, Text, ◌==◌, ==_iff, leb, length, Option-cases, Bool-cases, if◌then◌else◌, arith,
}
use netherchat.Base.Int.{ℤ, pos, negsuc}
use netherchat.Base.Dict.{
  Dict, get, put, delete, get-put, get-delete, length-put, length-delete-le, IsMap, put-IsMap,
  delete-IsMap,
}
use netherchat.Base.Keep.{keep, get-keep, keep-IsMap, length-keep-le, only}
use netherchat.Server.Transfers.{
  Transfer, Tracker, Call, start_call, finish_call, abort_call, step, run, new_tracker, slots,
  stale, sweep, store, try_start, store_or_drop, finish, abort_by,
}

pub store-slots :
    (t : Tracker) (room r : Text) (m : Dict Transfer)
    → slots (store t room m) r ≡ (if room == r then m else slots t r)
store-slots t room r m = ground (arith, get-put room r m t.rooms, ==_iff room r)

store_or_drop-slots :
    (t : Tracker) (room r : Text) (m : Dict Transfer)
    → slots (store_or_drop t room m) r ≡ (if room == r then m else slots t r)
unfolding store_or_drop
store_or_drop-slots t room r [] = ground (arith, get-delete room r t.rooms, ==_iff room r)
store_or_drop-slots t room r (x ∷ m) = ground (arith, store-slots t room r (x ∷ m))

-- Every room's transfers are a map no larger than the bound.
abbrev pub IsBounded : Tracker → Type 0
IsBounded t = (room : Text) → IsMap (slots t room) × (length (slots t room) ≤ t.max)

abbrev IsSmall : ℕ → Dict Transfer → Type 0
IsSmall n m = IsMap m × (length m ≤ n)

sweep-IsSmall : (now n : ℕ) (m : Dict Transfer) → IsSmall n m → IsSmall n (sweep now m)
sweep-IsSmall now n m h = (
  keep-IsMap (λ x. not (stale now x)) m h.0,
  omega (arith, length-keep-le (λ x. not (stale now x)) m, h.1),
)

-- One room's new transfers are small, and the others are as they were.
abbrev Stored : Tracker → Text → Dict Transfer → Tracker → Type 0
Stored t room m u =
    (u.max ≡ t.max) × ((r : Text) → slots u r ≡ (if room == r then m else slots t r))

Stored-IsBounded :
    (t u : Tracker) (room : Text) (m : Dict Transfer)
    → Stored t room m u
    → IsSmall t.max m
    → IsBounded t
    → IsBounded u
Stored-IsBounded t u room m (e, s) k h r = elim (Bool-cases (room == r)) [
  | inl y ↦
      let q : slots u r ≡ m = ground (arith, s r) in
      subst (λ x. IsMap x × (length x ≤ u.max)) (sym q) (k.0, omega (arith, k.1, e))
  | inr n ↦
      let q : slots u r ≡ slots t r = ground (arith, s r) in
      subst (λ x. IsMap x × (length x ≤ u.max)) (sym q) ((h r).0, omega (arith, (h r).1, e))
]

-- The room's transfers after tryStart: the swept ones, and the new one if there is room for it.
abbrev started : Tracker → ℕ → Text → Text → Text → Dict Transfer
started t now room tid owner =
    let m = sweep now (slots t room) in
    elim (get tid m) [
      | some _ ↦ m
      | none ↦
          if leb t.max (length m) then m else put tid (record { owner = owner; started = now }) m
    ]

abbrev entered : ℕ → Text → Transfer
entered now owner = record { owner = owner; started = now }

started-cases :
    (t : Tracker) (now : ℕ) (room tid owner : Text)
    → (started t now room tid owner ≡ sweep now (slots t room))
      ⊎ ((get tid (sweep now (slots t room)) ≡ none)
          × (length (sweep now (slots t room)) < t.max)
          × (started t now room tid owner ≡ put tid (entered now owner) (sweep now (slots t room))))
started-cases t now room tid owner = elim (Option-cases (get tid (sweep now (slots t room)))) [
  | inr (x, q) ↦ inl (ground arith)
  | inl n ↦ elim (Bool-cases (leb t.max (length (sweep now (slots t room))))) [
    | inl l ↦ inl (ground arith)
    | inr l ↦ inr (n, ground arith, ground arith)
  ]
]

try_start-eq :
    (t : Tracker) (now : ℕ) (room tid owner : Text)
    → (try_start t now room tid owner).0 ≡ store t room (started t now room tid owner)
unfolding try_start
try_start-eq t now room tid owner = elim (Option-cases (get tid (sweep now (slots t room)))) [
  | inr (x, q) ↦ ground arith
  | inl n ↦ elim (Bool-cases (leb t.max (length (sweep now (slots t room))))) [
    | inl l ↦ ground arith
    | inr l ↦ ground arith
  ]
]

started-IsSmall :
    (t : Tracker) (now : ℕ) (room tid owner : Text)
    → IsSmall t.max (slots t room)
    → IsSmall t.max (started t now room tid owner)
started-IsSmall t now room tid owner h =
    let k = sweep-IsSmall now t.max (slots t room) h in
    elim (started-cases t now room tid owner) [
      | inl e ↦ subst (IsSmall t.max) (sym e) k
      | inr (n, l, e) ↦ subst (IsSmall t.max) (sym e) (
        put-IsMap tid (entered now owner) (sweep now (slots t room)) k.0,
        omega (arith, length-put tid (entered now owner) (sweep now (slots t room)) n, l),
      )
    ]

stored : (t : Tracker) (room : Text) (m : Dict Transfer) → Stored t room m (store t room m)
stored t room m = (refl, λ r. store-slots t room r m)

dropped : (t : Tracker) (room : Text) (m : Dict Transfer) → Stored t room m (store_or_drop t room m)
unfolding store_or_drop
dropped t room [] = (refl, λ r. store_or_drop-slots t room r [])
dropped t room (x ∷ m) = (ground arith, λ r. store_or_drop-slots t room r (x ∷ m))

slots-some :
    (t : Tracker) (room : Text) (m : Dict Transfer) → get room t.rooms ≡ some m → slots t room ≡ m
slots-some t room m h = ground arith

finish-IsBounded : (t : Tracker) (room tid : Text) → IsBounded t → IsBounded (finish t room tid)
unfolding finish
finish-IsBounded t room tid h = elim (Option-cases (get room t.rooms)) [
  | inl n ↦ subst IsBounded (ground arith) h
  | inr (m, q) ↦
      let s : IsSmall t.max m = subst (IsSmall t.max) (slots-some t room m q) (h room) in
      subst IsBounded (ground arith) (
        Stored-IsBounded t (store_or_drop t room (delete tid m)) room (delete tid m)
          (dropped t room (delete tid m))
          (delete-IsMap tid m s.0, omega (arith, length-delete-le tid m, s.1)) h)
]

abort_by-IsBounded :
    (t : Tracker) (room owner : Text) → IsBounded t → IsBounded (abort_by t room owner).0
unfolding abort_by
abort_by-IsBounded t room owner h = elim (Option-cases (get room t.rooms)) [
  | inl n ↦ subst IsBounded (ground arith) h
  | inr (m, q) ↦
      let s : IsSmall t.max m = subst (IsSmall t.max) (slots-some t room m q) (h room) in
      let p : Transfer → Bool = λ x. not (x.owner == owner) in
      subst IsBounded (ground arith) (
        Stored-IsBounded t (store_or_drop t room (keep p m)) room (keep p m)
          (dropped t room (keep p m)) (keep-IsMap p m s.0, omega (arith, length-keep-le p m, s.1))
          h)
]

step-IsBounded : (t : Tracker) (c : Call) → IsBounded t → IsBounded (step t c)
step-IsBounded t (start_call now room tid owner) h =
    subst IsBounded (sym (try_start-eq t now room tid owner)) (
      Stored-IsBounded t (store t room (started t now room tid owner)) room
        (started t now room tid owner) (stored t room (started t now room tid owner))
        (started-IsSmall t now room tid owner (h room)) h)
step-IsBounded t (finish_call room tid) h = finish-IsBounded t room tid h
step-IsBounded t (abort_call room owner) h = abort_by-IsBounded t room owner h

new_tracker-IsBounded : (max : ℤ) → IsBounded (new_tracker max)
unfolding new_tracker get
new_tracker-IsBounded (pos zero) room = (tt, omega arith)
new_tracker-IsBounded (pos (suc n)) room = (tt, omega arith)
new_tracker-IsBounded (negsuc n) room = (tt, omega arith)

run_all-IsBounded : (t : Tracker) (cs : List Call) → IsBounded t → IsBounded (run t cs)
run_all-IsBounded t [] h = h
run_all-IsBounded t (c ∷ cs) h = run_all-IsBounded (step t c) cs (step-IsBounded t c h)

step_max : (t : Tracker) (c : Call) → (step t c).max ≡ t.max
unfolding finish abort_by
step_max t (start_call now room tid owner) =
    ap (λ (u : Tracker). u.max) (try_start-eq t now room tid owner)
step_max t (finish_call room tid) = elim (Option-cases (get room t.rooms)) [
  | inl n ↦ ground arith
  | inr (m, q) ↦ ground (arith, dropped t room (delete tid m))
]
step_max t (abort_call room owner) = elim (Option-cases (get room t.rooms)) [
  | inl n ↦ ground arith
  | inr (m, q) ↦ ground (arith, dropped t room (keep (λ x. not (x.owner == owner)) m))
]

run_max : (t : Tracker) (cs : List Call) → (run t cs).max ≡ t.max
run_max t [] = refl
run_max t (c ∷ cs) = run_max (step t c) cs ∙ step_max t c

-- The bound that a tracker is made with: one where the argument is not positive.
abbrev pub bound : ℤ → ℕ
bound (pos zero) = 1
bound (pos (suc n)) = suc n
bound (negsuc n) = 1

new_tracker_max : (max : ℤ) → (new_tracker max).max ≡ bound max
unfolding new_tracker
new_tracker_max (pos zero) = refl
new_tracker_max (pos (suc n)) = refl
new_tracker_max (negsuc n) = refl

-- After any calls on a new tracker, no room holds more transfers than the bound, and no id is held
-- twice in a room.
pub run-IsBounded :
    (max : ℤ) (cs : List Call) (room : Text)
    → IsMap (slots (run (new_tracker max) cs) room)
      × (length (slots (run (new_tracker max) cs) room) ≤ bound max)
run-IsBounded max cs room =
    let h = run_all-IsBounded (new_tracker max) cs (new_tracker-IsBounded max) room in
    (
      h.0,
      subst (λ n. length (slots (run (new_tracker max) cs) room) ≤ n)
          (run_max (new_tracker max) cs ∙ new_tracker_max max) h.1,
    )

slots-none : (t : Tracker) (room : Text) → get room t.rooms ≡ none → slots t room ≡ []
slots-none t room n = ground arith

none_held :
    (t : Tracker) (room tid : Text) → get room t.rooms ≡ none → get tid (slots t room) ≡ none
unfolding get
none_held t room tid n = ap (get tid) (slots-none t room n)

-- When a member leaves, exactly their transfers in the room go, where the room's transfers are a
-- map.
pub abort_by-slots :
    (t : Tracker) (room owner r tid : Text)
    → IsMap (slots t room)
    → get tid (slots (abort_by t room owner).0 r) ≡ (
        if room == r
        then only (λ x. not (x.owner == owner)) (get tid (slots t r))
        else get tid (slots t r))
unfolding abort_by
abort_by-slots t room owner r tid h = elim (Option-cases (get room t.rooms)) [
  | inl n ↦ ground (arith, ==_iff room r, none_held t room tid n)
  | inr (m, q) ↦
      let p : Transfer → Bool = λ x. not (x.owner == owner) in
      let k : get tid (keep p m) ≡ only p (get tid m) =
        get-keep tid p m (subst IsMap (slots-some t room m q) h) in
      ground
        (arith, ==_iff room r, k, store_or_drop-slots t room r (keep p m), slots-some t room m q)
]
