-- ===== src/Server/Ephemeral/Lifetime.antt =====
-- A war room lives until its deadline, which is bounded.
use netherchat.Base.{
  ℕ, ◌+◌, ◌<◌, ◌≤◌, ◌≡◌, ◌≢◌, refl, ◌↔◌, inl, inr, not, none, some, List, [], ◌∷◌, Text, ◌==◌,
  ==_iff, ==_refl, ltb, All, Any, All-map, Distinct, ltb→lt, subst, Option-cases, Bool-cases, arith,
}
use netherchat.Base.Int.{ℤ, pos, negsuc}
use netherchat.Base.Dict.{Dict, get, put, get-put, IsMap}
use netherchat.Base.Keep.{get-keep, keep}
use netherchat.Server.Clock.{add}
use netherchat.Server.Ephemeral.{
  Room, Registry, min_ttl, max_ttl, clamp_ttl, draw_name, room_name, prefix_or_war, new_room,
  create_named, lookup, passed, sweep,
}

-- The deadline of a new room is between a minute and a week ahead, whatever was asked for.
deadline-le :
    (now : ℕ) (ttl : ℤ)
    → (now + min_ttl ≤ add now (clamp_ttl ttl)) × (add now (clamp_ttl ttl) ≤ now + max_ttl)
unfolding clamp_ttl
deadline-le now (pos n) = ground arith
deadline-le now (negsuc n) = ground arith

draw_name-free :
    (rooms : Dict Room) (prefix name : Text) (suffixes : List Text)
    → draw_name rooms prefix suffixes ≡ some name
    → get name rooms ≡ none
unfolding draw_name
draw_name-free rooms prefix name [] h = absurd (cc h)
draw_name-free rooms prefix name (x ∷ xs) h = elim (Option-cases (get (room_name prefix x) rooms)) [
  | inl n ↦ ground arith
  | inr (r, q) ↦ draw_name-free rooms prefix name xs (ground arith)
]

-- What CreateNamed returns is a room that was not there, is now, with every other room as it was,
-- and with a deadline between a minute and a week ahead, whatever time to live was asked for.
pub create_named-ok :
    (r s : Registry) (suffixes : List Text) (now : ℕ) (ttl : ℤ) (by prefix : Text) (room : Room)
    → create_named r suffixes now ttl by prefix ≡ some (s, room)
    → (lookup r room.name ≡ none)
      × (lookup s room.name ≡ some room)
      × ((other : Text) → other ≢ room.name → lookup s other ≡ lookup r other)
      × (now + min_ttl ≤ room.deadline)
      × (room.deadline ≤ now + max_ttl)
unfolding create_named
create_named-ok r s suffixes now ttl by prefix room h =
    elim (Option-cases (draw_name r.rooms (prefix_or_war prefix) suffixes)) [
      | inl n ↦ absurd (ground arith)
      | inr (name, q) ↦
          let e : (record r { rooms = put name (new_room now ttl by name) r.rooms } ≡ s)
              × (new_room now ttl by name ≡ room) =
            ground arith in
          (
            ground (arith, draw_name-free r.rooms (prefix_or_war prefix) name suffixes q),
            ground (arith, get-put name name (new_room now ttl by name) r.rooms, ==_refl name),
            (λ other n.
                ground (
                  arith,
                  get-put name other (new_room now ttl by name) r.rooms,
                  ==_iff name other,
                )),
            ground (arith, deadline-le now ttl),
            ground (arith, deadline-le now ttl),
          )
    ]

draw_name-some :
    (rooms : Dict Room) (prefix : Text) (suffixes : List Text)
    → Any (λ x. get (room_name prefix x) rooms ≡ none) suffixes
    → (name : Text) × (draw_name rooms prefix suffixes ≡ some name)
unfolding draw_name
draw_name-some rooms prefix [] h = absurd h
draw_name-some rooms prefix (x ∷ xs) h = elim (Option-cases (get (room_name prefix x) rooms)) [
  | inl n ↦ (room_name prefix x, ground arith)
  | inr (r, q) ↦ elim h [
    | inl n ↦ absurd (ground arith)
    | inr k ↦ let (name, e) = draw_name-some rooms prefix xs k in (name, ground arith)
  ]
]

-- CreateNamed returns once a suffix is drawn whose name is not taken.
pub create_named-total :
    (r : Registry) (suffixes : List Text) (now : ℕ) (ttl : ℤ) (by prefix : Text)
    → Any (λ x. lookup r (room_name (prefix_or_war prefix) x) ≡ none) suffixes
    → (s : Registry) × (room : Room) × (create_named r suffixes now ttl by prefix ≡ some (s, room))
unfolding create_named
create_named-total r suffixes now ttl by prefix h =
    let (name, e) = draw_name-some r.rooms (prefix_or_war prefix) suffixes h in
    (
      record r { rooms = put name (new_room now ttl by name) r.rooms },
      new_room now ttl by name,
      ground arith,
    )

-- The room has passed its deadline.
abbrev pub IsPassed : ℕ → Dict Room → Text → Type 0
IsPassed now m n = (room : Room) × (get n m ≡ some room) × (room.deadline < now)

IsPassed-under :
    (now : ℕ) (n j : Text) (v : Room) (m : Dict Room)
    → get j m ≡ none
    → IsPassed now m n
    → IsPassed now ((j, v) ∷ m) n
unfolding get
IsPassed-under now n j v m h (room, q, l) = (room, ground (arith, ==_iff j n), l)

passed_sound : (now : ℕ) (m : Dict Room) → IsMap m → All (IsPassed now m) (passed now m)
unfolding passed
passed_sound now [] h = tt
passed_sound now ((name, room) ∷ m) h =
    let rest : All (IsPassed now ((name, room) ∷ m)) (passed now m) =
      All-map (IsPassed now m) (IsPassed now ((name, room) ∷ m)) (passed now m)
        (λ n p. IsPassed-under now n name room m h.0 p) (passed_sound now m h.1) in
    elim (Bool-cases (ltb room.deadline now)) [
      | inl l ↦ rw l ((room, first, ltb→lt room.deadline now l), rest)
      | inr l ↦ rw l rest
    ]
  where
    first : get name ((name, room) ∷ m) ≡ some room
    first = unfold get in rw (==_refl name) refl

passed_complete :
    (now : ℕ) (m : Dict Room) (name : Text)
    → IsPassed now m name
    → Any (λ n. n ≡ name) (passed now m)
unfolding passed get
passed_complete now [] name (room, q, l) = absurd (cc q)
passed_complete now ((j, v) ∷ m) name (room, q, l) = elim (Bool-cases (j == name)) [
  | inl e ↦ ground (arith, ==_iff j name)
  | inr e ↦ ground (arith, passed_complete now m name (room, ground arith, l))
]

passed-Distinct : (now : ℕ) (m : Dict Room) → IsMap m → Distinct (passed now m)
unfolding passed
passed-Distinct now [] h = tt
passed-Distinct now ((name, room) ∷ m) h =
    let k : All (λ n. n ≢ name) (passed now m) =
      All-map (IsPassed now m) (λ n. n ≢ name) (passed now m)
        (λ n (r, q, l) e. absurd (ground (arith, h.0))) (passed_sound now m h.1) in
    ground (arith, k, passed-Distinct now m h.1)

-- In a registry that holds a map, a sweep leaves exactly the rooms whose deadline has not passed,
-- and closes every other one once: the names that onExpire is called with are distinct and are
-- those of the rooms whose deadline has passed.
pub sweep_lem :
    (r : Registry) (now : ℕ)
    → IsMap r.rooms
    → ((name : Text) (room : Room)
        → (lookup (sweep r now).0 name ≡ some room)
          ↔ ((lookup r name ≡ some room) × (now ≤ room.deadline)))
      × ((name : Text) → Any (λ n. n ≡ name) (sweep r now).1 ↔ IsPassed now r.rooms name)
      × Distinct (sweep r now).1
unfolding sweep
sweep_lem r now h = (
  (λ name room. stays name room),
  (λ name. (
    (λ a. found name (passed now r.rooms) (passed_sound now r.rooms h) a),
    passed_complete now r.rooms name,
  )),
  passed-Distinct now r.rooms h,
)
  where
    stays :
        (name : Text) (room : Room)
        → (get name (keep (λ (x : Room). not (ltb x.deadline now)) r.rooms) ≡ some room)
          ↔ ((get name r.rooms ≡ some room) × (now ≤ room.deadline))
    stays name room =
        let g = get-keep name (λ (x : Room). not (ltb x.deadline now)) r.rooms h in
        elim (Option-cases (get name r.rooms)) [
          | inl n ↦ ground (arith, g)
          | inr (x, q) ↦ ground (arith, g)
        ]

    found :
        (name : Text) (ns : List Text)
        → All (IsPassed now r.rooms) ns
        → Any (λ n. n ≡ name) ns
        → IsPassed now r.rooms name
    found name [] p a = absurd a
    found name (n ∷ ns) p (inl e) = subst (IsPassed now r.rooms) e p.0
    found name (n ∷ ns) p (inr a) = found name ns p.1 a
