-- ===== src/Server/Hub/Joining.antt =====
-- A run of joins, departures and expiries, and what a joiner is told.
use netherchat.Base.{
  ℕ, ◌≡◌, refl, subst, ◌↔◌, inl, inr, true, false, ap, none, some, List, [], ◌∷◌, Text, ==_refl,
  eqb, length, Any, Option-cases, Bool-cases, arith,
}
use netherchat.Base.Dict.{Dict, get, delete}
use netherchat.Server.Hub.{Member, Room, Hub, room_of, present, first_of, join, leave, expire_room}
use netherchat.Server.Hub.Rooms.{
  IsRoom, IsHub, room_of-IsRoom, join-IsHub, leave-IsHub, delete-IsHub,
}

pub data Call : Type 0 where
  join_call : ℕ → Text → Member → Call
  leave_call : Text → Text → Call
  expire_call : Text → Text → Call

abbrev pub step : Hub → Call → Hub
step h (join_call now name m) = (join h now name m).0
step h (leave_call name id) = (leave h name id).0
step h (expire_call name reason) = (expire_room h name reason).0

abbrev pub run : Hub → List Call → Hub
run h [] = h
run h (c ∷ cs) = run (step h c) cs

-- Each join brings an id that is not in the room.
abbrev pub IsNew : Hub → List Call → Type 0
IsNew h [] = Unit
IsNew h (join_call now name m ∷ cs) =
    (get m.id (room_of h name).members ≡ none) × IsNew (step h (join_call now name m)) cs
IsNew h (leave_call name id ∷ cs) = IsNew (step h (leave_call name id)) cs
IsNew h (expire_call name reason ∷ cs) = IsNew (step h (expire_call name reason)) cs

expire_room-IsHub : (h : Hub) (name reason : Text) → IsHub h → IsHub (expire_room h name reason).0
unfolding expire_room
expire_room-IsHub h name reason i = elim (Option-cases (get name h.rooms)) [
  | inl n ↦ let e : h ≡ (expire_room h name reason).0 = ground arith in subst IsHub e i
  | inr (r, q) ↦
      let e : record h { rooms = delete name h.rooms } ≡ (expire_room h name reason).0 =
        ground arith in
      subst IsHub e (delete-IsHub h name i)
]

run_from : (h : Hub) (cs : List Call) → IsNew h cs → IsHub h → IsHub (run h cs)
run_from h [] n i = i
run_from h (join_call now name m ∷ cs) n i =
    run_from (step h (join_call now name m)) cs n.1 (join-IsHub h now name m i n.0)
run_from h (leave_call name id ∷ cs) n i =
    run_from (step h (leave_call name id)) cs n (leave-IsHub h name id i)
run_from h (expire_call name reason ∷ cs) n i =
    run_from (step h (expire_call name reason)) cs n (expire_room-IsHub h name reason i)

abbrev pub empty : Hub
empty = record { rooms = [] }

-- From an empty hub, after any joins by ids that are not in the room, departures and expiries, every
-- room lists its members once each in its join order, and no empty room stays.
pub run-IsHub : (cs : List Call) → IsNew empty cs → IsHub (run empty cs)
unfolding get
run-IsHub cs n = run_from empty cs n (λ name r e. absurd (cc e))

present_none :
    (ids : List Text) (ms : Dict Member)
    → ((id : Text) → Any (λ x. x ≡ id) ids → (m : Member) × (get id ms ≡ some m))
    → present ids ms ≡ []
    → ids ≡ []
unfolding present
present_none [] ms h e = refl
present_none (x ∷ xs) ms h e = let (m, q) = h x (inl refl) in absurd (ground arith)

nil : (ms : Dict Member) → eqb (length ms) 0 ≡ true → ms ≡ []
nil [] q = refl
nil (x ∷ ms) q = absurd (ground arith)

no_members : (r : Room) → IsRoom r → r.order ≡ [] → r.members ≡ []
unfolding get
no_members r h e = elim (Bool-cases (eqb (length r.members) 0)) [
  | inl z ↦ nil r.members z
  | inr z ↦
      absurd (some_listed r.members (λ id a. subst (Any (λ x. x ≡ id)) e ((h.listed id).1 a)) z)
]
  where
    some_listed :
        (ms : Dict Member)
        → ((id : Text) → (m : Member) × (get id ms ≡ some m) → Any (λ x. x ≡ id) [])
        → eqb (length ms) 0 ≡ false
        → ⊥
    some_listed [] f q = ground arith
    some_listed ((k, v) ∷ ms) f q = f k (v, ground (arith, ==_refl k))

no_order : (r : Room) → IsRoom r → r.members ≡ [] → r.order ≡ []
unfolding get
no_order r h e = none_in r.order (λ id a. let (m, q) = (h.listed id).0 a in absurd (cc (e, q)))
  where
    none_in : (ids : List Text) → ((id : Text) → Any (λ x. x ≡ id) ids → ⊥) → ids ≡ []
    none_in [] f = refl
    none_in (x ∷ xs) f = absurd (f x (inl refl))

first_none : (ms : List Member) → first_of ms ≡ none → ms ≡ []
first_none [] e = refl
first_none (m ∷ ms) e = absurd (cc e)

first_iff :
    (r : Room)
    → IsRoom r
    → (eqb (length r.members) 0 ≡ true) ↔ (first_of (present r.order r.members) ≡ none)
unfolding present
first_iff r k = (
  (λ z. let o = no_order r k (nil r.members z) in ap (λ ids. first_of (present ids r.members)) o),
  (λ z.
      let o =
        present_none r.order r.members (λ id. (k.listed id).0)
          (first_none (present r.order r.members) z) in
      ap (λ (ms : Dict Member). eqb (length ms) 0) (no_members r k o)),
)

-- In a well-formed hub a joiner is told to be the first exactly if nobody is there to give them the
-- room key.
pub join_iff :
    (h : Hub) (now : ℕ) (name : Text) (m : Member)
    → IsHub h
    → ((join h now name m).1.you_are_first ≡ true) ↔ ((join h now name m).1.distributor ≡ none)
unfolding join
join_iff h now name m i = first_iff (room_of h name) (room_of-IsRoom h name i)
