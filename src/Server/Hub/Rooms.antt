-- ===== src/Server/Hub/Rooms.antt =====
-- What holds of every room of a hub.
use netherchat.Base.{
  ℕ, ◌≡◌, ◌≢◌, sym, ◌∙◌, subst, ◌⊎◌, ◌↔◌, inl, inr, none, some, List, [], ◌∷◌, ◌++◌, Text, ◌==◌,
  ==_iff, eqb, length, All, Any, All-append, Distinct, Option-cases, Bool-cases, arith,
}
use netherchat.Base.Dict.{
  Dict, get, put, delete, get-put, get-delete, IsMap, put-IsMap, delete-IsMap,
}
use netherchat.Server.Hub.{
  Member, Room, Hub, no_room, room_of, with_member, join, remove_first, without_member, leave,
}

-- The join order lists the members once each.
pub record IsRoom (r : Room) : Type 0 where
  pub is_map : IsMap r.members
  pub distinct : Distinct r.order
  pub listed :
      (id : Text) → Any (λ x. x ≡ id) r.order ↔ ((m : Member) × (get id r.members ≡ some m))

no_room-IsRoom : IsRoom no_room
unfolding get
no_room-IsRoom = record {
  is_map = tt;
  distinct = tt;
  listed = λ id. ((λ a. absurd a), (λ (m, e). absurd (cc e)));
}

Any-append-left :
    (id : Text) (xs ys : List Text) → Any (λ x. x ≡ id) xs → Any (λ x. x ≡ id) (xs ++ ys)
Any-append-left id [] ys a = absurd a
Any-append-left id (x ∷ xs) ys (inl e) = inl e
Any-append-left id (x ∷ xs) ys (inr a) = inr (Any-append-left id xs ys a)

Any-append-right :
    (id : Text) (xs ys : List Text) → Any (λ x. x ≡ id) ys → Any (λ x. x ≡ id) (xs ++ ys)
Any-append-right id [] ys a = a
Any-append-right id (x ∷ xs) ys a = inr (Any-append-right id xs ys a)

Any-append-cases :
    (id : Text) (xs ys : List Text)
    → Any (λ x. x ≡ id) (xs ++ ys)
    → Any (λ x. x ≡ id) xs ⊎ Any (λ x. x ≡ id) ys
Any-append-cases id [] ys a = inr a
Any-append-cases id (x ∷ xs) ys (inl e) = inl (inl e)
Any-append-cases id (x ∷ xs) ys (inr a) = elim (Any-append-cases id xs ys a) [
  | inl b ↦ inl (inr b)
  | inr b ↦ inr b
]

All-absent : (id : Text) (xs : List Text) → ¬ Any (λ x. x ≡ id) xs → All (λ x. x ≢ id) xs
All-absent id [] n = tt
All-absent id (x ∷ xs) n = ((λ e. n (inl e)), All-absent id xs (λ a. n (inr a)))

Distinct-snoc :
    (id : Text) (xs : List Text) → Distinct xs → All (λ x. x ≢ id) xs → Distinct (xs ++ id ∷ [])
Distinct-snoc id [] d a = (tt, tt)
Distinct-snoc id (x ∷ xs) d a =
    (All-append (λ y. y ≢ x) xs (id ∷ []) d.0 ((λ e. a.0 (sym e)), tt), Distinct-snoc id xs d.1 a.1)

with_member-IsRoom :
    (r : Room) (now : ℕ) (m : Member)
    → IsRoom r
    → get m.id r.members ≡ none
    → IsRoom (with_member r now m)
with_member-IsRoom r now m h n = record {
  is_map = put-IsMap m.id m r.members h.is_map;
  distinct =
      Distinct-snoc m.id r.order h.distinct
        (All-absent m.id r.order (λ a. let (x, e) = (h.listed m.id).0 a in ground arith));
  listed = λ id. (forth id, back id);
}
  where
    forth :
        (id : Text)
        → Any (λ x. x ≡ id) (r.order ++ m.id ∷ [])
        → (x : Member) × (get id (put m.id m r.members) ≡ some x)
    forth id a = elim (Any-append-cases id r.order (m.id ∷ []) a) [
      | inl b ↦
          let (x, e) = (h.listed id).0 b in
          (x, ground (arith, get-put m.id id m r.members, ==_iff m.id id))
      | inr (inl e) ↦ (m, ground (arith, get-put m.id id m r.members, ==_iff m.id id))
      | inr (inr b) ↦ absurd b
    ]

    back :
        (id : Text)
        → (x : Member) × (get id (put m.id m r.members) ≡ some x)
        → Any (λ x. x ≡ id) (r.order ++ m.id ∷ [])
    back id (x, e) = elim (Bool-cases (m.id == id)) [
      | inl y ↦ Any-append-right id r.order (m.id ∷ []) (inl ((==_iff m.id id).0 y))
      | inr y ↦
          Any-append-left id r.order (m.id ∷ [])
            ((h.listed id).1 (x, ground (arith, get-put m.id id m r.members)))
    ]

remove_first-All :
    (P : Text → Type 0) (id : Text) (xs : List Text) → All P xs → All P (remove_first id xs)
unfolding remove_first
remove_first-All P id [] h = tt
remove_first-All P id (x ∷ xs) h = ground (arith, remove_first-All P id xs h.1)

remove_first-Distinct : (id : Text) (xs : List Text) → Distinct xs → Distinct (remove_first id xs)
unfolding remove_first
remove_first-Distinct id [] h = tt
remove_first-Distinct id (x ∷ xs) h =
    ground (arith, remove_first-Distinct id xs h.1, remove_first-All (λ y. y ≢ x) id xs h.0)

absent : (id j : Text) (xs : List Text) → All (λ y. y ≢ id) xs → Any (λ y. y ≡ j) xs → j ≢ id
absent id j [] h a = absurd a
absent id j (x ∷ xs) h (inl e) = λ p. h.0 (e ∙ p)
absent id j (x ∷ xs) h (inr a) = absent id j xs h.1 a

-- Of a list without repetitions, exactly the id goes.
remove_first-Any :
    (id j : Text) (xs : List Text)
    → Distinct xs
    → Any (λ y. y ≡ j) (remove_first id xs) ↔ (Any (λ y. y ≡ j) xs × (j ≢ id))
unfolding remove_first
remove_first-Any id j [] h = ((λ a. absurd a), (λ a. absurd a.0))
remove_first-Any id j (x ∷ xs) h = elim (Bool-cases (x == id)) [
  | inl e ↦
      let q : x ≡ id = (==_iff x id).0 e in
      rw e (
        (λ a. (inr a, absent id j xs (subst (λ k. All (λ y. y ≢ k) xs) q h.0) a)),
        (λ (a, n). elim a [ inl p ↦ absurd (n (sym p ∙ q)) | inr b ↦ b ]),
      )
  | inr e ↦
      let n : x ≢ id = λ p. ground (arith, ==_iff x id) in
      let k = remove_first-Any id j xs h.1 in
      rw e (
        (λ a. elim a [ inl p ↦ (inl p, (λ q. n (p ∙ q))) | inr b ↦ (inr (k.0 b).0, (k.0 b).1) ]),
        (λ (a, m). elim a [ inl p ↦ inl p | inr b ↦ inr (k.1 (b, m)) ]),
      )
]

without_member-IsRoom : (r : Room) (id : Text) → IsRoom r → IsRoom (without_member r id)
without_member-IsRoom r id h = record {
  is_map = delete-IsMap id r.members h.is_map;
  distinct = remove_first-Distinct id r.order h.distinct;
  listed = λ j. (forth j, back j);
}
  where
    forth :
        (j : Text)
        → Any (λ y. y ≡ j) (remove_first id r.order)
        → (m : Member) × (get j (delete id r.members) ≡ some m)
    forth j a =
        let (b, n) = (remove_first-Any id j r.order h.distinct).0 a in
        let (m, e) = (h.listed j).0 b in (m, ground (arith, get-delete id j r.members, ==_iff id j))

    back :
        (j : Text)
        → (m : Member) × (get j (delete id r.members) ≡ some m)
        → Any (λ y. y ≡ j) (remove_first id r.order)
    back j (m, e) = (remove_first-Any id j r.order h.distinct).1 (
      (h.listed j).1 (m, ground (arith, get-delete id j r.members)),
      (λ p. ground (arith, get-delete id j r.members, ==_iff id j)),
    )

-- Every room of the hub is well formed and has a member.
abbrev pub IsHub : Hub → Type 0
IsHub h = (name : Text) (r : Room) → get name h.rooms ≡ some r → IsRoom r × (length r.members ≢ 0)

pub room_of-IsRoom : (h : Hub) (name : Text) → IsHub h → IsRoom (room_of h name)
room_of-IsRoom h name i = elim (Option-cases (get name h.rooms)) [
  | inl n ↦ let e : no_room ≡ room_of h name = ground arith in subst IsRoom e no_room-IsRoom
  | inr (r, q) ↦ let e : r ≡ room_of h name = ground arith in subst IsRoom e (i name r q).0
]

pub put-IsHub :
    (h : Hub) (name : Text) (r : Room)
    → IsHub h
    → IsRoom r
    → length r.members ≢ 0
    → IsHub (record h { rooms = put name r h.rooms })
put-IsHub h name r i k n j x e = elim (Bool-cases (name == j)) [
  | inl y ↦
      let q : r ≡ x = ground (arith, get-put name j r h.rooms) in
      subst (λ z. IsRoom z × (length z.members ≢ 0)) q (k, n)
  | inr y ↦ i j x (ground (arith, get-put name j r h.rooms))
]

pub delete-IsHub :
    (h : Hub) (name : Text) → IsHub h → IsHub (record h { rooms = delete name h.rooms })
delete-IsHub h name i j x e = i j x (ground (arith, get-delete name j h.rooms))

put_not_empty : (id : Text) (m : Member) (ms : Dict Member) → length (put id m ms) ≢ 0
unfolding put
put_not_empty id m [] = omega arith
put_not_empty id m ((j, x) ∷ ms) = ground arith

-- A join by an id that is not in the room keeps every room well formed.
pub join-IsHub :
    (h : Hub) (now : ℕ) (name : Text) (m : Member)
    → IsHub h
    → get m.id (room_of h name).members ≡ none
    → IsHub (join h now name m).0
unfolding join
join-IsHub h now name m i n =
    put-IsHub h name (with_member (room_of h name) now m) i
      (with_member-IsRoom (room_of h name) now m (room_of-IsRoom h name i) n)
      (put_not_empty m.id m (room_of h name).members)

-- A member who leaves keeps every room well formed, and no empty room stays.
pub leave-IsHub : (h : Hub) (name id : Text) → IsHub h → IsHub (leave h name id).0
unfolding leave
leave-IsHub h name id i = elim (Option-cases (get name h.rooms)) [
  | inl n ↦ let e : h ≡ (leave h name id).0 = ground arith in subst IsHub e i
  | inr (r, q) ↦ elim (Bool-cases (eqb (length (delete id r.members)) 0)) [
    | inl z ↦
        let e : record h { rooms = delete name h.rooms } ≡ (leave h name id).0 = ground arith in
        subst IsHub e (delete-IsHub h name i)
    | inr z ↦
        let e : record h { rooms = put name (without_member r id) h.rooms } ≡ (leave h name id).0 =
          ground arith in
        subst IsHub e (
          put-IsHub h name (without_member r id) i (without_member-IsRoom r id (i name r q).0)
            (λ k. ground arith))
  ]
]
