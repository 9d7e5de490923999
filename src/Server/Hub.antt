-- ===== src/Server/Hub.antt =====
-- server/internal/hub: rooms and their members. What a member is sent and that a connection is
-- closed are events, in the order of the calls; an envelope is opaque. The callback onClose is the
-- event `room_closed`. The idle time to live of a room is an argument, in nanoseconds.
pub mod Rooms
pub mod Joining
mod Tests
use netherchat.Base.{
  ℕ, ◌+◌, Bool, true, false, not, ◌&&◌, Option, none, some, List, [], ◌∷◌, ◌++◌, Text, ◌==◌, eqb,
  ltb, length, if◌then◌else◌,
}
use netherchat.Base.Int.{ℤ, pos, negsuc, ltb_ℤ}
use netherchat.Base.Dict.{Dict, get, put, delete}

-- The identity of a member, and whether its two callbacks are set.
pub record Member : Type 0 where
  pub id : Text
  pub name : Text
  pub has_send : Bool
  pub has_close : Bool

pub record Room : Type 0 where
  pub members : Dict Member
  pub order : List Text
  pub last_activity : ℕ

pub record Hub : Type 0 where
  pub rooms : Dict Room

pub data Event : Type 0 where
  sent : Text → Text → Event
  closed : Text → Event
  room_closed : Text → Event

pub record JoinResult : Type 0 where
  pub existing : List Member
  pub you_are_first : Bool
  pub distributor : Option Member

abbrev pub no_room : Room
no_room = record { members = []; order = []; last_activity = 0 }

abbrev pub room_of : Hub → Text → Room
room_of h name = elim (get name h.rooms) [ none ↦ no_room | some r ↦ r ]

-- The loop of Join: the members of a list of ids.
unfoldable pub present : List Text → Dict Member → List Member
present [] m = []
present (id ∷ ids) m =
    let rest = present ids m in elim (get id m) [ none ↦ rest | some em ↦ em ∷ rest ]

abbrev pub first_of : List Member → Option Member
first_of [] = none
first_of (m ∷ ms) = some m

abbrev pub with_member : Room → ℕ → Member → Room
with_member r now m = record r {
  members = put m.id m r.members;
  order = r.order ++ m.id ∷ [];
  last_activity = now;
}

-- Join
unfoldable pub join : Hub → ℕ → Text → Member → Hub × JoinResult
join h now name m = (
  record h { rooms = put name (with_member (room_of h name) now m) h.rooms },
  record {
    existing = present (room_of h name).order (room_of h name).members;
    you_are_first = eqb (length (room_of h name).members) 0;
    distributor = first_of (present (room_of h name).order (room_of h name).members);
  },
)

-- The loop of removeLocked: the first occurrence goes.
unfoldable pub remove_first : Text → List Text → List Text
remove_first id [] = []
remove_first id (x ∷ xs) = let rest = remove_first id xs in if x == id then xs else x ∷ rest

abbrev pub without_member : Room → Text → Room
without_member r id = record r { members = delete id r.members; order = remove_first id r.order }

-- Leave and removeLocked
unfoldable pub leave : Hub → Text → Text → Hub × Bool
leave h name id = elim (get name h.rooms) [
  | none ↦ (h, true)
  | some r ↦
      if eqb (length (delete id r.members)) 0
      then (record h { rooms = delete name h.rooms }, true)
      else (record h { rooms = put name (without_member r id) h.rooms }, false)
]

-- closeMembers
unfoldable pub close_members : Dict Member → Text → List Event
close_members [] reason = []
close_members ((id, m) ∷ ms) reason =
    (if m.has_send then sent id reason ∷ [] else [])
    ++ (if m.has_close then closed id ∷ [] else [])
    ++ close_members ms reason

-- ExpireRoom
unfoldable pub expire_room : Hub → Text → Text → Hub × List Event
expire_room h name reason = elim (get name h.rooms) [
  | none ↦ (h, [])
  | some r ↦ (
    record h { rooms = delete name h.rooms },
    close_members r.members reason ++ room_closed name ∷ [],
  )
]

-- IsEmpty
unfoldable pub room_is_empty : Hub → Text → Bool
room_is_empty h name = elim (get name h.rooms) [ none ↦ true | some r ↦ eqb (length r.members) 0 ]

-- LastActivity
unfoldable pub last_activity : Hub → Text → Option ℕ
last_activity h name = elim (get name h.rooms) [ none ↦ none | some r ↦ some r.last_activity ]

unfoldable pub notify_all : Dict Member → Text → List Event
notify_all [] notice = []
notify_all ((id, m) ∷ ms) notice =
    (if m.has_send then sent id notice ∷ [] else []) ++ notify_all ms notice

-- Scuttle up to its timer, which calls ExpireRoom after the grace; the result says whether it was set
unfoldable pub scuttle : Hub → Text → Text → List Event × Bool
scuttle h name notice = elim (get name h.rooms) [
  | none ↦ ([], false)
  | some r ↦ (notify_all r.members notice, true)
]

-- Touch
unfoldable pub touch : Hub → ℕ → Text → Hub
touch h now name = elim (get name h.rooms) [
  | none ↦ h
  | some r ↦ record h { rooms = put name (record r { last_activity = now }) h.rooms }
]

-- recipients
unfoldable pub others : Text → Dict Member → List Text
others except [] = []
others except ((id, m) ∷ ms) =
    let rest = others except ms in if id == except then rest else id ∷ rest

unfoldable pub recipients : Hub → Text → Text → List Text
recipients h name except = elim (get name h.rooms) [ none ↦ [] | some r ↦ others except r.members ]

abbrev pub deliver : Text → List Text → List Event
deliver env [] = []
deliver env (id ∷ ids) = sent id env ∷ deliver env ids

-- Broadcast
unfoldable pub broadcast : Hub → Text → Text → Text → List Event
broadcast h name except env = deliver env (recipients h name except)

-- SendTo
unfoldable pub send_to : Hub → Text → Text → Text → List Event × Bool
send_to h name to env = elim (get to (room_of h name).members) [
  | none ↦ ([], false)
  | some m ↦ if not m.has_send then ([], false) else (sent to env ∷ [], true)
]

abbrev pub idle : ℕ → ℤ → Room → Bool
idle now (pos ttl) r = ltb 0 ttl && ltb (r.last_activity + ttl) now
idle now (negsuc ttl) r = false

-- The loop of expireIdleRooms: the rooms that stay, and the victims.
unfoldable pub split_idle : ℕ → (Text → ℤ) → Dict Room → Dict Room × List (Text × Dict Member)
split_idle now ttl [] = ([], [])
split_idle now ttl ((name, r) ∷ m) =
    let rest = split_idle now ttl m in
    if idle now (ttl name) r
    then (rest.0, (name, r.members) ∷ rest.1)
    else ((name, r) ∷ rest.0, rest.1)

unfoldable pub close_all : Text → List (Text × Dict Member) → List Event
close_all reason [] = []
close_all reason ((name, ms) ∷ vs) =
    close_members ms reason ++ room_closed name ∷ close_all reason vs

-- expireIdleRooms
unfoldable pub expire_idle_rooms : Hub → ℕ → (Text → ℤ) → Text → Hub × List Event
expire_idle_rooms h now ttl reason = (
  record h { rooms = (split_idle now ttl h.rooms).0 },
  close_all reason (split_idle now ttl h.rooms).1,
)
