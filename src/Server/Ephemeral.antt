-- ===== src/Server/Ephemeral.antt =====
-- server/internal/ephemeral: war rooms with a hard deadline. The suffixes that crypto/rand draws
-- are a list; the loop over them ends with `none` where the list does.
pub mod Lifetime
use netherchat.Base.{
  ℕ, ◌*◌, Bool, not, Option, none, some, List, [], ◌∷◌, ◌++◌, Text, codes, is_empty, ltb,
  if◌then◌else◌,
}
use netherchat.Base.Int.{ℤ, pos, negsuc, ltb_ℤ}
use netherchat.Base.Dict.{Dict, get, put}
use netherchat.Base.Keep.{keep}
use netherchat.Server.Clock.{add}

-- A minute and a week, in nanoseconds
abbrev pub min_ttl : ℕ
min_ttl = 60 * 1000000000

abbrev pub max_ttl : ℕ
max_ttl = 7 * 24 * 3600 * 1000000000

pub record Room : Type 0 where
  pub name : Text
  pub created_by : Text
  pub created : ℕ
  pub deadline : ℕ
  pub notice : Text

pub record Registry : Type 0 where
  pub rooms : Dict Room

-- New
abbrev pub empty : Registry
empty = record { rooms = [] }

-- ClampTTL
unfoldable pub clamp_ttl : ℤ → ℤ
clamp_ttl d =
    if ltb_ℤ d (pos min_ttl) then pos min_ttl else if ltb_ℤ (pos max_ttl) d then pos max_ttl else d

-- newRoomName
abbrev pub room_name : Text → Text → Text
room_name prefix suffix = prefix ++ codes "-" ++ suffix

-- The loop that draws a name that is not taken.
unfoldable pub draw_name : Dict Room → Text → List Text → Option Text
draw_name rooms prefix [] = none
draw_name rooms prefix (suffix ∷ suffixes) =
    let rest = draw_name rooms prefix suffixes in
    elim (get (room_name prefix suffix) rooms) [
      | some _ ↦ rest
      | none ↦ some (room_name prefix suffix)
    ]

abbrev pub prefix_or_war : Text → Text
prefix_or_war prefix = if is_empty prefix then codes "war" else prefix

abbrev pub new_room : ℕ → ℤ → Text → Text → Room
new_room now ttl by name = record {
  name = name;
  created_by = by;
  created = now;
  deadline = add now (clamp_ttl ttl);
  notice = [];
}

-- CreateNamed
unfoldable pub create_named : Registry → List Text → ℕ → ℤ → Text → Text → Option (Registry × Room)
create_named r suffixes now ttl by prefix =
    elim (draw_name r.rooms (prefix_or_war prefix) suffixes) [
      | none ↦ none
      | some name ↦ some (
        record r { rooms = put name (new_room now ttl by name) r.rooms },
        new_room now ttl by name,
      )
    ]

-- Create
unfoldable pub create : Registry → List Text → ℕ → ℤ → Text → Option (Registry × Room)
create r suffixes now ttl by = create_named r suffixes now ttl by (codes "war")

-- The second critical section of CreateNamedNotice.
abbrev add_notice : Registry → Room → Text → Registry × Room
add_notice r room notice = elim (get room.name r.rooms) [
  | none ↦ (r, room)
  | some cur ↦ (
    record r { rooms = put room.name (record cur { notice = notice }) r.rooms },
    record cur { notice = notice },
  )
]

-- CreateNamedNotice, where no other call comes between its two critical sections
unfoldable pub create_named_notice :
    Registry → List Text → ℕ → ℤ → Text → Text → Text → Option (Registry × Room)
create_named_notice r suffixes now ttl by prefix notice =
    elim (create_named r suffixes now ttl by prefix) [
      | none ↦ none
      | some x ↦ some (if not (is_empty notice) then add_notice x.0 x.1 notice else x)
    ]

-- Get
abbrev pub lookup : Registry → Text → Option Room
lookup r name = get name r.rooms

-- The names that sweep collects for onExpire.
unfoldable pub passed : ℕ → Dict Room → List Text
passed now [] = []
passed now ((name, room) ∷ m) =
    let rest = passed now m in if ltb room.deadline now then name ∷ rest else rest

-- sweep: the registry, and the rooms that onExpire is called with
unfoldable pub sweep : Registry → ℕ → Registry × List Text
sweep r now =
    (record r { rooms = keep (λ room. not (ltb room.deadline now)) r.rooms }, passed now r.rooms)
