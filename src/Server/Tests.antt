-- ===== src/Server/Tests.antt =====
-- The relay's stores at concrete inputs.
use netherchat.Base.{
  ℕ, ◌≡◌, ◌≢◌, ◌↔◌, ◌⊎◌, ◌≤◌, ◌<◌, ◌+◌, Any, Distinct, refl, inl, true, false, none, some, List, [],
  ◌∷◌, Text, codes, ◌==◌, length, arith,
}
use netherchat.Base.Int.{pos}
use netherchat.Base.Dict.{get, put, IsMap}
use netherchat.Server.Invite
use netherchat.Server.Invite.{generate_call, redeem_call, sweep_call}
use netherchat.Server.Invite.Once.{redeem_once, redeem_iff}
use netherchat.Server.Invite.Janitor.{answers, answers-without_sweeps}
use netherchat.Server.Memory
use netherchat.Server.Memory.Recent.{
  append_all, appended, recent, limited, capacity, history-append_all,
}
use netherchat.Server.Beacon
use netherchat.Server.Beacon.Latest.{lookup-run}
use netherchat.Server.Ephemeral
use netherchat.Server.Ephemeral.Lifetime.{IsPassed, create_named-ok, create_named-total, sweep_lem}
use netherchat.Server.Transfers
use netherchat.Server.Transfers.Bounded.{bound, run-IsBounded}
use netherchat.Server.Transfers.Started.{IsHeld, Count, IsRunning, try_start_iff}

abbrev ops : Text
ops = codes "ops"

abbrev tok : Text
tok = codes "tok"

abbrev invited : Invite.Store
invited = record { tokens = (tok, record { room = ops; expires = 50 }) ∷ [] }

redeem_iff_example : ((Invite.redeem invited 20 tok ops).1 ≡ true) ↔ (
    (e : Invite.Token) × (get tok invited.tokens ≡ some e)
    × (e.room ≡ ops)
    × ((e.expires ≡ 0) ⊎ (20 ≤ e.expires)))
redeem_iff_example = redeem_iff invited 20 tok ops

redeemed : (Invite.redeem invited 20 tok ops).1 ≡ true
unfolding Invite.redeem Invite.expired get ◌==◌
redeemed = refl

undrawn : codes "other" ≢ tok
undrawn e = cc e

redeem_once_example :
    (Invite.redeem
      (Invite.Once.run
        (Invite.redeem invited 20 tok ops).0
        (generate_call 21 (codes "other") ops (pos 5) ∷ sweep_call 30 ∷ []))
      31
      tok
      ops).1
    ≡ false
redeem_once_example =
    redeem_once invited 20 31 tok ops ops
      (generate_call 21 (codes "other") ops (pos 5) ∷ sweep_call 30 ∷ []) redeemed (undrawn, tt)

answers-without_sweeps_example :
    answers invited (sweep_call 60 ∷ redeem_call 61 tok ops ∷ [])
    ≡ answers invited (redeem_call 61 tok ops ∷ [])
unfolding get
answers-without_sweeps_example =
    answers-without_sweeps 0 invited (sweep_call 60 ∷ redeem_call 61 tok ops ∷ [])
      (omega arith, (omega arith, tt)) (refl, tt)

abbrev three : List (Text × Text)
three = (ops, codes "a") ∷ (ops, codes "b") ∷ (tok, codes "x") ∷ (ops, codes "c") ∷ []

history-append_all_example :
    Memory.history (append_all (Memory.new_memory (pos 2)) three) ops (pos 5)
    ≡ limited (pos 5) (recent (capacity (pos 2)) (appended ops three))
history-append_all_example = history-append_all (pos 2) (pos 5) ops three

lookup-run_example :
    (Beacon.lookup
      (Beacon.Latest.run Beacon.empty
        (Beacon.set_call 3 ops (codes "up") (pos 9) ∷ Beacon.purge_call 8 ∷ []))
      10
      ops).1
    ≡ Beacon.Latest.live 10 (
        Beacon.Latest.latest ops none
          (Beacon.set_call 3 ops (codes "up") (pos 9) ∷ Beacon.purge_call 8 ∷ []))
lookup-run_example =
    lookup-run 10 (Beacon.set_call 3 ops (codes "up") (pos 9) ∷ Beacon.purge_call 8 ∷ []) ops
      (omega arith)

abbrev war : Ephemeral.Room
war = Ephemeral.new_room 7 (pos 1) (codes "alice") (codes "war-01")

abbrev one_room : Ephemeral.Registry
one_room = record { rooms = (codes "war-01", war) ∷ [] }

created :
    Ephemeral.create_named Ephemeral.empty (codes "01" ∷ []) 7 (pos 1) (codes "alice") []
    ≡ some (one_room, war)
unfolding Ephemeral.create_named Ephemeral.draw_name get put
created = refl

create_named-ok_example :
    (Ephemeral.lookup Ephemeral.empty (codes "war-01") ≡ none)
    × (Ephemeral.lookup one_room (codes "war-01") ≡ some war)
    × ((other : Text)
        → other ≢ codes "war-01"
        → Ephemeral.lookup one_room other ≡ Ephemeral.lookup Ephemeral.empty other)
    × (7 + Ephemeral.min_ttl ≤ war.deadline)
    × (war.deadline ≤ 7 + Ephemeral.max_ttl)
create_named-ok_example =
    create_named-ok Ephemeral.empty one_room (codes "01" ∷ []) 7 (pos 1) (codes "alice") [] war
      created

not_taken : Ephemeral.lookup Ephemeral.empty (codes "war-01") ≡ none
unfolding get
not_taken = refl

create_named-total_example :
    (s : Ephemeral.Registry) × (room : Ephemeral.Room) × (Ephemeral.create_named Ephemeral.empty
        (codes "01" ∷ [])
        7
        (pos 1)
        (codes "alice")
        []
      ≡ some (s, room))
create_named-total_example =
    create_named-total Ephemeral.empty (codes "01" ∷ []) 7 (pos 1) (codes "alice") []
      (inl not_taken)

one_room-IsMap : IsMap one_room.rooms
unfolding get
one_room-IsMap = (refl, tt)

abbrev closed : Ephemeral.Registry × List Text
closed = Ephemeral.sweep one_room 99

sweep_lem_example :
    ((name : Text) (room : Ephemeral.Room)
      → (Ephemeral.lookup closed.0 name ≡ some room)
        ↔ ((Ephemeral.lookup one_room name ≡ some room) × (99 ≤ room.deadline)))
    × ((name : Text) → Any (λ n. n ≡ name) closed.1 ↔ IsPassed 99 one_room.rooms name)
    × Distinct closed.1
sweep_lem_example = sweep_lem one_room 99 one_room-IsMap

abbrev tracking : Transfers.Tracker
tracking = record {
  max = 1;
  rooms = (ops, (tok, record { owner = codes "bob"; started = 4 }) ∷ []) ∷ [];
}

run-IsBounded_example :
    IsMap (
      Transfers.slots
        (Transfers.run (Transfers.new_tracker (pos 1)) (Transfers.start_call 1 ops tok ops ∷ []))
        ops)
    × (length (
          Transfers.slots
            (Transfers.run
              (Transfers.new_tracker (pos 1))
              (Transfers.start_call 1 ops tok ops ∷ []))
            ops)
        ≤ bound (pos 1))
run-IsBounded_example = run-IsBounded (pos 1) (Transfers.start_call 1 ops tok ops ∷ []) ops

try_start_iff_example :
    (((Transfers.try_start tracking 9 ops tok tok).1 ≡ true) ↔ (
      IsHeld 9 tok (Transfers.slots tracking ops)
      ⊎ ((n : ℕ) × Count 9 (Transfers.slots tracking ops) n × (n < 1))))
    × ((Transfers.try_start tracking 9 ops tok tok).1 ≡ true
        → (x : Transfers.Transfer) × (get tok
              (Transfers.slots (Transfers.try_start tracking 9 ops tok tok).0 ops)
            ≡ some x)
          × IsRunning 9 x)
try_start_iff_example = try_start_iff tracking 9 ops tok tok
