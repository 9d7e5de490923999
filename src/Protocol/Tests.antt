-- ===== src/Protocol/Tests.antt =====
-- Signing bytes at concrete inputs.
use netherchat.Base.{◌≡◌, refl, [], ◌∷◌, codes, arith}
use netherchat.Base.Int.{pos}
use netherchat.Protocol.Statement.{Statement, entry_v2, IsSized}
use netherchat.Protocol.Injective.{bytes-injective}

abbrev note : Statement
note =
    entry_v2 3 (pos 100) (codes "alice") (codes "note") [] (codes "ship it") [] []
      ((codes "ab", codes "cites") ∷ []) (codes "prev")

note-IsSized : IsSized note
note-IsSized = omega arith

bytes-injective_example : note ≡ note
bytes-injective_example = bytes-injective note note note-IsSized note-IsSized refl
