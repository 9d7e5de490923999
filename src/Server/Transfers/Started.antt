-- ===== src/Server/Transfers/Started.antt =====
-- When tryStart lets a transfer start, and what it leaves in the rooms.
use netherchat.Base.{
  ℕ, suc, ◌+◌, ◌<◌, ◌≤◌, ◌≡◌, ◌≢◌, refl, subst, ap, ◌⊎◌, ◌↔◌, inl, inr, true, false, none, some, [],
  ◌∷◌, Text, ◌==◌, ==_iff, ==_refl, leb, length, Any, Option-cases, Bool-cases, arith,
}
use netherchat.Base.Dict.{Dict, get, put, get-put}
use netherchat.Base.Keep.{keep}
use netherchat.Server.Transfers.{Transfer, Tracker, slots, stale, sweep, store, try_start}
use netherchat.Server.Transfers.Bounded.{store-slots}

-- The transfer started at most five minutes ago.
abbrev pub IsRunning : ℕ → Transfer → Type 0
IsRunning now x = now ≤ x.started + 300000000000

-- How many transfers are running.
pub data Count : ℕ → Dict Transfer → ℕ → Type 0 where
  nothing : {now : ℕ} → Count now [] 0
  running :
      {now n : ℕ} {k : Text} {x : Transfer} {m : Dict Transfer}
      → IsRunning now x
      → Count now m n
      → Count now ((k, x) ∷ m) (suc n)
  over :
      {now n : ℕ} {k : Text} {x : Transfer} {m : Dict Transfer}
      → (IsRunning now x → ⊥)
      → Count now m n
      → Count now ((k, x) ∷ m) n

sweep-Count : (now : ℕ) (m : Dict Transfer) → Count now m (length (sweep now m))
unfolding keep
sweep-Count now [] = nothing
sweep-Count now ((k, x) ∷ m) = elim (Bool-cases (stale now x)) [
  | inl s ↦ rw s (over (λ r. ground arith) (sweep-Count now m))
  | inr s ↦ rw s (running (ground arith) (sweep-Count now m))
]

Count-unique : {now n k : ℕ} {m : Dict Transfer} → Count now m n → Count now m k → n ≡ k
Count-unique nothing nothing = refl
Count-unique (running r c) (running s d) = ap suc (Count-unique c d)
Count-unique (running r c) (over s d) = absurd (s r)
Count-unique (over r c) (running s d) = absurd (r s)
Count-unique (over r c) (over s d) = Count-unique c d

-- The id names a running transfer.
abbrev pub IsHeld : ℕ → Text → Dict Transfer → Type 0
IsHeld now tid m = Any (λ (k, x). (k ≡ tid) × IsRunning now x) m

held :
    (now : ℕ) (tid : Text) (m : Dict Transfer) (x : Transfer)
    → get tid (sweep now m) ≡ some x
    → IsHeld now tid m × IsRunning now x
unfolding keep get
held now tid [] x h = absurd (cc h)
held now tid ((k, y) ∷ m) x h = elim (Bool-cases (stale now y)) [
  | inl s ↦ let (a, b) = held now tid m x (ground arith) in (inr a, b)
  | inr s ↦ elim (Bool-cases (k == tid)) [
    | inl e ↦
        let q : y ≡ x = ground arith in
        let r : IsRunning now y = ground arith in
        (inl ((==_iff k tid).0 e, r), subst (IsRunning now) q r)
    | inr n ↦ let (a, b) = held now tid m x (ground arith) in (inr a, b)
  ]
]

get-held :
    (now : ℕ) (tid : Text) (m : Dict Transfer) → IsHeld now tid m → get tid (sweep now m) ≢ none
unfolding keep get
get-held now tid [] h n = absurd h
get-held now tid ((k, y) ∷ m) (inl (e, r)) n = ground (arith, (==_iff k tid).1 e)
get-held now tid ((k, y) ∷ m) (inr h) n = elim (Bool-cases (stale now y)) [
  | inl s ↦ get-held now tid m h (ground arith)
  | inr s ↦ elim (Bool-cases (k == tid)) [
    | inl e ↦ absurd (ground arith)
    | inr d ↦ get-held now tid m h (ground arith)
  ]
]

abbrev entered : ℕ → Text → Transfer
entered now owner = record { owner = owner; started = now }

-- What tryStart does, by the transfers of the room that are left after the sweep.
data Outcome (t : Tracker) (now : ℕ) (room tid owner : Text) : Type 0 where
  known :
      (x : Transfer)
      → get tid (sweep now (slots t room)) ≡ some x
      → try_start t now room tid owner ≡ (store t room (sweep now (slots t room)), true)
      → Outcome t now room tid owner
  full :
      get tid (sweep now (slots t room)) ≡ none
      → t.max ≤ length (sweep now (slots t room))
      → try_start t now room tid owner ≡ (store t room (sweep now (slots t room)), false)
      → Outcome t now room tid owner
  entry :
      get tid (sweep now (slots t room)) ≡ none
      → length (sweep now (slots t room)) < t.max
      → try_start t now room tid owner
        ≡ (store t room (put tid (entered now owner) (sweep now (slots t room))), true)
      → Outcome t now room tid owner

outcome : (t : Tracker) (now : ℕ) (room tid owner : Text) → Outcome t now room tid owner
unfolding try_start
outcome t now room tid owner = elim (Option-cases (get tid (sweep now (slots t room)))) [
  | inr (x, q) ↦ known x q (ground arith)
  | inl n ↦ elim (Bool-cases (leb t.max (length (sweep now (slots t room))))) [
    | inl l ↦ full n (ground arith) (ground arith)
    | inr l ↦ entry n (ground arith) (ground arith)
  ]
]

-- tryStart says yes exactly if the room holds the id with a transfer that started at most five
-- minutes ago, or the room's transfers that did so are fewer than the bound. After a yes the id is
-- held, by such a transfer.
pub try_start_iff :
    (t : Tracker) (now : ℕ) (room tid owner : Text)
    → (((try_start t now room tid owner).1 ≡ true)
        ↔ (IsHeld now tid (slots t room) ⊎ ((n : ℕ) × Count now (slots t room) n × (n < t.max))))
      × ((try_start t now room tid owner).1 ≡ true
          → (x : Transfer) × (get tid (slots (try_start t now room tid owner).0 room) ≡ some x)
            × IsRunning now x)
try_start_iff t now room tid owner = decide (outcome t now room tid owner)
  where
    m : Dict Transfer
    m = sweep now (slots t room)

    decide :
        Outcome t now room tid owner
        → (((try_start t now room tid owner).1 ≡ true) ↔ (
            IsHeld now tid (slots t room) ⊎ ((n : ℕ) × Count now (slots t room) n × (n < t.max))))
          × ((try_start t now room tid owner).1 ≡ true
              → (x : Transfer) × (get tid (slots (try_start t now room tid owner).0 room) ≡ some x)
                × IsRunning now x)
    decide (known x q e) =
        let (a, r) = held now tid (slots t room) x q in
        rw e (
          ((λ _. inl a), (λ _. refl)),
          λ _. (
            x,
            ground (arith, store-slots t room room (sweep now (slots t room)), ==_refl room),
            r,
          ),
        )
    decide (full n l e) = rw e (
      (
        (λ f. absurd (cc f)),
        λ z. elim z [
          | inl a ↦ absurd (get-held now tid (slots t room) a n)
          | inr (k, c, s) ↦ absurd (omega (arith, Count-unique c (sweep-Count now (slots t room))))
        ],
      ),
      λ f. absurd (cc f),
    )
    decide (entry n l e) = rw e (
      ((λ _. inr (_, sweep-Count now (slots t room), l)), (λ _. refl)),
      λ _. (
        entered now owner,
        ground (
          arith,
          ==_refl room,
          ==_refl tid,
          store-slots t room room (put tid (entered now owner) (sweep now (slots t room))),
          get-put tid tid (entered now owner) (sweep now (slots t room)),
        ),
        omega arith,
      ),
    )
