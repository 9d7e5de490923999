-- ===== src/Server/Invite/Janitor.antt =====
-- The janitor cannot be observed: with and without it, Redeem answers the same.
use netherchat.Base.{
  ℕ, ◌≤◌, ◌≡◌, refl, ◌⊎◌, inl, inr, Bool, true, not, Option, none, some, List, [], ◌∷◌, Text, ◌==◌,
  ==_iff, Option-cases, Bool-cases, if◌then◌else◌, arith,
}
use netherchat.Base.Int.{ℤ}
use netherchat.Base.Dict.{Dict, get, get-put, get-delete, IsMap, put-IsMap, delete-IsMap}
use netherchat.Base.Keep.{keep, get-keep, keep-IsMap, only}
use netherchat.Server.Invite.{
  Store, Token, minted, Call, generate_call, redeem_call, sweep_call, generate, redeem, sweep,
  reclaim, expired,
}

-- What Redeem answers along a run.
abbrev pub answers : Store → List Call → List Bool
answers s [] = []
answers s (redeem_call now token room ∷ cs) =
    (redeem s now token room).1 ∷ answers (redeem s now token room).0 cs
answers s (generate_call now token room ttl ∷ cs) = answers (generate s now token room ttl).0 cs
answers s (sweep_call now ∷ cs) = answers (sweep s now).0 cs

-- The calls of a run but for the janitor's.
abbrev pub without_sweeps : List Call → List Call
without_sweeps [] = []
without_sweeps (sweep_call now ∷ cs) = without_sweeps cs
without_sweeps (generate_call now token room ttl ∷ cs) =
    generate_call now token room ttl ∷ without_sweeps cs
without_sweeps (redeem_call now token room ∷ cs) = redeem_call now token room ∷ without_sweeps cs

abbrev pub time : Call → ℕ
time (generate_call now token room ttl) = now
time (redeem_call now token room) = now
time (sweep_call now) = now

-- The clock does not go back.
abbrev pub IsTimed : ℕ → List Call → Type 0
IsTimed t [] = Unit
IsTimed t (c ∷ cs) = (t ≤ time c) × IsTimed (time c) cs

-- A swept map lacks expired tokens at most.
abbrev Agree : ℕ → Option Token → Option Token → Type 0
Agree t x y = (x ≡ y) ⊎ ((x ≡ none) × (e : Token) × (y ≡ some e) × (expired t e ≡ true))

abbrev Swept : ℕ → Store → Store → Type 0
Swept t a b = (k : Text) → Agree t (get k a.tokens) (get k b.tokens)

expired_later : (t u : ℕ) (e : Token) → t ≤ u → expired t e ≡ true → expired u e ≡ true
unfolding expired
expired_later t u e h x = ground arith

Swept-later : (t u : ℕ) (a b : Store) → t ≤ u → Swept t a b → Swept u a b
Swept-later t u a b h s k = elim (s k) [
  | inl p ↦ inl p
  | inr (n, e, q, x) ↦ inr (n, e, q, expired_later t u e h x)
]

reclaim-eq : (now : ℕ) (m : Dict Token) → (reclaim now m).0 ≡ keep (λ e. not (expired now e)) m
unfolding reclaim keep
reclaim-eq now [] = refl
reclaim-eq now ((k, e) ∷ m) = ground (arith, reclaim-eq now m)

sweep-Swept : (t : ℕ) (a b : Store) → IsMap a.tokens → Swept t a b → Swept t (sweep a t).0 b
unfolding sweep
sweep-Swept t a b h s k = elim (Option-cases (get k a.tokens)) [
  | inl n ↦ ground (arith, s k, r)
  | inr (e, q) ↦ elim (Bool-cases (expired t e)) [
    | inl x ↦ inr (ground (arith, r), e, ground (arith, s k), x)
    | inr x ↦ ground (arith, s k, r)
  ]
]
  where
    r : get k (reclaim t a.tokens).0 ≡ only (λ e. not (expired t e)) (get k a.tokens)
    r = rw reclaim-eq (get-keep k (λ e. not (expired t e)) a.tokens h)

generate-Swept :
    (t : ℕ) (a b : Store) (token room : Text) (ttl : ℤ)
    → Swept t a b
    → Swept t (generate a t token room ttl).0 (generate b t token room ttl).0
unfolding generate
generate-Swept t a b token room ttl s k = ground (
  arith,
  s k,
  get-put token k (minted t room ttl) a.tokens,
  get-put token k (minted t room ttl) b.tokens,
)

redeem_answer :
    (t : ℕ) (a b : Store) (token room : Text)
    → Swept t a b
    → (redeem a t token room).1 ≡ (redeem b t token room).1
unfolding redeem
redeem_answer t a b token room s = elim (s token) [
  | inl p ↦ ground arith
  | inr (n, e, q, x) ↦ ground arith
]

get-redeem :
    (s : Store) (now : ℕ) (token room k : Text)
    → get k (redeem s now token room).0.tokens ≡ elim (get token s.tokens) [
      | none ↦ get k s.tokens
      | some e ↦
          if expired now e
          then (if token == k then none else get k s.tokens)
          else if not (e.room == room)
          then get k s.tokens
          else (if token == k then none else get k s.tokens)
    ]
unfolding redeem
get-redeem s now token room k = elim (Option-cases (get token s.tokens)) [
  | inl n ↦ ground arith
  | inr (e, q) ↦ ground (arith, get-delete token k s.tokens)
]

redeem-Swept :
    (t : ℕ) (a b : Store) (token room : Text)
    → Swept t a b
    → Swept t (redeem a t token room).0 (redeem b t token room).0
redeem-Swept t a b token room s k = elim (s token) [
  | inl p ↦ ground (arith, s k, p, get-redeem a t token room k, get-redeem b t token room k)
  | inr (n, e, q, x) ↦
      ground (arith, s k, get-redeem a t token room k, get-redeem b t token room k, ==_iff token k)
]

redeem-IsMap :
    (s : Store) (t : ℕ) (token room : Text)
    → IsMap s.tokens
    → IsMap (redeem s t token room).0.tokens
unfolding redeem
redeem-IsMap s t token room h = elim (Option-cases (get token s.tokens)) [
  | inl n ↦ ground arith
  | inr (e, q) ↦ ground (arith, delete-IsMap token s.tokens h)
]

sweep-IsMap : (s : Store) (t : ℕ) → IsMap s.tokens → IsMap (sweep s t).0.tokens
unfolding sweep
sweep-IsMap s t h = rw reclaim-eq (keep-IsMap (λ e. not (expired t e)) s.tokens h)

generate-IsMap :
    (s : Store) (t : ℕ) (token room : Text) (ttl : ℤ)
    → IsMap s.tokens
    → IsMap (generate s t token room ttl).0.tokens
unfolding generate
generate-IsMap s t token room ttl h = put-IsMap token _ s.tokens h

same_answers :
    (t : ℕ) (a b : Store) (cs : List Call)
    → IsTimed t cs
    → IsMap a.tokens
    → Swept t a b
    → answers a cs ≡ answers b (without_sweeps cs)
same_answers t a b [] h m s = refl
same_answers t a b (generate_call now token room ttl ∷ cs) h m s =
    same_answers now _ _ cs h.1 (generate-IsMap a now token room ttl m)
      (generate-Swept now a b token room ttl (Swept-later t now a b h.0 s))
same_answers t a b (redeem_call now token room ∷ cs) h m s =
    let later = Swept-later t now a b h.0 s in
    let rest =
      same_answers now _ _ cs h.1 (redeem-IsMap a now token room m)
        (redeem-Swept now a b token room later) in
    let first = redeem_answer now a b token room later in cc
same_answers t a b (sweep_call now ∷ cs) h m s =
    same_answers now _ b cs h.1 (sweep-IsMap a now m)
      (sweep-Swept now a b m (Swept-later t now a b h.0 s))

-- Along any run on a clock that does not go back, from a store that holds a map, Redeem answers the
-- same with the janitor's sweeps as without them.
pub answers-without_sweeps :
    (t : ℕ) (s : Store) (cs : List Call)
    → IsTimed t cs
    → IsMap s.tokens
    → answers s cs ≡ answers s (without_sweeps cs)
answers-without_sweeps t s cs h m = same_answers t s s cs h m (λ k. inl refl)
