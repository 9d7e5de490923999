-- ===== src/Server/Invite/Once.antt =====
-- A token is redeemed once.
use netherchat.Base.{
  ℕ, ◌≤◌, ◌≡◌, ◌≢◌, refl, ◌⊎◌, ◌↔◌, inl, inr, true, false, none, some, List, [], ◌∷◌, Text, ==_iff,
  Option-cases, arith,
}
use netherchat.Base.Dict.{Dict, get, get-put, get-delete}
use netherchat.Server.Invite.{
  Store, Token, minted, Call, generate_call, redeem_call, sweep_call, step, generate, redeem, sweep,
  reclaim, expired,
}

get-reclaim :
    (k : Text) (now : ℕ) (m : Dict Token) → get k m ≡ none → get k (reclaim now m).0 ≡ none
unfolding reclaim get
get-reclaim k now [] h = refl
get-reclaim k now ((j, e) ∷ m) h = ground (arith, get-reclaim k now m)

-- No call of the run draws the token again.
abbrev pub Undrawn : Text → List Call → Type 0
Undrawn token [] = Unit
Undrawn token (generate_call now drawn room ttl ∷ cs) = (drawn ≢ token) × Undrawn token cs
Undrawn token (redeem_call now t room ∷ cs) = Undrawn token cs
Undrawn token (sweep_call now ∷ cs) = Undrawn token cs

abbrev pub run : Store → List Call → Store
run s [] = s
run s (c ∷ cs) = run (step s c) cs

run_gone :
    (s : Store) (token : Text) (cs : List Call)
    → Undrawn token cs
    → get token s.tokens ≡ none
    → get token (run s cs).tokens ≡ none
unfolding generate redeem sweep
run_gone s token [] u h = h
run_gone s token (generate_call now drawn room ttl ∷ cs) u h =
    run_gone (generate s now drawn room ttl).0 token cs u.1 (kept u.0)
  where
    kept : drawn ≢ token → get token (generate s now drawn room ttl).0.tokens ≡ none
    kept n = ground (arith, get-put drawn token (minted now room ttl) s.tokens, ==_iff drawn token)
run_gone s token (redeem_call now t room ∷ cs) u h =
    run_gone (redeem s now t room).0 token cs u kept
  where
    kept : get token (redeem s now t room).0.tokens ≡ none
    kept = elim (Option-cases (get t s.tokens)) [
      | inl n ↦ ground arith
      | inr (e, q) ↦ ground (arith, get-delete t token s.tokens)
    ]
run_gone s token (sweep_call now ∷ cs) u h = run_gone (sweep s now).0 token cs u kept
  where
    kept : get token (sweep s now).0.tokens ≡ none
    kept = get-reclaim token now s.tokens h

-- A token that was redeemed is not redeemed again, for any room, at any time, after any calls that
-- do not draw the same token again.
pub redeem_once :
    (s : Store) (now later : ℕ) (token room other : Text) (cs : List Call)
    → (redeem s now token room).1 ≡ true
    → Undrawn token cs
    → (redeem (run (redeem s now token room).0 cs) later token other).1 ≡ false
unfolding redeem
redeem_once s now later token room other cs h u = elim (Option-cases (get token s.tokens)) [
  | inl n ↦ absurd (ground arith)
  | inr (e, q) ↦ ground (
    arith,
    run_gone (redeem s now token room).0 token cs u
        (ground (arith, get-delete token token s.tokens, ==_iff token token)),
  )
]

-- A token opens its room exactly if it is on file for the room and has no expiry or has not passed
-- it.
pub redeem_iff :
    (s : Store) (now : ℕ) (token room : Text)
    → ((redeem s now token room).1 ≡ true) ↔ (
        (e : Token) × (get token s.tokens ≡ some e)
        × (e.room ≡ room)
        × ((e.expires ≡ 0) ⊎ (now ≤ e.expires)))
unfolding redeem expired
redeem_iff s now token room = (forth, λ (e, q, r, x). ground (arith, ==_iff e.room room))
  where
    forth :
        (redeem s now token room).1 ≡ true
        → (e : Token) × (get token s.tokens ≡ some e)
          × (e.room ≡ room)
          × ((e.expires ≡ 0) ⊎ (now ≤ e.expires))
    forth h = elim (Option-cases (get token s.tokens)) [
      | inl n ↦ absurd (ground arith)
      | inr (e, q) ↦ (e, q, ground (arith, ==_iff e.room room), ground (arith, ==_iff e.room room))
    ]
