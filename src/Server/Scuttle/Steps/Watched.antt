-- ===== src/Server/Scuttle/Steps/Watched.antt =====
-- A registered room is watched, and burned once it is quiet for long enough.
use netherchat.Base.{
  eqb, ℕ, ◌+◌, ◌≤◌, ◌<◌, ◌≡◌, ◌≢◌, refl, sym, subst, ◌∙◌, ap, ◌⊎◌, inl, inr, Bool, true, false,
  some, List, [], ◌∷◌, ◌++◌, Text, ◌==◌, ==_iff, All, All-map, Any, Bool-cases, Option-cases, arith,
}
use netherchat.Base.Int.{ℤ, pos, negsuc}
use netherchat.Base.Dict.{Dict, get, put, delete, get-put, get-delete}
use netherchat.Server.Scuttle.{
  Policy, Janitor, Manager, positive, watched, start, stop_timer, close_idle, cancel_armed, stop,
  arm,
}
use netherchat.Server.Scuttle.Steps.{Burn, Event, Step, Run}

abbrev pub IsWatcher : Text → ℕ → Janitor → Type 0
IsWatcher room c j = (j.room ≡ room) × (j.channel ≡ c)

module _ {A : Type 0} (P : A → Type 0) where
  Any-middle : (xs : List A) (y : A) (ys : List A) → Any P (xs ++ y ∷ ys) → P y ⊎ Any P (xs ++ ys)
  Any-middle [] y ys h = h
  Any-middle (x ∷ xs) y ys (inl p) = inr (inl p)
  Any-middle (x ∷ xs) y ys (inr h) = elim (Any-middle xs y ys h) [
    | inl p ↦ inl p
    | inr q ↦ inr (inr q)
  ]

  pub Any-split :
      (zs : List A) → Any P zs → (xs : List A) × (y : A) × (ys : List A) × (zs ≡ xs ++ y ∷ ys) × P y
  Any-split [] h = absurd h
  Any-split (z ∷ zs) (inl p) = ([], z, zs, refl, p)
  Any-split (z ∷ zs) (inr h) =
      let (xs, y, ys, e, p) = Any-split zs h in (z ∷ xs, y, ys, ap (λ l. z ∷ l) e, p)

-- A janitor of the room with this stop channel is in its loop, or about to call forget.
abbrev pub IsWatched : Manager → Text → ℕ → Type 0
IsWatched m room c =
    Any (IsWatcher room c) m.janitors ⊎ Any (λ (j, b). IsWatcher room c j) m.leaving

-- Every registered stop channel is open, belongs to one room, and has a janitor.
pub record Inv (m : Manager) : Type 0 where
  pub live : (room : Text) (c : ℕ) → get room m.idle ≡ some c → IsWatched m room c
  open_channel : (room : Text) (c : ℕ) → get room m.idle ≡ some c → All (λ x. x ≢ c) m.closed
  old : (room : Text) (c : ℕ) → get room m.idle ≡ some c → c < m.fresh
  old_closed : All (λ x. x < m.fresh) m.closed
  single :
      (room other : Text) (c : ℕ)
      → get room m.idle ≡ some c
      → get other m.idle ≡ some c
      → room ≡ other

deleted :
    (room other : Text) (c : ℕ) (m : Dict ℕ)
    → get other (delete room m) ≡ some c
    → (room ≢ other) × (get other m ≡ some c)
deleted room other c m h = elim (Bool-cases (room == other)) [
  | inl y ↦ absurd (ground (arith, get-delete room other m))
  | inr n ↦ ((λ e. ground (arith, ==_iff room other)), ground (arith, get-delete room other m))
]

-- A state with fewer registrations, where those that stay have their janitor.
fewer :
    (m n : Manager)
    → Inv m
    → m.closed ≡ n.closed
    → m.fresh ≤ n.fresh
    → ((room : Text) (c : ℕ)
        → get room n.idle ≡ some c
        → (get room m.idle ≡ some c) × IsWatched n room c)
    → Inv n
fewer m n i e l f = record {
  live = λ room c h. (f room c h).1;
  open_channel = λ room c h. subst (All (λ x. x ≢ c)) e (i.open_channel room c (f room c h).0);
  old = λ room c h. let o = i.old room c (f room c h).0 in omega arith;
  old_closed =
      subst (All (λ x. x < n.fresh)) e
        (All-map (λ x. x < m.fresh) (λ x. x < n.fresh) m.closed (λ x o. omega arith) i.old_closed);
  single = λ room other c h k. i.single room other c (f room c h).0 (f other c k).0;
}

close_idle-Inv : (m : Manager) (room : Text) → Inv m → Inv (close_idle m room)
close_idle-Inv m room i = elim (Option-cases (get room m.idle)) [
  | inl n ↦ rw (close_idle, n) i
  | inr (c, q) ↦
      rw (close_idle, q)
        (record {
          live = λ other k h. i.live other k (deleted room other k m.idle h).1;
          open_channel = λ other k h.
              let (n, g) = deleted room other k m.idle h in
              (
                (λ e.
                    n (i.single room other c q (subst (λ x. get other m.idle ≡ some x) (sym e) g))),
                i.open_channel other k g,
              );
          old = λ other k h. i.old other k (deleted room other k m.idle h).1;
          old_closed = (i.old room c q, i.old_closed);
          single = λ r s k h g.
              i.single r s k (deleted room r k m.idle h).1 (deleted room s k m.idle g).1;
        })
]

cancel_armed-Inv : (m : Manager) (room : Text) → Inv m → Inv (cancel_armed m room)
cancel_armed-Inv m room i = elim (Option-cases (get room m.armed)) [
  | inl n ↦ rw (cancel_armed, n) i
  | inr (c, q) ↦
      rw (cancel_armed, q)
        (fewer m (record m { timers = stop_timer c m.timers; armed = delete room m.armed }) i refl
          (omega arith) (λ r k h. (h, i.live r k h)))
]

added :
    (room other : Text) (c n : ℕ) (m : Dict ℕ)
    → get other (put room n m) ≡ some c
    → ((room ≡ other) × (n ≡ c)) ⊎ ((room ≢ other) × (get other m ≡ some c))
added room other c n m h = elim (Bool-cases (room == other)) [
  | inl y ↦ inl ((==_iff room other).0 y, ground (arith, get-put room other n m))
  | inr f ↦ inr ((λ e. ground (arith, ==_iff room other)), ground (arith, get-put room other n m))
]

watched-Inv : (m : Manager) (room : Text) (pol : Policy) → Inv m → Inv (watched m room pol)
watched-Inv m room pol i = record {
  live = λ other c h. elim (added room other c m.fresh m.idle h) [
    | inl (e, f) ↦ inl (inl (e, f))
    | inr (n, g) ↦ elim (i.live other c g) [ inl a ↦ inl (inr a) | inr b ↦ inr b ]
  ];
  open_channel = λ other c h. elim (added room other c m.fresh m.idle h) [
    | inl (e, f) ↦
        All-map (λ x. x < m.fresh) (λ x. x ≢ c) m.closed (λ x l q. omega arith) i.old_closed
    | inr (n, g) ↦ i.open_channel other c g
  ];
  old = λ other c h. elim (added room other c m.fresh m.idle h) [
    | inl (e, f) ↦ omega arith
    | inr (n, g) ↦ let o = i.old other c g in omega arith
  ];
  old_closed =
      All-map (λ x. x < m.fresh) (λ x. x < m.fresh + 1) m.closed (λ x l. omega arith) i.old_closed;
  single = λ r s c h k. elim (added room r c m.fresh m.idle h) [
    | inl (e, f) ↦ elim (added room s c m.fresh m.idle k) [
      | inl (e', f') ↦ sym e ∙ e'
      | inr (n', g') ↦ absurd (let o = i.old s c g' in omega arith)
    ]
    | inr (n, g) ↦ elim (added room s c m.fresh m.idle k) [
      | inl (e', f') ↦ absurd (let o = i.old r c g in omega arith)
      | inr (n', g') ↦ i.single r s c g g'
    ]
  ];
}

closed-open : (k : ℕ) (cs : List ℕ) → All (λ x. x ≢ k) cs → Any (λ x. x ≡ k) cs → ⊥
closed-open k [] a o = o
closed-open k (x ∷ cs) a (inl o) = a.0 o
closed-open k (x ∷ cs) a (inr o) = closed-open k cs a.1 o

arm-Inv : (m : Manager) (now : ℕ) (room : Text) (d : ℤ) → Inv m → Inv (arm m now room d)
unfolding arm
arm-Inv m now room (negsuc d) i = i
arm-Inv m now room (pos d) i = elim (Bool-cases (eqb d 0)) [
  | inl z ↦ rw (arm, z) i
  | inr z ↦ rw (arm, z) (fewer m _ i refl (omega arith) (λ r k h. (h, i.live r k h)))
]

-- A janitor that turns to leave is still there.
leaves-Inv :
    (m : Manager) (j : Janitor) (b : Bool) (xs ys : List Janitor)
    → m.janitors ≡ xs ++ j ∷ ys
    → Inv m
    → Inv (record m { janitors = xs ++ ys; leaving = (j, b) ∷ m.leaving })
leaves-Inv m j b xs ys q i =
    fewer m (record m { janitors = xs ++ ys; leaving = (j, b) ∷ m.leaving }) i refl (omega arith)
      (λ r c h. (
        h,
        elim (i.live r c h) [
          | inr l ↦ inr (inr l)
          | inl a ↦ elim (Any-middle (IsWatcher r c) xs j ys (subst (Any (IsWatcher r c)) q a)) [
            | inl w ↦ inr (inl w)
            | inr k ↦ inl k
          ]
        ],
      ))

module _ (policy_of : Text → Policy) where
  start-Inv : (m : Manager) (room : Text) → Inv m → Inv (start policy_of m room)
  unfolding start
  start-Inv m room i = elim (Bool-cases (positive (policy_of room).idle_after)) [
    | inr n ↦ rw (start, n) i
    | inl p ↦ elim (Option-cases (get room m.idle)) [
      | inr (c, q) ↦ rw (start, p, q) i
      | inl q ↦ rw (start, p, q) (watched-Inv m room (policy_of room) i)
    ]
  ]

  step-Inv :
      (m n : Manager) (e : Event) (new : List Burn) → Step policy_of m e new n → Inv m → Inv n
  unfolding stop
  step-Inv m n e new (Step.starts room) i = start-Inv m room i
  step-Inv m n e new (Step.stops room) i =
      cancel_armed-Inv (close_idle m room) room (close_idle-Inv m room i)
  step-Inv m n e new (Step.owner_leaves room) i = i
  step-Inv m n e new (Step.arms now room d) i = arm-Inv m now room d i
  step-Inv m n e new (Step.ticks_on now h j k v) i = i
  step-Inv m n e new (Step.finds_gone now h j xs ys q v) i = leaves-Inv m j false xs ys q i
  step-Inv m n e new (Step.finds_idle now h j xs ys q v) i = leaves-Inv m j true xs ys q i
  step-Inv m n e new (Step.forgets j b xs ys q) i = fewer m n i refl (omega arith) (λ r c h.
      let (d, g) = deleted j.room r c m.idle h in
      (
        g,
        elim (i.live r c g) [
          | inl a ↦ inl a
          | inr l ↦
              elim (Any-middle (λ (k, _). IsWatcher r c k) xs (j, b) ys
                (subst (Any (λ (k, _). IsWatcher r c k)) q l)) [
                  | inl w ↦ absurd (d w.0)
                  | inr k ↦ inr k
                ]
        ],
      ))
  step-Inv m n e new (Step.ends j xs ys q c) i = fewer m n i refl (omega arith) (λ r k h. (
    h,
    elim (i.live r k h) [
      | inr l ↦ inr l
      | inl a ↦ elim (Any-middle (IsWatcher r k) xs j ys (subst (Any (IsWatcher r k)) q a)) [
        | inl w ↦ absurd (
            closed-open k m.closed (i.open_channel r k h)
              (subst (λ x. Any (λ y. y ≡ x) m.closed) w.1 c))
        | inr z ↦ inl z
      ]
    ],
  ))
  step-Inv m n e new (Step.fires now t xs ys q l) i =
      fewer m n i refl (omega arith) (λ r k h. (h, i.live r k h))
  step-Inv m n e new (Step.calls t xs ys q) i =
      fewer m n i refl (omega arith) (λ r k h. (h, i.live r k h))

  pub Run-Inv :
      {log : List Event} {burned : List Burn} {m : Manager} → Run policy_of log burned m → Inv m
  unfolding get
  Run-Inv Run.begins = record {
    live = λ room c h. absurd (ground arith);
    open_channel = λ room c h. tt;
    old = λ room c h. absurd (ground arith);
    old_closed = tt;
    single = λ room other c h k. absurd (ground arith);
  }
  Run-Inv (Run.goes r s) = step-Inv _ _ _ _ s (Run-Inv r)
