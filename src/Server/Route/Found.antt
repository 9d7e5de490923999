-- ===== src/Server/Route/Found.antt =====
-- Match finds the first rule that fires.
use netherchat.Base.{
  ℕ, ◌+◌, ◌≡◌, refl, sym, ap, subst, ◌↔◌, inl, inr, true, some, List, [], ◌∷◌, ◌++◌, Text, codes,
  ◌==◌, ==_iff, length, All, Bool-cases, arith,
}
use netherchat.Base.Dict.{Dict}
use netherchat.Server.Route.Condition.{IsMet, holds_iff}
use netherchat.Server.Route.{Route, Fields, Regexp, matches, match_from, match_route}

module _ ⦃re : Regexp⦄ where
  -- The rule has the one supported action, and each of its conditions holds of the payload.
  abbrev pub Fires : Fields → Route → Type 0
  Fires payload r =
      (r.action ≡ codes "break-glass") × All (λ (path, pattern). IsMet payload path pattern) r.match

  matches_iff :
      (m : Dict Text) (payload : Fields)
      → (matches m payload ≡ true) ↔ All (λ (path, pattern). IsMet payload path pattern) m
  unfolding matches
  matches_iff [] payload = ground arith
  matches_iff ((path, pattern) ∷ m) payload =
      ground (arith, holds_iff payload path pattern, matches_iff m payload)

  -- The rules before the one that is found do not fire.
  pub record IsFirst (payload : Fields) (routes : List Route) (i : ℕ) (r : Route) : Type 0 where
    pub before : List Route
    pub after : List Route
    pub split : routes ≡ before ++ r ∷ after
    pub place : length before ≡ i
    pub fires : Fires payload r
    pub first : All (λ s. Fires payload s → ⊥) before

  later :
      (payload : Fields) (s : Route) (rs : List Route) (i k : ℕ) (r : Route)
      → (Fires payload s → ⊥)
      → (n : ℕ) × IsFirst payload rs n r × (n + (i + 1) ≡ k)
      → (n : ℕ) × IsFirst payload (s ∷ rs) n r × (n + i ≡ k)
  later payload s rs i k r silent (n, f, e) = (
    n + 1,
    record {
      before = s ∷ f.before;
      after = f.after;
      split = ap (λ l. s ∷ l) f.split;
      place = let p = f.place in omega arith;
      fires = f.fires;
      first = (silent, f.first);
    },
    omega arith,
  )

  found :
      (payload : Fields) (rs : List Route) (i k : ℕ) (r : Route)
      → match_from i rs payload ≡ some (k, r)
      → (n : ℕ) × IsFirst payload rs n r × (n + i ≡ k)
  unfolding match_from
  found payload [] i k r h = absurd (cc h)
  found payload (s ∷ rs) i k r h = elim (Bool-cases (s.action == codes "break-glass")) [
    | inr n ↦
        later payload s rs i k r (λ f. ground (arith, ==_iff s.action (codes "break-glass"), f.0))
          (found payload rs (i + 1) k r (ground arith))
    | inl y ↦ elim (Bool-cases (matches s.match payload)) [
      | inr n ↦
          later payload s rs i k r (λ f. let m = (matches_iff s.match payload).1 f.1 in cc)
            (found payload rs (i + 1) k r (ground arith))
      | inl m ↦
          let e : i ≡ k = ground arith in
          let q : s ≡ r = ground arith in
          (
            0,
            record {
              before = [];
              after = rs;
              split = ap (λ x. x ∷ rs) q;
              place = refl;
              fires =
                  subst (Fires payload) q (
                    (==_iff s.action (codes "break-glass")).0 y,
                    (matches_iff s.match payload).0 m,
                  );
              first = tt;
            },
            omega arith,
          )
    ]
  ]

  skip :
      (payload : Fields) (before after : List Route) (r : Route) (i : ℕ)
      → Fires payload r
      → All (λ s. Fires payload s → ⊥) before
      → match_from i (before ++ r ∷ after) payload ≡ some (length before + i, r)
  unfolding match_from
  skip payload [] after r i f h =
      let a = (==_iff r.action (codes "break-glass")).1 f.0 in
      let m = (matches_iff r.match payload).1 f.1 in ground arith
  skip payload (s ∷ before) after r i f h =
      let e : length before + (i + 1) ≡ length before + 1 + i = omega arith in
      let rest = skip payload before after r (i + 1) f h.1 in
      elim (Bool-cases (s.action == codes "break-glass")) [
        | inr n ↦ ground arith
        | inl y ↦ elim (Bool-cases (matches s.match payload)) [
          | inr n ↦ ground arith
          | inl m ↦
              absurd (
                h.0
                  ((==_iff s.action (codes "break-glass")).0 y, (matches_iff s.match payload).0 m))
        ]
      ]

  -- Match gives a rule with its index exactly if the rule stands there, has the supported action, all
  -- its conditions are met, and this is so of no rule before it. A condition is met where the names
  -- between the dots of its path lead through objects of the payload to a scalar, and the text of the
  -- scalar is matched by the pattern: as a regular expression if the pattern has a metacharacter, by
  -- equality if not.
  pub match_route_iff :
      (routes : List Route) (payload : Fields) (i : ℕ) (r : Route)
      → (match_route routes payload ≡ some (i, r)) ↔ IsFirst payload routes i r
  unfolding match_route
  match_route_iff routes payload i r = (
    (λ h.
        let (n, f, e) = found payload routes 0 i r h in
        subst (λ x. IsFirst payload routes x r) (omega arith) f),
    (λ f.
        let e : length f.before + 0 ≡ i = let p = f.place in omega arith in
        subst (λ x. match_from 0 routes payload ≡ some (x, r)) e
          (subst (λ x. match_from 0 x payload ≡ some (length f.before + 0, r)) (sym f.split)
            (skip payload f.before f.after r 0 f.fires f.first))),
  )
