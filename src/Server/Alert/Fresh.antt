-- ===== src/Server/Alert/Fresh.antt =====
-- Which timestamps pass.
use netherchat.Base.{
  ltb→lt, ltb_false→le, is_empty-true_iff, is_empty, ℕ, ◌+◌, ◌-◌, ◌^◌, ◌≤◌, ◌<◌, ◌≡◌, ◌≢◌, refl,
  ◌↔◌, ◌⊎◌, inl, inr, true, false, some, [], ltb, if◌then◌else◌, Bool-cases, arith,
}
use netherchat.Base.Int.{ℤ, pos, negsuc, IsInt64, to_u64, of_u64, sub_int64}
use netherchat.Server.Alert.{
  seconds, default_freshness_window, default_freshness_future_skew, Guards, Source, FreshnessConfig,
  check_age, resolve_duration, window_of, skew_of, is_zero, allow_fresh,
}

-- The timestamp is at most `window` seconds before and `skew` seconds after `now`.
abbrev pub IsNear : ℕ → ℕ → ℕ → ℤ → Type 0
IsNear now window skew (pos t) = (now ≤ t + window) × (t ≤ now + skew)
IsNear now window skew (negsuc t) = now + t + 1 ≤ window

-- The timestamp 2^63 seconds before `now`.
abbrev pub farthest : ℕ → ℤ
farthest now = negsuc (2 ^ 63 - 1 - now)

sub-pos :
    (n t : ℕ)
    → n < 2 ^ 62
    → t < 2 ^ 63
    → sub_int64 (pos n) (pos t) ≡ (if ltb n t then negsuc (t - n - 1) else pos (n - t))
unfolding sub_int64 of_u64 to_u64
sub-pos n t hn ht = ground arith

sub-negsuc :
    (n t : ℕ)
    → n < 2 ^ 62
    → t < 2 ^ 63
    → sub_int64 (pos n) (negsuc t)
      ≡ (if ltb (n + t + 1) (2 ^ 63) then pos (n + t + 1) else negsuc (2 ^ 64 - 1 - (n + t + 1)))
unfolding sub_int64 of_u64 to_u64
sub-negsuc n t hn ht = ground arith

neg-pos :
    (n : ℕ) → n < 2 ^ 63 → sub_int64 (pos 0) (pos n) ≡ (if ltb 0 n then negsuc (n - 1) else pos 0)
unfolding sub_int64 of_u64 to_u64
neg-pos n h = ground arith

neg-negsuc :
    (n : ℕ)
    → n < 2 ^ 63
    → sub_int64 (pos 0) (negsuc n)
      ≡ (if ltb n (2 ^ 63 - 1) then pos (n + 1) else negsuc (2 ^ 63 - 1))
unfolding sub_int64 of_u64 to_u64
neg-negsuc n h = ground arith

-- The test of the age, with its wrap-around, against the description.
check_age_iff :
    (now : ℕ) (ts : ℤ) (window skew : ℕ)
    → now < 2 ^ 62
    → IsInt64 ts
    → window < 2 ^ 62
    → skew < 2 ^ 62
    → ((check_age (pos now) ts window skew).0 ≡ true)
      ↔ (IsNear now window skew ts ⊎ (ts ≡ farthest now))
unfolding check_age
check_age_iff now (pos t) window skew hn ht hw hs = elim (Bool-cases (ltb now t)) [
  | inl y ↦ ground (arith, sub-pos now t hn ht, neg-negsuc (t - now - 1) (omega arith))
  | inr f ↦ ground (arith, sub-pos now t hn ht, neg-pos (now - t) (omega arith))
]
check_age_iff now (negsuc t) window skew hn ht hw hs =
    elim (Bool-cases (ltb (now + t + 1) (2 ^ 63))) [
      | inl y ↦
          ground
            (arith, sub-negsuc now t hn ht, neg-pos (now + t + 1) (ltb→lt (now + t + 1) (2 ^ 63) y))
      | inr f ↦ ground (
        arith,
        sub-negsuc now t hn ht,
        neg-negsuc (2 ^ 64 - 1 - (now + t + 1))
            (let l = ltb_false→le (now + t + 1) (2 ^ 63) f in omega arith),
      )
    ]

resolve_duration-lt :
    (a b : ℤ) (c : ℕ) → IsInt64 a → IsInt64 b → c < 2 ^ 63 → resolve_duration a b c < 2 ^ 63
unfolding resolve_duration
resolve_duration-lt (pos x) (pos y) c ha hb hc = ground arith
resolve_duration-lt (pos x) (negsuc y) c ha hb hc = ground arith
resolve_duration-lt (negsuc x) (pos y) c ha hb hc = ground arith
resolve_duration-lt (negsuc x) (negsuc y) c ha hb hc = ground arith

seconds-lt : (d : ℕ) → d < 2 ^ 63 → seconds d < 2 ^ 62
seconds-lt d h = omega arith

is_zero_iff : (ts : ℤ) → (is_zero ts ≡ true) ↔ (ts ≡ pos 0)
is_zero_iff (pos n) = ground arith
is_zero_iff (negsuc n) = ground arith

-- The configured durations are of Go's range.
abbrev pub IsDurations : Source → FreshnessConfig → Type 0
IsDurations src def =
    IsInt64 src.freshness_window
    × IsInt64 src.freshness_future_skew
    × IsInt64 def.window
    × IsInt64 def.future_skew

-- What AllowFresh lets pass.
abbrev pub IsAllowed : ℕ → Source → ℤ → FreshnessConfig → Type 0
IsAllowed now src ts def =
    (src.hmac_secret ≡ [])
    ⊎ ((ts ≡ pos 0) × (src.require_fresh ≡ false))
    ⊎ ((ts ≢ pos 0) × (IsNear now (window_of src def) (skew_of src def) ts ⊎ (ts ≡ farthest now)))

-- At a time before 2^62 seconds, guards let an alert pass exactly if its source has no HMAC secret, or
-- it has no timestamp and the source does not require one, or its timestamp is within the window before
-- and the skew after the time, or is the one 2^63 seconds before it, where the subtraction wraps. The
-- timestamp and the durations are int64 values.
pub allow_fresh_iff :
    (now : ℕ) (g : Guards) (src : Source) (ts : ℤ) (def : FreshnessConfig)
    → now < 2 ^ 62
    → IsInt64 ts
    → IsDurations src def
    → ((allow_fresh (pos now) (some g) src ts def).1.0 ≡ true) ↔ IsAllowed now src ts def
unfolding allow_fresh
allow_fresh_iff now g src ts def hn ht (dw, ds, ew, es) =
    let w = seconds-lt (resolve_duration src.freshness_window def.window default_freshness_window) (
      resolve_duration-lt src.freshness_window def.window default_freshness_window dw ew
        (omega arith)) in
    let s =
      seconds-lt
        (resolve_duration src.freshness_future_skew def.future_skew default_freshness_future_skew)
        (resolve_duration-lt src.freshness_future_skew def.future_skew default_freshness_future_skew
          ds es (omega arith)) in
    let c = check_age_iff now ts (window_of src def) (skew_of src def) hn ht w s in
    elim (Bool-cases (is_empty src.hmac_secret)) [
      | inl e ↦
          ((λ _. inl ((is_empty-true_iff src.hmac_secret).0 e)), (λ _. rw (allow_fresh, e) refl))
      | inr e ↦
          let keyed : src.hmac_secret ≢ [] =
            λ q. ground (arith, is_empty-true_iff src.hmac_secret) in
          elim (Bool-cases (is_zero ts)) [
            | inl z ↦ elim (Bool-cases src.require_fresh) [
              | inl r ↦ (
                (λ v. absurd (ground arith)),
                (λ a. elim a [
                  | inl q ↦ absurd (keyed q)
                  | inr (inl (q, f)) ↦ absurd (ground arith)
                  | inr (inr (q, f)) ↦ absurd (q ((is_zero_iff ts).0 z))
                ]),
              )
              | inr r ↦ (
                (λ v. inr (inl ((is_zero_iff ts).0 z, r))),
                (λ a. rw (allow_fresh, e, z, r) refl),
              )
            ]
            | inr z ↦
                let set : ts ≢ pos 0 = λ q. ground (arith, is_zero_iff ts) in
                (
                  (λ v. inr (inr (set, c.0 (ground arith)))),
                  (λ a. elim a [
                    | inl q ↦ absurd (keyed q)
                    | inr (inl (q, f)) ↦ absurd (set q)
                    | inr (inr (q, f)) ↦ rw (allow_fresh, e, z) (c.1 f)
                  ]),
                )
          ]
    ]
