-- ===== src/Base/Keep.antt =====
-- Deleting from a map while ranging over it: the entries whose value does not pass a test go.
use netherchat.Base.Tests.{if◌then◌else◌, Bool-cases}
use netherchat.Base.Lists.{length}
use netherchat.Base.Bytes.{Text, ◌==◌, ==_iff}
use netherchat.Base.Dict.{Dict, get, IsMap}
use Prim.Native.Nat.{◌≤◌}
use mathlib.Core.Path.{◌≡◌, refl}
use mathlib.Core.Bool.{Bool}
use mathlib.Core.Option.{Option, none, some}
use mathlib.Core.List.{[], ◌∷◌}
use mathlib.Core.Logic.{inl, inr}
use native.Mathlib.Omega.{arith}

module _ {ℓ} {V : Type ℓ} where
  unfoldable pub keep : (V → Bool) → Dict V → Dict V
  keep p [] = []
  keep p ((k, v) ∷ m) = let rest = keep p m in if p v then (k, v) ∷ rest else rest

  abbrev pub only : (V → Bool) → Option V → Option V
  only p none = none
  only p (some v) = if p v then some v else none

  only-none : (p : V → Bool) (x : Option V) → x ≡ none → only p x ≡ none
  only-none p none e = refl
  only-none p (some v) e = absurd (cc e)

  pub get-keep :
      (k : Text) (p : V → Bool) (m : Dict V) → IsMap m → get k (keep p m) ≡ only p (get k m)
  unfolding get keep
  get-keep k p [] h = refl
  get-keep k p ((j, v) ∷ m) h = elim (Bool-cases (j == k)) [
    | inl e ↦ ground (arith, ==_iff j k, get-keep k p m h.1, only-none p (get k m))
    | inr e ↦ ground (arith, get-keep k p m h.1)
  ]

  pub keep-IsMap : (p : V → Bool) (m : Dict V) → IsMap m → IsMap (keep p m)
  unfolding keep
  keep-IsMap p [] h = tt
  keep-IsMap p ((j, v) ∷ m) h =
      ground (arith, keep-IsMap p m h.1, get-keep j p m h.1, only-none p (get j m))

  pub length-keep-le : (p : V → Bool) (m : Dict V) → length (keep p m) ≤ length m
  unfolding keep
  length-keep-le p [] = omega arith
  length-keep-le p ((j, v) ∷ m) = ground (arith, length-keep-le p m)
