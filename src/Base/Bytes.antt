-- ===== src/Base/Bytes.antt =====
-- Go's strings and byte slices: a `Text` is the list of its bytes.
use Prim.Native.Nat.{ℕ}
use Prim.Native.Char.{code}
use Prim.Native.String.{String}
use mathlib.Core.Path.{◌≡◌, refl}
use mathlib.Core.Logic.{◌↔◌, ◌≢◌}
use mathlib.Core.Bool.{Bool, true, false, ◌&&◌, ◌||◌}
use mathlib.Core.List.{List, [], ◌∷◌}
use native.Mathlib.Omega.{arith}
use netherchat.Base.Tests.{eqb, ltb}

abbrev pub Text : Type 0
Text = List ℕ

-- The bytes of an ASCII literal.
abbrev pub codes : String → Text
codes String.[] = []
codes (String.◌∷◌ c s) = code c ∷ codes s

-- `==` on strings, `bytes.Equal` on slices.
infix 50 ◌==◌
unfoldable pub ◌==◌ : Text → Text → Bool
[] == [] = true
[] == (b ∷ bs) = false
(a ∷ xs) == [] = false
(a ∷ xs) == (b ∷ ys) = eqb a b && xs == ys

pub ==_iff : (a b : Text) → ((a == b) ≡ true) ↔ (a ≡ b)
unfolding ◌==◌
==_iff [] [] = ground arith
==_iff [] (b ∷ bs) = ground arith
==_iff (a ∷ xs) [] = ground arith
==_iff (a ∷ xs) (b ∷ ys) = ground (arith, ==_iff xs ys)

pub ==_refl : (a : Text) → (a == a) ≡ true
==_refl a = (==_iff a a).1 refl

pub ==_ne : (a b : Text) → a ≢ b → (a == b) ≡ false
==_ne a b h = ground (arith, ==_iff a b)

-- `<` on strings compares byte by byte.
unfoldable pub less : Text → Text → Bool
less a [] = false
less [] (b ∷ bs) = true
less (a ∷ xs) (b ∷ ys) = ltb a b || (eqb a b && less xs ys)

abbrev pub is_empty : Text → Bool
is_empty [] = true
is_empty (b ∷ bs) = false

pub is_empty_iff : (t : Text) → (is_empty t ≡ false) ↔ (t ≢ [])
is_empty_iff [] = ground arith
is_empty_iff (b ∷ bs) = ((λ h e. cc e), (λ n. refl))

pub is_empty-true_iff : (t : Text) → (is_empty t ≡ true) ↔ (t ≡ [])
is_empty-true_iff [] = ground arith
is_empty-true_iff (b ∷ bs) = ground arith
