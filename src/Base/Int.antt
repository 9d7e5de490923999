-- ===== src/Base/Int.antt =====
-- Signed integers (Go's int64 and time.Duration): `negsuc n` is -(n + 1).
use Prim.Native.Nat.{ℕ, ◌+◌, ◌-◌, ◌%◌, ◌^◌, ◌<◌}
use mathlib.Core.Path.{◌≡◌, ap}
use mathlib.Core.Bool.{Bool, true, false}
use native.Mathlib.Omega.{arith}
use netherchat.Base.Tests.{ltb, eqb, if◌then◌else◌}

pub data ℤ : Type 0 where
  pos : ℕ → ℤ
  negsuc : ℕ → ℤ

abbrev pub ltb_ℤ : ℤ → ℤ → Bool
ltb_ℤ (pos a) (pos b) = ltb a b
ltb_ℤ (pos a) (negsuc b) = false
ltb_ℤ (negsuc a) (pos b) = true
ltb_ℤ (negsuc a) (negsuc b) = ltb b a

abbrev pub eqb_ℤ : ℤ → ℤ → Bool
eqb_ℤ (pos a) (pos b) = eqb a b
eqb_ℤ (pos a) (negsuc b) = false
eqb_ℤ (negsuc a) (pos b) = false
eqb_ℤ (negsuc a) (negsuc b) = eqb a b

-- `uint64(v)`: the bit pattern of an int64.
unfoldable pub to_u64 : ℤ → ℕ
to_u64 (pos n) = n % 2 ^ 64
to_u64 (negsuc n) = (2 ^ 64 - 1 - n) % 2 ^ 64

-- The int64 of a bit pattern.
unfoldable pub of_u64 : ℕ → ℤ
of_u64 n = if ltb n (2 ^ 63) then pos n else negsuc (2 ^ 64 - 1 - n)

-- v - w on int64, with its wrap-around.
unfoldable pub sub_int64 : ℤ → ℤ → ℤ
sub_int64 v w = of_u64 ((to_u64 v + (2 ^ 64 - to_u64 w)) % 2 ^ 64)

abbrev pub IsInt64 : ℤ → Type 0
IsInt64 (pos n) = n < 2 ^ 63
IsInt64 (negsuc n) = n < 2 ^ 63

pub to_u64-lt : (v : ℤ) → to_u64 v < 2 ^ 64
unfolding to_u64
to_u64-lt (pos n) = omega arith
to_u64-lt (negsuc n) = omega arith

pub to_u64-injective : (v w : ℤ) → IsInt64 v → IsInt64 w → to_u64 v ≡ to_u64 w → v ≡ w
unfolding to_u64
to_u64-injective (pos n) (pos m) hv hw e = ap pos (omega arith)
to_u64-injective (pos n) (negsuc m) hv hw e = absurd (omega arith)
to_u64-injective (negsuc n) (pos m) hv hw e = absurd (omega arith)
to_u64-injective (negsuc n) (negsuc m) hv hw e = ap negsuc (omega arith)
