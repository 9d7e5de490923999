-- ===== src/Base/Errors.antt =====
-- Go's (value, error) results: `err` carries the error.
use mathlib.Core.Path.{◌≡◌, refl}
use mathlib.Core.Logic.{◌⊎◌, inl, inr}
use mathlib.Core.Bool.{Bool, true, false}
use mathlib.Core.Option.{Option, none, some}

pub data Result {ℓ κ} (E : Type ℓ) (A : Type κ) : Type (ℓ ⊔ κ) where
  ok : A → Result E A
  err : E → Result E A

module _ {ℓ κ μ} {E : Type ℓ} {A : Type κ} {B : Type μ} where
  infixl 5 ◌>>=◌
  abbrev pub ◌>>=◌ : Result E A → (A → Result E B) → Result E B
  err why >>= next = err why
  ok value >>= next = next value

  -- The parts of a chain that succeeded.
  pub >>=-eq-ok :
      (step : Result E A) (next : A → Result E B) {out : B}
      → step >>= next ≡ ok out
      → (mid : A) × (step ≡ ok mid) × (next mid ≡ ok out)
  >>=-eq-ok (err e) next q = cc
  >>=-eq-ok (ok mid) next q = (mid, refl, q)

module _ {ℓ κ} {E : Type ℓ} {B : Type κ} where
  infixl 5 ◌>>◌
  abbrev pub ◌>>◌ : Result E (Unit {0}) → Result E B → Result E B
  m >> k = m >>= λ _. k

module _ {ℓ} {E : Type ℓ} where
  -- if b { return err }
  abbrev pub reject_if : Bool → E → Result E (Unit {0})
  reject_if true e = err e
  reject_if false e = ok tt

module _ {ℓ κ} {E : Type ℓ} {A : Type κ} where
  abbrev pub or_fail : Option A → E → Result E A
  or_fail none e = err e
  or_fail (some a) e = ok a

-- A function that returns only an error.
abbrev pub Checked {ℓ} : Type ℓ → Type ℓ
Checked E = Result E (Unit {0})

pub Result-cases {ℓ κ} :
    {E : Type ℓ} {A : Type κ} (r : Result E A) → ((a : A) × (r ≡ ok a)) ⊎ ((e : E) × (r ≡ err e))
Result-cases (ok a) = inl (a, refl)
Result-cases (err e) = inr (e, refl)
