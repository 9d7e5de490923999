-- ===== src/Base/Sort.antt =====
-- sort.Strings and sort.Slice: insertion by an order.
use netherchat.Base.Tests.{if◌then◌else◌}
use netherchat.Base.Lists.{All, Distinct}
use mathlib.Core.Path.{sym}
use mathlib.Core.Logic.{◌≢◌}
use netherchat.Base.Bytes.{Text, less}
use mathlib.Core.Bool.{Bool}
use mathlib.Core.List.{List, [], ◌∷◌}
use native.Mathlib.Omega.{arith}

module _ {ℓ} {A : Type ℓ} (before : A → A → Bool) where
  unfoldable pub insert : A → List A → List A
  insert x [] = x ∷ []
  insert x (y ∷ ys) = if before y x then y ∷ insert x ys else x ∷ y ∷ ys

  unfoldable pub sort_by : List A → List A
  unfolding insert
  sort_by [] = []
  sort_by (x ∷ xs) = insert x (sort_by xs)

module _ {ℓ κ} {A : Type ℓ} (before : A → A → Bool) (P : A → Type κ) where
  All-insert : (x : A) (xs : List A) → P x → All P xs → All P (insert before x xs)
  unfolding insert
  All-insert x [] h hs = (h, tt)
  All-insert x (y ∷ ys) h hs = ground (arith, All-insert x ys h hs.1)

  insert-All : (x : A) (xs : List A) → All P (insert before x xs) → P x × All P xs
  unfolding insert
  insert-All x [] h = h
  insert-All x (y ∷ ys) h = ground (arith, insert-All x ys)

  -- Sorting keeps the elements: a property of all is one of all, both ways.
  pub All-sort : (xs : List A) → All P xs → All P (sort_by before xs)
  unfolding sort_by
  All-sort [] h = tt
  All-sort (x ∷ xs) h = All-insert x (sort_by before xs) h.0 (All-sort xs h.1)

  pub sort-All : (xs : List A) → All P (sort_by before xs) → All P xs
  unfolding sort_by
  sort-All [] h = tt
  sort-All (x ∷ xs) h = let (a, b) = insert-All x (sort_by before xs) h in (a, sort-All xs b)

abbrev pub sort_strings : List Text → List Text
sort_strings = sort_by less

module _ {ℓ} {A : Type ℓ} (before : A → A → Bool) where
  insert-Distinct :
      (x : A) (xs : List A) → All (λ y. y ≢ x) xs → Distinct xs → Distinct (insert before x xs)
  unfolding insert
  insert-Distinct x [] h d = (tt, tt)
  insert-Distinct x (y ∷ ys) h d = ground (
    arith,
    insert-Distinct x ys h.1 d.1,
    All-insert before (λ z. z ≢ y) x ys (λ e. h.0 (sym e)) d.0,
  )

  pub sort-Distinct : (xs : List A) → Distinct xs → Distinct (sort_by before xs)
  unfolding sort_by
  sort-Distinct [] d = tt
  sort-Distinct (x ∷ xs) d =
      insert-Distinct x (sort_by before xs) (All-sort before (λ y. y ≢ x) xs d.0)
        (sort-Distinct xs d.1)
