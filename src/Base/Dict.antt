-- ===== src/Base/Dict.antt =====
-- Go's maps with string keys: an association list. Go leaves the order of iteration open; the
-- theorems speak of `get` and of membership, and where code ranges over a map and the order
-- shows, it sorts first.
use netherchat.Base.Tests.{if◌then◌else◌, Bool-cases}
use netherchat.Base.Lists.{length, All, All-map, Distinct}
use netherchat.Base.Bytes.{Text, ◌==◌, ==_iff, ==_refl}
use Prim.Native.Nat.{suc, ◌≤◌}
use mathlib.Core.Path.{◌≡◌, refl, subst}
use mathlib.Core.Logic.{◌≢◌, inl, inr}
use mathlib.Core.Option.{Option, none, some}
use mathlib.Core.List.{List, [], ◌∷◌, map}
use native.Mathlib.Omega.{arith}

abbrev pub Dict {ℓ} : Type ℓ → Type ℓ
Dict V = List (Text × V)

module _ {ℓ} {V : Type ℓ} where
  -- v, ok := m[k]
  unfoldable pub get : Text → Dict V → Option V
  get k [] = none
  get k ((j, v) ∷ m) = if j == k then some v else get k m

  -- m[k] = v
  unfoldable pub put : Text → V → Dict V → Dict V
  put k v [] = (k, v) ∷ []
  put k v ((j, w) ∷ m) = if j == k then (k, v) ∷ m else (j, w) ∷ put k v m

  -- delete(m, k)
  unfoldable pub delete : Text → Dict V → Dict V
  delete k [] = []
  delete k ((j, v) ∷ m) = let rest = delete k m in if j == k then rest else (j, v) ∷ rest

  abbrev pub keys : Dict V → List Text
  keys = map (λ e. e.0)

  -- The keys of a map are distinct.
  abbrev pub IsMap : Dict V → Type ℓ
  IsMap [] = Unit
  IsMap ((k, v) ∷ m) = (get k m ≡ none) × IsMap m

  pub get-put :
      (k j : Text) (v : V) (m : Dict V) → get j (put k v m) ≡ (if k == j then some v else get j m)
  unfolding get put
  get-put k j v [] = refl
  get-put k j v ((i, w) ∷ m) = ground (arith, ==_iff k j, ==_iff i k, ==_iff i j, get-put k j v m)

  pub get-delete :
      (k j : Text) (m : Dict V) → get j (delete k m) ≡ (if k == j then none else get j m)
  unfolding get delete
  get-delete k j [] = ground arith
  get-delete k j ((i, w) ∷ m) = ground (arith, get-delete k j m, ==_iff k j, ==_iff i k, ==_iff i j)

  pub put-IsMap : (k : Text) (v : V) (m : Dict V) → IsMap m → IsMap (put k v m)
  unfolding put get
  put-IsMap k v [] h = (refl, tt)
  put-IsMap k v ((j, w) ∷ m) h =
      ground (arith, put-IsMap k v m h.1, get-put k j v m, ==_iff j k, ==_iff k j)

  pub delete-IsMap : (k : Text) (m : Dict V) → IsMap m → IsMap (delete k m)
  unfolding delete
  delete-IsMap k [] h = tt
  delete-IsMap k ((j, w) ∷ m) h = ground (arith, delete-IsMap k m h.1, get-delete k j m)

  pub length-put :
      (k : Text) (v : V) (m : Dict V) → get k m ≡ none → length (put k v m) ≡ suc (length m)
  unfolding put get
  length-put k v [] h = refl
  length-put k v ((j, w) ∷ m) h = ground (arith, length-put k v m)

  pub length-delete-le : (k : Text) (m : Dict V) → length (delete k m) ≤ length m
  unfolding delete
  length-delete-le k [] = omega arith
  length-delete-le k ((j, w) ∷ m) = ground (arith, length-delete-le k m)

  pub All-keys-put {κ} :
      (P : Text → Type κ) (k : Text) (v : V) (m : Dict V)
      → P k
      → All P (keys m)
      → All P (keys (put k v m))
  unfolding put
  All-keys-put P k v [] p h = (p, tt)
  All-keys-put P k v ((j, w) ∷ m) p h = ground (arith, All-keys-put P k v m p h.1, ==_iff j k)

  keys-ne : (k : Text) (m : Dict V) → get k m ≡ none → All (λ j. j ≢ k) (keys m)
  unfolding get
  keys-ne k [] h = tt
  keys-ne k ((j, w) ∷ m) h = ((λ e. ground (arith, ==_iff j k)), keys-ne k m (ground arith))

  pub keys-Distinct : (m : Dict V) → IsMap m → Distinct (keys m)
  keys-Distinct [] h = tt
  keys-Distinct ((k, v) ∷ m) h = (keys-ne k m h.0, keys-Distinct m h.1)

  get_present :
      (k : Text) (j : Text) (v : V) (m : Dict V)
      → (w : V) × (get k m ≡ some w)
      → (w : V) × (get k ((j, v) ∷ m) ≡ some w)
  unfolding get
  get_present k j v m (w, h) = elim (Bool-cases (j == k)) [
    | inl e ↦ (v, rw e)
    | inr e ↦ (w, rw e h)
  ]

  -- What holds of every key that has a value holds of every key that `range` meets.
  pub get_keys : (m : Dict V) → All (λ k. (v : V) × (get k m ≡ some v)) (keys m)
  unfolding get
  get_keys [] = tt
  get_keys ((k, v) ∷ m) =
      ((v, rw (==_refl k)), All-map _ _ (keys m) (λ j h. get_present j k v m h) (get_keys m))

  pub keys-at {κ} :
      (P : Text → Type κ) (k : Text) (v : V) (m : Dict V) → get k m ≡ some v → All P (keys m) → P k
  unfolding get
  keys-at P k v [] h p = absurd (cc h)
  keys-at P k v ((j, w) ∷ m) h p = elim (Bool-cases (j == k)) [
    | inl e ↦ subst P ((==_iff j k).0 e) p.0
    | inr e ↦ keys-at P k v m (ground arith) p.1
  ]
