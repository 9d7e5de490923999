-- ===== src/Protocol/Fields.antt =====
-- writeField of protocol/signing.go, and the big-endian integers beside it.
use mathlib.Core.List.{append_assoc, append-nil}
use netherchat.Base.{
  ℕ, ◌+◌, ◌*◌, ◌/◌, ◌%◌, ◌^◌, ◌<◌, ◌≡◌, refl, sym, ◌∙◌, List, [], ◌∷◌, ◌++◌, length, Text, All,
  arith,
}

-- binary.BigEndian.PutUint64
unfoldable pub be64 : ℕ → Text
be64 n =
    (n / 2 ^ 56 % 256)
    ∷ (n / 2 ^ 48 % 256)
    ∷ (n / 2 ^ 40 % 256)
    ∷ (n / 2 ^ 32 % 256)
    ∷ (n / 2 ^ 24 % 256)
    ∷ (n / 2 ^ 16 % 256)
    ∷ (n / 2 ^ 8 % 256)
    ∷ (n % 256)
    ∷ []

-- A length prefix of eight bytes, then the bytes.
unfoldable pub field : Text → Text
field b = be64 (length b) ++ b

-- A slice of Go is shorter than 2^63.
abbrev pub IsSlice {ℓ} : {A : Type ℓ} → List A → Type 0
IsSlice b = length b < 2 ^ 63

from_bytes : (a b c d e f g h : ℕ) → ℕ
from_bytes a b c d e f g h =
    ((((((a * 256 + b) * 256 + c) * 256 + d) * 256 + e) * 256 + f) * 256 + g) * 256 + h

-- Eight bytes hold every uint64.
be64_value :
    (n : ℕ)
    → n < 2 ^ 64
    → from_bytes
        (n / 2 ^ 56 % 256)
        (n / 2 ^ 48 % 256)
        (n / 2 ^ 40 % 256)
        (n / 2 ^ 32 % 256)
        (n / 2 ^ 24 % 256)
        (n / 2 ^ 16 % 256)
        (n / 2 ^ 8 % 256)
        (n % 256)
      ≡ n
unfolding from_bytes
be64_value n h = omega arith

pub be64_cancel :
    (n m : ℕ) (x y : Text) → n < 2 ^ 64 → m < 2 ^ 64 → be64 n ++ x ≡ be64 m ++ y → (n ≡ m) × (x ≡ y)
unfolding be64
be64_cancel n m x y hn hm e = (cc (be64_value n hn, be64_value m hm), cc)

append_cancel : (a b x y : Text) → length a ≡ length b → a ++ x ≡ b ++ y → (a ≡ b) × (x ≡ y)
append_cancel [] [] x y h e = (refl, e)
append_cancel [] (b ∷ bs) x y h e = absurd (omega arith)
append_cancel (a ∷ xs) [] x y h e = absurd (omega arith)
append_cancel (a ∷ xs) (b ∷ ys) x y h e =
    let (p, q) = append_cancel xs ys x y (omega arith) (cc) in (cc, q)

pub field_cancel :
    (a b x y : Text) → IsSlice a → IsSlice b → field a ++ x ≡ field b ++ y → (a ≡ b) × (x ≡ y)
unfolding field
field_cancel a b x y ha hb e =
    let p : be64 (length a) ++ (a ++ x) ≡ be64 (length b) ++ (b ++ y) = simp append_assoc at e in
    let (l, q) =
      be64_cancel (length a) (length b) (a ++ x) (b ++ y) (omega arith) (omega arith) p in
    append_cancel a b x y l q

pub field_injective : (a b : Text) → IsSlice a → IsSlice b → field a ≡ field b → a ≡ b
field_injective a b ha hb e =
    (field_cancel a b [] [] ha hb (append-nil (field a) ∙ e ∙ sym (append-nil (field b)))).0

-- Fields one after the other, then the rest.
abbrev pub fields : List Text → Text → Text
fields [] t = t
fields (a ∷ xs) t = field a ++ fields xs t

pub fields_cancel :
    (xs ys : List Text) (x y : Text)
    → length xs ≡ length ys
    → All IsSlice xs
    → All IsSlice ys
    → fields xs x ≡ fields ys y
    → (xs ≡ ys) × (x ≡ y)
fields_cancel [] [] x y l hx hy e = (refl, e)
fields_cancel [] (b ∷ ys) x y l hx hy e = absurd (omega arith)
fields_cancel (a ∷ xs) [] x y l hx hy e = absurd (omega arith)
fields_cancel (a ∷ xs) (b ∷ ys) x y l hx hy e =
    let (p, q) = field_cancel a b (fields xs x) (fields ys y) hx.0 hy.0 e in
    let (r, s) = fields_cancel xs ys x y (omega arith) hx.1 hy.1 q in (cc, s)

-- The same where a field ends the text.
pub fields_injective :
    (xs ys : List Text) (a b : Text)
    → length xs ≡ length ys
    → All IsSlice (a ∷ xs)
    → All IsSlice (b ∷ ys)
    → fields xs (field a) ≡ fields ys (field b)
    → (xs ≡ ys) × (a ≡ b)
fields_injective xs ys a b l hx hy e =
    let (p, q) = fields_cancel xs ys (field a) (field b) l hx.1 hy.1 e in
    (p, field_injective a b hx.0 hy.0 q)
