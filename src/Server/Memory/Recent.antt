-- ===== src/Server/Memory/Recent.antt =====
-- A room's history is the end of what was appended to the room.
use mathlib.Core.List.{append_assoc, append-nil}
use netherchat.Base.{
  ℕ, zero, suc, ◌+◌, ◌-◌, ◌≤◌, ◌≡◌, refl, sym, ◌∙◌, ap, List, [], ◌∷◌, ◌++◌, Text, ◌==◌, ==_iff,
  ltb, length, drop, length-append, length-drop, if◌then◌else◌, Bool-cases, inl, inr, arith,
}
use netherchat.Base.Int.{ℤ, pos, negsuc}
use netherchat.Base.Dict.{get, get-put}
use netherchat.Server.Memory.{Memory, new_memory, buffer, last_of, append, history}

drop_nil {ℓ} : {A : Type ℓ} (n : ℕ) → drop {A = A} n [] ≡ []
drop_nil zero = refl
drop_nil (suc n) = refl

drop-append {ℓ} :
    {A : Type ℓ} (n : ℕ) (xs ys : List A) → n ≤ length xs → drop n (xs ++ ys) ≡ drop n xs ++ ys
drop-append zero xs ys h = refl
drop-append (suc n) [] ys h = absurd (omega arith)
drop-append (suc n) (x ∷ xs) ys h = drop-append n xs ys (omega arith)

drop-drop {ℓ} : {A : Type ℓ} (m n : ℕ) (xs : List A) → drop m (drop n xs) ≡ drop (n + m) xs
drop-drop m zero xs = ap (λ k. drop k xs) (omega arith)
drop-drop m (suc n) [] = drop_nil m ∙ sym (drop_nil (suc n + m))
drop-drop m (suc n) (x ∷ xs) =
    let k : suc n + m ≡ suc (n + m) = omega arith in
    drop-drop m n xs ∙ sym (ap (λ k. drop k (x ∷ xs)) k)

-- The number of envelopes that a store keeps for each room.
abbrev pub capacity : ℤ → ℕ
capacity (pos zero) = 100
capacity (pos (suc n)) = suc n
capacity (negsuc n) = 100

max-capacity : (E : Type 0) (max : ℤ) → (new_memory {Envelope = E} max).max ≡ capacity max
unfolding new_memory
max-capacity E (pos zero) = refl
max-capacity E (pos (suc n)) = refl
max-capacity E (negsuc n) = refl

module _ {Envelope : Type 0} where
  -- The last n elements.
  abbrev pub recent : ℕ → List Envelope → List Envelope
  recent n xs = drop (length xs - n) xs

  last_of-eq : (n : ℕ) (xs : List Envelope) → last_of n xs ≡ recent n xs
  last_of-eq n xs = elim (Bool-cases (ltb n (length xs))) [
    | inl h ↦ ground arith
    | inr h ↦ let z : length xs - n ≡ 0 = ground arith in (rw h refl) ∙ sym (ap (λ k. drop k xs) z)
  ]

  recent-append :
      (n : ℕ) (xs ys : List Envelope) → recent n (recent n xs ++ ys) ≡ recent n (xs ++ ys)
  recent-append n xs ys =
      let l : length (recent n xs ++ ys) ≡ (length xs - (length xs - n)) + length ys =
        omega (arith, length-append (recent n xs) ys, length-drop (length xs - n) xs) in
      let e : recent n xs ++ ys ≡ drop (length xs - n) (xs ++ ys) =
        sym (drop-append (length xs - n) xs ys (omega arith)) in
      let k : (length xs - n) + (length (recent n xs ++ ys) - n) ≡ length (xs ++ ys) - n =
        omega (arith, l, length-append xs ys) in
      ap (drop (length (recent n xs ++ ys) - n)) e
      ∙ drop-drop (length (recent n xs ++ ys) - n) (length xs - n) (xs ++ ys)
      ∙ ap (λ j. drop j (xs ++ ys)) k

  abbrev pub append_all : Memory Envelope → List (Text × Envelope) → Memory Envelope
  append_all m [] = m
  append_all m ((room, env) ∷ es) = append_all (append m room env) es

  -- What was appended to a room, in order.
  abbrev pub appended : Text → List (Text × Envelope) → List Envelope
  appended room [] = []
  appended room ((r, env) ∷ es) =
      let rest = appended room es in if r == room then env ∷ rest else rest

  buffer-append :
      (m : Memory Envelope) (r room : Text) (env : Envelope)
      → buffer (append m r env) room
        ≡ (if r == room then recent m.max (buffer m room ++ env ∷ []) else buffer m room)
  unfolding append
  buffer-append m r room env = ground (
    arith,
    ==_iff r room,
    get-put r room (last_of m.max (buffer m r ++ env ∷ [])) m.rooms,
    last_of-eq m.max (buffer m r ++ env ∷ []),
  )

  append_max : (m : Memory Envelope) (r : Text) (env : Envelope) → (append m r env).max ≡ m.max
  unfolding append
  append_max m r env = refl

  buffer-append_all :
      (m : Memory Envelope) (room : Text) (xs : List Envelope) (es : List (Text × Envelope))
      → buffer m room ≡ recent m.max xs
      → buffer (append_all m es) room ≡ recent m.max (xs ++ appended room es)
  buffer-append_all m room xs [] h = rw append-nil h
  buffer-append_all m room xs ((r, env) ∷ es) h = elim (Bool-cases (r == room)) [
    | inl y ↦
        let b : buffer (append m r env) room ≡ recent (append m r env).max (xs ++ env ∷ []) =
          ground (
            arith,
            buffer-append m r room env,
            h,
            append_max m r env,
            recent-append m.max xs (env ∷ []),
          ) in
        let k = buffer-append_all (append m r env) room (xs ++ env ∷ []) es b in
        ground (arith, k, append_max m r env, append_assoc xs (env ∷ []) (appended room es))
    | inr n ↦
        let b : buffer (append m r env) room ≡ recent (append m r env).max xs =
          ground (arith, buffer-append m r room env, h, append_max m r env) in
        let k = buffer-append_all (append m r env) room xs es b in
        ground (arith, k, append_max m r env)
  ]

  -- A positive limit keeps the end of a list, any other keeps it all.
  abbrev pub limited : ℤ → List Envelope → List Envelope
  limited (pos zero) xs = xs
  limited (pos (suc n)) xs = recent (suc n) xs
  limited (negsuc n) xs = xs

  history-limited :
      (limit : ℤ) (m : Memory Envelope) (room : Text)
      → history m room limit ≡ limited limit (buffer m room)
  unfolding history
  history-limited (pos zero) m room = refl
  history-limited (pos (suc n)) m room = last_of-eq (suc n) (buffer m room)
  history-limited (negsuc n) m room = refl

  start :
      (max : ℤ) (room : Text)
      → buffer (new_memory {Envelope = Envelope} max) room
        ≡ recent (new_memory {Envelope = Envelope} max).max []
  unfolding new_memory get
  start (pos zero) room = refl
  start (pos (suc n)) room = sym (drop_nil (0 - suc n))
  start (negsuc n) room = refl

  -- After any appends to a new store, the history of a room is the last envelopes that were appended
  -- to the room, in order: as many as the store keeps, and of those the last ones up to a positive
  -- limit.
  pub history-append_all :
      (max limit : ℤ) (room : Text) (es : List (Text × Envelope))
      → history (append_all (new_memory max) es) room limit
        ≡ limited limit (recent (capacity max) (appended room es))
  history-append_all max limit room es =
      history-limited limit (append_all (new_memory max) es) room
      ∙ ap (limited limit) (
          buffer-append_all (new_memory max) room [] es (start max room)
          ∙ ap (λ n. recent n (appended room es)) (max-capacity Envelope max))
