-- ===== src/Protocol/Statement.antt =====
-- What a netherchat signature can attest, and the bytes that are signed for it: one constructor for
-- each signing-bytes function of protocol/, one for the domain that an agent's key signs to derive a
-- key (tui/internal/crypto/sshkey.go), and one for a pairing blob (tui/sneakernet/blob.go), which is
-- signed as JSON and stands here for the text that json.Marshal gives.
use netherchat.Base.{ℕ, ◌^◌, ◌<◌, ◌≡◌, Text, List, [], ◌∷◌, All}
use netherchat.Base.Int.{ℤ, IsInt64}
use netherchat.Protocol.Fields.{IsSlice}
use netherchat.Protocol.Attest.{
  roster_tag, receipt_tag, identity_tag, revocation_tag, duress_tag, alert_tag,
  roster_signing_bytes, receipt_signing_bytes, identity_signing_bytes, revocation_signing_bytes,
  duress_signing_bytes, alert_signing_bytes,
}
use netherchat.Protocol.{
  record_tag, record_v2_tag, seal_tag, seal_v2_tag, action_tag, action_v2_tag, artifact_tag,
  artifact_v2_tag, msg_tag, record_signing_bytes, record_signing_bytes_v2, seal_signing_bytes,
  seal_signing_bytes_v2, action_signing_bytes, action_signing_bytes_v2, artifact_signing_bytes,
  artifact_signing_bytes_v2, signing_bytes, direct_tag, kx_derivation_domain, direct_auth_bytes,
}

pub data Statement : Type 0 where
  entry : ℕ → ℤ → Text → Text → Text → Text → Text → Statement
  entry_v2 : ℕ → ℤ → Text → Text → Text → Text → Text → Text → List (Text × Text) → Text → Statement
  seal : Text → Text → Statement
  seal_v2 : Text → Text → Text → Text → Text → Statement
  action : Text → Text → Text → Text → Statement
  action_v2 : Text → Text → Text → Text → Text → Text → Text → Statement
  artifact : Text → Text → Text → Text → Statement
  artifact_v2 : Text → Text → Text → Text → Text → Statement
  message : Text → Text → ℕ → Text → Text → Statement
  roster : Text → ℕ → Text → Statement
  receipt : Text → Statement
  identity : Text → Text → Text → Text → Text → List Text → Text → Text → Text → Text → Statement
  revocation : Text → Text → ℕ → Text → Text → List (Text × Text × Text) → Statement
  duress : Text → Text → Text → Text → Text → Statement
  alert : Text → Text → Text → Text → Text → ℤ → Statement
  direct : Text → Text → Text → Text → Statement
  derivation : Statement
  blob : Text → Statement

abbrev pub bytes : Statement → Text
bytes (entry seq ts a k o b p) = record_signing_bytes seq ts a k o b p
bytes (entry_v2 seq ts a k o b s v l p) = record_signing_bytes_v2 seq ts a k o b s v l p
bytes (seal r h) = seal_signing_bytes r h
bytes (seal_v2 r m n t h) = seal_signing_bytes_v2 r m n t h
bytes (action i p f n) = action_signing_bytes i p f n
bytes (action_v2 i p f n m w t) = action_signing_bytes_v2 i p f n m w t
bytes (artifact i h f n) = artifact_signing_bytes i h f n
bytes (artifact_v2 i h f n r) = artifact_signing_bytes_v2 i h f n r
bytes (message r f e n c) = signing_bytes r f e n c
bytes (roster r e h) = roster_signing_bytes r e h
bytes (receipt h) = receipt_signing_bytes h
bytes (identity s u p d t r i e a j) = identity_signing_bytes s u p d t r i e a j
bytes (revocation j i n t u r) = revocation_signing_bytes j i n t u r
bytes (duress a m c i n) = duress_signing_bytes a m c i n
bytes (alert s v k m r t) = alert_signing_bytes s v k m r t
bytes (direct s n p m) = direct_auth_bytes s n p m
bytes derivation = kx_derivation_domain
bytes (blob json) = json

-- The domain-separation tag, empty where there is no frame.
abbrev pub tag : Statement → Text
tag (entry _ _ _ _ _ _ _) = record_tag
tag (entry_v2 _ _ _ _ _ _ _ _ _ _) = record_v2_tag
tag (seal _ _) = seal_tag
tag (seal_v2 _ _ _ _ _) = seal_v2_tag
tag (action _ _ _ _) = action_tag
tag (action_v2 _ _ _ _ _ _ _) = action_v2_tag
tag (artifact _ _ _ _) = artifact_tag
tag (artifact_v2 _ _ _ _ _) = artifact_v2_tag
tag (message _ _ _ _ _) = msg_tag
tag (roster _ _ _) = roster_tag
tag (receipt _) = receipt_tag
tag (identity _ _ _ _ _ _ _ _ _ _) = identity_tag
tag (revocation _ _ _ _ _ _) = revocation_tag
tag (duress _ _ _ _ _) = duress_tag
tag (alert _ _ _ _ _ _) = alert_tag
tag (direct _ _ _ _) = direct_tag
tag derivation = []
tag (blob _) = []

-- The first byte, and no byte where there is none.
abbrev pub first : Text → ℕ
first [] = 256
first (b ∷ _) = b

abbrev pub IsSliceTriple : Text × Text × Text → Type 0
IsSliceTriple (a, b, c) = IsSlice a × IsSlice b × IsSlice c

abbrev pub IsSlicePair : Text × Text → Type 0
IsSlicePair (a, b) = IsSlice a × IsSlice b

-- The values fit Go's types: uint64 numbers, int64 times, slices shorter than 2^63. The JSON of a
-- blob is an object, so its text opens with a brace.
abbrev pub IsSized : Statement → Type 0
IsSized (entry seq ts a k o b p) = (seq < 2 ^ 64) × IsInt64 ts × All IsSlice (a ∷ k ∷ o ∷ b ∷ [])
IsSized (entry_v2 seq ts a k o b s v l p) =
    (seq < 2 ^ 64)
    × IsInt64 ts
    × All IsSlice (a ∷ k ∷ o ∷ b ∷ s ∷ v ∷ [])
    × IsSlice l
    × All IsSlicePair l
IsSized (seal r h) = All IsSlice (r ∷ [])
IsSized (seal_v2 r m n t h) = All IsSlice (r ∷ m ∷ n ∷ t ∷ [])
IsSized (action i p f n) = All IsSlice (n ∷ i ∷ p ∷ f ∷ [])
IsSized (action_v2 i p f n m w t) = All IsSlice (t ∷ i ∷ p ∷ f ∷ n ∷ m ∷ w ∷ [])
IsSized (artifact i h f n) = All IsSlice (n ∷ i ∷ h ∷ f ∷ [])
IsSized (artifact_v2 i h f n r) = All IsSlice (r ∷ i ∷ h ∷ f ∷ n ∷ [])
IsSized (message r f e n c) = All IsSlice (r ∷ f ∷ []) × (e < 2 ^ 64) × IsSlice n × IsSlice c
IsSized (roster r e h) = IsSlice r × (e < 2 ^ 64)
IsSized (receipt h) = Unit
IsSized (identity s u p d t r i e a j) =
    All IsSlice (s ∷ u ∷ p ∷ d ∷ t ∷ [])
    × IsSlice r
    × All IsSlice r
    × All IsSlice (j ∷ i ∷ e ∷ a ∷ [])
IsSized (revocation j i n t u r) =
    All IsSlice (j ∷ i ∷ [])
    × (n < 2 ^ 64)
    × All IsSlice (t ∷ u ∷ [])
    × IsSlice r
    × All IsSliceTriple r
IsSized (duress a m c i n) = All IsSlice (n ∷ a ∷ m ∷ c ∷ i ∷ [])
IsSized (alert s v k m r t) = All IsSlice (s ∷ v ∷ k ∷ m ∷ r ∷ []) × IsInt64 t
IsSized (direct s n p m) = All IsSlice (m ∷ s ∷ n ∷ p ∷ [])
IsSized derivation = Unit
IsSized (blob json) = first json ≡ 123
