-- ===== src/Protocol/Kinds.antt =====
-- Statements that share their signing bytes are of one kind: a framed one begins with a zero byte and
-- has its tag first, and the others begin with a letter or a brace.
use netherchat.Base.{ℕ, ◌<◌, ◌≡◌, refl, sym, ◌∙◌, ap, Text, ◌++◌, ◌==◌, if◌then◌else◌, arith}
use netherchat.Protocol.Fields.{IsSlice, be64, field, field_cancel}
use netherchat.Protocol.Attest.{
  roster_tag, receipt_tag, identity_tag, revocation_tag, duress_tag, alert_tag,
  roster_signing_bytes, receipt_signing_bytes, identity_signing_bytes, revocation_signing_bytes,
  duress_signing_bytes, alert_signing_bytes,
}
use netherchat.Protocol.{
  record_tag, record_v2_tag, seal_tag, seal_v2_tag, action_tag, action_v2_tag, artifact_tag,
  artifact_v2_tag, msg_tag, record_signing_bytes, record_signing_bytes_v2, seal_signing_bytes,
  seal_signing_bytes_v2, action_signing_bytes, action_signing_bytes_v2, artifact_signing_bytes,
  artifact_signing_bytes_v2, signing_bytes, direct_auth_bytes,
}
use netherchat.Protocol.Statement.{
  Statement, entry, entry_v2, seal, seal_v2, action, action_v2, artifact, artifact_v2, message,
  bytes, tag, roster, receipt, identity, revocation, duress, alert, direct, derivation, blob, first,
  IsSized,
}

IsSlice-tag : (p : Statement) → IsSlice (tag p)
IsSlice-tag (entry _ _ _ _ _ _ _) = omega arith
IsSlice-tag _ = omega arith

abbrev kind_of : Text → ℕ
kind_of t =
    if t == record_tag
    then 0
    else if t == record_v2_tag
    then 1
    else if t == seal_tag
    then 2
    else if t == seal_v2_tag
    then 3
    else if t == action_tag
    then 4
    else if t == action_v2_tag
    then 5
    else if t == artifact_tag
    then 6
    else if t == artifact_v2_tag
    then 7
    else if t == msg_tag
    then 8
    else if t == roster_tag
    then 9
    else if t == receipt_tag
    then 10
    else if t == identity_tag
    then 11
    else if t == revocation_tag
    then 12
    else if t == duress_tag
    then 13
    else if t == alert_tag
    then 14
    else 15

abbrev kind : Statement → ℕ
kind (entry _ _ _ _ _ _ _) = 0
kind (entry_v2 _ _ _ _ _ _ _ _ _ _) = 1
kind (seal _ _) = 2
kind (seal_v2 _ _ _ _ _) = 3
kind (action _ _ _ _) = 4
kind (action_v2 _ _ _ _ _ _ _) = 5
kind (artifact _ _ _ _) = 6
kind (artifact_v2 _ _ _ _ _) = 7
kind (message _ _ _ _ _) = 8
kind (roster _ _ _) = 9
kind (receipt _) = 10
kind (identity _ _ _ _ _ _ _ _ _ _) = 11
kind (revocation _ _ _ _ _ _) = 12
kind (duress _ _ _ _ _) = 13
kind (alert _ _ _ _ _ _) = 14
kind (direct _ _ _ _) = 15
kind derivation = 110
kind (blob _) = 123

-- A statement is framed, or told by its first byte.
data Form : Statement → Type 0 where
  framed :
      {p : Statement} (r : Text)
      → bytes p ≡ field (tag p) ++ r
      → kind_of (tag p) ≡ kind p
      → first (bytes p) ≡ 0
      → Form p
  bare : {p : Statement} → first (bytes p) ≡ kind p → 0 < kind p → Form p

form : (p : Statement) → IsSized p → Form p
unfolding record_signing_bytes record_signing_bytes_v2 seal_signing_bytes seal_signing_bytes_v2
    action_signing_bytes action_signing_bytes_v2 artifact_signing_bytes artifact_signing_bytes_v2
    signing_bytes roster_signing_bytes receipt_signing_bytes identity_signing_bytes
    revocation_signing_bytes duress_signing_bytes alert_signing_bytes direct_auth_bytes field be64
    ◌==◌
form derivation h = bare refl (omega arith)
form (blob _) h = bare h (omega arith)
form (entry _ _ _ _ _ _ _) h = framed _ refl refl refl
form (entry_v2 _ _ _ _ _ _ _ _ _ _) h = framed _ refl refl refl
form (seal _ _) h = framed _ refl refl refl
form (seal_v2 _ _ _ _ _) h = framed _ refl refl refl
form (action _ _ _ _) h = framed _ refl refl refl
form (action_v2 _ _ _ _ _ _ _) h = framed _ refl refl refl
form (artifact _ _ _ _) h = framed _ refl refl refl
form (artifact_v2 _ _ _ _ _) h = framed _ refl refl refl
form (message _ _ _ _ _) h = framed _ refl refl refl
form (roster _ _ _) h = framed _ refl refl refl
form (receipt _) h = framed _ refl refl refl
form (identity _ _ _ _ _ _ _ _ _ _) h = framed _ refl refl refl
form (revocation _ _ _ _ _ _) h = framed _ refl refl refl
form (duress _ _ _ _ _) h = framed _ refl refl refl
form (alert _ _ _ _ _ _) h = framed _ refl refl refl
form (direct _ _ _ _) h = framed _ refl refl refl

-- Two statements of different kinds never share their signing bytes.
pub same_bytes_same_kind :
    (p q : Statement) → IsSized p → IsSized q → bytes p ≡ bytes q → kind p ≡ kind q
same_bytes_same_kind p q hp hq e = agree (form p hp) (form q hq)
  where
    same : first (bytes p) ≡ first (bytes q)
    same = ap first e

    agree : Form p → Form q → kind p ≡ kind q
    agree (framed r a k z) (framed s b l y) =
        let t =
          (field_cancel (tag p) (tag q) r s (IsSlice-tag p) (IsSlice-tag q) (sym a ∙ e ∙ b)).0 in
        sym k ∙ ap kind_of t ∙ l
    agree (framed r a k z) (bare b y) = absurd (omega (arith, same))
    agree (bare a z) (framed s b l y) = absurd (omega (arith, same))
    agree (bare a z) (bare b y) = sym a ∙ same ∙ b
