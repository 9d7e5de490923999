-- ===== src/Protocol.antt =====
-- protocol/: the bytes that netherchat signs (record_signing.go, action_signing.go,
-- artifact_signing.go, signing.go, direct.go). A `bytes.Buffer` that is only written to is the
-- concatenation of what is written.
pub mod Fields
pub mod Attest
pub mod Statement
pub mod Kinds
pub mod Injective
mod Tests
use netherchat.Base.{ℕ, Text, codes, List, [], ◌∷◌, ◌++◌, length}
use netherchat.Base.Int.{ℤ, to_u64}
use Fields.{be64, field}

abbrev pub record_tag : Text
record_tag = codes "netherchat/record/v1"

abbrev pub record_v2_tag : Text
record_v2_tag = codes "netherchat/record/v2"

abbrev pub seal_tag : Text
seal_tag = codes "netherchat/seal/v1"

abbrev pub seal_v2_tag : Text
seal_v2_tag = codes "netherchat/seal/v2"

abbrev pub action_tag : Text
action_tag = codes "netherchat/action-approval/v1"

abbrev pub action_v2_tag : Text
action_v2_tag = codes "netherchat/action-approval/v2"

abbrev pub artifact_tag : Text
artifact_tag = codes "netherchat/artifact-approval/v1"

abbrev pub artifact_v2_tag : Text
artifact_v2_tag = codes "netherchat/artifact-approval/v2"

abbrev pub msg_tag : Text
msg_tag = codes "netherchat/msg/v1"

abbrev pub direct_tag : Text
direct_tag = codes "netherchat/direct/v1"

-- kxDerivationDomain (tui/internal/crypto/sshkey.go): signed as it is, without a frame.
abbrev pub kx_derivation_domain : Text
kx_derivation_domain = codes "netherchat/x25519-agent-derivation/v1"

-- RecordSigningBytes
unfoldable pub record_signing_bytes : ℕ → ℤ → Text → Text → Text → Text → Text → Text
record_signing_bytes seq ts author_id kind actionee body prev_hash =
    field record_tag
    ++ (be64 seq
        ++ (be64 (to_u64 ts)
            ++ (field author_id ++ (field kind ++ (field actionee ++ (field body ++ prev_hash))))))

-- The links: the parallel slices `linkHashes` and `linkRels`, paired.
unfoldable pub write_links : List (Text × Text) → Text
write_links [] = []
write_links ((hash, rel) ∷ links) = field hash ++ (field rel ++ write_links links)

-- RecordSigningBytesV2
unfoldable pub record_signing_bytes_v2 :
    ℕ → ℤ → Text → Text → Text → Text → Text → Text → List (Text × Text) → Text → Text
record_signing_bytes_v2 seq ts author_id kind actionee body schema schema_ver links prev_hash =
    field record_v2_tag
    ++ (be64 seq
        ++ (be64 (to_u64 ts)
            ++ (field author_id
                ++ (field kind
                    ++ (field actionee
                        ++ (field body
                            ++ (field schema
                                ++ (field schema_ver
                                    ++ (be64 (length links)
                                        ++ (write_links links ++ prev_hash))))))))))

-- SealSigningBytes
unfoldable pub seal_signing_bytes : Text → Text → Text
seal_signing_bytes room head = field seal_tag ++ (field room ++ head)

-- SealSigningBytesV2
unfoldable pub seal_signing_bytes_v2 : Text → Text → Text → Text → Text → Text
seal_signing_bytes_v2 room meaning name signed_at head =
    field seal_v2_tag
    ++ (field room ++ (field meaning ++ (field name ++ (field signed_at ++ head))))

-- ActionApprovalSigningBytes
unfoldable pub action_signing_bytes : Text → Text → Text → Text → Text
action_signing_bytes request_id params_hash approver nonce =
    field action_tag ++ (field request_id ++ (field params_hash ++ (field approver ++ field nonce)))

-- ActionApprovalSigningBytesV2
unfoldable pub action_signing_bytes_v2 : Text → Text → Text → Text → Text → Text → Text → Text
action_signing_bytes_v2 request_id params_hash approver nonce meaning name signed_at =
    field action_v2_tag
    ++ (field request_id
        ++ (field params_hash
            ++ (field approver
                ++ (field nonce ++ (field meaning ++ (field name ++ field signed_at))))))

-- ArtifactApprovalSigningBytes
unfoldable pub artifact_signing_bytes : Text → Text → Text → Text → Text
artifact_signing_bytes proposal_id artifact_hash approver nonce =
    field artifact_tag
    ++ (field proposal_id ++ (field artifact_hash ++ (field approver ++ field nonce)))

-- ArtifactApprovalSigningBytesV2
unfoldable pub artifact_signing_bytes_v2 : Text → Text → Text → Text → Text → Text
artifact_signing_bytes_v2 proposal_id artifact_hash approver nonce role =
    field artifact_v2_tag
    ++ (field proposal_id
        ++ (field artifact_hash ++ (field approver ++ (field nonce ++ field role))))

-- SigningBytes
unfoldable pub signing_bytes : Text → Text → ℕ → Text → Text → Text
signing_bytes room_id from_id epoch nonce ciphertext =
    field msg_tag
    ++ (field room_id ++ (field from_id ++ (be64 epoch ++ (field nonce ++ field ciphertext))))

-- DirectAuthBytes
unfoldable pub direct_auth_bytes : Text → Text → Text → Text → Text
direct_auth_bytes signer_pub signer_nonce peer_pub peer_nonce =
    field direct_tag
    ++ (field signer_pub ++ (field signer_nonce ++ (field peer_pub ++ field peer_nonce)))
