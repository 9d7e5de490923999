-- ===== src/Protocol/Attest.antt =====
-- The bytes signed outside the record: rosters and receipts (attest_signing.go), identities and
-- revocations (identity_signing.go), duress beacons (duress_signing.go) and alerts
-- (alert_signing.go).
use netherchat.Base.{ℕ, Text, codes, List, [], ◌∷◌, ◌++◌, length}
use netherchat.Base.Int.{ℤ, to_u64}
use netherchat.Protocol.Fields.{be64, field, fields}

abbrev pub roster_tag : Text
roster_tag = codes "netherchat/roster/v1"

abbrev pub receipt_tag : Text
receipt_tag = codes "netherchat/receipt/v1"

abbrev pub identity_tag : Text
identity_tag = codes "netherchat/identity/v2"

abbrev pub revocation_tag : Text
revocation_tag = codes "netherchat/identity-revocation/v1"

abbrev pub duress_tag : Text
duress_tag = codes "netherchat/duress-beacon/v1"

abbrev pub alert_tag : Text
alert_tag = codes "netherchat/alert/v1"

-- RosterSigningBytes
unfoldable pub roster_signing_bytes : Text → ℕ → Text → Text
roster_signing_bytes room epoch set_hash =
    field roster_tag ++ (field room ++ (be64 epoch ++ set_hash))

-- ScuttleReceiptSigningBytes
unfoldable pub receipt_signing_bytes : Text → Text
receipt_signing_bytes receipt_hash = field receipt_tag ++ receipt_hash

-- IdentitySigningBytes
unfoldable pub identity_signing_bytes :
    Text → Text → Text → Text → Text → List Text → Text → Text → Text → Text → Text
identity_signing_bytes serial subject principal display_name principal_type roles issued_at
      expires_at algorithm issuer =
    field identity_tag
    ++ (field serial
        ++ (field subject
            ++ (field principal
                ++ (field display_name
                    ++ (field principal_type
                        ++ (be64 (length roles)
                            ++ fields roles (
                                field issued_at
                                ++ (field expires_at ++ (field algorithm ++ field issuer)))))))))

-- The parallel slices `serials`, `revokedAt` and `reasons`, as triples.
unfoldable pub write_revoked : List (Text × Text × Text) → Text
write_revoked [] = []
write_revoked ((serial, revoked_at, reason) ∷ es) =
    field serial ++ (field revoked_at ++ (field reason ++ write_revoked es))

-- RevocationSigningBytes
unfoldable pub revocation_signing_bytes :
    Text → Text → ℕ → Text → Text → List (Text × Text × Text) → Text
revocation_signing_bytes issuer statement_id number issued_at next_update revoked =
    field revocation_tag
    ++ (field issuer
        ++ (field statement_id
            ++ (be64 number
                ++ (field issued_at
                    ++ (field next_update ++ (be64 (length revoked) ++ write_revoked revoked))))))

-- DuressBeaconSigningBytes
unfoldable pub duress_signing_bytes : Text → Text → Text → Text → Text → Text
duress_signing_bytes actor mode context issued_at nonce =
    field duress_tag
    ++ (field actor ++ (field mode ++ (field context ++ (field issued_at ++ field nonce))))

-- AlertSigningBytes
unfoldable pub alert_signing_bytes : Text → Text → Text → Text → Text → ℤ → Text
alert_signing_bytes source severity kind summary ref ts =
    field alert_tag
    ++ (field source
        ++ (field severity ++ (field kind ++ (field summary ++ (field ref ++ be64 (to_u64 ts))))))
