-- ===== src/Lib.antt =====
-- netherchat: the record that a team seals, the attestations beside it, the rule that gates its dangerous
-- actions, and the blind relay's stores and sockets.
--
-- A client (tui/) keeps a record of decisions as a chain of signed entries. Peers exchange entries
-- and append what verifies (Record.Chain). At the end the chain is sealed: signers co-sign its head
-- (Record.Sealer), and anybody who holds the file verifies it offline (Record.Sealed.Verify), with
-- the approvals of artifacts that the entries mention (Record.Sealed.Approvals). Beside the record,
-- rosters say who held a room key, receipts that a room was destroyed, and identity attestations what
-- an issuer says of a key, against keys that the verifier pins (Attest). What is signed is a
-- domain-separated byte string (Protocol), but for the domain of a key derivation and the JSON of a
-- pairing blob. A dangerous action of a client waits for approvals of
-- other members (Client.Action). The relay (server/) holds the members of each room (Server.Hub) and a
-- few small stores, whose keys are rooms and tokens and whose contents it cannot read. A signed alert
-- or a webhook that fires a rule opens a war room with invites (Server.Ingress), and a dead-man's switch
-- burns rooms that are idle, armed or left by their owner (Server.Scuttle).
--
-- Files and sources:
--   Protocol, Protocol/Fields: protocol/signing.go, record_signing.go, action_signing.go,
--     artifact_signing.go, direct.go, with kxDerivationDomain of
--     tui/internal/crypto/sshkey.go; Protocol/Attest: attest_signing.go, identity_signing.go,
--     duress_signing.go, alert_signing.go; Protocol/Statement: the eighteen kinds of signed statements as
--     one data type, that of tui/sneakernet/blob.go as its JSON text.
--   Record/Library: what the record calls outside the repository, and ArtifactMeta of
--     tui/record/artifact.go, Fingerprint of tui/internal/crypto/identity.go.
--   Record/Entry, Record/Chain: tui/record/record.go (VerifyEntry, Append, AppendNew, AppendRemote).
--   Record/Sealed, Record/Sealed/Approvals, Record/Sealed/Verify: tui/record/sealed.go.
--   Record/Sealer: tui/record/sealer.go.
--   Attest/Roster, Attest/Receipt, Attest/Signers: tui/attest/roster.go, receipt.go, attest.go;
--     Attest/Identity, Attest/Revocation, Attest/Pinned, Attest/Reasons: tui/attest/identity.go and
--     revocation.go; Attest/Formats: what these call outside the repository.
--   Client/Action, Client/Action/Methods: tui/client/action.go, with quorumFor and canGateQuorum of
--     tui/client/client.go and the message bodies of protocol/ext.go.
--   Server/Hub: server/internal/hub/hub.go; Server/Invite: server/internal/invite/invite.go;
--   Server/Ephemeral: server/internal/ephemeral/ephemeral.go; Server/Beacon:
--     server/internal/beacon/beacon.go; Server/Memory: server/internal/store/memory.go;
--   Server/Transfers: server/internal/ws/transfers.go; Server/Scuttle: server/internal/scuttle/scuttle.go,
--     its goroutines as a step relation (Server/Scuttle/Steps); Server/Alert: server/internal/alert/alert.go;
--     Server/Route: server/internal/route/route.go; Server/Ingress: the alert socket and the webhook of
--     server/internal/api/api.go, which composes them with Server/Ephemeral and Server/Invite.
--   Base: shared names, Go's results, maps, byte strings and sorting.
--
-- A method that changes its receiver returns the new one; an error is a value. Byte strings and
-- texts are lists of natural numbers; uint64 and int64 values keep their wrap-around in the signed
-- bytes. Maps are association lists, read by the key. Times, random draws, signatures that an identity
-- makes and the outcome of a send are arguments. SHA-256, Ed25519, the SSH fingerprint, base64, hex and
-- the JSON of an artifact are the fields of the instance argument Library (RFC 3339, unpadded base64 and
-- the JSON of a receipt those of Formats), with the laws that their
-- documentation gives; of the hash nothing is assumed but its size. The relay's HMAC, regular expressions,
-- text trimming, URL queries and message encoding are such arguments too (Mac, Regexp, Web, Encoding), and
-- the verdicts of its rate limiters come with a request. A number of a webhook's payload is a record of
-- what math and strconv answer for it (Float64).
--
-- Every loop is a recursion on the list that it ranges over. The one loop without a bound, the draw of
-- a free room name, runs over the list of the draws and gives nothing where the list ends.
--
-- Not modelled: goroutines and locks (a method is one step, but in Server/Scuttle), JSON and the files
-- around the record, the rendered minutes, the rate limiters, the frames of the websocket relay, network
-- and terminal I/O, encryption and key exchange, and the adapters of other services.
pub mod Attest
pub mod Base
pub mod Client
pub mod Protocol
pub mod Record
pub mod Server
