-- ===== src/Server.antt =====
-- server/internal: the blind relay's stores.
pub mod Clock
pub mod Invite
pub mod Memory
pub mod Beacon
pub mod Ephemeral
pub mod Transfers
pub mod Hub
pub mod Scuttle
pub mod Alert
pub mod Route
pub mod Ingress
mod Tests
