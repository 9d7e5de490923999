-- ===== src/Attest.antt =====
-- tui/attest: signed statements beside the record.
pub mod Formats
pub mod Signers
pub mod Roster
pub mod Reasons
pub mod Pinned
pub mod Revocation
pub mod Identity
pub mod Receipt
mod Tests
