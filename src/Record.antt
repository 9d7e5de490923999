-- ===== src/Record.antt =====
-- tui/record: the hash-chained, multi-party-signed record.
pub mod Library
pub mod Entry
pub mod Chain
pub mod Sealed
pub mod Sealer
pub mod Tests
