-- ===== src/Client.antt =====
-- tui/client: the rules that a client enforces by itself.
pub mod Action
mod Tests
