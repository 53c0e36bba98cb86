-- ===== src/Scanner.antt =====
-- The agent pool of the scanner (services/scanner/agentpool).
pub mod Tests
pub mod Errors
pub mod Agent
pub mod Pool
