-- ===== src/Publisher.antt =====
-- The publisher of alerts (services/publisher/publisher.go).
pub mod Batch
pub mod Metrics
pub mod Publishing
pub mod Tests
