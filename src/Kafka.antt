-- ===== src/Kafka.antt =====
-- src/adapters/kafka: the offsets of a consumer (progress.rs), the source (source.rs) and the
-- transactional sink (transaction.rs).
pub mod Progress
pub mod Source
pub mod Transactions
pub mod Consumer
mod Tests
