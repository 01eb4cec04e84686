-- ===== src/Pulsar.antt =====
-- src/adapters/pulsar: the task that sends rejected messages again (resend.rs).
pub mod Resend
mod Tests
