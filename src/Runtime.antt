-- ===== src/Runtime.antt =====
-- The parachain client library (runtime/src).
pub mod Errors
pub mod Requests
pub mod Retry
pub mod Addresses
mod Tests
