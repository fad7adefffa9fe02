-- ===== src/Bitcoin.antt =====
-- The Bitcoin client library (bitcoin/src).
pub mod Errors
pub mod Transactions
pub mod Streams
pub mod Wallet
mod Tests
