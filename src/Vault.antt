-- ===== src/Vault.antt =====
-- The vault client (vault/src).
pub mod Errors
pub mod Blocks
pub mod Cancellation
pub mod Requests
pub mod Payment
pub mod OpenRequests
pub mod Relay
pub mod IssueSet
pub mod Rescan
pub mod Issue
pub mod Replace
pub mod Redeem
pub mod Delay
pub mod VaultIds
