-- ===== src/Vault.antt =====
-- internal/provider/vault/client.go: the target that only verifies, Vault.
pub mod Policy
pub mod Api
pub mod Session
pub mod Access
pub mod Provisioned
pub mod Shown
pub mod Sound
pub mod Answering
pub mod Complete
mod Tests
