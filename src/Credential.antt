-- ===== src/Credential.antt =====
-- internal/credential/credential.go: the loaders of credentials.
pub mod Runes
pub mod Reference
pub mod Loading
pub mod Stable
pub mod Newest
mod Tests
