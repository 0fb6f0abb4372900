-- ===== src/Config.antt =====
-- internal/config/config.go: the configuration and its validation.
pub mod Types
pub mod Checks
pub mod Targets
pub mod Rules
pub mod Validate
pub mod Mapped
pub mod Ready
pub mod Valid
mod Tests
