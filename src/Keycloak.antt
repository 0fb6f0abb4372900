-- ===== src/Keycloak.antt =====
-- internal/source/keycloak/client.go: the source of groups, the Admin REST API of Keycloak.
pub mod Urls
pub mod Api
pub mod Token
pub mod Pages
pub mod Groups
pub mod Answering
pub mod Listed
pub mod Forest
pub mod Collected
pub mod Members
pub mod Distinct
pub mod Attempts
mod Tests
