-- ===== src/Webhook.antt =====
-- internal/webhook/keycloak.go: the endpoint that takes signed event hints.
pub mod Events
pub mod Signature
pub mod Handler
pub mod Classified
pub mod Genuine
pub mod Accepted
pub mod Replays
mod Tests
