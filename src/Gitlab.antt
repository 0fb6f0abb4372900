-- ===== src/Gitlab.antt =====
-- internal/provider/gitlab/client.go: the provider for GitLab groups.
pub mod Api
pub mod Groups
pub mod Users
pub mod Members
pub mod Terms
pub mod Settle
pub mod Prune
pub mod Sync
pub mod Removals
pub mod Limits
pub mod Quiet
pub mod Settled
pub mod Unpruned
pub mod Deletions
pub mod Matches
pub mod Paging
mod Tests
