-- ===== src/Filtering.antt =====
-- pkg/filtering: blocklists and the allowlist.
pub mod BlockedLog
pub mod DomainSet
pub mod Filter
pub mod Parser
pub mod Loader
pub mod Refresh
pub mod Sources
pub mod Manager
