-- ===== src/Identity.antt =====
-- The inverted identity index: which user an email or an OAuth account belongs to.
pub mod Table
pub mod Service
pub mod Rows
pub mod Sync
pub mod Resolve
pub mod Tests
