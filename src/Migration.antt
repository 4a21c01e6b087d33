-- ===== src/Migration.antt =====
-- Moving an account to another email (src/controllers/migration.controller.ts,
-- src/utils/migration-data-preserver.ts). The user that the middleware attached to a request is the
-- account as it stands when the handler starts.
pub mod Start
pub mod Resend
pub mod Preserve
pub mod Finalize
pub mod Verify
pub mod Status
pub mod Stuck
pub mod Marks
pub mod Merge
pub mod Tests
