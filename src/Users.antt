-- ===== src/Users.antt =====
-- The users table (src/db/User.ts): its documents, and the cursor over its rows.
pub mod Cursor
pub mod Paging
pub mod Documents
pub mod Writes
pub mod Saves
pub mod Projection
pub mod Tests
