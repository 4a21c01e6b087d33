-- ===== src/Accounts.antt =====
-- The accounts and the handlers of the authentication routes
-- (src/controllers/auth.controller.ts), over users, sessions, the identity index and email links.
pub mod World
pub mod Passwords
pub mod Login
pub mod Tokens
pub mod Email
pub mod Reset
pub mod Signup
pub mod Access
pub mod Replay
pub mod Resetting
pub mod Saving
pub mod Profile
pub mod Samples
pub mod Tests
