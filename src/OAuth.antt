-- ===== src/OAuth.antt =====
-- Signing in with Google or GitHub (src/config/passport.ts, src/utils/oauth.util.ts).
pub mod Strategy
pub mod SignIn
pub mod Takeover
pub mod Tests
