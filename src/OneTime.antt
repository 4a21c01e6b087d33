-- ===== src/OneTime.antt =====
-- Opaque codes with a lifetime, kept in Redis or, while Redis is not available, in memory:
-- OAuth exchange codes, OAuth states with their PKCE challenge, email links and form tokens,
-- and verification poll tokens.
pub mod Store
pub mod Exchange
pub mod Pkce
pub mod EmailLink
pub mod Poll
pub mod Encoding
pub mod Tests
