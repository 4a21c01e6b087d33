-- ===== src/Lib.antt =====
-- Verification of the UAM backend, a TypeScript service for accounts and sessions.
--
-- Redis stands behind a circuit breaker; the cache commands of the services run through it, and a
-- command that it refuses counts as a miss. The limiter keeps its counters in Redis and falls back
-- to memory. The services for one-time codes (OAuth exchange, OAuth state with PKCE, email links,
-- verification polls) keep records in Redis, or in memory while Redis is away. Sessions keep the
-- digests of refresh tokens in the user's row, and publish a token version in Redis. User rows are
-- found by filters that are compiled to SQL with numbered parameters, and saved by documents that
-- track what was written. An inverted index tells whose an email or an OAuth account is. The
-- controllers join these: registering, signing in, resetting a password, and moving an account to
-- another email.
--
-- Files and what they model:
--   Prelude    numbers, lists, texts as lists of character codes, maps as association lists
--   Breaker    src/config/redisCircuitBreaker.ts: Config (CircuitBreakerConfig, clampConfig), Window
--              (RollingWindow, percentileUs), Machine (class CircuitBreaker: acquire, release,
--              tripOpen, reset), Calls (withCircuitBreaker, classifyRedisError)
--   Cache      src/config/redis.ts: cacheSet, cacheGet, cacheDel
--   RateLimit  Robust (src/robustRateLimiter.ts: checkLimit, localRateLimit, distributedRateLimit,
--              resetLimit), Login (src/middleware/advancedLimiter.ts)
--   OneTime    Store (what the services share), Exchange (src/services/oauth-exchange.service.ts),
--              Pkce (src/services/oauth-pkce.service.ts), EmailLink
--              (src/services/email-link.service.ts), Poll
--              (src/services/verification-poll.service.ts)
--   Session    src/services/session.service.ts, src/utils/refresh-token.util.ts and the row update
--              of src/db/User.ts
--   Filter     src/db/filter.ts (buildWhere) and the column table of src/db/columns.ts
--   Auth       src/middleware/auth.middleware.ts
--   Account    the columns of a user (IUser of src/db/User.ts) that sessions are not made of
--   Identity   Table (src/db/UserIdentityIndex.ts), Service (src/services/identity-index.service.ts)
--   Users      Documents (class User of src/db/User.ts: projections, dirty tracking, the UPDATE of a
--              save), Cursor (UserQuery.cursor)
--   Accounts   World (the state that the handlers share), Passwords (src/utils/password.util.ts),
--              and src/controllers/auth.controller.ts: Login, Tokens (refreshAccessToken, logout),
--              Signup (register, resendVerification, verifyEmail), Reset; Profile
--              (src/controllers/profile.controller.ts)
--   Migration  src/controllers/migration.controller.ts: Start (initiateMigration), Resend, Verify
--              (verifyCurrentEmail, verifyNewEmail), Finalize, Status; Preserve
--              (src/utils/migration-data-preserver.ts)
--   OAuth      Strategy (findUserForOAuth of src/config/passport.ts, src/utils/oauth.util.ts), SignIn
--              (the two strategies of src/config/passport.ts)
--   Requests   src/middleware/csrf.middleware.ts, requireVerifiedEmail of
--              src/middleware/auth.middleware.ts, and the lifetimes of
--              src/services/token.service.ts, src/utils/cookie.util.ts and
--              src/services/revoke.service.ts
--
-- How the code is modelled: an object is a record, a method is a function from the record before to
-- the record after and the answer. The clock, Math.random and the outcome of a Redis command are
-- arguments of the handler that uses them. A handler that waits between two commands is two
-- functions where another request may come between (OneTime.Store.read_raw and finish_read,
-- Session.rotate_find and rotate_update). Concurrent calls through the breaker are a list of calls
-- and a sequence of events. Numbers are naturals; the source's counters stay far below 2^53. Rates
-- are fractions compared by cross multiplication. All recursion is structural, but for
-- the cursor over the users, whose loop is on fuel: more than the number of rows is enough. The
-- handlers of the controllers run without another request between their steps, and read the clock
-- once; the database answers; a failure is a duplicate key, a look-up that finds nothing, or an
-- exception of the code store. The foreign key from the identity index to the users is taken as met:
-- each caller syncs a user that it has just read or saved. Texts are lists of code points; emails are
-- taken to be ASCII, as the validators ask, where they are put in lower case.
--
-- The Redis server (Cache.RedisStore, RateLimit.Robust.Counters), JSON (OneTime.Store.Json), the
-- digests, bcrypt and the decoding of a token's payload are parameters with their documented laws;
-- Cache.Table, OneTime.Encoding and the Tests modules hold instances of them.
--
-- Not modelled: log lines and metrics export, connections and pools, the running of SQL, the HTTP
-- layer, the texts of emails, the other middleware and utilities, and of
-- src/controllers/auth.controller.ts the handlers redeemEmailLink, prepareOAuth,
-- handleOAuthSuccess, exchangeOAuthCode and the reads getCurrentUser, checkEmailAvailability and
-- getOAuthProviders.
pub mod Prelude
pub mod Account
pub mod Identity
pub mod Users
pub mod Accounts
pub mod Migration
pub mod OAuth
pub mod Requests
pub mod Breaker
pub mod RateLimit
pub mod Cache
pub mod OneTime
pub mod Session
pub mod Filter
pub mod Auth
