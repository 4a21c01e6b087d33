-- ===== src/Requests.antt =====
-- Guards and conversions of a request: the CSRF double submit
-- (src/middleware/csrf.middleware.ts), requireVerifiedEmail (src/middleware/auth.middleware.ts), the
-- two parsers of a lifetime (src/services/token.service.ts, src/utils/cookie.util.ts) and the
-- lifetime that is sent with a revocation (src/services/revoke.service.ts).
pub mod Lifetimes
pub mod Tests
use uam_backend.Prelude.{
  none, some, true, false, Text, Bool, Option, ℕ, if◌then◌else◌, leb, ◌*◌, ◌∷◌, suc, not, ◌&&◌, ◌+◌,
  ◌==◌, ◌/◌, [], ◌-◌, min, text_eq, max, zero,
}
use uam_backend.Account.{non_empty}
use uam_backend.Accounts.Login.{is_true}
use uam_backend.Accounts.Passwords.{has_text}

-- requireCsrf: whether refresh tokens are only in cookies (omitRefreshInBody), the cookie, and the
-- header, which is empty if it is missing.
unfoldable pub require_csrf : Bool → Option Text → Text → Bool
require_csrf omit cookie header = if not omit then true else elim (non_empty cookie) [
  | none ↦ false
  | some token ↦ has_text header && text_eq token header
]

-- issueCsrfCookie: the token, and whether a cookie is set.
unfoldable pub issue_csrf_cookie : Option Text → Text → Text × Bool
issue_csrf_cookie cookie fresh = elim (non_empty cookie) [
  | some token ↦ (token, false)
  | none ↦ (fresh, true)
]

-- requireVerifiedEmail: whether the next handler is called.
unfoldable pub require_verified_email : Option Bool → Bool
require_verified_email user = is_true user

abbrev is_digit : ℕ → Bool
is_digit c = leb b'0' c && leb c b'9'

-- parseInt of the digits of a text that has only digits before its last character, and that
-- character: /^(\d+)([smhd])$/.
unfoldable pub digits_and_unit : ℕ → Text → Option (ℕ × ℕ)
digits_and_unit value [] = none
digits_and_unit value (c ∷ []) = some (value, c)
digits_and_unit value (c ∷ d ∷ cs) =
    let rest = digits_and_unit (value * 10 + (c - b'0')) (d ∷ cs) in
    if is_digit c then rest else none

-- The seconds of a unit; any other character does not match.
abbrev pub unit_seconds : ℕ → Option ℕ
unit_seconds u =
    if u == b's'
    then some 1
    else if u == b'm'
    then some 60
    else if u == b'h'
    then some 3_600
    else if u == b'd'
    then some 86_400
    else none

-- The value and the seconds of its unit; there is a digit before the unit.
unfoldable pub match_expiry : Text → Option (ℕ × ℕ)
unfolding digits_and_unit
match_expiry [] = none
match_expiry (c ∷ []) = none
match_expiry (c ∷ d ∷ cs) = elim (digits_and_unit 0 (c ∷ d ∷ cs)) [
  | none ↦ none
  | some (value, u) ↦ elim (unit_seconds u) [ none ↦ none | some s ↦ some (value, s) ]
]

-- parseExpiry, in seconds
unfoldable pub parse_expiry : Text → ℕ
parse_expiry expiry = elim (match_expiry expiry) [ none ↦ 900 | some (value, s) ↦ value * s ]

-- parseExpiryMs, in milliseconds
unfoldable pub parse_expiry_ms : Text → ℕ
parse_expiry_ms expiry = elim (match_expiry expiry) [
  | none ↦ 7 * 86_400_000
  | some (value, s) ↦ value * (s * 1_000)
]

-- remainingTtlSecs at a time in milliseconds; an `exp` of 0 counts as none.
unfoldable pub remaining_ttl_secs : ℕ → Option ℕ → ℕ
remaining_ttl_secs now none = 3_600
remaining_ttl_secs now (some zero) = 3_600
remaining_ttl_secs now (some (suc n)) =
    if leb (suc n) (now / 1_000) then 60 else min (max (suc n - now / 1_000) 60) 86_400
