-- ===== src/Auth/Tests.antt =====
-- The middleware's theorems at concrete inputs: the token `t` carries version 3 for the user `u1`.
use uam_backend.Prelude.{
  Text, Option, text, if◌then◌else◌, some, [], true, starts_with, text_eq, replicate, ◌∷◌, ◌≡◌,
  none, lookup, refl,
}
use uam_backend.Auth.{TokenPayload, bearer_token, authenticate, session_expired}
use uam_backend.Session.{Outside, UserRow, Sessions, Moment, invalidate_all_sessions}
use uam_backend.Cache.Table.{table, Table}
use uam_backend.Cache.{answered}
use uam_backend.Auth.Versions.{authenticate-invalidate_all_sessions}

abbrev payload : TokenPayload
payload = record { user_id = text "u1"; is_access = true; tv = some 3 }

abbrev verify : Text → Option TokenPayload
verify token = if text_eq token (text "t") then some payload else none

abbrev header : Option Text
header = some (text "Bearer t")

abbrev outside : Outside
outside = record {
  redis = table;
  hash = λ t. t;
  payload_jti = λ t. some t;
  decimal = λ n. replicate n 1;
}

abbrev row : UserRow
row = record { refresh_tokens = []; active_access_jtis = []; token_version = some 3 }

abbrev sessions : Sessions Table
sessions = record { users = (text "u1", row) ∷ []; cache = []; revoked = [] }

abbrev moment : Moment
moment = record { available = true; now = 1_000; set_fate = answered; get_fate = answered }

authenticate-invalidate_all_sessions_example :
    authenticate verify
      (invalidate_all_sessions outside sessions moment (text "u1")).users
      true
      header
    ≡ session_expired
unfolding bearer_token starts_with text_eq lookup
authenticate-invalidate_all_sessions_example =
    authenticate-invalidate_all_sessions verify outside sessions moment header (text "t") payload
      row refl refl refl refl
