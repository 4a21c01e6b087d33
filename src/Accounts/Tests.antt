-- ===== src/Accounts/Tests.antt =====
-- The theorems on accounts at concrete inputs.
use uam_backend.Prelude.{
  none, some, true, false, text, lookup, text_eq, [], ◌≡◌, to_lower, trim, trim_start, text_eq_refl,
  is_space, ◌∷◌, refl, Text, delete, ◌⊎◌, List,
}
use uam_backend.Accounts.Login.{
  login, check_pending, check_local, check_password, check_verified, finish_login,
  daily_limit_reached, Credentials,
}
use uam_backend.Identity.Service.{
  resolve_email_identity, resolve_kinds, find_active, is_active, email_key, normalize_email,
  primary, ResolvedEmailIdentity,
}
use uam_backend.Accounts.Tokens.{TokenRequest, refresh_from_request, refresh_access_token}
use uam_backend.Accounts.Passwords.{
  compare_password, stored_password, verify_password, compare_password-stored, verify_hash,
  material,
}
use uam_backend.Accounts.Samples.{
  sample_hashing, sample_backend, sample_account, sample_env, sample_moment, sample_fresh,
  sample_outside, unequal_texts, other_account,
}
use uam_backend.Session.{contains}
use uam_backend.Session.Rotation.{accepts}
use uam_backend.Accounts.World.{signed_in, Backend, find_account, clashes, public_user}
use uam_backend.Accounts.Access.{login-accounts, IsEntitled, login-IsEntitled}
use uam_backend.Accounts.Replay.{refresh_access_token_replayed}
use uam_backend.Account.{Account}
use uam_backend.Accounts.Email.{consume_form}
use uam_backend.OneTime.Store.{World, take}
use uam_backend.Cache.Table.{Table}
use uam_backend.OneTime.EmailLink.{consume_form_token, reset_password, check_kind, same_kind}
use uam_backend.Cache.{answered}
use uam_backend.Accounts.Reset.{has_reset_token, post_reset_password}
use uam_backend.Accounts.Resetting.{
  published, IsReset, reset_account, IsUntouched, post_reset_password_ends,
}
use uam_backend.Accounts.Profile.{is_long, update_bio, update_bio_reaches_another}

login-IsEntitled_example :
    let req : Credentials = record { login_email = text "A@b.c"; login_password = text "secret" } in
    (r : ResolvedEmailIdentity) × (a : Account) × (resolve_email_identity sample_env.digest 1_000
        (to_lower req.login_email)
        (sample_backend sample_account).index
      ≡ some r)
    × (lookup r.resolved_user (sample_backend sample_account).accounts ≡ some a)
    × IsEntitled sample_env req a
unfolding login check_pending check_local check_password check_verified finish_login
    daily_limit_reached resolve_email_identity resolve_kinds find_active is_active email_key
    normalize_email lookup text_eq to_lower trim trim_start is_space compare_password
    verify_password verify_hash material signed_in
login-IsEntitled_example =
    login-IsEntitled sample_env
      (record { login_email = text "A@b.c"; login_password = text "secret" }) sample_moment
      sample_fresh (sample_backend sample_account) refl

login-accounts_example :
    (login sample_env
      (record { login_email = text "a@b.c"; login_password = text "secret" })
      sample_moment
      sample_fresh
      (sample_backend sample_account)).0.accounts
    ≡ (sample_backend sample_account).accounts
unfolding resolve_email_identity resolve_kinds find_active is_active email_key normalize_email
    lookup text_eq to_lower trim trim_start is_space verify_password verify_hash material
login-accounts_example =
    login-accounts sample_env
      (record { login_email = text "a@b.c"; login_password = text "secret" }) sample_moment
      sample_fresh (sample_backend sample_account)
      (record { resolved_user = text "u1"; match_kind = primary; resolved_verified = some true })
      sample_account refl refl refl refl

compare_password-stored_example :
    let password = text "secret" in
    (compare_password sample_hashing [] password (stored_password sample_hashing [] password)
      ≡ (true, stored_password sample_hashing [] password))
    × ((compare_password sample_hashing [] password (some (text "hsecret"))).0 ≡ true)
    × (verify_password sample_hashing password
          (compare_password sample_hashing [] password (some (text "hsecret"))).1
        ≡ record { is_match = true; needs_rehash = false })
compare_password-stored_example =
    compare_password-stored sample_hashing [] [] b's' (text "ecret")
      (λ s m. text_eq_refl (b'h' ∷ m)) (λ s m. refl)

abbrev by_cookie : TokenRequest
by_cookie = record {
  cookie = some (text "r1");
  request_refresh = none;
  request_access = some (text "x.y.z");
}

refresh_access_token_replayed_example :
    let w = sample_backend sample_account in
    let (w1, first) = refresh_access_token sample_env sample_moment sample_fresh by_cookie w in
    let (w2, second) = refresh_access_token sample_env sample_moment sample_fresh by_cookie w1 in
    (first.status ≡ 200)
    × (accepts sample_outside w1.sessions (text "u1") (text "r2") ≡ true)
    × (second.status ≡ 401)
    × (accepts sample_outside w2.sessions (text "u1") (text "r2") ≡ false)
unfolding refresh_from_request lookup text_eq contains
refresh_access_token_replayed_example =
    refresh_access_token_replayed sample_env sample_moment sample_moment sample_fresh sample_fresh
      by_cookie (sample_backend sample_account) (text "u1") (text "r1") (text "r2") sample_account
      refl refl refl refl (unequal_texts (text "r1") (text "r2") refl)

-- A form token of 64 characters, kept in memory.
abbrev form : Text
form = text "f123456789abcdef0123456789abcdef0123456789abcdef0123456789abcdef"

abbrev offline : World
offline = record {
  available = false;
  production = false;
  now = 1_000;
  fate = answered;
  del_fate = answered;
}

abbrev resetting : Account
resetting = record sample_account {
  password_reset_token = some (text "s");
  password_reset_expires = some 5_000;
}

abbrev asked : Backend Table
asked = record (sample_backend resetting) {
  forms =
      (
        form,
        record {
          record' = record { kind = reset_password; secret = text "s"; meta = none };
          exp = 600_000;
        },
      )
      ∷ [];
}

post_reset_password_ends_example :
    let w1 = (consume_form sample_env offline form reset_password asked).0 in
    let (w', reply) =
      post_reset_password sample_env offline sample_moment sample_fresh form
        (text "better")
        asked in
    ((published sample_env sample_moment (text "u1") w1 ≡ true)
      × IsReset sample_env w1 w' reply
          (text "u1")
          (reset_account sample_env sample_fresh (text "better") resetting)
          (text "r1"))
    ⊎ ((published sample_env sample_moment (text "u1") w1 ≡ false)
        × IsUntouched sample_env w1 w' reply)
unfolding consume_form consume_form_token take check_kind same_kind lookup text_eq find_account
    has_reset_token clashes delete
post_reset_password_ends_example =
    post_reset_password_ends sample_env offline sample_moment sample_fresh form (text "better")
      (text "r1") asked (record { secret = text "s"; meta = none }) (text "u1") resetting resetting
      refl refl refl refl

-- The account at the identifier "u1" had the email of the user "u2" before.
abbrev moved : Account
moved = record sample_account { previous_email = some (text "new@b.c") }

update_bio_reaches_another_example :
    let b' = record moved { bio = some (text "hello") } in
    let table : List (Text × Account) = (text "u1", moved) ∷ (text "u2", other_account) ∷ [] in
    let (accounts', reply) = update_bio (text "u2") (text "new@b.c") (some (text "hello")) table in
    (reply.status ≡ 200)
    × (reply.user ≡ some (public_user (text "u1") b'))
    × (lookup (text "u1") accounts' ≡ some b')
    × (lookup (text "u2") accounts' ≡ lookup (text "u2") table)
unfolding is_long clashes text_eq
update_bio_reaches_another_example =
    update_bio_reaches_another (text "u2") (text "new@b.c") (text "u1") moved (some (text "hello"))
      ((text "u2", other_account) ∷ []) (unequal_texts (text "u2") (text "u1") refl) refl refl refl
