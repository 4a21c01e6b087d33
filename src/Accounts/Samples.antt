-- ===== src/Accounts/Samples.antt =====
-- A small system on which the theorems on accounts, migrations and OAuth sign-ins can be tried. The
-- digests are the identity, a hash is the password with a letter in front, and a refresh token is
-- its user's identifier and one character.
use uam_backend.Prelude.{
  none, some, true, false, Text, text_eq, ◌∷◌, text, ◌≡◌, replicate, ◌++◌, ◌/◌, [], ◌≢◌, arith,
  text_eq_iff,
}
use uam_backend.Account.{Account}
use uam_backend.OneTime.Encoding.{link_json}
use uam_backend.Session.{Outside, Moment, UserRow}
use uam_backend.Accounts.Passwords.{Hashing}
use uam_backend.Accounts.World.{Env, Fresh, Backend}
use uam_backend.Identity.Table.{IndexEntry, primary_email}
use uam_backend.Cache.Table.{table, Table}
use uam_backend.Cache.{answered}
use uam_backend.Accounts.Email.{new_account}

abbrev pub sample_outside : Outside
sample_outside = record {
  redis = table;
  hash = λ t. t;
  payload_jti = λ t. some t;
  decimal = λ n. replicate n 1;
}

abbrev pub sample_hashing : Hashing
sample_hashing = record {
  compare = λ m h. text_eq (b'h' ∷ m) h;
  hash_with = λ s m. b'h' ∷ m;
  hmac = λ k m. k ++ m;
  pepper = text "p";
}

abbrev pub sample_env : Env
sample_env = record {
  o = sample_outside;
  digest = λ t. t;
  hashing = sample_hashing;
  refresh_user = λ t. some (text "u1");
  is_access_token = λ t. true;
  day_of = λ t. t / 86_400_000;
  json = link_json;
  omit_refresh_in_body = true;
  auto_verify_email = false;
}

abbrev pub sample_moment : Moment
sample_moment = record { available = true; now = 1_000; set_fate = answered; get_fate = answered }

abbrev pub sample_fresh : Fresh
sample_fresh = record {
  access_token = text "x.y.z";
  refresh_token = text "r2";
  salt = [];
  secret = text "s";
  new_id = text "u9";
  link_code = text "c";
  poll_token = text "t";
}

abbrev pub sample_account : Account
sample_account = record (new_account (text "a@b.c") (text "Ann")) {
  password = some (text "hpsecret");
  is_email_verified = true;
  provider_id = none;
}

abbrev pub other_account : Account
other_account = new_account (text "new@b.c") (text "Ben")

abbrev pub sample_row : UserRow
sample_row = record {
  refresh_tokens = text "r1" ∷ [];
  active_access_jtis = [];
  token_version = some 3;
}

abbrev pub primary_entry : Text → IndexEntry
primary_entry id = record {
  kind = primary_email;
  user_id = id;
  provider = none;
  verified = some true;
  expires_at = none;
}

abbrev pub sample_backend : Account → Backend Table
sample_backend a = record {
  accounts = (text "u1", a) ∷ (text "u2", other_account) ∷ [];
  sessions = record {
    users = (text "u1", sample_row) ∷ (text "u2", sample_row) ∷ [];
    cache = [];
    revoked = [];
  };
  index =
      (text "primary_email:a@b.c", primary_entry (text "u1"))
      ∷ (text "primary_email:new@b.c", primary_entry (text "u2"))
      ∷ [];
  links = [];
  forms = [];
  polls = [];
  revoked_tokens = [];
}

pub unequal_texts : (s t : Text) → text_eq s t ≡ false → s ≢ t
unequal_texts s t h = ground (arith, text_eq_iff s t)
