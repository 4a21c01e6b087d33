-- ===== src/Session.antt =====
-- Sessions: stored refresh tokens, tracked access tokens and the token version of a user
-- (src/services/session.service.ts, src/utils/refresh-token.util.ts), over the row update of
-- src/db/User.ts. The SHA-256 digest and the decoding of a JWT's payload are parameters, and so is
-- the Redis server. A revocation is sent to the control plane; those sent are kept in a list.
pub mod Lists
pub mod Rotation
pub mod Eviction
pub mod Invalidation
pub mod Tests
use uam_backend.Prelude.{
  List, Option, ℕ, Text, Bool, [], drop, false, if◌then◌else◌, text, some, lookup, ◌∷◌, length,
  ◌++◌, text_eq, ◌==◌, none, ◌+◌, ◌-◌, ◌||◌, insert, not, true,
}
use uam_backend.Cache.{RedisStore, Fate, cache_set, cache_get}

-- The columns of a user that sessions are made of; `none` stands for a missing version.
pub record UserRow : Type 0 where
  pub refresh_tokens : List Text
  pub active_access_jtis : List Text
  pub token_version : Option ℕ

-- $push with $each and a negative $slice, and $pull, on the two columns.
pub record UpdateDoc : Type 0 where
  pub push_refresh : Option (List Text × ℕ)
  pub push_jtis : Option (List Text × ℕ)
  pub pull_refresh : Option Text

abbrev pub max_refresh : ℕ
max_refresh = 5

abbrev pub max_jtis : ℕ
max_jtis = 20

-- slice(-n), for n > 0
pub keep_last : ℕ → List Text → List Text
keep_last n xs = drop (length xs - n) xs

pub push_each : Option (List Text × ℕ) → List Text → List Text
push_each none current = current
push_each (some (each, slice)) current = keep_last slice (current ++ each)

-- filter((x) => x !== value)
pub without : Text → List Text → List Text
without value [] = []
without value (x ∷ xs) = let rest = without value xs in if text_eq x value then rest else x ∷ rest

pub pull : Option Text → List Text → List Text
pull none current = current
pull (some value) current = without value current

-- The pushes come first, then the pulls.
pub apply_update : UpdateDoc → UserRow → UserRow
unfolding push_each pull
apply_update u row = record row {
  refresh_tokens = pull u.pull_refresh (push_each u.push_refresh row.refresh_tokens);
  active_access_jtis = push_each u.push_jtis row.active_access_jtis;
}

unfoldable pub contains : Text → List Text → Bool
contains x [] = false
contains x (y ∷ ys) = text_eq y x || contains x ys

abbrev pub or_zero : Option ℕ → ℕ
or_zero none = 0
or_zero (some n) = n

-- The parts between dots.
pub split_dots : Text → Text × List Text
split_dots [] = ([], [])
split_dots (c ∷ cs) =
    let (part, parts) = split_dots cs in if c == b'.' then ([], part ∷ parts) else (c ∷ part, parts)

abbrev middle_of_three : Text × List Text → Option Text
middle_of_three (a, b ∷ c ∷ []) = some b
middle_of_three (a, parts) = none

pub record Sessions (S : Type 0) : Type 0 where
  pub users : List (Text × UserRow)
  pub cache : S
  pub revoked : List Text

-- Whether Redis is available, the clock, and the fates of a write and of the read that follows.
pub record Moment : Type 0 where
  pub available : Bool
  pub now : ℕ
  pub set_fate : Fate
  pub get_fate : Fate

-- What sessions take from outside: the server, the digest, the `jti` in a JWT's payload (or that
-- it cannot be decoded, or has none), and the decimal text of a number.
pub record Outside : Type 1 where
  pub redis : RedisStore
  pub hash : Text → Text
  pub payload_jti : Text → Option Text
  pub decimal : ℕ → Text

module _ (o : Outside) where
  open o use {redis, hash, payload_jti, decimal}

  pub extract_access_jti : Text → Option Text
  extract_access_jti token = elim (middle_of_three (split_dots token)) [
    | none ↦ none
    | some payload ↦ payload_jti payload
  ]

  pub find_stored_refresh_token : List Text → Text → Option Text
  find_stored_refresh_token stored presented =
      if contains (hash presented) stored then some (hash presented) else none

  pub publish_token_version : Sessions redis.State → Moment → Text → ℕ → Sessions redis.State × Bool
  publish_token_version s m user_id version =
      let key = text "gateway:user:tv:" ++ user_id in
      let cache = cache_set redis s.cache m.available m.set_fate m.now key (decimal version) none in
      if not m.available then (s, false) else (
        record s { cache = cache },
        elim (cache_get redis cache m.available m.get_fate m.now key) [
          | none ↦ false
          | some stored ↦ text_eq stored (decimal version)
        ],
      )

  -- The JTIs that are not empty are sent for revocation, in order.
  pub revocable : List Text → List Text
  revocable [] = []
  revocable ([] ∷ jtis) = revocable jtis
  revocable ((c ∷ cs) ∷ jtis) = (c ∷ cs) ∷ revocable jtis

  unfoldable pub invalidate_row : UserRow → UserRow
  invalidate_row row = record {
    refresh_tokens = [];
    active_access_jtis = [];
    token_version = some (or_zero row.token_version + 1);
  }

  pub invalidate_all_sessions : Sessions redis.State → Moment → Text → Sessions redis.State
  unfolding invalidate_row
  invalidate_all_sessions s m user_id = elim (lookup user_id s.users) [
    | none ↦ s
    | some row ↦
        (publish_token_version
          (record s {
            users = insert user_id (invalidate_row row) s.users;
            revoked = s.revoked ++ revocable row.active_access_jtis;
          })
          m user_id (or_zero row.token_version + 1)).0
  ]

  abbrev publish_if : Sessions redis.State → Moment → Text → Option ℕ → Sessions redis.State
  publish_if s m user_id none = s
  publish_if s m user_id (some version) = (publish_token_version s m user_id version).0

  abbrev pub push_jti : Option Text → Option (List Text × ℕ)
  push_jti none = none
  push_jti (some []) = none
  push_jti (some (c ∷ cs)) = some ((c ∷ cs) ∷ [], max_jtis)

  -- `rotateSessionTokens` awaits between its look-up and its update: the two are steps of their own.
  pub rotate_find : Sessions redis.State → Text → Text → Option Text
  rotate_find s user_id old_refresh_token = elim (lookup user_id s.users) [
    | none ↦ none
    | some row ↦ find_stored_refresh_token row.refresh_tokens old_refresh_token
  ]

  pub rotation : Text → Text → Text → UpdateDoc
  rotation stored_key access_token refresh_token = record {
    push_refresh = some (hash refresh_token ∷ [], max_refresh);
    push_jtis = push_jti (extract_access_jti access_token);
    pull_refresh = some stored_key;
  }

  pub rotate_update :
      Sessions redis.State
      → Moment
      → Text
      → Option Text
      → Text
      → Text
      → Option ℕ
      → Sessions redis.State × Bool
  unfolding rotation
  rotate_update s m user_id none access_token refresh_token version = (s, false)
  rotate_update s m user_id (some stored_key) access_token refresh_token version =
      elim (lookup user_id s.users) [
        | none ↦ (s, false)
        | some row ↦ (
          publish_if
              (record s {
                users =
                    insert user_id
                      (apply_update (rotation stored_key access_token refresh_token) row) s.users;
              })
              m user_id version,
          true,
        )
      ]

  pub rotate_session_tokens :
      Sessions redis.State
      → Moment
      → Text
      → Text
      → Text
      → Text
      → Option ℕ
      → Sessions redis.State × Bool
  rotate_session_tokens s m user_id old_refresh_token access_token refresh_token version =
      rotate_update s m user_id (rotate_find s user_id old_refresh_token) access_token refresh_token
        version

  pub persist_session_tokens :
      Sessions redis.State → Moment → Text → Text → Text → Option ℕ → Sessions redis.State
  persist_session_tokens s m user_id access_token refresh_token version =
      let update : UpdateDoc = record {
        push_refresh = some (hash refresh_token ∷ [], max_refresh);
        push_jtis = push_jti (extract_access_jti access_token);
        pull_refresh = none;
      } in
      let updated : Sessions redis.State = elim (lookup user_id s.users) [
        | none ↦ s
        | some row ↦ record s { users = insert user_id (apply_update update row) s.users }
      ] in
      publish_if updated m user_id version

  pub remove_refresh_token : Sessions redis.State → Text → Text → Sessions redis.State
  remove_refresh_token s user_id refresh_token = elim (lookup user_id s.users) [
    | none ↦ s
    | some row ↦ elim (find_stored_refresh_token row.refresh_tokens refresh_token) [
      | none ↦ s
      | some stored_key ↦ record s {
        users =
            insert user_id (record row { refresh_tokens = without stored_key row.refresh_tokens })
              s.users;
      }
    ]
  ]
