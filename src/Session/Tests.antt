-- ===== src/Session/Tests.antt =====
-- The theorems on sessions at concrete inputs. The digest is the identity here, and the payload of
-- an access token is its `jti`.
use uam_backend.Prelude.{
  Text, text, lookup, ◌∷◌, true, false, ◌≢◌, text_eq, some, [], replicate, none, ◌≡◌, refl, arith,
  text_eq_iff, All,
}
use uam_backend.Session.{
  Outside, UserRow, Sessions, Moment, contains, rotate_session_tokens, rotate_find,
  invalidate_all_sessions, rotate_update,
}
use uam_backend.Cache.Table.{table, Table}
use uam_backend.Cache.{answered}
use uam_backend.Session.Rotation.{accepts, rotate_session_tokens_once, rotate_raced}
use uam_backend.Session.Eviction.{rotate_session_tokens_evicts}
use uam_backend.Session.Invalidation.{invalidate_all_sessions_ends, IsSent}

abbrev outside : Outside
outside = record {
  redis = table;
  hash = λ t. t;
  payload_jti = λ t. some t;
  decimal = λ n. replicate n 1;
}

abbrev user : Text
user = text "u1"

abbrev full_row : UserRow
full_row = record {
  refresh_tokens = text "r1" ∷ text "r2" ∷ text "r3" ∷ text "r4" ∷ text "r5" ∷ [];
  active_access_jtis = text "j1" ∷ [];
  token_version = none;
}

abbrev sessions : Sessions Table
sessions = record { users = (user, full_row) ∷ []; cache = []; revoked = [] }

abbrev first : Moment
first = record { available = true; now = 1_000; set_fate = answered; get_fate = answered }

abbrev second : Moment
second = record { available = false; now = 2_000; set_fate = answered; get_fate = answered }

unequal : (s t : Text) → text_eq s t ≡ false → s ≢ t
unequal s t h = ground (arith, text_eq_iff s t)

r2-ne-r6 : text "r2" ≢ text "r6"
unfolding text_eq
r2-ne-r6 = unequal (text "r2") (text "r6") refl

r2-ne-r7 : text "r2" ≢ text "r7"
unfolding text_eq
r2-ne-r7 = unequal (text "r2") (text "r7") refl

r1-ne-r6 : text "r1" ≢ text "r6"
unfolding text_eq
r1-ne-r6 = unequal (text "r1") (text "r6") refl

rotate_session_tokens_once_example :
    let (s', done) =
      rotate_session_tokens outside sessions first user
        (text "r2")
        (text "a.j2.b")
        (text "r6")
        (some 1) in
    (done ≡ true)
    × (accepts outside s' user (text "r6") ≡ true)
    × (accepts outside s' user (text "r2") ≡ false)
    × ((rotate_session_tokens outside s' second user (text "r2") (text "a.j3.b") (text "r7") none).1
        ≡ false)
unfolding contains text_eq lookup
rotate_session_tokens_once_example =
    rotate_session_tokens_once outside sessions first second user (text "r2") (text "a.j2.b")
      (text "r6") (text "a.j3.b") (text "r7") (some 1) none r2-ne-r6 refl

rotate_raced_example :
    let found = rotate_find outside sessions user (text "r2") in
    let (s', done) =
      rotate_update outside sessions first user found (text "a.j2.b") (text "r6") none in
    let (s'', done') =
      rotate_update outside s' second user found (text "a.j3.b") (text "r7") none in
    (done ≡ true) × (done' ≡ true) × (accepts outside s'' user (text "r7") ≡ true)
unfolding contains text_eq lookup
rotate_raced_example =
    rotate_raced outside sessions first second user (text "r2") (text "a.j2.b") (text "r6")
      (text "a.j3.b") (text "r7") none none r2-ne-r7 refl

rotate_session_tokens_evicts_example :
    (accepts outside sessions user (text "r1") ≡ true)
    × (accepts outside
          (rotate_session_tokens outside sessions first user
            (text "r2")
            (text "a.j2.b")
            (text "r6")
            none).0
          user
          (text "r1")
        ≡ false)
unfolding contains text_eq lookup
rotate_session_tokens_evicts_example =
    rotate_session_tokens_evicts outside sessions first user (text "r1") (text "r2") (text "a.j2.b")
      (text "r6") none full_row (text "r2" ∷ text "r3" ∷ text "r4" ∷ text "r5" ∷ []) refl refl refl
      refl refl r1-ne-r6

invalidate_all_sessions_ends_example :
    let s' = invalidate_all_sessions outside sessions first user in
    (accepts outside s' user (text "r1") ≡ false)
    × ((rotate_session_tokens outside s' second user (text "r1") (text "a.j2.b") (text "r6") none).1
        ≡ false)
    × All (IsSent s'.revoked) (text "j1" ∷ [])
    × (lookup user s'.users
        ≡ some (record { refresh_tokens = []; active_access_jtis = []; token_version = some 1 }))
unfolding contains text_eq lookup
invalidate_all_sessions_ends_example =
    invalidate_all_sessions_ends outside sessions first second user (text "r1") (text "a.j2.b")
      (text "r6") none full_row refl
