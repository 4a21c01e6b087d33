-- ===== src/RateLimit/Login/Tests.antt =====
-- The login limiter's theorems at concrete inputs.
use uam_backend.Prelude.{
  List, Text, Option, true, false, text, [], ◌≡◌, replicate, none, ◌∷◌, arith, some, refl, length,
  length-replicate, ℕ,
}
use uam_backend.OneTime.Store.{Json}
use uam_backend.RateLimit.Login.{
  LoginWorld, LoginStore, advanced_login_limiter, LoginRecord, handle_login_failure, proceeds,
}
use uam_backend.Cache.Table.{Table, table}
use uam_backend.OneTime.Encoding.{dec, enc, dec-enc, enc-ne-nil}
use uam_backend.Cache.{answered}
use uam_backend.RateLimit.Login.Blocks.{advanced_login_limiter_raced}

abbrev record_of : List Text → Option LoginRecord
record_of (c ∷ b ∷ []) = some (record { count = length c; block_until = length b })
record_of _ = none

record_of-enc :
    (r : LoginRecord)
    → record_of (dec (enc (replicate r.count 0 ∷ replicate r.block_until 0 ∷ []))) ≡ some r
record_of-enc r = ground (
  arith,
  dec-enc (replicate r.count 0 ∷ replicate r.block_until 0 ∷ []),
  length-replicate {A = ℕ} r.count 0,
  length-replicate {A = ℕ} r.block_until 0,
)

-- A number stands as that many zeros.
abbrev login_json : Json LoginRecord
login_json = record {
  stringify = λ r. enc (replicate r.count 0 ∷ replicate r.block_until 0 ∷ []);
  parse = λ t. record_of (dec t);
  parse-stringify = record_of-enc;
  stringify-ne-nil = λ r. enc-ne-nil (replicate r.count 0) (replicate r.block_until 0 ∷ []);
}

abbrev here : LoginWorld
here = record { available = true; required = true; now = 1_000; fate = answered }

abbrev soon : LoginWorld
soon = record here { now = 2_000 }

abbrev down : LoginWorld
down = record here { available = false }

abbrev key : Text
key = text "login_attempt:10.0.0.1_a"

abbrev empty : LoginStore Table
empty = record { cache = []; memory = [] }

advanced_login_limiter_raced_example :
    advanced_login_limiter table login_json soon key key
      (handle_login_failure table login_json here key 2
        (handle_login_failure table login_json here key 2 empty).0).0
    ≡ proceeds key 3
advanced_login_limiter_raced_example =
    advanced_login_limiter_raced table login_json here here soon key key 2 empty refl refl refl
      (omega arith) refl refl (omega arith)
