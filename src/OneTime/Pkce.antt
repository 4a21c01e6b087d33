-- ===== src/OneTime/Pkce.antt =====
-- OAuth states with a PKCE challenge (src/services/oauth-pkce.service.ts). The base64url SHA-256
-- digest is a parameter.
use uam_backend.Prelude.{
  Text, ℕ, text, Bool, Option, text_eq, false, if◌then◌else◌, ◌≡◌, some, none, ◌||◌, ◌<◌, ltb, ◌+◌,
  length, true, ◌↔◌, arith, text_eq_iff,
}
use uam_backend.Cache.{RedisStore, answered}
use uam_backend.OneTime.Store.{Json, World, Store, take, put}
use uam_backend.OneTime.Exchange.{is_empty}
use uam_backend.OneTime.Store.Laws.{take-put}

pub record StateRecord : Type 0 where
  pub code_challenge : Text

abbrev pub state_ttl_secs : ℕ
state_ttl_secs = 600

abbrev state_prefix : Text
state_prefix = text "uam:oauth-state:"

module _ (redis : RedisStore) (json : Json StateRecord) (digest : Text → Text) where
  open redis use {State}

  verify_pkce_challenge : Text → Text → Bool
  verify_pkce_challenge code_verifier code_challenge = text_eq (digest code_verifier) code_challenge

  -- `state` is the random state; `none` is an exception.
  unfoldable pub create_oauth_state :
      World → Text → Text → Store State StateRecord → Option (Store State StateRecord)
  create_oauth_state w state code_challenge s =
      if is_empty code_challenge
        || ltb (length code_challenge) 43
        || ltb 128 (length code_challenge)
      then none
      else put redis json state_prefix state_ttl_secs w state
          (record { code_challenge = code_challenge }) s

  check_verifier : Text → Option StateRecord → Bool
  unfolding verify_pkce_challenge
  check_verifier code_verifier none = false
  check_verifier code_verifier (some r) = verify_pkce_challenge code_verifier r.code_challenge

  pub consume_oauth_state :
      World → Text → Text → Store State StateRecord → Store State StateRecord × Bool
  unfolding check_verifier
  consume_oauth_state w state code_verifier s =
      let (s', found) = take redis json state_prefix w state s in
      if is_empty state || is_empty code_verifier
      then (s, false)
      else (s', check_verifier code_verifier found)

  -- Within ten minutes a state, not empty, is accepted exactly for those verifiers, not empty, whose
  -- digest is the challenge that it was made with; if writing and reading used the same one of Redis
  -- and memory, and Redis answered both.
  pub consume_oauth_state-create :
      (w w' : World) (state challenge verifier : Text) (s s' : Store State StateRecord)
      → w'.available ≡ w.available
      → w.fate ≡ answered
      → w'.fate ≡ answered
      → w'.now < w.now + 600_000
      → is_empty state ≡ false
      → is_empty verifier ≡ false
      → create_oauth_state w state challenge s ≡ some s'
      → ((consume_oauth_state w' state verifier s').1 ≡ true) ↔ (digest verifier ≡ challenge)
  unfolding create_oauth_state consume_oauth_state
  consume_oauth_state-create w w' state challenge verifier s s' a f f' h m n e = ground (
    arith,
    take-put redis json state_prefix state_ttl_secs w w' state
        (record { code_challenge = challenge }) s s',
    text_eq_iff (digest verifier) challenge,
  )
