-- ===== src/OneTime/Exchange.antt =====
-- One-time OAuth exchange codes, bound to the OAuth state (src/services/oauth-exchange.service.ts).
use uam_backend.Prelude.{
  Text, ℕ, Bool, text, true, ◌||◌, Option, ltb, none, ◌∷◌, some, false, length, if◌then◌else◌,
  text_eq, ◌≡◌, [], ◌*◌, ◌<◌, arith, ◌+◌,
}
use uam_backend.Cache.{RedisStore, answered, takes_effect}
use uam_backend.OneTime.Store.{Json, World, Store, code_bytes, put, take}
use uam_backend.OneTime.Store.Once.{take_again}
use uam_backend.OneTime.Store.Laws.{take-put}

pub record TokenPair : Type 0 where
  pub access_token : Text
  pub refresh_token : Text

pub record ExchangeRecord : Type 0 where
  pub tokens : TokenPair
  pub state : Text

abbrev pub code_ttl_secs : ℕ
code_ttl_secs = 120

abbrev exchange_prefix : Text
exchange_prefix = text "uam:oauth:"

abbrev pub is_empty : Text → Bool
is_empty [] = true
is_empty (c ∷ cs) = false

-- A code shorter than the hexadecimal of 32 bytes, or an empty one.
abbrev pub is_malformed : Text → Bool
is_malformed code = is_empty code || ltb (length code) (code_bytes * 2)

abbrev pub only_if {ℓ} : {A : Type ℓ} → Bool → Option A → Option A
only_if true o = o
only_if false o = none

module _ (redis : RedisStore) (json : Json ExchangeRecord) where
  open redis use {State}

  -- `code` is the random code; `none` is an exception.
  unfoldable pub create_exchange_code :
      World
      → Text
      → TokenPair
      → Text
      → Store State ExchangeRecord
      → Option (Store State ExchangeRecord)
  create_exchange_code w code tokens state s =
      if is_empty state
      then none
      else put redis json exchange_prefix code_ttl_secs w code
          (record { tokens = tokens; state = state }) s

  check_state : Text → Option ExchangeRecord → Option TokenPair
  check_state state none = none
  check_state state (some r) = if text_eq r.state state then some r.tokens else none

  pub consume_exchange_code :
      World
      → Text
      → Text
      → Store State ExchangeRecord
      → Store State ExchangeRecord × Option TokenPair
  unfolding check_state
  consume_exchange_code w code state s =
      let (s', found) = take redis json exchange_prefix w code s in
      if is_malformed code || is_empty state then (s, none) else (s', check_state state found)

  -- Within two minutes, a code of the right length gives the tokens for the state that they were
  -- stored under, and nothing for another state that is not empty; if writing and reading used the
  -- same one of Redis and memory, and Redis answered both.
  pub consume-create :
      (w w' : World) (code state state' : Text) (tokens : TokenPair)
      (s s' : Store State ExchangeRecord)
      → w'.available ≡ w.available
      → w.fate ≡ answered
      → w'.fate ≡ answered
      → w'.now < w.now + 120_000
      → is_malformed code ≡ false
      → is_empty state' ≡ false
      → create_exchange_code w code tokens state s ≡ some s'
      → (consume_exchange_code w' code state' s').1
        ≡ (if text_eq state state' then some tokens else none)
  unfolding create_exchange_code consume_exchange_code
  consume-create w w' code state state' tokens s s' a f f' h m n e = ground (
    arith,
    take-put redis json exchange_prefix code_ttl_secs w w' code
        (record { tokens = tokens; state = state }) s s',
  )

  -- A code of the right length is spent by an attempt that reads it, whatever the state (not empty)
  -- that it came with: if the removal took effect, a later attempt that uses the same one of Redis
  -- and memory gets nothing, whatever its state.
  pub consume_again :
      (w w' : World) (code state state' : Text) (r : ExchangeRecord)
      (s : Store State ExchangeRecord)
      → w'.available ≡ w.available
      → takes_effect w.del_fate ≡ true
      → is_malformed code ≡ false
      → is_empty state ≡ false
      → (take redis json exchange_prefix w code s).1 ≡ some r
      → (consume_exchange_code w' code state' (consume_exchange_code w code state s).0).1 ≡ none
  unfolding consume_exchange_code
  consume_again w w' code state state' r s a d m n e =
      ground (arith, take_again redis json exchange_prefix w w' code r s a d e)
