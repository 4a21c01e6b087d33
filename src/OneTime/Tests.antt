-- ===== src/OneTime/Tests.antt =====
-- The theorems on one-time codes at concrete inputs.
use uam_backend.Prelude.{Text, true, text, [], ◌++◌, text_eq, none, ◌≡◌, some, arith, refl}
use uam_backend.OneTime.Store.{World, Store, put, take, read_raw, finish_read}
use uam_backend.OneTime.Exchange.{
  TokenPair, ExchangeRecord, create_exchange_code, consume_exchange_code, consume-create,
}
use uam_backend.OneTime.Pkce.{StateRecord}
use uam_backend.OneTime.EmailLink.{
  LinkPayload, EmailStore, create_email_link_code, reset_password, same_kind,
  redeem_email_link_code, consume_form_token, consume-redeem-create,
}
use uam_backend.OneTime.Poll.{poll_key}
use uam_backend.Cache.{refused, cache_set, answered}
use uam_backend.Cache.Table.{Table, table}
use uam_backend.OneTime.Encoding.{exchange_json, state_json, link_json}
use uam_backend.OneTime.Store.Laws.{take-put}
use uam_backend.OneTime.Store.Once.{take_again, take_replayed, take_raced}

abbrev here : World
here = record {
  available = true;
  production = true;
  now = 1_000;
  fate = answered;
  del_fate = answered;
}

abbrev later : World
later = record here { now = 2_000 }

abbrev next_week : World
next_week = record here { now = 700_000_000 }

-- Redis is there, and the removal is refused by the breaker.
abbrev refusing : World
refusing = record here { del_fate = refused }

-- A code of 64 characters.
abbrev code : Text
code = text "0123456789abcdef0123456789abcdef0123456789abcdef0123456789abcdef"

abbrev form : Text
form = text "f123456789abcdef0123456789abcdef0123456789abcdef0123456789abcdef"

abbrev pair : TokenPair
pair = record { access_token = text "aaa"; refresh_token = text "rrr" }

abbrev stored : ExchangeRecord
stored = record { tokens = pair; state = text "st" }

abbrev nothing : {R : Type 0} → Store Table R
nothing = record { cache = []; memory = [] }

-- What `put` leaves under the prefix `p:`.
abbrev one_code : Store Table ExchangeRecord
one_code = record nothing {
  cache = table.setex [] 1_000 (text "p:" ++ code) 120 (exchange_json.stringify stored);
}

one_code-get :
    table.get one_code.cache 2_000 (text "p:" ++ code) ≡ some (exchange_json.stringify stored)
one_code-get =
    table.get-setex_live [] 1_000 2_000 (text "p:" ++ code) 120 (exchange_json.stringify stored)
      (omega arith)

one_code-taken : (take table exchange_json (text "p:") later code one_code).1 ≡ some stored
unfolding put cache_set
one_code-taken =
    take-put table exchange_json (text "p:") 120 here later code stored nothing one_code
      (omega arith) refl refl refl (omega arith) refl

take_again_example :
    (take table exchange_json
      (text "p:")
      next_week
      code
      (take table exchange_json (text "p:") later code one_code).0).1
    ≡ none
take_again_example =
    take_again table exchange_json (text "p:") later next_week code stored one_code refl refl
      one_code-taken

take_replayed_example :
    (take table exchange_json
      (text "p:")
      later
      code
      (take table exchange_json (text "p:") refusing code one_code).0).1
    ≡ some stored
take_replayed_example =
    take_replayed table exchange_json (text "p:") refusing later code stored one_code refl refl refl
      refl one_code-get

take_raced_example :
    let first = read_raw table exchange_json (text "p:") later code one_code in
    let second = read_raw table exchange_json (text "p:") later code one_code in
    let (s', given) = finish_read table exchange_json (text "p:") later code first one_code in
    (given ≡ some stored)
    × ((finish_read table exchange_json (text "p:") later code second s').1 ≡ some stored)
take_raced_example =
    take_raced table exchange_json (text "p:") later later code stored one_code refl refl refl refl
      one_code-get one_code-get

abbrev exchanging : Store Table ExchangeRecord
exchanging = record nothing {
  cache = table.setex [] 1_000 (text "uam:oauth:" ++ code) 120 (exchange_json.stringify stored);
}

exchange_consume-create_example :
    (consume_exchange_code table exchange_json later code (text "st") exchanging).1 ≡ some pair
unfolding create_exchange_code put cache_set text_eq
exchange_consume-create_example =
    consume-create table exchange_json here later code (text "st") (text "st") pair nothing
      exchanging refl refl refl (omega arith) refl refl refl

exchanging-taken :
    (take table exchange_json (text "uam:oauth:") later code exchanging).1 ≡ some stored
unfolding put cache_set
exchanging-taken =
    take-put table exchange_json (text "uam:oauth:") 120 here later code stored nothing exchanging
      (omega arith) refl refl refl (omega arith) refl

-- A digest that keeps 43 characters as they are stands for SHA-256.
abbrev challenge : Text
challenge = text "0123456789abcdef0123456789abcdef0123456789a"

abbrev waiting : Store Table StateRecord
waiting = record nothing {
  cache =
      table.setex [] 1_000 (text "uam:oauth-state:" ++ text "st") 600
        (state_json.stringify (record { code_challenge = challenge }));
}

abbrev payload : LinkPayload
payload = record { kind = reset_password; secret = text "s3cret"; meta = none }

abbrev no_links : EmailStore Table
no_links = record { cache = []; links = []; forms = [] }

abbrev linked : EmailStore Table
linked = record no_links {
  cache =
      table.setex [] 1_000 (text "uam:email-link:" ++ code) 86_400 (link_json.stringify payload);
}

consume-redeem-create_example :
    let (s'', redeemed) = redeem_email_link_code table link_json later answered code form linked in
    (redeemed ≡ some (record { kind = reset_password; form_token = form; meta = none }))
    × ((consume_form_token table link_json later form reset_password s'').1
        ≡ some (record { secret = text "s3cret"; meta = none }))
unfolding create_email_link_code put cache_set same_kind
consume-redeem-create_example =
    consume-redeem-create table link_json here later later code form payload reset_password no_links
      linked refl refl refl refl refl (omega arith) (omega arith) refl refl refl

abbrev polling : Store Table Text
polling = record nothing { cache = table.setex [] 1_000 (poll_key code) 86_400 (text "user") }
