-- ===== src/OneTime/EmailLink.antt =====
-- Email link codes and the form tokens that they are redeemed for
-- (src/services/email-link.service.ts). The two share the Redis server and have a map each.
use uam_backend.Prelude.{
  Text, List, ℕ, Option, text, some, if◌then◌else◌, false, none, Bool, ◌≡◌, true, ◌↔◌, ◌<◌, arith,
  ◌+◌, ◌∙◌, refl, sym,
}
use uam_backend.Cache.{RedisStore, Fate, answered}
use uam_backend.OneTime.Store.{Json, Entry, Store, World, take, put}
use uam_backend.OneTime.Exchange.{is_malformed}
use uam_backend.OneTime.Store.Laws.{put_open, take-put}

pub data EmailLinkKind : Type 0 where
  verify_email reset_password migrate_current migrate_new : EmailLinkKind

unfoldable pub same_kind : EmailLinkKind → EmailLinkKind → Bool
same_kind verify_email verify_email = true
same_kind reset_password reset_password = true
same_kind migrate_current migrate_current = true
same_kind migrate_new migrate_new = true
same_kind _ _ = false

pub same_kind_iff : (a b : EmailLinkKind) → (same_kind a b ≡ true) ↔ (a ≡ b)
unfolding same_kind
same_kind_iff a b = ground arith

-- The payload of a link and of a form token.
pub record LinkPayload : Type 0 where
  pub kind : EmailLinkKind
  pub secret : Text
  pub meta : Option (List (Text × Text))

pub record EmailStore (S : Type 0) : Type 0 where
  pub cache : S
  pub links : List (Text × Entry LinkPayload)
  pub forms : List (Text × Entry LinkPayload)

-- What redeeming a link returns.
pub record Redeemed : Type 0 where
  pub kind : EmailLinkKind
  pub form_token : Text
  pub meta : Option (List (Text × Text))

pub record Consumed : Type 0 where
  pub secret : Text
  pub meta : Option (List (Text × Text))

abbrev pub link_ttl_secs : ℕ
link_ttl_secs = 86_400

abbrev pub form_ttl_secs : ℕ
form_ttl_secs = 600

abbrev link_prefix : Text
link_prefix = text "uam:email-link:"

abbrev form_prefix : Text
form_prefix = text "uam:email-form:"

module _ (redis : RedisStore) (json : Json LinkPayload) where
  open redis use {State}

  abbrev link_store : EmailStore State → Store State LinkPayload
  link_store s = record { cache = s.cache; memory = s.links }

  abbrev form_store : EmailStore State → Store State LinkPayload
  form_store s = record { cache = s.cache; memory = s.forms }

  abbrev with_links : EmailStore State → Store State LinkPayload → EmailStore State
  with_links s t = record s { cache = t.cache; links = t.memory }

  abbrev with_forms : EmailStore State → Store State LinkPayload → EmailStore State
  with_forms s t = record s { cache = t.cache; forms = t.memory }

  -- `code` is the random code; `none` is an exception.
  unfoldable pub create_email_link_code :
      World → Text → LinkPayload → EmailStore State → Option (EmailStore State)
  create_email_link_code w code payload s =
      elim (put redis json link_prefix link_ttl_secs w code payload (link_store s)) [
        | none ↦ none
        | some t ↦ some (with_links s t)
      ]

  -- A form token is stored in production too; `set_fate` is the fate of that write.
  issue_form :
      World
      → Fate
      → Text
      → Option LinkPayload
      → EmailStore State
      → EmailStore State × Option Redeemed
  issue_form w set_fate form_token none s = (s, none)
  issue_form w set_fate form_token (some payload) s = (
    elim (put redis json form_prefix form_ttl_secs
        (record w { production = false; fate = set_fate }) form_token payload (form_store s)) [
          | none ↦ s
          | some t ↦ with_forms s t
        ],
    some (record { kind = payload.kind; form_token = form_token; meta = payload.meta }),
  )

  pub redeem_email_link_code :
      World → Fate → Text → Text → EmailStore State → EmailStore State × Option Redeemed
  redeem_email_link_code w set_fate code form_token s =
      let (t, found) = take redis json link_prefix w code (link_store s) in
      if is_malformed code
      then (s, none)
      else issue_form w set_fate form_token found (with_links s t)

  unfoldable pub check_kind : EmailLinkKind → Option LinkPayload → Option Consumed
  check_kind expected none = none
  check_kind expected (some p) =
      if same_kind p.kind expected then some (record { secret = p.secret; meta = p.meta }) else none

  unfoldable pub consume_form_token :
      World → Text → EmailLinkKind → EmailStore State → EmailStore State × Option Consumed
  consume_form_token w form_token expected s =
      let (t, found) = take redis json form_prefix w form_token (form_store s) in
      if is_malformed form_token then (s, none) else (with_forms s t, check_kind expected found)

  created :
      (w : World) (code : Text) (p : LinkPayload) (s s' : EmailStore State)
      → create_email_link_code w code p s ≡ some s'
      → put redis json link_prefix link_ttl_secs w code p (link_store s) ≡ some (link_store s')
  unfolding create_email_link_code
  created w code p s s' e = ground arith

  issued :
      (w : World) (form_token : Text) (p : LinkPayload) (s : EmailStore State)
      → let (s', redeemed) = issue_form w answered form_token (some p) s in
        (redeemed ≡ some (record { kind = p.kind; form_token = form_token; meta = p.meta }))
        × (put redis json form_prefix form_ttl_secs
              (record w { production = false; fate = answered })
              form_token
              p
              (form_store s)
            ≡ some (form_store s'))
  unfolding issue_form
  issued w form_token p s =
      let (u, e) =
        put_open redis json form_prefix form_ttl_secs
          (record w { production = false; fate = answered }) form_token p (form_store s) refl in
      ground (arith, e)

  redeemed_form :
      (w : World) (code form_token : Text) (p : LinkPayload) (s : EmailStore State)
      → is_malformed code ≡ false
      → (take redis json link_prefix w code (link_store s)).1 ≡ some p
      → redeem_email_link_code w answered code form_token s
        ≡ issue_form w answered form_token
            (some p)
            (with_links s (take redis json link_prefix w code (link_store s)).0)
  unfolding redeem_email_link_code
  redeemed_form w code form_token p s m e = ground arith

  consumed_form :
      (w : World) (form_token : Text) (p : LinkPayload) (expected : EmailLinkKind)
      (s : EmailStore State)
      → is_malformed form_token ≡ false
      → (take redis json form_prefix w form_token (form_store s)).1 ≡ some p
      → (consume_form_token w form_token expected s).1 ≡ (
          if same_kind p.kind expected
          then some (record { secret = p.secret; meta = p.meta })
          else none)
  unfolding consume_form_token check_kind
  consumed_form w form_token p expected s m e = ground arith

  -- A link that is redeemed within a day names its kind and gives a form token; and the form token,
  -- used within ten minutes after, gives the secret for that kind, and nothing for another. The code
  -- and the form token have the right length, all three steps use the same one of Redis and memory,
  -- and Redis answers each.
  pub consume-redeem-create :
      (w w' w'' : World) (code form_token : Text) (p : LinkPayload) (expected : EmailLinkKind)
      (s s' : EmailStore State)
      → w'.available ≡ w.available
      → w''.available ≡ w.available
      → w.fate ≡ answered
      → w'.fate ≡ answered
      → w''.fate ≡ answered
      → w'.now < w.now + 86_400_000
      → w''.now < w'.now + 600_000
      → is_malformed code ≡ false
      → is_malformed form_token ≡ false
      → create_email_link_code w code p s ≡ some s'
      → let (s'', redeemed) = redeem_email_link_code w' answered code form_token s' in
        (redeemed ≡ some (record { kind = p.kind; form_token = form_token; meta = p.meta }))
        × ((consume_form_token w'' form_token expected s'').1 ≡ (
            if same_kind p.kind expected
            then some (record { secret = p.secret; meta = p.meta })
            else none))
  consume-redeem-create w w' w'' code form_token p expected s s' a a' f f' f'' h h' m m' e =
      let found =
        take-put redis json link_prefix link_ttl_secs w w' code p (link_store s) (link_store s')
          (omega arith) a f f' h (created w code p s s' e) in
      let s1 = with_links s' (take redis json link_prefix w' code (link_store s')).0 in
      let s2 = (issue_form w' answered form_token (some p) s1).0 in
      let (told, stored) = issued w' form_token p s1 in
      rw (redeemed_form w' code form_token p s' m found) (
        told,
        consumed_form w'' form_token p expected s2 m' (
            take-put redis json form_prefix form_ttl_secs
              (record w' { production = false; fate = answered }) w'' form_token p (form_store s1)
              (form_store s2) (omega arith) (a' ∙ sym a) refl f'' h' stored),
      )
