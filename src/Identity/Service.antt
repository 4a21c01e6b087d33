-- ===== src/Identity/Service.antt =====
-- The identity service (src/services/identity-index.service.ts, src/utils/email-normalize.util.ts).
-- The HMAC digest of a normalised email is a parameter. One sync reads the clock once here; the
-- source reads it at each comparison.
use uam_backend.Prelude.{
  Text, to_lower, text, ℕ, Option, List, trim, ◌++◌, none, Bool, lookup, [], some, true,
  if◌then◌else◌, ◌∷◌, text_eq, ltb, ◌&&◌, not,
}
use uam_backend.Account.{Account, AuthProvider, local, google, github, non_empty}
use uam_backend.Identity.Table.{
  IdentityIndexKind, IndexTable, IndexUpdate, IndexEntry, primary_email, delete_where,
  pending_migration, set_kind, update_one, previous_email, set_user_id, oauth, set_verified,
  set_expires_at, set_provider, unset_expires_at, unset_verified, unset_provider,
}
use uam_backend.Session.{contains}

-- `to_lower` is toLowerCase on ASCII texts. The emails of requests pass `z.string().email()`
-- (src/validators), which takes ASCII ones only; those that Google and GitHub tell of are taken to be
-- ASCII.
unfoldable pub normalize_email : Text → Text
normalize_email email = to_lower (trim email)

abbrev pub kind_prefix : IdentityIndexKind → Text
kind_prefix primary_email = text "primary_email:"
kind_prefix previous_email = text "previous_email:"
kind_prefix pending_migration = text "pending_migration:"
kind_prefix oauth = text "oauth:"

abbrev pub provider_name : AuthProvider → Text
provider_name local = text "local"
provider_name google = text "google"
provider_name github = text "github"

unfoldable pub oauth_key : AuthProvider → Text → Text
oauth_key provider provider_id = text "oauth:" ++ provider_name provider ++ text ":" ++ provider_id

unfoldable pub is_active : ℕ → IndexEntry → Bool
is_active now e = elim e.expires_at [ none ↦ true | some t ↦ ltb now t ]

-- An address that stands until a time, when it is set and the time has not come.
unfoldable pub until : ℕ → Option Text → Option ℕ → Option (Text × ℕ)
until now (some (c ∷ cs)) (some expiry) = if ltb now expiry then some (c ∷ cs, expiry) else none
until now address expiry = none

abbrev pub oauth_of : AuthProvider → Option Text → Option (AuthProvider × Text)
oauth_of local id = none
oauth_of provider none = none
oauth_of provider (some id) = some (provider, id)

unfoldable pub oauth_identity : Account → Option (AuthProvider × Text)
oauth_identity a = oauth_of a.provider (non_empty a.provider_id)

abbrev pub owner_of : Option IndexEntry → Option Text
owner_of none = none
owner_of (some e) = some e.user_id

pub data EmailResolveMatch : Type 0 where
  primary : EmailResolveMatch
  previous : EmailResolveMatch
  pending : EmailResolveMatch

pub record ResolvedEmailIdentity : Type 0 where
  pub resolved_user : Text
  pub match_kind : EmailResolveMatch
  pub resolved_verified : Option Bool

unfoldable pub find_user_id_by_oauth : AuthProvider → Text → IndexTable → Option Text
find_user_id_by_oauth provider provider_id t = owner_of (lookup (oauth_key provider provider_id) t)

abbrev pub oauth_update : Text → Option (AuthProvider × Text) → Option (Text × IndexUpdate)
oauth_update user_id none = none
oauth_update user_id (some (provider, id)) = some (
  oauth_key provider id,
  record {
    set_doc = set_kind oauth ∷ set_user_id user_id ∷ set_provider provider ∷ [];
    unset_keys = unset_verified ∷ unset_expires_at ∷ [];
  },
)

abbrev pub oauth_keys : Option (AuthProvider × Text) → List Text
oauth_keys none = []
oauth_keys (some (provider, id)) = oauth_key provider id ∷ []

unfoldable pub upsert : Option (Text × IndexUpdate) → Option IndexTable → Option IndexTable
upsert none t = t
upsert (some (key, u)) none = none
upsert (some (key, u)) (some t) = elim (update_one key u true t) [
  | none ↦ none
  | some (t', counts) ↦ some t'
]

unfoldable pub prune_keys : Text → List Text → Option IndexTable → Option IndexTable
prune_keys user_id expected none = none
prune_keys user_id expected (some t) =
    some (delete_where (λ k e. text_eq e.user_id user_id && not (contains k expected)) t)

unfoldable pub release_user : Text → IndexTable → IndexTable
release_user user_id t = delete_where (λ k e. text_eq e.user_id user_id) t

module _ (digest : Text → Text) where
  unfoldable pub email_key : IdentityIndexKind → Text → Text
  email_key kind email = kind_prefix kind ++ digest (normalize_email email)

  unfoldable pub find_active : ℕ → IdentityIndexKind → Text → IndexTable → Option IndexEntry
  unfolding is_active
  find_active now kind email t = elim (lookup (email_key kind email) t) [
    | none ↦ none
    | some e ↦ if is_active now e then some e else none
  ]

  unfoldable pub resolve_kinds :
      ℕ
      → Text
      → List (IdentityIndexKind × EmailResolveMatch)
      → IndexTable
      → Option ResolvedEmailIdentity
  unfolding find_active
  resolve_kinds now email [] t = none
  resolve_kinds now email ((kind, m) ∷ kinds) t =
      let rest = resolve_kinds now email kinds t in
      elim (find_active now kind email t) [
        | none ↦ rest
        | some e ↦
            some
              (record { resolved_user = e.user_id; match_kind = m; resolved_verified = e.verified })
      ]

  unfoldable pub resolve_email_identity : ℕ → Text → IndexTable → Option ResolvedEmailIdentity
  unfolding resolve_kinds
  resolve_email_identity now email t =
      resolve_kinds now (normalize_email email)
        ((primary_email, primary) ∷ (previous_email, previous) ∷ (pending_migration, pending) ∷ [])
        t

  unfoldable pub find_user_id_by_primary_email : ℕ → Text → IndexTable → Option Text
  unfolding find_active
  find_user_id_by_primary_email now email t = owner_of (find_active now primary_email email t)

  -- The comparison is SQL's: a row with no expiry does not match.
  unfoldable pub find_pending_migration_holder : ℕ → Text → IndexTable → Option Text
  find_pending_migration_holder now email t = elim (lookup (email_key pending_migration email) t) [
    | none ↦ none
    | some e ↦ elim e.expires_at [
      | none ↦ none
      | some expiry ↦ if ltb now expiry then some e.user_id else none
    ]
  ]

  -- What an upsert of each kind writes.
  abbrev pub primary_update : Text → Account → Text × IndexUpdate
  primary_update user_id a = (
    email_key primary_email a.email,
    record {
      set_doc =
          set_kind primary_email ∷ set_user_id user_id ∷ set_verified a.is_email_verified ∷ [];
      unset_keys = unset_expires_at ∷ unset_provider ∷ [];
    },
  )

  abbrev pub dated_update :
      IdentityIndexKind → Text → Option (Text × ℕ) → Option (Text × IndexUpdate)
  dated_update kind user_id none = none
  dated_update kind user_id (some (address, expiry)) = some (
    email_key kind address,
    record {
      set_doc = set_kind kind ∷ set_user_id user_id ∷ set_expires_at expiry ∷ [];
      unset_keys = unset_verified ∷ unset_provider ∷ [];
    },
  )

  abbrev pub dated_key : IdentityIndexKind → Option (Text × ℕ) → List Text
  dated_key kind none = []
  dated_key kind (some (address, expiry)) = email_key kind address ∷ []

  unfoldable pub expected_keys_for_user : Account → ℕ → List Text
  expected_keys_for_user a now =
      (email_key primary_email a.email ∷ [])
      ++ dated_key previous_email (until now a.previous_email a.migration_expiry)
      ++ dated_key pending_migration (until now a.new_email_pending a.migration_token_expires)
      ++ oauth_keys (oauth_identity a)

  unfoldable pub sync_identity_indexes : Text → Account → ℕ → IndexTable → Option IndexTable
  sync_identity_indexes user_id a now t =
      let t1 = upsert (some (primary_update user_id a)) (some t) in
      let previous_until = until now a.previous_email a.migration_expiry in
      let t2 = upsert (dated_update previous_email user_id previous_until) t1 in
      let pending_until = until now a.new_email_pending a.migration_token_expires in
      let t3 = upsert (dated_update pending_migration user_id pending_until) t2 in
      let t4 = upsert (oauth_update user_id (oauth_identity a)) t3 in
      prune_keys user_id (expected_keys_for_user a now) t4

  -- One sync per user that the cursor yields, with the time of each.
  unfoldable pub backfill : List (Text × Account × ℕ) → IndexTable → Option IndexTable
  backfill [] t = some t
  backfill ((user_id, a, now) ∷ users) t = elim (sync_identity_indexes user_id a now t) [
    | none ↦ none
    | some t' ↦ backfill users t'
  ]

  unfoldable pub release_key : IdentityIndexKind → Text → IndexTable → IndexTable
  release_key kind email t = delete_where (λ k e. text_eq k (email_key kind email)) t
