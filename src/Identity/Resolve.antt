-- ===== src/Identity/Resolve.antt =====
-- Whom an email resolves to once the users' identities have been synced.
use uam_backend.Prelude.{
  Text, lookup, List, text_eq, ℕ, Option, All, ◌≡◌, none, ◌≢◌, some, false, Distinct, ◌∷◌, refl,
  arith, ◌∙◌, text_eq_iff, text_eq_refl, [], ap, ◌≤◌, Bool, Option-cases,
}
use uam_backend.Account.{Account, AuthProvider}
use uam_backend.Identity.Service.{
  find_user_id_by_primary_email, backfill, find_active, email_key, is_active, oauth_key,
  oauth_identity, until, find_pending_migration_holder,
}
use uam_backend.Identity.Table.{
  IndexEntry, primary_email, is_empty, IndexTable, IdentityIndexKind, sweep_expired, has_expired,
  pending_migration,
}
use uam_backend.Identity.Sync.{
  claims, after_sync, claims_of, sync_identity_indexes-lookup, primary_rows,
}
use uam_backend.Identity.Rows.{lookup-delete_where}

-- Keys of other kinds do not meet those of primary emails.
lookup-claims_of :
    (digest : Text → Text) (email user_id : Text) (a : Account) (r : Option (AuthProvider × Text))
    (p q : Option (Text × ℕ))
    → lookup (email_key digest primary_email email) (claims_of digest user_id a r p q)
      ≡ lookup (email_key digest primary_email email) (primary_rows digest user_id a)
unfolding lookup text_eq email_key oauth_key
lookup-claims_of digest email user_id a none none none = refl
lookup-claims_of digest email user_id a none none (some q) = refl
lookup-claims_of digest email user_id a none (some p) none = refl
lookup-claims_of digest email user_id a none (some p) (some q) = refl
lookup-claims_of digest email user_id a (some r) none none = refl
lookup-claims_of digest email user_id a (some r) none (some q) = refl
lookup-claims_of digest email user_id a (some r) (some p) none = refl
lookup-claims_of digest email user_id a (some r) (some p) (some q) = refl

module _ (digest : Text → Text) where
  abbrev pub primary_row : Text → Account → IndexEntry
  primary_row user_id a = record {
    kind = primary_email;
    user_id = user_id;
    provider = none;
    verified = some a.is_email_verified;
    expires_at = none;
  }

  pub lookup-claims_self :
      (user_id : Text) (a : Account) (now : ℕ)
      → lookup (email_key digest primary_email a.email) (claims digest user_id a now)
        ≡ some (primary_row user_id a)
  unfolding lookup
  lookup-claims_self user_id a now =
      lookup-claims_of digest a.email user_id a (oauth_identity a)
        (until now a.new_email_pending a.migration_token_expires)
        (until now a.previous_email a.migration_expiry)
      ∙ ground (arith, text_eq_refl (email_key digest primary_email a.email))

  lookup-claims_other :
      (user_id : Text) (a : Account) (now : ℕ) (email : Text)
      → email_key digest primary_email a.email ≢ email_key digest primary_email email
      → lookup (email_key digest primary_email email) (claims digest user_id a now) ≡ none
  unfolding lookup
  lookup-claims_other user_id a now email n =
      let key = email_key digest primary_email email in
      lookup-claims_of digest email user_id a (oauth_identity a)
        (until now a.new_email_pending a.migration_token_expires)
        (until now a.previous_email a.migration_expiry)
      ∙ ground (arith, text_eq_iff (email_key digest primary_email a.email) key)

  pub find-primary_row :
      (later : ℕ) (user_id : Text) (a : Account) (t : IndexTable)
      → lookup (email_key digest primary_email a.email) t ≡ some (primary_row user_id a)
      → find_user_id_by_primary_email digest later a.email t ≡ some user_id
  unfolding find_user_id_by_primary_email find_active is_active
  find-primary_row later user_id a t h = rw (h, find_user_id_by_primary_email, find_active) refl

  -- A later user, of another identifier and another primary key.
  abbrev pub Apart : Text → Account → (Text × Account × ℕ) → Type 0
  Apart user_id a (u, b, now) =
      (is_empty u ≡ false)
      × (u ≢ user_id)
      × (email_key digest primary_email b.email ≢ email_key digest primary_email a.email)

  after_sync-kept :
      (u user_id : Text) (a : Account) (claim before : Option IndexEntry)
      → claim ≡ none
      → before ≡ some (primary_row user_id a)
      → u ≢ user_id
      → after_sync u claim before ≡ some (primary_row user_id a)
  after_sync-kept u user_id a none (some e) c b n = ground (arith, text_eq_iff e.user_id u)
  after_sync-kept u user_id a none none c b n = cc
  after_sync-kept u user_id a (some e) before c b n = cc

  backfill_keeps :
      (user_id : Text) (a : Account) (users : List (Text × Account × ℕ)) (t : IndexTable)
      → All (Apart user_id a) users
      → Distinct t
      → lookup (email_key digest primary_email a.email) t ≡ some (primary_row user_id a)
      → (t' : IndexTable) × (backfill digest users t ≡ some t')
        × (lookup (email_key digest primary_email a.email) t' ≡ some (primary_row user_id a))
  unfolding backfill
  backfill_keeps user_id a [] t h d f = (t, refl, f)
  backfill_keeps user_id a ((u, b, now) ∷ users) t h d f =
      let (t1, e1, d1, at1) = sync_identity_indexes-lookup digest u b now t h.0.0 d in
      let key = email_key digest primary_email a.email in
      let kept =
        at1 key
        ∙ after_sync-kept u user_id a _ _ (lookup-claims_other u b now a.email h.0.2) f h.0.1 in
      let (t', e', f') = backfill_keeps user_id a users t1 h.1 d1 kept in
      (t', rw (e1, backfill) e', f')

  -- A backfill in which, after the sync of a user with an identifier that is not empty, only users
  -- of other identifiers (none empty) and other primary keys are synced, ends, and the user's
  -- primary email then resolves to the user at every time, whoever had it before.
  pub backfill-find_user_id_by_primary_email :
      (user_id : Text) (a : Account) (now later : ℕ) (users : List (Text × Account × ℕ))
      (t : IndexTable)
      → is_empty user_id ≡ false
      → All (Apart user_id a) users
      → Distinct t
      → (t' : IndexTable) × (backfill digest ((user_id, a, now) ∷ users) t ≡ some t')
        × (find_user_id_by_primary_email digest later a.email t' ≡ some user_id)
  unfolding backfill
  backfill-find_user_id_by_primary_email user_id a now later users t i h d =
      let (t1, e1, d1, at1) = sync_identity_indexes-lookup digest user_id a now t i d in
      let key = email_key digest primary_email a.email in
      let found : lookup key t1 ≡ some (primary_row user_id a) =
        at1 key
        ∙ ap (λ c. after_sync user_id c (lookup key t)) (lookup-claims_self user_id a now) in
      let (t', e', f') = backfill_keeps user_id a users t1 h d1 found in
      (t', rw (e1, backfill) e', find-primary_row later user_id a t' f')

  -- The sweeper takes no row that a look-up would use: in a table with no key twice, each address of
  -- each kind has the same active row after a sweep at the same or an earlier time, and the same
  -- holder of a pending migration.
  pub sweep_expired-find_active :
      (swept now : ℕ) (kind : IdentityIndexKind) (email : Text) (t : IndexTable)
      → swept ≤ now
      → Distinct t
      → (find_active digest now kind email (sweep_expired swept t)
          ≡ find_active digest now kind email t)
        × (find_pending_migration_holder digest now email (sweep_expired swept t)
            ≡ find_pending_migration_holder digest now email t)
  unfolding find_active find_pending_migration_holder sweep_expired is_active has_expired
  sweep_expired-find_active swept now kind email t le d =
      let p : Text → IndexEntry → Bool = λ k e. has_expired swept e.expires_at in
      let k1 = email_key digest kind email in
      let k2 = email_key digest pending_migration email in
      (
        ground (arith, lookup-delete_where p k1 t d, Option-cases (lookup k1 t)),
        ground (arith, lookup-delete_where p k2 t d, Option-cases (lookup k2 t)),
      )
