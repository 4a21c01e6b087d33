-- ===== src/Identity/Sync.antt =====
-- What a sync of a user's identities does to every key of the index.
use uam_backend.Prelude.{
  Text, List, Option, lookup, ◌≡◌, Distinct, ℕ, Bool, [], ◌++◌, false, some, ◌∷◌, insert,
  lookup-insert, Distinct-insert, true, none, ◌∙◌, refl, arith, ap, text_eq, ◌&&◌, not, sym,
  if◌then◌else◌,
}
use uam_backend.Identity.Table.{
  IndexTable, IdentityIndexKind, write_fields, IndexEntry, is_empty, clear_fields, primary_email,
  write_field, pending_migration, clear_field, previous_email, oauth, delete_where,
}
use uam_backend.Account.{Account, AuthProvider}
use uam_backend.Identity.Service.{
  email_key, oauth_identity, oauth_key, until, upsert, primary_update, dated_update, oauth_update,
  sync_identity_indexes, dated_key, prune_keys, oauth_keys, expected_keys_for_user,
}
use uam_backend.Identity.Rows.{upsert_written, spared, Distinct-delete_where, lookup-delete_where}
use uam_backend.Session.{contains}

-- The rows of all entries, the first of a key last, so that it is the one that stands.
abbrev pub insert_all : List (Text × IndexEntry) → IndexTable → IndexTable
insert_all [] t = t
insert_all ((k, e) ∷ rows) t = insert k e (insert_all rows t)

abbrev pub or_else : Option IndexEntry → Option IndexEntry → Option IndexEntry
or_else (some e) o = some e
or_else none o = o

lookup-insert_all :
    (k : Text) (rows t : IndexTable)
    → lookup k (insert_all rows t) ≡ or_else (lookup k rows) (lookup k t)
unfolding lookup
lookup-insert_all k [] t = refl
lookup-insert_all k ((j, e) ∷ rows) t =
    lookup-insert j k e (insert_all rows t) ∙ ground (arith, lookup-insert_all k rows t)

Distinct-insert_all : (rows t : IndexTable) → Distinct t → Distinct (insert_all rows t)
Distinct-insert_all [] t d = d
Distinct-insert_all ((j, e) ∷ rows) t d =
    Distinct-insert j e (insert_all rows t) (Distinct-insert_all rows t d)

abbrev pub is_some : Option IndexEntry → Bool
is_some none = false
is_some (some e) = true

abbrev pub oauth_rows : Text → Option (AuthProvider × Text) → List (Text × IndexEntry)
oauth_rows user_id none = []
oauth_rows user_id (some (p, id)) =
    (
      oauth_key p id,
      record {
        kind = oauth;
        user_id = user_id;
        provider = some p;
        verified = none;
        expires_at = none;
      },
    )
    ∷ []

module _ (digest : Text → Text) where
  abbrev pub dated_rows : IdentityIndexKind → Text → Option (Text × ℕ) → List (Text × IndexEntry)
  dated_rows k user_id none = []
  dated_rows k user_id (some (address, expiry)) =
      (
        email_key digest k address,
        record {
          kind = k;
          user_id = user_id;
          provider = none;
          verified = none;
          expires_at = some expiry;
        },
      )
      ∷ []

  abbrev pub primary_rows : Text → Account → List (Text × IndexEntry)
  primary_rows user_id a =
      (
        email_key digest primary_email a.email,
        record {
          kind = primary_email;
          user_id = user_id;
          provider = none;
          verified = some a.is_email_verified;
          expires_at = none;
        },
      )
      ∷ []

  -- The rows that a user's columns call for at a time.
  abbrev pub claims_of :
      Text
      → Account
      → Option (AuthProvider × Text)
      → Option (Text × ℕ)
      → Option (Text × ℕ)
      → List (Text × IndexEntry)
  claims_of user_id a account pending_until previous_until =
      oauth_rows user_id account
      ++ (dated_rows pending_migration user_id pending_until
          ++ (dated_rows previous_email user_id previous_until ++ primary_rows user_id a))

  abbrev pub claims : Text → Account → ℕ → List (Text × IndexEntry)
  claims user_id a now =
      claims_of user_id a (oauth_identity a)
        (until now a.new_email_pending a.migration_token_expires)
        (until now a.previous_email a.migration_expiry)

  is_empty-email_key :
      (kind : IdentityIndexKind) (email : Text) → is_empty (email_key digest kind email) ≡ false
  unfolding email_key
  is_empty-email_key primary_email email = refl
  is_empty-email_key previous_email email = refl
  is_empty-email_key pending_migration email = refl
  is_empty-email_key oauth email = refl

  upsert-primary :
      (user_id : Text) (a : Account) (t : IndexTable)
      → is_empty user_id ≡ false
      → upsert (some (primary_update digest user_id a)) (some t)
        ≡ some (insert_all (primary_rows user_id a) t)
  unfolding write_fields clear_fields write_field clear_field
  upsert-primary user_id a t i =
      upsert_written (email_key digest primary_email a.email) _ _ (λ e. refl) t
        (is_empty-email_key primary_email a.email) i

  upsert-dated :
      (k : IdentityIndexKind) (user_id : Text) (o : Option (Text × ℕ)) (t : IndexTable)
      → is_empty user_id ≡ false
      → upsert (dated_update digest k user_id o) (some t)
        ≡ some (insert_all (dated_rows k user_id o) t)
  unfolding write_fields clear_fields write_field clear_field upsert
  upsert-dated k user_id none t i = refl
  upsert-dated k user_id (some (address, expiry)) t i =
      upsert_written (email_key digest k address) _ _ (λ e. refl) t (is_empty-email_key k address) i

upsert-oauth :
    (user_id : Text) (o : Option (AuthProvider × Text)) (t : IndexTable)
    → is_empty user_id ≡ false
    → upsert (oauth_update user_id o) (some t) ≡ some (insert_all (oauth_rows user_id o) t)
unfolding write_fields clear_fields write_field clear_field upsert oauth_key
upsert-oauth user_id none t i = refl
upsert-oauth user_id (some (p, id)) t i = upsert_written (oauth_key p id) _ _ (λ e. refl) t refl i

insert_all-append :
    (xs ys t : IndexTable) → insert_all (xs ++ ys) t ≡ insert_all xs (insert_all ys t)
insert_all-append [] ys t = refl
insert_all-append ((k, e) ∷ xs) ys t = ap (insert k e) (insert_all-append xs ys t)

contains-is_some :
    (digest : Text → Text) (k user_id : Text) (a : Account) (r : Option (AuthProvider × Text))
    (p q : Option (Text × ℕ))
    → contains k (
        (email_key digest primary_email a.email ∷ [])
        ++ dated_key digest previous_email q
        ++ dated_key digest pending_migration p
        ++ oauth_keys r)
      ≡ is_some (lookup k (claims_of digest user_id a r p q))
unfolding contains lookup
contains-is_some digest k user_id a none none none = ground arith
contains-is_some digest k user_id a none none (some q) = ground arith
contains-is_some digest k user_id a none (some p) none = ground arith
contains-is_some digest k user_id a none (some p) (some q) = ground arith
contains-is_some digest k user_id a (some r) none none = ground arith
contains-is_some digest k user_id a (some r) none (some q) = ground arith
contains-is_some digest k user_id a (some r) (some p) none = ground arith
contains-is_some digest k user_id a (some r) (some p) (some q) = ground arith

abbrev pub owned : Text → List Text → Text → IndexEntry → Bool
owned user_id expected k e = text_eq e.user_id user_id && not (contains k expected)

-- What an entry of a key becomes when a user's identities are synced.
abbrev pub after_sync : Text → Option IndexEntry → Option IndexEntry → Option IndexEntry
after_sync user_id (some e) before = some e
after_sync user_id none none = none
after_sync user_id none (some e) = if text_eq e.user_id user_id then none else some e

spared-after_sync :
    (user_id : Text) (expected : List Text) (k : Text) (claim before : Option IndexEntry)
    → contains k expected ≡ is_some claim
    → spared (owned user_id expected) k (or_else claim before) ≡ after_sync user_id claim before
spared-after_sync user_id expected k (some e) before h = ground arith
spared-after_sync user_id expected k none none h = refl
spared-after_sync user_id expected k none (some e) h = ground arith

module _ (digest : Text → Text) where
  insert_all-claims_of :
      (user_id : Text) (a : Account) (r : Option (AuthProvider × Text)) (p q : Option (Text × ℕ))
      (t : IndexTable)
      → insert_all (claims_of digest user_id a r p q) t
        ≡ insert_all (oauth_rows user_id r) (
            insert_all (dated_rows digest pending_migration user_id p) (
              insert_all
                (dated_rows digest previous_email user_id q)
                (insert_all (primary_rows digest user_id a) t)))
  insert_all-claims_of user_id a r p q t =
      let last = primary_rows digest user_id a in
      let old = dated_rows digest previous_email user_id q in
      let next = dated_rows digest pending_migration user_id p in
      let account = oauth_rows user_id r in
      insert_all-append account (next ++ (old ++ last)) t
      ∙ ap (insert_all account) (
          insert_all-append next (old ++ last) t
          ∙ ap (insert_all next) (insert_all-append old last t))

  sync-pruned :
      (user_id : Text) (a : Account) (now : ℕ) (t : IndexTable)
      → is_empty user_id ≡ false
      → sync_identity_indexes digest user_id a now t
        ≡ some (
            delete_where
              (owned user_id (expected_keys_for_user digest a now))
              (insert_all (claims digest user_id a now) t))
  unfolding sync_identity_indexes prune_keys
  sync-pruned user_id a now t i =
      let q = until now a.previous_email a.migration_expiry in
      let p = until now a.new_email_pending a.migration_token_expires in
      let r = oauth_identity a in
      let t1 = insert_all (primary_rows digest user_id a) t in
      let t2 = insert_all (dated_rows digest previous_email user_id q) t1 in
      let t3 = insert_all (dated_rows digest pending_migration user_id p) t2 in
      rw (upsert-primary digest user_id a t i, sync_identity_indexes)
        (rw (upsert-dated digest previous_email user_id q t1 i) (
          rw (upsert-dated digest pending_migration user_id p t2 i) (
            rw (upsert-oauth user_id r t3 i) (
              ap (λ x. some (delete_where (owned user_id (expected_keys_for_user digest a now)) x))
                (sym (insert_all-claims_of user_id a r p q t))))))

  -- With a user's identifier that is not empty and a table with no key twice, a sync succeeds and
  -- leaves no key twice; afterwards each key that the user's columns call for has the row that they
  -- call for, whoever had it, each other key of the user is gone, and each other key of another
  -- user is as it was.
  pub sync_identity_indexes-lookup :
      (user_id : Text) (a : Account) (now : ℕ) (t : IndexTable)
      → is_empty user_id ≡ false
      → Distinct t
      → (t' : IndexTable) × (sync_identity_indexes digest user_id a now t ≡ some t')
        × Distinct t'
        × ((k : Text)
            → lookup k t'
              ≡ after_sync user_id (lookup k (claims digest user_id a now)) (lookup k t))
  unfolding expected_keys_for_user
  sync_identity_indexes-lookup user_id a now t i d =
      let rows = claims digest user_id a now in
      let expected = expected_keys_for_user digest a now in
      let p = owned user_id expected in
      let d1 = Distinct-insert_all rows t d in
      (
        delete_where p (insert_all rows t),
        sync-pruned user_id a now t i,
        Distinct-delete_where p (insert_all rows t) d1,
        λ k.
            lookup-delete_where p k (insert_all rows t) d1
            ∙ ap (spared p k) (lookup-insert_all k rows t)
            ∙ spared-after_sync user_id expected k (lookup k rows) (lookup k t) (
                contains-is_some digest k user_id a (oauth_identity a)
                  (until now a.new_email_pending a.migration_token_expires)
                  (until now a.previous_email a.migration_expiry)),
      )

  after_sync-after_sync :
      (user_id : Text) (claim before : Option IndexEntry)
      → after_sync user_id claim (after_sync user_id claim before) ≡ after_sync user_id claim before
  after_sync-after_sync user_id (some e) before = refl
  after_sync-after_sync user_id none none = refl
  after_sync-after_sync user_id none (some e) = ground arith

  -- Syncing the same columns a second time at the same moment changes what no key finds, under the
  -- conditions of a sync's success.
  pub sync_identity_indexes_twice :
      (user_id : Text) (a : Account) (now : ℕ) (t : IndexTable)
      → is_empty user_id ≡ false
      → Distinct t
      → (t1 t2 : IndexTable) × (sync_identity_indexes digest user_id a now t ≡ some t1)
        × (sync_identity_indexes digest user_id a now t1 ≡ some t2)
        × ((k : Text) → lookup k t2 ≡ lookup k t1)
  sync_identity_indexes_twice user_id a now t i d =
      let (t1, e1, d1, at1) = sync_identity_indexes-lookup user_id a now t i d in
      let (t2, e2, d2, at2) = sync_identity_indexes-lookup user_id a now t1 i d1 in
      let claim : Text → Option IndexEntry = λ k. lookup k (claims digest user_id a now) in
      (
        t1,
        t2,
        e1,
        e2,
        λ k.
            at2 k
            ∙ ap (after_sync user_id (claim k)) (at1 k)
            ∙ after_sync-after_sync user_id (claim k) (lookup k t)
            ∙ sym (at1 k),
      )
