-- ===== src/Identity/Table.antt =====
-- The table of the identity index (src/db/UserIdentityIndex.ts, and the sweeper of
-- src/db/migrations.ts), as an association list from keys to rows. The counts of deleted rows,
-- which no caller reads, and the row's two timestamps are left out.
use uam_backend.Prelude.{
  Text, Option, List, Bool, ℕ, some, none, [], true, lookup, false, ◌∷◌, insert, if◌then◌else◌, ltb,
  not, ◌||◌,
}
use uam_backend.Account.{AuthProvider}

pub data IdentityIndexKind : Type 0 where
  primary_email : IdentityIndexKind
  previous_email : IdentityIndexKind
  pending_migration : IdentityIndexKind
  oauth : IdentityIndexKind

pub record IndexEntry : Type 0 where
  pub kind : IdentityIndexKind
  pub user_id : Text
  pub provider : Option AuthProvider
  pub verified : Option Bool
  pub expires_at : Option ℕ

abbrev pub IndexTable : Type 0
IndexTable = List (Text × IndexEntry)

-- The fields that an update writes.
pub data SetField : Type 0 where
  set_kind : IdentityIndexKind → SetField
  set_user_id : Text → SetField
  set_provider : AuthProvider → SetField
  set_verified : Bool → SetField
  set_expires_at : ℕ → SetField

pub data UnsetField : Type 0 where
  unset_provider : UnsetField
  unset_verified : UnsetField
  unset_expires_at : UnsetField

pub record IndexUpdate : Type 0 where
  pub set_doc : List SetField
  pub unset_keys : List UnsetField

pub record UpdateResult : Type 0 where
  pub matched_count : ℕ
  pub modified_count : ℕ
  pub upserted_count : ℕ

unfoldable pub write_field : SetField → IndexEntry → IndexEntry
write_field (set_kind k) e = record e { kind = k }
write_field (set_user_id u) e = record e { user_id = u }
write_field (set_provider p) e = record e { provider = some p }
write_field (set_verified b) e = record e { verified = some b }
write_field (set_expires_at t) e = record e { expires_at = some t }

unfoldable pub clear_field : UnsetField → IndexEntry → IndexEntry
clear_field unset_provider e = record e { provider = none }
clear_field unset_verified e = record e { verified = none }
clear_field unset_expires_at e = record e { expires_at = none }

unfoldable pub write_fields : List SetField → IndexEntry → IndexEntry
unfolding write_field
write_fields [] e = e
write_fields (f ∷ fs) e = write_fields fs (write_field f e)

unfoldable pub clear_fields : List UnsetField → IndexEntry → IndexEntry
unfolding clear_field
clear_fields [] e = e
clear_fields (f ∷ fs) e = clear_fields fs (clear_field f e)

-- A document with nothing set: the kind falls back to 'oauth', the user's id is missing.
abbrev pub blank_entry : IndexEntry
blank_entry = record {
  kind = oauth;
  user_id = [];
  provider = none;
  verified = none;
  expires_at = none;
}

abbrev pub is_empty : Text → Bool
is_empty [] = true
is_empty (c ∷ cs) = false

-- `none` where the upsert throws. The foreign key to the users table is not tested: each caller syncs
-- a user whose row it has just read or saved.
unfoldable pub update_one :
    Text → IndexUpdate → Bool → IndexTable → Option (IndexTable × UpdateResult)
unfolding write_fields clear_fields
update_one key u upsert t = elim (lookup key t) [
  | some e ↦ some (
    insert key (clear_fields u.unset_keys (write_fields u.set_doc e)) t,
    record { matched_count = 1; modified_count = 1; upserted_count = 0 },
  )
  | none ↦
      let doc = clear_fields u.unset_keys (write_fields u.set_doc blank_entry) in
      if not upsert
      then some (t, record { matched_count = 0; modified_count = 0; upserted_count = 0 })
      else if is_empty key || is_empty doc.user_id
      then none
      else some
          (insert key doc t, record { matched_count = 0; modified_count = 0; upserted_count = 1 })
]

-- deleteOne and deleteMany: the rows that the filter matches.
unfoldable pub delete_where : (Text → IndexEntry → Bool) → IndexTable → IndexTable
delete_where p [] = []
delete_where p ((k, e) ∷ t) = let rest = delete_where p t in if p k e then rest else (k, e) ∷ rest

unfoldable pub has_expired : ℕ → Option ℕ → Bool
has_expired now none = false
has_expired now (some expiry) = ltb expiry now

-- The sweeper's statement.
unfoldable pub sweep_expired : ℕ → IndexTable → IndexTable
sweep_expired now t = delete_where (λ k e. has_expired now e.expires_at) t
