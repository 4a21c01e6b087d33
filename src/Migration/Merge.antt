-- ===== src/Migration/Merge.antt =====
-- What the end of a migration leaves when another account had the new email.
use uam_backend.Prelude.{
  some, true, false, Text, List, lookup, ◌≡◌, insert, ◌+◌, text, lookup-insert_self, refl, ==_refl,
  ◌≢◌, ℕ, none, arith, lookup-delete_ne, ◌∷◌, text_eq_refl, ap, ◌∙◌, Distinct, text_eq_iff, ◌||◌,
  delete, [], not, text_eq, ◌&&◌, lookup-insert_ne, sym, lookup-delete_self,
}
use uam_backend.Accounts.World.{Env, Fresh, clashes, signed_in, same_provider, same_optional}
use uam_backend.Account.{Account}
use uam_backend.Migration.Finalize.{
  save_and_finish, update_and_sign_in, increment_version, save_or_recover, final_account,
  merge_accounts, migrated_account, delete_user,
}
use uam_backend.Session.{UserRow, Moment, or_zero, persist_session_tokens}
use uam_backend.Accounts.Login.{Worlds, open_session, version_of, moved_account}
use uam_backend.Identity.Table.{IndexTable, is_empty, primary_email}
use uam_backend.Session.Rotation.{accepts}
use uam_backend.Identity.Service.{
  sync_identity_indexes, find_user_id_by_primary_email, release_user, email_key,
}
use uam_backend.Session.Invalidation.{persisted-row, persist_session_tokens-remove, persisted-other}
use uam_backend.Migration.Preserve.{apply_user_data, extract_user_data, text_or_empty}
use uam_backend.Identity.Sync.{sync_identity_indexes-lookup, after_sync}
use uam_backend.Identity.Rows.{Distinct-delete_where}
use uam_backend.Accounts.Saving.{save_account_ok}
use uam_backend.Identity.Resolve.{primary_row, lookup-claims_self, find-primary_row}

module _ (env : Env) where
  open env use {o}

  finish_ok :
      (m : Moment) (fresh : Fresh) (message id : Text) (final old : Account) (w : Worlds env)
      (index : IndexTable)
      → lookup id w.accounts ≡ some old
      → clashes id final w.accounts ≡ false
      → sync_identity_indexes env.digest id final m.now w.index ≡ some index
      → save_and_finish env m fresh message id final w ≡ (
        open_session env m fresh id
            (record w { accounts = insert id final w.accounts; index = index }),
        signed_in env.omit_refresh_in_body 200 message fresh id final,
      )
  unfolding save_and_finish save_or_recover
  finish_ok m fresh message id final old w index e n s =
      rw (save_account_ok id final old w.accounts e n, save_and_finish, save_or_recover) (rw s refl)

  update_ok :
      (m : Moment) (fresh : Fresh) (id : Text) (migrated final old : Account) (w : Worlds env)
      → lookup id w.accounts ≡ some old
      → clashes id migrated w.accounts ≡ false
      → update_and_sign_in env m fresh id (version_of env id w) migrated final w
        ≡ save_and_finish env m fresh
            (text "Migration completed successfully")
            id
            final
            (increment_version env id (record w { accounts = insert id migrated w.accounts }))
  unfolding update_and_sign_in save_or_recover
  update_ok m fresh id migrated final old w e n =
      rw (==_refl (version_of env id w), update_and_sign_in)
        (rw (save_account_ok id migrated old w.accounts e n, save_or_recover) refl)

  increment_row :
      (id : Text) (row : UserRow) (w : Worlds env)
      → lookup id w.sessions.users ≡ some row
      → let w' = increment_version env id w in
        (w'.accounts ≡ w.accounts)
        × (w'.index ≡ w.index)
        × (lookup id w'.sessions.users
            ≡ some (record row { token_version = some (or_zero row.token_version + 1) }))
  unfolding increment_version
  increment_row id row w e =
      rw (e, increment_version) (refl, refl, lookup-insert_self id _ w.sessions.users)

  increment_row_other :
      (id j : Text) (row : UserRow) (w : Worlds env)
      → lookup id w.sessions.users ≡ some row
      → id ≢ j
      → lookup j (increment_version env id w).sessions.users ≡ lookup j w.sessions.users
  unfolding increment_version
  increment_row_other id j row w e n =
      rw (e, increment_version) (lookup-insert_ne id j _ w.sessions.users n)

  open_session_other :
      (m : Moment) (fresh : Fresh) (id j : Text) (row : UserRow) (w : Worlds env)
      → lookup id w.sessions.users ≡ some row
      → id ≢ j
      → lookup j (open_session env m fresh id w).sessions.users ≡ lookup j w.sessions.users
  unfolding open_session
  open_session_other m fresh id j row w e n =
      persisted-other o w.sessions m id j fresh.access_token fresh.refresh_token
        (some (version_of env id w)) row e n

  session_version :
      (m : Moment) (fresh : Fresh) (id : Text) (row : UserRow) (w : Worlds env)
      → lookup id w.sessions.users ≡ some row
      → (accepts o (open_session env m fresh id w).sessions id fresh.refresh_token ≡ true)
        × (version_of env id (open_session env m fresh id w) ≡ or_zero row.token_version)
  unfolding open_session
  session_version m fresh id row w e =
      let s =
        persist_session_tokens o w.sessions m id fresh.access_token fresh.refresh_token
          (some (version_of env id w)) in
      let stored =
        persisted-row o w.sessions m id fresh.access_token fresh.refresh_token
          (some (version_of env id w)) row e in
      (
        (persist_session_tokens-remove o w.sessions m id fresh.access_token fresh.refresh_token
            (some (version_of env id w)) row e).0,
        rw (stored, open_session, version_of) refl,
      )

clashes-insert :
    (id : Text) (a b : Account) (accounts : List (Text × Account))
    → clashes id a (insert id b accounts) ≡ clashes id a accounts
unfolding clashes insert
clashes-insert id a b [] = ground (arith, text_eq_refl id)
clashes-insert id a b ((j, c) ∷ rest) =
    ground (arith, text_eq_refl id, text_eq_iff j id, clashes-insert id a b rest)

clashes_cong :
    (id : Text) (a b : Account) (accounts : List (Text × Account))
    → a.email ≡ b.email
    → a.provider ≡ b.provider
    → a.provider_id ≡ b.provider_id
    → clashes id a accounts ≡ clashes id b accounts
unfolding clashes
clashes_cong id a b [] e p q = refl
clashes_cong id a b ((j, c) ∷ rest) e p q = rw e (
    rw p (
      rw q (
        ap
          (λ r.
            (not (text_eq j id)
              && (text_eq c.email b.email
                  || (same_provider c.provider b.provider
                      && same_optional c.provider_id b.provider_id)))
            || r)
          (clashes_cong id a b rest e p q))))

-- The parts of an account that a migration keeps.
abbrev pub KeepsData : Account → Account → Type 0
KeepsData a b =
    (b.display_name ≡ a.display_name)
    × (b.bio ≡ some (text_or_empty a.bio))
    × (b.provider ≡ a.provider)
    × (b.provider_id ≡ a.provider_id)
    × (b.password ≡ a.password)
    × (b.last_login ≡ a.last_login)

module _ (env : Env) (avatar_url : Text → Text) where
  open env use {o}

  final_account-email :
      (now : ℕ) (new_email : Text) (a : Account)
      → let b = final_account env avatar_url now new_email a in
        (b.email ≡ new_email)
        × (b.previous_email ≡ some a.email)
        × (b.new_email_pending ≡ none)
        × KeepsData a b
  unfolding final_account migrated_account moved_account apply_user_data extract_user_data
  final_account-email now new_email a = (refl, refl, refl, (refl, refl, refl, refl, refl, refl))

  merged :
      (m : Moment) (fresh : Fresh) (id existing new_email : Text) (a : Account) (row : UserRow)
      (w : Worlds env) (index : IndexTable)
      → lookup id w.accounts ≡ some a
      → lookup id w.sessions.users ≡ some row
      → existing ≢ id
      → let w1 = delete_user env existing w in
        let migrated = migrated_account m.now new_email a in
        let final = final_account env avatar_url m.now new_email a in
        clashes id migrated w1.accounts ≡ false
        → sync_identity_indexes env.digest id final m.now w1.index ≡ some index
        → (w2 : Worlds env) × (merge_accounts env avatar_url m fresh id existing new_email a w ≡ (
          open_session env m fresh id w2,
          signed_in env.omit_refresh_in_body 200
              (text "Migration completed successfully")
              fresh
              id
              final,
        ))
          × (w2.accounts ≡ insert id final (insert id migrated w1.accounts))
          × (w2.index ≡ index)
          × (lookup id w2.sessions.users
              ≡ some (record row { token_version = some (or_zero row.token_version + 1) }))
          × (lookup existing w2.sessions.users ≡ none)
  unfolding merge_accounts delete_user
  merged m fresh id existing new_email a row w index f r n c s =
      let w1 = delete_user env existing w in
      let migrated = migrated_account m.now new_email a in
      let final = final_account env avatar_url m.now new_email a in
      let a1 = lookup-delete_ne existing id w.accounts n ∙ f in
      let row1 = lookup-delete_ne existing id w.sessions.users n ∙ r in
      let wm : Worlds env = record w1 { accounts = insert id migrated w1.accounts } in
      let wi = increment_version env id wm in
      let (accounts, index_kept, bumped) = increment_row env id row wm row1 in
      let same_version : version_of env id w ≡ version_of env id w1 =
        rw (r, version_of) (rw (row1, version_of) refl) in
      let c' =
        clashes-insert id final migrated w1.accounts
        ∙ clashes_cong id final migrated w1.accounts refl refl refl
        ∙ c in
      (
        record wi { accounts = insert id final wi.accounts; index = index },
        rw (same_version, merge_accounts)
            (update_ok env m fresh id migrated final a w1 a1 c
              ∙ finish_ok env m fresh (text "Migration completed successfully") id final migrated wi
                  index (ap (lookup id) accounts ∙ lookup-insert_self id migrated w1.accounts)
                  (ap (clashes id final) accounts ∙ c')
                  (ap (sync_identity_indexes env.digest id final m.now) index_kept ∙ s)),
        ap (insert id final) accounts,
        refl,
        bumped,
        increment_row_other env id existing row wm row1 (λ x. n (sym x))
            ∙ lookup-delete_self existing w.sessions.users,
      )

  -- A migration to an email that another account has, for a known user with an identifier that is
  -- not empty, in an index with no key twice, ends with status 200 if the moved account clashes with
  -- no third one: the other account is gone, and so is the row of its sessions; the user's account
  -- has the new email, the old one as the previous, no pending one, and the same name, bio, provider
  -- and password; the version of its tokens is the next one; the new refresh token is accepted; and
  -- the new email resolves to the user.
  pub merge_accounts_ends :
      (m : Moment) (fresh : Fresh) (later : ℕ) (id existing new_email : Text) (a : Account)
      (row : UserRow) (w : Worlds env)
      → is_empty id ≡ false
      → Distinct w.index
      → lookup id w.accounts ≡ some a
      → lookup id w.sessions.users ≡ some row
      → existing ≢ id
      → clashes id (migrated_account m.now new_email a) (delete existing w.accounts) ≡ false
      → let (w', reply) = merge_accounts env avatar_url m fresh id existing new_email a w in
        (reply.status ≡ 200)
        × (lookup existing w'.accounts ≡ none)
        × (lookup existing w'.sessions.users ≡ none)
        × ((b : Account) × (lookup id w'.accounts ≡ some b)
            × (b.email ≡ new_email)
            × (b.previous_email ≡ some a.email)
            × (b.new_email_pending ≡ none)
            × KeepsData a b)
        × (version_of env id w' ≡ version_of env id w + 1)
        × (accepts o w'.sessions id fresh.refresh_token ≡ true)
        × (find_user_id_by_primary_email env.digest later new_email w'.index ≡ some id)
  unfolding delete_user release_user open_session signed_in
  merge_accounts_ends m fresh later id existing new_email a row w i d f r n c =
      let final = final_account env avatar_url m.now new_email a in
      let migrated = migrated_account m.now new_email a in
      let released = release_user existing w.index in
      let (index, s, d', at) =
        sync_identity_indexes-lookup env.digest id final m.now released i
          (Distinct-delete_where (λ k e. text_eq e.user_id existing) w.index d) in
      let (w2, e, accounts, index_is, bumped, gone) =
        merged m fresh id existing new_email a row w index f r n c s in
      let (email, previous, pending, kept) = final_account-email m.now new_email a in
      let (accepted, version) = session_version env m fresh id _ w2 bumped in
      let key = email_key env.digest primary_email final.email in
      let found : lookup key index ≡ some (primary_row env.digest id final) =
        at key
        ∙ ap (λ x. after_sync id x (lookup key released))
            (lookup-claims_self env.digest id final m.now) in
      let without = delete existing w.accounts in
      rw e (
        refl,
        ap (lookup existing) accounts
            ∙ lookup-insert_ne id existing final (insert id migrated without) (λ x. n (sym x))
            ∙ lookup-insert_ne id existing migrated without (λ x. n (sym x))
            ∙ lookup-delete_self existing w.accounts,
        open_session_other env m fresh id existing _ w2 bumped (λ x. n (sym x)) ∙ gone,
        (
          final,
          ap (lookup id) accounts ∙ lookup-insert_self id final (insert id migrated without),
          email,
          previous,
          pending,
          kept,
        ),
        version ∙ rw (r, version_of) refl,
        accepted,
        ap (λ x. find_user_id_by_primary_email env.digest later x w2.index) (sym email)
            ∙ ap (find_user_id_by_primary_email env.digest later final.email) index_is
            ∙ find-primary_row env.digest later id final index found,
      )
