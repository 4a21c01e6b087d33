-- ===== src/OAuth/Takeover.antt =====
-- Whose account an OAuth sign-in takes over.
use uam_backend.Prelude.{
  none, some, true, false, Text, ℕ, ◌≡◌, lookup, Distinct, insert, lookup-insert_self, refl, Option,
  text_eq_refl, ◌∷◌,
}
use uam_backend.Identity.Table.{is_empty}
use uam_backend.Account.{local, AuthProvider, Account, is_present, google, github}
use uam_backend.Accounts.World.{Env, is_text, clashes, same_provider, Fresh}
use uam_backend.OAuth.Strategy.{
  find_user_for_oauth, by_email, take_over, can_oauth_take_over_local_account, loaded, taken_over,
  oauth_provider_conflict, OAuthProfile, signed_in_as,
}
use uam_backend.Accounts.Login.{Worlds}
use uam_backend.Identity.Service.{
  ResolvedEmailIdentity, find_user_id_by_oauth, resolve_email_identity, normalize_email,
}
use uam_backend.Identity.Sync.{sync_identity_indexes-lookup}
use uam_backend.Accounts.Saving.{save_account_ok}
use uam_backend.OAuth.SignIn.{
  sign_in_user, sign_in_with, same_or_missing, chosen_avatar, chosen_name, shown_name,
}

same_provider_refl : (p : AuthProvider) → same_provider p p ≡ true
same_provider_refl local = refl
same_provider_refl google = refl
same_provider_refl github = refl

module _ (env : Env) where
  open env use {o}

  find_user_for_oauth_takes_over :
      (now : ℕ) (email : Text) (provider : AuthProvider) (provider_id : Text) (w : Worlds env)
      (r : ResolvedEmailIdentity) (a : Account)
      → find_user_id_by_oauth provider provider_id w.index ≡ none
      → resolve_email_identity env.digest now (normalize_email email) w.index ≡ some r
      → lookup r.resolved_user w.accounts ≡ some a
      → a.provider ≡ local
      → is_text a.previous_email (normalize_email email) ≡ false
      → clashes r.resolved_user (taken_over env provider provider_id a) w.accounts ≡ false
      → is_empty r.resolved_user ≡ false
      → Distinct w.index
      → (w' : Worlds env) × (find_user_for_oauth env now email provider provider_id w
          ≡ some (w', some (r.resolved_user, taken_over env provider provider_id a)))
        × (lookup r.resolved_user w'.accounts ≡ some (taken_over env provider provider_id a))
  unfolding find_user_for_oauth by_email take_over can_oauth_take_over_local_account loaded
  find_user_for_oauth_takes_over now email provider provider_id w r a f g h l q c i d =
      let id = r.resolved_user in
      let taken = taken_over env provider provider_id a in
      let (index, s, d', at) = sync_identity_indexes-lookup env.digest id taken now w.index i d in
      (
        record w { accounts = insert id taken w.accounts; index = index },
        rw (f, find_user_for_oauth)
            (rw g (
              rw h (
                rw (q, by_email)
                  (rw (l, take_over)
                    (rw (save_account_ok id taken a w.accounts h c) (rw s refl)))))),
        lookup-insert_self id taken w.accounts,
      )

  same_or_missing_refl : (o : Option Text) → same_or_missing o o ≡ true
  same_or_missing_refl none = refl
  same_or_missing_refl (some t) = text_eq_refl t

  kept_avatar_of :
      (provider : AuthProvider) (p : OAuthProfile) (a : Account)
      → p.profile_photo ≡ none
      → chosen_avatar provider p a ≡ a.avatar
  unfolding chosen_avatar
  kept_avatar_of provider p a f = rw (f, chosen_avatar) refl

  kept_name_of :
      (provider : AuthProvider) (p : OAuthProfile) (a : Account)
      → shown_name provider p ≡ none
      → chosen_name provider p a ≡ a.display_name
  unfolding chosen_name
  kept_name_of provider p a n = rw (n, chosen_name) refl

  -- The provider's own account, when the profile brings no picture and no name.
  signed_in_as_found :
      (now : ℕ) (provider : AuthProvider) (p : OAuthProfile) (id : Text) (a : Account)
      (w : Worlds env)
      → same_provider provider local ≡ false
      → a.provider ≡ provider
      → p.profile_photo ≡ none
      → shown_name provider p ≡ none
      → sign_in_user env now provider p id a w ≡ (w, signed_in_as id a)
  unfolding sign_in_user oauth_provider_conflict
  signed_in_as_found now provider p id a w l e f n =
      let no_conflict : oauth_provider_conflict a provider ≡ none =
        rw (e, oauth_provider_conflict) (rw (l, same_provider_refl provider) refl) in
      rw (no_conflict, sign_in_user)
        (rw (kept_avatar_of provider p a f, kept_name_of provider p a n)
          (rw (same_or_missing_refl a.avatar, text_eq_refl a.display_name) refl))

  -- A local account that has a password and a verified email is taken over by whoever signs in
  -- through Google or GitHub under its email: given an email that resolves to the account of a user
  -- with an identifier that is not empty, an OAuth account that no one has yet, a profile with no
  -- picture and no name, an index with no key twice, and no clash, the answer is that user, and the
  -- user's account then belongs to the provider.
  pub sign_in_with_takes_over :
      (now : ℕ) (c : ℕ) (cs : Text) (provider : AuthProvider) (p : OAuthProfile) (fresh : Fresh)
      (w : Worlds env) (r : ResolvedEmailIdentity) (a : Account)
      → same_provider provider local ≡ false
      → p.profile_photo ≡ none
      → shown_name provider p ≡ none
      → find_user_id_by_oauth provider p.profile_id w.index ≡ none
      → resolve_email_identity env.digest now (normalize_email (c ∷ cs)) w.index ≡ some r
      → lookup r.resolved_user w.accounts ≡ some a
      → a.provider ≡ local
      → a.is_email_verified ≡ true
      → is_present a.password ≡ true
      → is_text a.previous_email (normalize_email (c ∷ cs)) ≡ false
      → clashes r.resolved_user (taken_over env provider p.profile_id a) w.accounts ≡ false
      → is_empty r.resolved_user ≡ false
      → Distinct w.index
      → let taken = taken_over env provider p.profile_id a in
        let (w', reply) = sign_in_with env now provider (some (c ∷ cs)) p fresh w in
        (reply ≡ signed_in_as r.resolved_user taken)
        × (lookup r.resolved_user w'.accounts ≡ some taken)
  unfolding sign_in_with taken_over
  sign_in_with_takes_over now c cs provider p fresh w r a o f n g h k l v s q u i d =
      let taken = taken_over env provider p.profile_id a in
      let (w1, e, stored) =
        find_user_for_oauth_takes_over now (c ∷ cs) provider p.profile_id w r a g h k l q u i d in
      rw (e, sign_in_with)
        (rw (signed_in_as_found now provider p r.resolved_user taken w1 o refl f n) (refl, stored))
