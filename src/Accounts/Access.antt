-- ===== src/Accounts/Access.antt =====
-- Who gets a session by signing in with a password.
use uam_backend.Prelude.{
  none, some, Text, ◌≡◌, true, arith, Option, List, Bool, if◌then◌else◌, to_lower, not, lookup,
  Option-cases, refl, inl, ◌&&◌, inr, false,
}
use uam_backend.Accounts.World.{Env, Fresh, Reply, save_account, is_text}
use uam_backend.Accounts.Login.{
  Credentials, check_password, check_local, save_and_sync, Worlds, login_failed, check_pending,
  login, moved_account, is_true, check_verified, finish_login, open_session,
}
use uam_backend.Account.{Account, local}
use uam_backend.Session.{Moment}
use uam_backend.Accounts.Passwords.{verify_password, compare_password, has_text}
use uam_backend.Identity.Service.{
  ResolvedEmailIdentity, resolve_email_identity, sync_identity_indexes,
}
use uam_backend.Identity.Table.{IndexTable}

-- What a sign-in with status 200 shows of an account.
abbrev pub IsEntitled : Env → Credentials → Account → Type 0
IsEntitled env req a =
    (a.provider ≡ local)
    × ((verify_password env.hashing req.login_password a.password).is_match ≡ true)

module _ (env : Env) (req : Credentials) (m : Moment) (fresh : Fresh) where
  check_password-IsEntitled :
      (id : Text) (a : Account) (w : Worlds env)
      → (check_password env req m fresh id a w).1.status ≡ 200
      → (verify_password env.hashing req.login_password a.password).is_match ≡ true
  unfolding check_password compare_password
  check_password-IsEntitled id a w h = ground arith

  check_local-IsEntitled :
      (id : Text) (a : Account) (w : Worlds env)
      → (check_local env req m fresh id a w).1.status ≡ 200
      → IsEntitled env req a
  unfolding check_local
  check_local-IsEntitled id a w h = ground (arith, check_password-IsEntitled id a w)

  synced-status :
      (id : Text) (a : Account) (w : Worlds env) (next : Worlds env → Worlds env × Reply)
      (saved : Option (List (Text × Account))) (synced : Option IndexTable)
      → save_account id a w.accounts ≡ saved
      → sync_identity_indexes env.digest id a m.now w.index ≡ synced
      → (save_and_sync env m.now id a w login_failed next).1.status ≡ 200
      → (w' : Worlds env) × ((next w').1.status ≡ 200)
  unfolding save_and_sync
  synced-status id a w next none synced e f h =
      let r : 500 ≡ 200 = rw (e, save_and_sync) at h in ground (arith, r)
  synced-status id a w next (some accounts) none e f h =
      let r : 500 ≡ 200 = rw f at (rw (e, save_and_sync) at h) in ground (arith, r)
  synced-status id a w next (some accounts) (some index) e f h =
      (record w { accounts = accounts; index = index }, rw f at (rw (e, save_and_sync) at h))

  check_pending-IsEntitled :
      (id : Text) (a : Account) (w : Worlds env)
      → (check_pending env req m fresh id a w).1.status ≡ 200
      → IsEntitled env req a
  unfolding check_pending moved_account
  check_pending-IsEntitled id a w h =
      let lower_email = to_lower req.login_email in
      let moved = moved_account m.now lower_email a in
      let next = check_local env req m fresh id moved in
      by-cases (is_text a.new_email_pending lower_email)
        (is_true a.current_email_verified && is_true a.new_email_verified) (has_text lower_email)
        (check_local env req m fresh id a w) _ _
        (save_and_sync env m.now id moved w login_failed next) refl refl h
        (check_local-IsEntitled id a w)
        (λ k.
          let (w', k') = synced-status id moved w next _ _ refl refl k in
          check_local-IsEntitled id moved w' k')
    where
      by-cases :
          (b c d : Bool) (r1 r2 r3 r4 : Worlds env × Reply)
          → r2.1.status ≡ 403
          → r3.1.status ≡ 500
          → (if not b then r1 else if not c then r2 else if not d then r3 else r4).1.status ≡ 200
          → (r1.1.status ≡ 200 → IsEntitled env req a)
          → (r4.1.status ≡ 200 → IsEntitled env req a)
          → IsEntitled env req a
      by-cases false c d r1 r2 r3 r4 e f h k l = k h
      by-cases true false d r1 r2 r3 r4 e f h k l = ground (arith, e, h)
      by-cases true true false r1 r2 r3 r4 e f h k l = ground (arith, f, h)
      by-cases true true true r1 r2 r3 r4 e f h k l = l h

  found-IsEntitled :
      (w : Worlds env) (resolved : Option ResolvedEmailIdentity)
      → resolve_email_identity env.digest m.now (to_lower req.login_email) w.index ≡ resolved
      → (login env req m fresh w).1.status ≡ 200
      → (r : ResolvedEmailIdentity) × (a : Account) × (resolved ≡ some r)
        × (lookup r.resolved_user w.accounts ≡ some a)
        × IsEntitled env req a
  unfolding login
  found-IsEntitled w none e h = let k : 401 ≡ 200 = rw (e, login) at h in ground (arith, k)
  found-IsEntitled w (some r) e h = elim (Option-cases (lookup r.resolved_user w.accounts)) [
    | inl f ↦ let k : 401 ≡ 200 = rw f at (rw (e, login) at h) in ground (arith, k)
    | inr (a, f) ↦
        (r, a, refl, f, check_pending-IsEntitled r.resolved_user a w (rw f at (rw (e, login) at h)))
  ]

-- A sign-in that is answered with status 200 was for an email that the identity index resolves to
-- the user of a local account whose stored password the given one matches; also where the sign-in
-- finalised a migration on the way.
pub login-IsEntitled :
    (env : Env) (req : Credentials) (m : Moment) (fresh : Fresh) (w : Worlds env)
    → (login env req m fresh w).1.status ≡ 200
    → (r : ResolvedEmailIdentity) × (a : Account) × (resolve_email_identity env.digest m.now
          (to_lower req.login_email)
          w.index
        ≡ some r)
      × (lookup r.resolved_user w.accounts ≡ some a)
      × IsEntitled env req a
login-IsEntitled env req m fresh w h = found-IsEntitled env req m fresh w _ refl h

module _ (env : Env) (req : Credentials) (m : Moment) (fresh : Fresh) where
  check_local-accounts :
      (id : Text) (a : Account) (w : Worlds env)
      → (verify_password env.hashing req.login_password a.password).needs_rehash ≡ false
      → (check_local env req m fresh id a w).0.accounts ≡ w.accounts
  unfolding check_local check_password check_verified finish_login open_session
  check_local-accounts id a w n = ground (arith, n)

  -- A sign-in records nothing in the account: for an email that resolves to an account with no
  -- pending migration to it, and whose password needs no new hash, every account is after the
  -- sign-in as it was before, whatever the answer.
  pub login-accounts :
      (w : Worlds env) (r : ResolvedEmailIdentity) (a : Account)
      → resolve_email_identity env.digest m.now (to_lower req.login_email) w.index ≡ some r
      → lookup r.resolved_user w.accounts ≡ some a
      → is_text a.new_email_pending (to_lower req.login_email) ≡ false
      → (verify_password env.hashing req.login_password a.password).needs_rehash ≡ false
      → (login env req m fresh w).0.accounts ≡ w.accounts
  unfolding login check_pending
  login-accounts w r a e f p n =
      rw (e, login) (rw f (rw (p, check_pending) (check_local-accounts r.resolved_user a w n)))
