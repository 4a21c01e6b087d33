-- ===== src/Accounts/Saving.antt =====
-- Saving a document of the users table (save of src/db/User.ts) where nothing clashes.
use uam_backend.Prelude.{some, false, Text, List, ◌≡◌, lookup, insert, refl}
use uam_backend.Account.{Account}
use uam_backend.Accounts.World.{save_account, clashes}

pub save_account_ok :
    (id : Text) (a old : Account) (accounts : List (Text × Account))
    → lookup id accounts ≡ some old
    → clashes id a accounts ≡ false
    → save_account id a accounts ≡ some (insert id a accounts)
unfolding save_account
save_account_ok id a old accounts e n = rw (e, save_account) (rw n refl)
