-- ===== src/Accounts/Passwords.antt =====
-- Password hashing (src/utils/password.util.ts) and User.comparePassword of src/db/User.ts. bcrypt
-- and HMAC-SHA256 are parameters, and so are the pepper and each new salt.
use uam_backend.Prelude.{
  none, Text, Bool, if◌then◌else◌, Option, ℕ, false, true, some, ◌&&◌, ◌≡◌, ◌∷◌, [], arith, refl,
  Bool-cases,
}
use uam_backend.Account.{non_empty}

pub record Hashing : Type 0 where
  pub compare : Text → Text → Bool
  pub hash_with : Text → Text → Text
  pub hmac : Text → Text → Text
  pub pepper : Text

pub record VerifyResult : Type 0 where
  pub is_match : Bool
  pub needs_rehash : Bool

abbrev pub has_text : Text → Bool
has_text [] = false
has_text (c ∷ cs) = true

module _ (h : Hashing) where
  unfoldable pub material : Text → Text
  material password = if has_text h.pepper then h.hmac h.pepper password else password

  unfoldable pub hash_password : Text → Text → Text
  hash_password salt password = h.hash_with salt (material password)

  unfoldable pub verify_hash : Text → Text → VerifyResult
  verify_hash candidate stored =
      if h.compare (material candidate) stored
      then record { is_match = true; needs_rehash = false }
      else if has_text h.pepper && h.compare candidate stored
      then record { is_match = true; needs_rehash = true }
      else record { is_match = false; needs_rehash = false }

  unfoldable pub verify_password : Text → Option Text → VerifyResult
  verify_password candidate stored = elim (non_empty stored) [
    | none ↦ record { is_match = false; needs_rehash = false }
    | some hash ↦ verify_hash candidate hash
  ]

  -- What a save writes for a password that was assigned in plain text.
  unfoldable pub stored_password : Text → Text → Option Text
  stored_password salt [] = some []
  stored_password salt (c ∷ cs) = some (hash_password salt (c ∷ cs))

  -- Whether the candidate matches, and the password that the row holds afterwards.
  unfoldable pub compare_password : Text → Text → Option Text → Bool × Option Text
  compare_password salt candidate stored =
      let r = verify_password candidate stored in
      (r.is_match, if r.is_match && r.needs_rehash then stored_password salt candidate else stored)

  verify_password-has_text :
      (candidate stored : Text)
      → has_text stored ≡ true
      → verify_password candidate (some stored) ≡ verify_hash candidate stored
  unfolding verify_password
  verify_password-has_text candidate [] f = cc
  verify_password-has_text candidate (c ∷ cs) f = refl

  -- Whatever bcrypt's salts are: if bcrypt accepts what it hashed and makes no empty hash, then a
  -- password that was stored under the pepper is accepted and stays as stored, and one that was
  -- stored in the old way, without the pepper, is accepted too and is then stored so that it is
  -- accepted without another rehash. The password is not empty.
  pub compare_password-stored :
      (salt salt' : Text) (c : ℕ) (cs : Text)
      → ((s m : Text) → h.compare m (h.hash_with s m) ≡ true)
      → ((s m : Text) → has_text (h.hash_with s m) ≡ true)
      → let password = c ∷ cs in
        (compare_password salt' password (stored_password salt password)
          ≡ (true, stored_password salt password))
        × ((compare_password salt' password (some (h.hash_with salt password))).0 ≡ true)
        × (verify_password password
              (compare_password salt' password (some (h.hash_with salt password))).1
            ≡ record { is_match = true; needs_rehash = false })
  unfolding compare_password verify_hash stored_password hash_password material
  compare_password-stored salt salt' c cs accepted full =
      let p = c ∷ cs in
      let old = h.hash_with salt p in
      (
        rw
            (
              verify_password-has_text p (hash_password salt p) (full salt (material p)),
              compare_password,
            )
            (rw (accepted salt (material p), verify_hash) refl),
        ground (
          arith,
          verify_password-has_text p old (full salt p),
          accepted salt p,
          Bool-cases (h.compare (material p) old),
        ),
        ground (
          arith,
          verify_password-has_text p old (full salt p),
          accepted salt p,
          accepted salt' (material p),
          Bool-cases (h.compare (material p) old),
          verify_password-has_text p (hash_password salt' p) (full salt' (material p)),
        ),
      )
