-- ===== src/Session/Eviction.antt =====
-- The order of a push and a pull in one rotation, when the row already holds five tokens.
use uam_backend.Prelude.{
  Text, List, Option, ◌≡◌, ℕ, ◌∷◌, lookup, length, some, false, true, ◌≢◌, ◌++◌, [], length-append,
  refl, arith, text_eq_iff, text_eq_refl, ◌∙◌,
}
use uam_backend.Session.{
  Outside, apply_update, rotate_session_tokens, rotation, Sessions, keep_last, Moment, UserRow,
  contains, max_refresh, rotate_update, rotate_find,
}
use uam_backend.Session.Rotation.{accepts, rotate_find-accepts, accepts_row, rotated-row}
use uam_backend.Session.Lists.{contains-without_ne, contains-append_false}

module _ (o : Outside) where
  open o use {redis, hash}

  contains-single : (x y : Text) → x ≢ y → contains x (y ∷ []) ≡ false
  unfolding contains
  contains-single x y n = ground (arith, text_eq_iff y x)

  evicted_tokens :
      (row : UserRow) (other old : Text) (rest : List Text) (access refresh : Text)
      → row.refresh_tokens ≡ other ∷ rest
      → length rest ≡ 4
      → contains other rest ≡ false
      → contains old rest ≡ true
      → other ≢ hash refresh
      → contains other (apply_update (rotation o old access refresh) row).refresh_tokens ≡ false
  unfolding apply_update rotation keep_last
  evicted_tokens row other old rest access refresh e n fresh has ne =
      let differ : old ≢ other = λ q. cc in
      let pushed : keep_last max_refresh (row.refresh_tokens ++ hash refresh ∷ [])
          ≡ rest ++ hash refresh ∷ [] =
        rw (e, length-append rest (hash refresh ∷ []), n) refl in
      rw (pushed, contains-without_ne old other (rest ++ hash refresh ∷ []) differ)
        (contains-append_false other rest (hash refresh ∷ []) fresh
          (contains-single other (hash refresh) ne))

  stored_five :
      (row : UserRow) (other old : Text) (rest : List Text)
      → row.refresh_tokens ≡ other ∷ rest
      → contains old rest ≡ true
      → (contains old row.refresh_tokens ≡ true) × (contains other row.refresh_tokens ≡ true)
  unfolding contains
  stored_five row other old rest e has = rw e (ground arith, ground (arith, text_eq_refl other))

  -- A user has five stored tokens, the oldest of which is not among the other four. Rotating one of
  -- those four, into a token with another digest than the oldest, makes the oldest one unaccepted,
  -- which was accepted before.
  pub rotate_session_tokens_evicts :
      (s : Sessions redis.State) (m : Moment) (user_id other old access refresh : Text)
      (v : Option ℕ) (row : UserRow) (rest : List Text)
      → lookup user_id s.users ≡ some row
      → row.refresh_tokens ≡ hash other ∷ rest
      → length rest ≡ 4
      → contains (hash other) rest ≡ false
      → contains (hash old) rest ≡ true
      → hash other ≢ hash refresh
      → (accepts o s user_id other ≡ true)
        × (accepts o (rotate_session_tokens o s m user_id old access refresh v).0 user_id other
            ≡ false)
  unfolding rotate_session_tokens
  rotate_session_tokens_evicts s m user_id other old access refresh v row rest found e n fresh has
        ne =
      let (known, stored) = stored_five row (hash other) (hash old) rest e has in
      let s' = (rotate_update o s m user_id (some (hash old)) access refresh v).0 in
      let at_find : rotate_find o s user_id old ≡ some (hash old) =
        rw (rotate_find-accepts o s user_id old, accepts_row o s user_id old row found, known)
          refl in
      rw at_find (
        accepts_row o s user_id other row found ∙ stored,
        accepts_row o s' user_id other _
              (rotated-row o s m user_id (hash old) access refresh v row found)
            ∙ evicted_tokens row (hash other) (hash old) rest access refresh e n fresh has ne,
      )
