-- ===== src/Users/Projection.antt =====
-- Which projections select a secret column.
use uam_backend.Prelude.{
  Text, Bool, List, starts_with, ◌∷◌, ◌≡◌, text_eq, ◌&&◌, true, [], ◌||◌, not, arith, text_eq_iff,
  refl, text, false, Option, some, none,
}
use uam_backend.Session.{contains}
use uam_backend.Users.Writes.{contains-add_all}
use uam_backend.Users.Documents.{
  default_fields, inclusion, is_sensitive, words, additive, choose_fields, all_fields,
  resolve_fields,
}

contains-default_fields :
    (f : Text) (fs : List Text)
    → contains f (default_fields fs) ≡ (contains f fs && not (is_sensitive f))
unfolding contains default_fields
contains-default_fields f [] = refl
contains-default_fields f (g ∷ fs) = ground (arith, text_eq_iff g f, contains-default_fields f fs)

contains-inclusion :
    (f : Text) (ts : List Text) → contains f (inclusion ts) ≡ true → contains f ts ≡ true
unfolding contains inclusion
contains-inclusion f [] h = h
contains-inclusion f (t ∷ ts) h = ground (arith, contains-inclusion f ts)

contains-additive :
    (f : Text) (ts : List Text)
    → inclusion ts ≡ []
    → contains f (additive ts) ≡ true
    → contains (b'+' ∷ f) ts ≡ true
unfolding contains inclusion starts_with text_eq
contains-additive f [] e h = h
contains-additive f ([] ∷ ts) e h = ground arith
contains-additive f ((c ∷ cs) ∷ ts) e h = ground (arith, contains-additive f ts)

-- A projection names a field when one of its words is the field, with or without a plus in front.
abbrev pub names_field : Text → Text → Bool
names_field spec f = contains (b'+' ∷ f) (words spec) || contains f (words spec)

id_not_sensitive : (f : Text) → is_sensitive f ≡ true → contains f (text "id" ∷ []) ≡ false
unfolding contains is_sensitive text_eq
id_not_sensitive f s = ground (
  arith,
  text_eq_iff (text "id") f,
  text_eq_iff f (text "password"),
  text_eq_iff f (text "refreshTokens"),
  text_eq_iff f (text "activeAccessJtis"),
)

choose_fields-names :
    (f : Text) (tokens chosen : List Text)
    → is_sensitive f ≡ true
    → inclusion tokens ≡ chosen
    → contains f (choose_fields chosen tokens) ≡ true
    → (contains (b'+' ∷ f) tokens || contains f tokens) ≡ true
unfolding contains is_sensitive
choose_fields-names f tokens [] s e h = ground (
  arith,
  contains-add_all f (additive tokens) (default_fields all_fields),
  contains-default_fields f all_fields,
  contains-additive f tokens e,
)
choose_fields-names f tokens (t ∷ ts) s e h =
    let named : contains f (inclusion tokens) ≡ true =
      rw e (ground (arith, contains-add_all f (t ∷ ts) (text "id" ∷ []), id_not_sensitive f s)) in
    ground (arith, contains-inclusion f tokens named)

-- A secret column (the password, the refresh tokens or the tracked access tokens) is selected only
-- by a projection that names it.
pub resolve_fields-is_sensitive :
    (projection : Option Text) (f : Text)
    → is_sensitive f ≡ true
    → contains f (resolve_fields projection) ≡ true
    → (spec : Text) × (projection ≡ some spec) × (names_field spec f ≡ true)
unfolding resolve_fields
resolve_fields-is_sensitive none f s h = ground (arith, contains-default_fields f all_fields)
resolve_fields-is_sensitive (some []) f s h = ground (arith, contains-default_fields f all_fields)
resolve_fields-is_sensitive (some (c ∷ cs)) f s h =
    let tokens = words (c ∷ cs) in
    (c ∷ cs, refl, choose_fields-names f tokens (inclusion tokens) s refl h)
